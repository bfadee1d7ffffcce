-- ===== src/Samples.antt =====
-- An AMR and a task for the examples, with numbers that compute.
use agvscheduling.Prelude.{ℕ, false, ℤ, pos, [], ◌∷◌, Option, some}
use agvscheduling.Fleet.{Amr, Task, SubTask, Point, default_task}

abbrev pub nowhere : Point
nowhere = record { x = pos 0; y = pos 0; angle = pos 0; node_id = pos 0; point_type = pos 0 }

abbrev pub sample_amr : Amr (Option ℕ)
sample_amr = record {
  task_queue = [];
  current_task_progress = some 0;
  priority_threshold = pos 0;
  task_id = "";
  task_progress_percent = pos 0;
  task_status = pos 0;
  dis_threshold_mm = pos 0;
  max_time_ahead_ms = pos 0;
  max_detour_distance_mm = pos 0;
  next_destination_point = nowhere;
  cur_trail_points = [];
  cur_area = "";
  x = pos 0;
  y = pos 0;
  angle = pos 0;
  device_id = "";
  device_type = pos 0;
  map_id = pos 0;
  device_height = pos 0;
  device_width = pos 0;
  device_length = pos 0;
  connection = false;
  update_time = pos 0;
  error_code = pos 0;
  speed = pos 0;
  battery_level = pos 0;
  endurance = pos 0;
  load = false;
  max_linear_velocity = pos 0;
  linear_acceleration = pos 0;
  linear_deceleration = pos 0;
  current_node_id = pos 0;
  estimated_duration_sec = some 0;
  battery_upper_limit_pct = some 0;
  battery_lower_limit_pct = some 0;
}

abbrev sub_task_at : ℤ → SubTask
sub_task_at n = record {
  sequence = pos 0;
  point_type = pos 0;
  location = "";
  point = record nowhere { node_id = n };
  estimated_duration_ms = pos 0;
  path_constraints = [];
  max_speed = pos 0;
  sub_task_id = "";
}

abbrev pub task_between : ℤ → ℤ → Task
task_between start stop = record default_task {
  sub_tasks = sub_task_at start ∷ sub_task_at stop ∷ [];
}
