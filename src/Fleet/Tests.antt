-- ===== src/Fleet/Tests.antt =====
-- An AMR with two tasks, and the calls of its queue.
use agvscheduling.Prelude.{
  ℕ, ◌≡◌, refl, true, false, ℤ, pos, minus_one, ℤ_discrete, List, [], ◌∷◌, find, string_discrete,
  Bool-cases, ◌-ℤ◌,
}
use agvscheduling.Fleet.{SubTask, Task, default_task, Amr, get_start_id}
use agvscheduling.Fleet.Queue.{
  Call, adds, completes, steals_all, run, NamesCurrent, run-NamesCurrent,
}
use agvscheduling.Fleet.Endpoints.{
  valid_nodes, collect_task_nodes, ends, resolve_endpoints, extract_task_endpoints,
  collect_task_nodes_lem, resolve_endpoints-collect_task_nodes,
  extract_task_endpoints-resolve_endpoints,
}
use agvscheduling.Fleet.Policy.{
  should_plan, select_available_amrs, select_available_amrs-should_plan,
}

abbrev at_node : ℤ → SubTask
at_node n = record {
  sequence = pos 0;
  point_type = pos 0;
  location = "";
  point = record { x = pos 0; y = pos 0; angle = pos 0; node_id = n; point_type = pos 0 };
  estimated_duration_ms = pos 0;
  path_constraints = [];
  max_speed = pos 0;
  sub_task_id = "";
}

abbrev delivery : Task
delivery = record default_task {
  message_id = "m1";
  sub_tasks = at_node (pos 4) ∷ at_node (pos 7) ∷ [];
}

abbrev urgent : Task
urgent = record default_task {
  message_id = "m2";
  priority = pos 12;
  sub_tasks = at_node minus_one ∷ at_node (pos 9) ∷ [];
}

abbrev robot : Amr ℕ
robot = record {
  task_queue = [];
  current_task_progress = 0;
  priority_threshold = pos 0;
  task_id = "";
  task_progress_percent = pos 0;
  task_status = pos 1;
  dis_threshold_mm = pos 100;
  max_time_ahead_ms = pos 0;
  max_detour_distance_mm = pos 0;
  next_destination_point = record {
    x = pos 0;
    y = pos 0;
    angle = pos 0;
    node_id = minus_one;
    point_type = pos 0;
  };
  cur_trail_points = [];
  cur_area = "";
  x = pos 50;
  y = pos 20;
  angle = pos 0;
  device_id = "r1";
  device_type = pos 0;
  map_id = pos 0;
  device_height = pos 0;
  device_width = pos 0;
  device_length = pos 0;
  connection = true;
  update_time = pos 0;
  error_code = pos 0;
  speed = pos 0;
  battery_level = pos 80;
  endurance = pos 0;
  load = false;
  max_linear_velocity = pos 0;
  linear_acceleration = pos 0;
  linear_deceleration = pos 0;
  current_node_id = pos 3;
  estimated_duration_sec = 0;
  battery_upper_limit_pct = 90;
  battery_lower_limit_pct = 20;
}

abbrev calls : List Call
calls = adds delivery ∷ adds urgent ∷ completes ∷ steals_all ∷ adds delivery ∷ []

run-NamesCurrent_example : NamesCurrent (run 0 robot calls)
run-NamesCurrent_example = run-NamesCurrent 0 robot calls tt

collect_task_nodes_example : collect_task_nodes urgent ≡ valid_nodes urgent.sub_tasks
collect_task_nodes_example = collect_task_nodes_lem urgent

resolve_endpoints_example : resolve_endpoints urgent ≡ ends (collect_task_nodes urgent)
resolve_endpoints_example = resolve_endpoints-collect_task_nodes urgent

extract_task_endpoints_example :
    extract_task_endpoints delivery
    ≡ ((resolve_endpoints delivery).start, (resolve_endpoints delivery).stop)
extract_task_endpoints_example =
    extract_task_endpoints-resolve_endpoints delivery (refl, (refl, tt))

-- `ExtractTaskEndpoints` does not skip a node that is not set.
endpoints_differ :
    (extract_task_endpoints urgent ≡ (minus_one, pos 9))
    × ((resolve_endpoints urgent).start ≡ pos 9)
unfolding extract_task_endpoints resolve_endpoints
endpoints_differ = (refl, refl)

-- An emergency, but the only robot works nearer than its threshold.
near_robot_stays :
    select_available_amrs (robot ∷ []) (urgent ∷ []) ((pos 9, (pos 0, pos 0)) ∷ []) ≡ []
unfolding select_available_amrs string_discrete Bool-cases ℤ_discrete find get_start_id ◌-ℤ◌
near_robot_stays = refl

nothing_planned : should_plan (robot ∷ []) (delivery ∷ []) ≡ false
unfolding should_plan string_discrete Bool-cases ℤ_discrete
nothing_planned = refl

select_available_amrs-should_plan_example :
    select_available_amrs (robot ∷ []) (delivery ∷ []) [] ≡ []
select_available_amrs-should_plan_example =
    select_available_amrs-should_plan (robot ∷ []) (delivery ∷ []) [] nothing_planned
