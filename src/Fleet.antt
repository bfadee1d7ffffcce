-- ===== src/Fleet.antt =====
-- The data of include/data: Point.h, SubTask.h, Task.h and Amr.h.
pub mod Endpoints
pub mod Queue
pub mod Policy
mod Tests
use agvscheduling.Prelude.{
  ℕ, zero, suc, Bool, true, false, not, ◌&&◌, ◌||◌, ℤ, pos, negsuc, minus_one, ℤ_discrete,
  is_negative, ltb_ℤ, leb_ℤ, String, List, [], ◌∷◌, ◌++◌, ite, if◌then◌else◌, string_discrete,
  length, ◌==◌, Double,
}

pub record Point : Type 0 where
  pub x : ℤ
  pub y : ℤ
  pub angle : ℤ
  pub node_id : ℤ
  pub point_type : ℤ

pub record SubTask : Type 0 where
  pub sequence : ℤ
  pub point_type : ℤ
  pub location : String
  pub point : Point
  pub estimated_duration_ms : ℤ
  pub path_constraints : List String
  pub max_speed : ℤ
  pub sub_task_id : String

pub record Task : Type 0 where
  pub priority : ℤ
  pub task_type : ℤ
  pub expected_completion_time : ℤ
  pub message_id : String
  pub device_ids : List String
  pub timeout : ℤ
  pub sub_tasks : List SubTask
  pub load : Bool
  pub map_id : ℤ
  pub min_battery_level : ℤ
  pub expected_start_time_iso : String
  pub expected_completion_time_iso : String
  pub create_timestamp_iso : String

abbrev pub default_task : Task
default_task = record {
  priority = pos 0;
  task_type = minus_one;
  expected_completion_time = pos 0;
  message_id = "";
  device_ids = [];
  timeout = pos 0;
  sub_tasks = [];
  load = false;
  map_id = pos 0;
  min_battery_level = pos 0;
  expected_start_time_iso = "";
  expected_completion_time_iso = "";
  create_timestamp_iso = "";
}

-- `subs.front().getPoint().getNodeId()`, and -1 where there is none.
abbrev pub front_node : List SubTask → ℤ
front_node [] = minus_one
front_node (s ∷ subs) = s.point.node_id

-- The loop of `getStartId`: the first node id that is not negative, else `last`.
pub first_valid_node : List SubTask → ℤ → ℤ
first_valid_node [] last = last
first_valid_node (s ∷ subs) last =
    if is_negative s.point.node_id then first_valid_node subs last else s.point.node_id

pub get_start_id : Task → ℤ
unfolding first_valid_node
get_start_id task = first_valid_node task.sub_tasks (front_node task.sub_tasks)

-- The loop of `getEndId`, from the back.
pub last_valid_node : List SubTask → ℤ → ℤ
last_valid_node [] last = last
last_valid_node (s ∷ subs) last =
    last_valid_node subs (if is_negative s.point.node_id then last else s.point.node_id)

pub get_end_id : Task → ℤ
unfolding last_valid_node
get_end_id task = last_valid_node task.sub_tasks (front_node task.sub_tasks)

-- `std::max(0, std::min(100, v))`
pub clamp_percent : ℤ → ℤ
clamp_percent v =
    let low = if ltb_ℤ v (pos 100) then v else pos 100 in if ltb_ℤ (pos 0) low then low else pos 0

pub set_min_battery_level : Task → ℤ → Task
unfolding clamp_percent
set_min_battery_level task v = record task { min_battery_level = clamp_percent v }

pub record Amr (W : Type 0) : Type 0 where
  pub task_queue : List Task
  pub current_task_progress : W
  pub priority_threshold : ℤ
  pub task_id : String
  pub task_progress_percent : ℤ
  pub task_status : ℤ
  pub dis_threshold_mm : ℤ
  pub max_time_ahead_ms : ℤ
  pub max_detour_distance_mm : ℤ
  pub next_destination_point : Point
  pub cur_trail_points : List Point
  pub cur_area : String
  pub x : ℤ
  pub y : ℤ
  pub angle : ℤ
  pub device_id : String
  pub device_type : ℤ
  pub map_id : ℤ
  pub device_height : ℤ
  pub device_width : ℤ
  pub device_length : ℤ
  pub connection : Bool
  pub update_time : ℤ
  pub error_code : ℤ
  pub speed : ℤ
  pub battery_level : ℤ
  pub endurance : ℤ
  pub load : Bool
  pub max_linear_velocity : ℤ
  pub linear_acceleration : ℤ
  pub linear_deceleration : ℤ
  pub current_node_id : ℤ
  pub estimated_duration_sec : W
  pub battery_upper_limit_pct : W
  pub battery_lower_limit_pct : W

-- AmrStatus
abbrev pub status_idle : ℤ
status_idle = pos 0

abbrev pub status_working : ℤ
status_working = pos 1

abbrev pub status_finished : ℤ
status_finished = pos 2

abbrev pub status_failed : ℤ
status_failed = pos 3

abbrev pub status_not_executed : ℤ
status_not_executed = pos 4

abbrev pub status_paused : ℤ
status_paused = pos 5

abbrev pub status_rejected : ℤ
status_rejected = pos 10

abbrev pub is_int : ℤ → ℤ → Bool
is_int a b = ite (ℤ_discrete a b) true false

abbrev pub is_blank : String → Bool
is_blank s = ite (string_discrete s "") true false

abbrev pub front_message_id : List Task → String
front_message_id [] = ""
front_message_id (task ∷ rest) = task.message_id

module _ {W : Type 0} where
  pub is_idle : Amr W → Bool
  is_idle a =
      is_blank a.task_id
      && (is_int a.task_status status_idle || is_int a.task_status status_finished)

  pub is_working : Amr W → Bool
  is_working a = is_int a.task_status status_working

  pub is_moving : Amr W → Bool
  is_moving a = is_int a.task_status status_working

  pub is_rejecting_tasks : Amr W → Bool
  is_rejecting_tasks a = is_int a.task_status status_rejected

  pub is_unavailable : Amr W → Bool
  is_unavailable a =
      is_int a.task_status status_failed
      || is_int a.task_status status_not_executed
      || is_int a.task_status status_paused
      || is_int a.task_status status_rejected

  pub set_battery_level : Amr W → ℤ → Amr W
  unfolding clamp_percent
  set_battery_level a v = record a { battery_level = clamp_percent v }

  -- A task below the threshold is dropped; the first task of a queue becomes the current one.
  pub add_task : Amr W → Task → Amr W
  add_task a task =
      if leb_ℤ a.priority_threshold task.priority
      then (let queue = a.task_queue ++ task ∷ [] in
          record a {
            task_queue = queue;
            task_id = if length queue == 1 then task.message_id else a.task_id;
          })
      else a

  pub get_current_task : Amr W → Task
  get_current_task a = elim a.task_queue [ [] ↦ default_task | task ∷ _ ↦ task ]

  -- `nought` is the progress 0.0.
  module _ (nought : W) where
    pub complete_current_task : Amr W → Amr W × Task
    complete_current_task a = elim a.task_queue [
      | [] ↦ (a, default_task)
      | task ∷ rest ↦ (
        record a {
          task_queue = rest;
          current_task_progress = nought;
          task_progress_percent = pos 0;
          task_id = front_message_id rest;
        },
        task,
      )
    ]

    pub clear_task_queue : Amr W → Amr W
    clear_task_queue a = record a {
      task_queue = [];
      current_task_progress = nought;
      task_progress_percent = pos 0;
      task_id = "";
    }

  pub steal_all_queued_tasks : Amr W → Amr W × List Task
  steal_all_queued_tasks a = (record a { task_queue = [] }, a.task_queue)

  pub steal_queued_tasks_except_first : Amr W → Amr W × List Task
  steal_queued_tasks_except_first a = elim a.task_queue [
    | [] ↦ (a, [])
    | keep ∷ rest ↦ (record a { task_queue = keep ∷ [] }, rest)
  ]

-- The setters that keep the two forms of the progress in step, and those that clamp. `truncated` is
-- the conversion of a `double` to an `int`.
module _ {W : Type 0} ⦃d : Double W⦄ where
  abbrev pub clamped : W → W → W
  clamped top v =
      let low = if d.lt v top then v else top in if d.lt d.nought low then low else d.nought

  pub set_current_task_progress : (W → ℤ) → Amr W → W → Amr W
  set_current_task_progress truncated a progress =
      let now = clamped (d.of_int (pos 1)) progress in
      record a {
        current_task_progress = now;
        task_progress_percent = truncated (d.mul now (d.of_int (pos 100)));
      }

  pub set_task_progress_percent : Amr W → ℤ → Amr W
  unfolding clamp_percent
  set_task_progress_percent a progress = record a {
    task_progress_percent = clamp_percent progress;
    current_task_progress = d.div (d.of_int (clamp_percent progress)) (d.of_int (pos 100));
  }

  abbrev pub limit_percent : W → W
  limit_percent v =
      let low = if d.lt v d.nought then d.nought else v in
      if d.lt (d.of_int (pos 100)) low then d.of_int (pos 100) else low

  pub set_battery_upper_limit_pct : Amr W → W → Amr W
  set_battery_upper_limit_pct a v = record a { battery_upper_limit_pct = limit_percent v }

  pub set_battery_lower_limit_pct : Amr W → W → Amr W
  set_battery_lower_limit_pct a v = record a { battery_lower_limit_pct = limit_percent v }
