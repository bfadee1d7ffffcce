-- ===== src/Reach/Tests.antt =====
-- A task with one node and a task without any, and no AMR named.
use agvscheduling.Prelude.{
  ℕ, ◌≡◌, refl, false, ℤ, pos, minus_one, ℤ_discrete, [], ◌∷◌, Option, none, some,
}
use agvscheduling.Extended.{extended}
use agvscheduling.Fleet.{Task, default_task}
use agvscheduling.Fleet.Endpoints.{collect_task_nodes}
use agvscheduling.MapInfo.{MapInfo}
use agvscheduling.Reach.{FilterResult, no_nodes, filter_tasks_by_reachability}
use agvscheduling.Reach.Filter.{IsSplit, filter_tasks_by_reachability-IsSplit}

abbrev blank : MapInfo (Option ℕ)
blank = record {
  nodes = [];
  id2index = [];
  pre_node = [];
  aft_node = [];
  edges = [];
  edge_index = [];
  areas = [];
  reach_analyzer = none;
  global_max_speed = some 1000;
  amr_type_num = pos 1;
}

abbrev stay : Task
stay = record default_task {
  sub_tasks =
      record {
        sequence = pos 0;
        point_type = pos 0;
        location = "";
        point = record { x = pos 0; y = pos 0; angle = pos 0; node_id = pos 4; point_type = pos 0 };
        estimated_duration_ms = pos 0;
        path_constraints = [];
        max_speed = pos 0;
        sub_task_id = "";
      }
      ∷ [];
}

abbrev no_query : ℤ → ℤ → ℤ → Option ℕ
no_query from_node to_node kind = none

abbrev split : FilterResult
split = record {
  filtered_tasks = stay ∷ [];
  filtered_to_original = pos 1 ∷ [];
  original_to_filtered = minus_one ∷ pos 0 ∷ [];
  forced_task_indices = pos 0 ∷ [];
  forced_reasons = some no_nodes ∷ none ∷ [];
}

filtered :
    filter_tasks_by_reachability blank false no_query (default_task ∷ stay ∷ []) [] ≡ some split
unfolding filter_tasks_by_reachability collect_task_nodes ℤ_discrete
filtered = refl

filter_tasks_by_reachability-IsSplit_example : IsSplit (default_task ∷ stay ∷ []) 2 split
filter_tasks_by_reachability-IsSplit_example =
    filter_tasks_by_reachability-IsSplit blank false no_query [] (default_task ∷ stay ∷ []) split
      filtered
