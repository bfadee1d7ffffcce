-- ===== src/Sanitize/Tests.antt =====
-- Two AMRs, of which the first stands where no way leads to its task.
use agvscheduling.Prelude.{
  elem, ℕ, ◌≡◌, refl, false, ℤ, pos, ℤ_discrete, ℕ_discrete, String, List, [], ◌∷◌, Option, none,
  some, arith, length, find,
}
use agvscheduling.Extended.{extended}
use agvscheduling.Samples.{sample_amr, task_between}
use agvscheduling.UnionFind.{is_connected, find_root, climb}
use agvscheduling.Fleet.{Amr, Task}
use agvscheduling.Fleet.Endpoints.{extract_task_endpoints}
use agvscheduling.MapInfo.{Node, MapInfo, get_node, get_node_by_id, is_connected_by_id}
use agvscheduling.Reach.{resolve_start_node_id}
use agvscheduling.Allocation.{AllocationResult, chains_of}
use agvscheduling.Allocator.Repair.Complete.{is_assigned}
use agvscheduling.Cost.{SparseCost, sparse_reset}
use agvscheduling.Allocator.Repair.Cover.{IsKept}
use agvscheduling.Allocator.Repair.{padded}
use agvscheduling.Sanitize.{
  Start, reinsert_removed, check_chains, start_nodes, sanitized, sanitize_allocation_result,
}
use agvscheduling.Sanitize.Insertion.{AreDrivable}
use agvscheduling.Sanitize.Reachable.{sanitize_allocation_result-AreDrivable}
use agvscheduling.Sanitize.Cover.{sanitize_allocation_result-IsKept}

abbrev node_at : ℤ → ℕ → Node (Option ℕ)
node_at id place = record {
  id = id;
  index = 0;
  node_type = pos 1;
  x = some place;
  y = some 0;
  allow_pass = pos 1;
  allow_rot = pos 1;
  allow_pass_amr_type_list = [];
  allow_rot_amr_type_list = [];
  max_speed = some 0;
}

-- The third node is cut off.
abbrev hall : MapInfo (Option ℕ)
hall = record {
  nodes = node_at (pos 10) 0 ∷ node_at (pos 20) 3000 ∷ node_at (pos 30) 9000 ∷ [];
  id2index = (pos 10, 0) ∷ (pos 20, 1) ∷ (pos 30, 2) ∷ [];
  pre_node = [];
  aft_node = [];
  edges = [];
  edge_index = [];
  areas = [];
  reach_analyzer = some (record { parent = 0 ∷ 0 ∷ 2 ∷ []; rank = 1 ∷ 0 ∷ 0 ∷ [] });
  global_max_speed = some 1000;
  amr_type_num = pos 1;
}

abbrev robot : ℤ → Amr (Option ℕ)
robot node = record sample_amr { current_node_id = node }

abbrev robots : List (Amr (Option ℕ))
robots = robot (pos 30) ∷ robot (pos 10) ∷ []

abbrev deliveries : List Task
deliveries = task_between (pos 10) (pos 20) ∷ []

abbrev given : AllocationResult (Option ℕ)
given = record {
  amr_tasks = (pos 0 ∷ []) ∷ [];
  code = pos 0 ∷ [];
  repair_log = "";
  total_cost = some 0;
  unallocated_task_ids = [];
}

abbrev no_query : ℤ → ℤ → ℤ → Option ℕ
no_query from_node to_node kind = none

abbrev no_text : ℕ → ℕ → ℕ → String
no_text removed reinserted dropped = "changed"

abbrev costs : SparseCost (Option ℕ)
costs = sparse_reset none (pos 1) (pos 2)

abbrev starts : List Start
starts =
    record { amr_type = pos 0; node = pos 30 } ∷ record { amr_type = pos 0; node = pos 10 } ∷ []

starts_found : start_nodes hall robots ≡ some starts
unfolding start_nodes resolve_start_node_id ℤ_discrete ℕ_discrete
starts_found = refl

abbrev moved : AllocationResult (Option ℕ)
moved = sanitized hall false no_query deliveries costs no_text starts given

infinite : extended.is_finite extended.infinity ≡ false
unfolding extended
infinite = refl

sanitize_allocation_result-AreDrivable_example :
    (r : AllocationResult (Option ℕ)) × (sanitize_allocation_result hall none no_query deliveries
        costs no_text given robots
      ≡ some r)
    × (length r.amr_tasks ≡ 2)
    × AreDrivable hall false no_query deliveries starts r.amr_tasks
unfolding chains_of
sanitize_allocation_result-AreDrivable_example =
    sanitize_allocation_result-AreDrivable hall none no_query deliveries costs no_text given robots
      starts infinite starts_found

sanitize_allocation_result-IsKept_example :
    (r : AllocationResult (Option ℕ)) × (sanitize_allocation_result hall none no_query deliveries
        costs no_text given robots
      ≡ some r)
    × IsKept (pos 0) r.amr_tasks r.unallocated_task_ids
unfolding is_assigned elem ℤ_discrete ℕ_discrete chains_of
sanitize_allocation_result-IsKept_example =
    sanitize_allocation_result-IsKept hall none no_query deliveries costs no_text given robots
      starts 0 starts_found (omega arith) refl

-- The second AMR takes the task over.
taken_over : Path (List (List ℤ)) moved.amr_tasks ([] ∷ (pos 0 ∷ []) ∷ [])
unfolding sanitized extended ℤ_discrete ℕ_discrete find is_connected_by_id is_connected find_root
    climb get_node_by_id get_node extract_task_endpoints elem chains_of padded reinsert_removed
    check_chains
taken_over = refl
