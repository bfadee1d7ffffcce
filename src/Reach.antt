-- ===== src/Reach.antt =====
-- Which tasks are offered to the allocation: src/common/AmrPositionResolver.cpp and the filter of
-- src/common/TaskReachabilityFilter.cpp. `query` is the shortest path updater's answer for two nodes
-- and a type of AMR, which the source passes as `query_fn`; `use_spu` is REACH_START_SPU. An
-- exception is `none`.
pub mod Filter
mod Tests
use agvscheduling.Prelude.{
  ℕ, suc, Bool, true, false, not, ◌&&◌, ◌||◌, ℤ, pos, minus_one, ℤ_discrete, is_negative, List, [],
  ◌∷◌, ◌++◌, Option, none, some, if◌then◌else◌, length, set, replicate, find, Double, map,
}
use agvscheduling.Fleet.{Amr, Task}
use agvscheduling.Fleet.Endpoints.{collect_task_nodes, resolve_endpoints}
use agvscheduling.MapInfo.{
  MapInfo, is_int, is_connected_by_id, find_nearest_node_id, find_nearest_node_id_from_neighbors,
}

-- The texts that the filter writes.
pub data Reason : Type 0 where
  no_nodes invalid_first_node invalid_node unknown_start unknown_end not_connected no_path no_amr :
      Reason

pub record Failure : Type 0 where
  pub reason : Reason
  pub failed_from : ℤ
  pub failed_to : ℤ

-- An empty text stands for no reason.
pub record FilterResult : Type 0 where
  pub filtered_tasks : List Task
  pub filtered_to_original : List ℤ
  pub original_to_filtered : List ℤ
  pub forced_task_indices : List ℤ
  pub forced_reasons : List (Option Reason)

abbrev pub or_else {ℓ} : {A : Type ℓ} → Option A → Option A → Option A
or_else none b = b
or_else (some a) b = some a

pub force : FilterResult → ℕ → Reason → FilterResult
force r idx why = record r {
  forced_task_indices = r.forced_task_indices ++ pos idx ∷ [];
  forced_reasons = set r.forced_reasons idx (some why);
}

pub keep : FilterResult → ℕ → Task → FilterResult
keep r idx task = record r {
  original_to_filtered = set r.original_to_filtered idx (pos (length r.filtered_tasks));
  filtered_tasks = r.filtered_tasks ++ task ∷ [];
  filtered_to_original = r.filtered_to_original ++ pos idx ∷ [];
}

-- What the body of the loop does with the two answers, the failure and whether an AMR reaches
-- the task.
abbrev pub decided : FilterResult → ℕ → Task → Option Failure → Option Bool → Option FilterResult
decided r idx task (some failure) reached = some (force r idx failure.reason)
decided r idx task none none = none
decided r idx task none (some false) = some (force r idx no_amr)
decided r idx task none (some true) = some (keep r idx task)

module _ {W : Type 0} ⦃d : Double W⦄ where
  unfoldable pub resolve_start_node_id : Amr W → MapInfo W → Option ℤ
  resolve_start_node_id a m =
      let anywhere = find_nearest_node_id m (d.of_int a.x) (d.of_int a.y) in
      let next = a.next_destination_point in
      if not (is_int a.current_node_id minus_one)
      then some a.current_node_id
      else if not (is_int next.node_id minus_one)
      then or_else
          (find_nearest_node_id_from_neighbors m (d.of_int a.x) (d.of_int a.y) next.node_id)
          anywhere
      else if not (is_int next.x (pos 0) && is_int next.y (pos 0))
      then or_else (find_nearest_node_id m (d.of_int next.x) (d.of_int next.y)) anywhere
      else anywhere

  abbrev pub is_known : MapInfo W → ℤ → Bool
  is_known m node = elim (find ℤ_discrete node m.id2index) [ none ↦ false | some i ↦ true ]

  module _ (m : MapInfo W) (use_spu : Bool) (query : ℤ → ℤ → ℤ → W) where
    -- Some type of AMR has a path.
    pub has_path : List ℤ → ℤ → ℤ → Bool
    has_path [] from_node to_node = false
    has_path (type ∷ types) from_node to_node =
        let rest = has_path types from_node to_node in
        if d.is_finite (query from_node to_node type) then true else rest

    -- The body of the loop over the segments.
    pub check_segment : List ℤ → ℤ → ℤ → Option Reason
    unfolding has_path
    check_segment types from_node to_node =
        if is_negative from_node || is_negative to_node
        then some invalid_node
        else if not (is_known m from_node)
        then some unknown_start
        else if not (is_known m to_node)
        then some unknown_end
        else if not (is_connected_by_id m from_node to_node)
        then some not_connected
        else if not (not use_spu || has_path types from_node to_node)
        then some no_path
        else none

    pub check_segments : List ℤ → ℤ → List ℤ → Option Failure
    unfolding check_segment
    check_segments types from_node [] = none
    check_segments types from_node (to_node ∷ nodes) =
        let rest = check_segments types to_node nodes in
        elim (check_segment types from_node to_node) [
          | none ↦ rest
          | some why ↦ some (record { reason = why; failed_from = from_node; failed_to = to_node })
        ]

    -- `none` is the answer that the task is reachable.
    abbrev pub check_nodes : List ℤ → List ℤ → Option Failure
    check_nodes types [] =
        some (record { reason = no_nodes; failed_from = minus_one; failed_to = minus_one })
    check_nodes types (n ∷ []) =
        if is_negative n
        then some
            (record { reason = invalid_first_node; failed_from = minus_one; failed_to = minus_one })
        else none
    check_nodes types (n ∷ next ∷ nodes) = check_segments types n (next ∷ nodes)

    pub is_task_reachable : List ℤ → Task → Option Failure
    unfolding check_segments
    is_task_reachable types task = check_nodes types (collect_task_nodes task)

    -- The loop over the AMRs, which stops at the first that is connected with the target.
    pub amr_reachable : List (Amr W) → ℤ → Option Bool
    amr_reachable [] target = some false
    amr_reachable (a ∷ rest) target = elim (resolve_start_node_id a m) [
      | none ↦ none
      | some start ↦
          let more = amr_reachable rest target in
          if is_negative start
          then more
          else if not (is_negative target) && is_connected_by_id m start target
          then some true
          else more
    ]

    -- The types to query, and whether an AMR reaches the task's start.
    abbrev pub types_of : List (Amr W) → List ℤ
    types_of [] = pos 0 ∷ []
    types_of (a ∷ amrs) = map (λ b. b.device_type) (a ∷ amrs)

    abbrev pub any_reachable : List (Amr W) → ℤ → Option Bool
    any_reachable [] target = some true
    any_reachable (a ∷ amrs) target = amr_reachable (a ∷ amrs) target

    -- The body of the loop over the tasks.
    pub filter_task : List (Amr W) → ℕ → Task → FilterResult → Option FilterResult
    unfolding is_task_reachable amr_reachable force keep
    filter_task amrs idx task r =
        decided r idx task (is_task_reachable (types_of amrs) task)
          (any_reachable amrs (resolve_endpoints task).start)

    pub filter_loop : List (Amr W) → ℕ → List Task → FilterResult → Option FilterResult
    unfolding filter_task
    filter_loop amrs idx [] r = some r
    filter_loop amrs idx (task ∷ rest) r = elim (filter_task amrs idx task r) [
      | none ↦ none
      | some next ↦ filter_loop amrs (suc idx) rest next
    ]

    pub filter_tasks_by_reachability : List Task → List (Amr W) → Option FilterResult
    unfolding filter_loop
    filter_tasks_by_reachability tasks amrs = filter_loop amrs 0 tasks (record {
      filtered_tasks = [];
      filtered_to_original = [];
      original_to_filtered = replicate (length tasks) minus_one;
      forced_task_indices = [];
      forced_reasons = replicate (length tasks) none;
    })
