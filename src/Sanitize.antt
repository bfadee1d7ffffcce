-- ===== src/Sanitize.antt =====
-- `SanitizeAllocationResult` of src/common/AllocationReachability.cpp: tasks that their AMR cannot
-- drive to are taken out of its chain and put where they cost least. `query` is the shortest path
-- updater's answer in seconds for two nodes and a type of AMR, `use_spu` the setting
-- REACH_FINAL_SPU, `t` the sparse table of costs, and `render` writes the log's text out.
pub mod Insertion
mod Search
pub mod Reachable
pub mod Cover
mod Tests
use agvscheduling.Prelude.{
  ℕ, zero, suc, ◌+◌, ◌-◌, Bool, true, false, not, ◌&&◌, ◌||◌, ℤ, pos, negsuc, minus_one, ℤ_discrete,
  leb_ℤ, is_negative, String, List, [], ◌∷◌, ◌++◌, Option, none, some, if◌then◌else◌, length, elem,
  get_or, get_elem?, set, insert_at, sort_unique, Double,
}
use agvscheduling.Fleet.{Amr, Task, default_task}
use agvscheduling.Fleet.Endpoints.{extract_task_endpoints}
use agvscheduling.MapInfo.{MapInfo, is_int, fle, fabs, get_node_by_id, is_connected_by_id}
use agvscheduling.Reach.{resolve_start_node_id}
use agvscheduling.Allocation.{AllocationResult, in_range, at, chains_of, de_parse_solution}
use agvscheduling.Cost.{SparseCost, says_no, calculate_total_cost}
use agvscheduling.Allocator.Repair.{padded}

abbrev pub read_env_bool : Option String → Bool → Bool
read_env_bool none defv = defv
read_env_bool (some s) defv = not (says_no (some s))

-- What both loops over the AMRs look up: `getDeviceType()` and `DetermineAmrStartNodeId`.
pub record Start : Type 0 where
  pub amr_type : ℤ
  pub node : ℤ

-- `ExtractTaskEndpoints(taskList[idx])`
abbrev pub endpoints : List Task → ℤ → ℤ × ℤ
endpoints tasks idx = extract_task_endpoints (at tasks idx default_task)

abbrev pub start_of : List Task → ℤ → ℤ
start_of tasks idx = (endpoints tasks idx).0

abbrev pub end_of : List Task → ℤ → ℤ
end_of tasks idx = (endpoints tasks idx).1

-- `prevEnd` and `nextStart` of a position in a chain.
unfoldable pub prev_end : List Task → ℤ → List ℤ → ℕ → ℤ
prev_end tasks start chain zero = start
prev_end tasks start chain (suc p) = end_of tasks (get_or chain p minus_one)

unfoldable pub next_start : List Task → List ℤ → ℕ → ℤ
next_start tasks chain p = elim (get_elem? chain p) [
  | none ↦ minus_one
  | some next ↦ start_of tasks next
]

-- `bestDelta`, and `bestAmr` with `bestPos`.
pub record Reinsertion (W : Type 0) : Type 0 where
  pub delta : W
  pub place : Option (ℕ × ℕ)

-- The chains, and the tasks whose flag `inserted` is set.
pub record Inserting : Type 0 where
  pub chains : List (List ℤ)
  pub inserted : List ℤ

-- A removed task that no chain took joins the unallocated ones; `unallocFlag` says which those are.
unfoldable pub merge_dropped : ℕ → List ℤ → List ℤ → List ℤ → List ℤ
merge_dropped count inserted [] ids = ids
merge_dropped count inserted (idx ∷ removed) ids = merge_dropped count inserted removed (
    if in_range idx count && (not (elem ℤ_discrete idx inserted) && not (elem ℤ_discrete idx ids))
    then ids ++ idx ∷ []
    else ids)

unfoldable pub count_reinserts : ℕ → List ℤ → List ℤ → ℕ
count_reinserts count inserted [] = 0
count_reinserts count inserted (idx ∷ removed) =
    let rest = count_reinserts count inserted removed in
    if in_range idx count && elem ℤ_discrete idx inserted then suc rest else rest

abbrev pub new_log : (ℕ → ℕ → ℕ → String) → ℕ → List ℤ → List ℤ → String → String
new_log render count inserted [] log = log
new_log render count inserted (idx ∷ removed) log =
    let reinserts = count_reinserts count inserted (idx ∷ removed) in
    render (length (idx ∷ removed)) reinserts (length (idx ∷ removed) - reinserts)

module _ {W : Type 0} ⦃d : Double W⦄ (m : MapInfo W) where
  abbrev pub speed_of : W → W
  speed_of speed = if fle speed d.nought then d.of_int (pos 1000) else speed

  unfoldable pub straight_line_sec : ℤ → ℤ → W
  straight_line_sec from_node to_node =
      if is_negative from_node || is_negative to_node
      then d.infinity
      else elim (get_node_by_id m from_node) [
        | none ↦ d.infinity
        | some nf ↦ elim (get_node_by_id m to_node) [
          | none ↦ d.infinity
          | some nt ↦
              d.div (d.add (fabs (d.sub nf.x nt.x)) (fabs (d.sub nf.y nt.y)))
                (speed_of m.global_max_speed)
        ]
      ]

  unfoldable pub start_nodes : List (Amr W) → Option (List Start)
  start_nodes [] = some []
  start_nodes (a ∷ amrs) = elim (resolve_start_node_id a m) [
    | none ↦ none
    | some node ↦ elim (start_nodes amrs) [
      | none ↦ none
      | some rest ↦ some (record { amr_type = a.device_type; node = node } ∷ rest)
    ]
  ]

  module _ (use_spu : Bool) (query : ℤ → ℤ → ℤ → W) where
    unfoldable pub sp_seconds_or_approx : ℤ → ℤ → ℤ → W
    unfolding straight_line_sec
    sp_seconds_or_approx from_node to_node amr_type =
        let sec = query from_node to_node amr_type in
        let straight = straight_line_sec from_node to_node in
        if is_negative from_node || is_negative to_node
        then d.infinity
        else if not (is_connected_by_id m from_node to_node)
        then d.infinity
        else if not use_spu
        then straight
        else if d.eq sec (d.of_int (negsuc 1))
        then d.infinity
        else if d.eq sec (d.of_int minus_one) || not (d.lt d.nought sec)
        then straight
        else sec

    -- `std::isfinite` of the way between two nodes.
    unfoldable pub is_reachable : ℤ → ℤ → ℤ → Bool
    unfolding sp_seconds_or_approx
    is_reachable amr_type from_node to_node =
        d.is_finite (sp_seconds_or_approx from_node to_node amr_type)

    -- `ok` of a task, from the node that the AMR is at.
    unfoldable pub can_take : ℤ → ℤ → ℤ × ℤ → Bool
    unfolding is_reachable
    can_take amr_type cur (s, e) =
        let ok = is_reachable amr_type cur s in
        if ok && (not (is_negative s) && (not (is_negative e) && not (is_int s e)))
        then is_reachable amr_type s e
        else ok

    module _ (tasks : List Task) where
      -- The tasks of a chain that stay, and those that are removed.
      unfoldable pub check_chain : ℤ → ℤ → List ℤ → List ℤ × List ℤ
      unfolding can_take
      check_chain amr_type cur [] = ([], [])
      check_chain amr_type cur (idx ∷ rest) = elim (in_range idx (length tasks)) [
        | false ↦ check_chain amr_type cur rest
        | true ↦ elim (can_take amr_type cur (endpoints tasks idx)) [
          | true ↦
              let (kept, removed) = check_chain amr_type (end_of tasks idx) rest in
              (idx ∷ kept, removed)
          | false ↦ let (kept, removed) = check_chain amr_type cur rest in (kept, idx ∷ removed)
        ]
      ]

      -- Chains beyond the AMRs stay as they are.
      unfoldable pub check_chains : List Start → List (List ℤ) → List (List ℤ) × List ℤ
      unfolding check_chain
      check_chains [] chains = (chains, [])
      check_chains (v ∷ starts) [] = ([], [])
      check_chains (v ∷ starts) (chain ∷ chains) =
          let (kept, removed) = check_chain v.amr_type v.node chain in
          let (rest, more) = check_chains starts chains in (kept ∷ rest, removed ++ more)

      -- A task fits between its neighbours: `c1`, `c2` and `c3` are finite.
      unfoldable pub fits_at : Start → List ℤ → ℤ → ℕ → Bool
      unfolding prev_end next_start is_reachable
      fits_at v chain idx p =
          let (s, e) = endpoints tasks idx in
          let next = next_start tasks chain p in
          is_reachable v.amr_type (prev_end tasks v.node chain p) s
          && (is_reachable v.amr_type s e
              && (if is_negative next
                  then d.is_finite d.nought
                  else is_reachable v.amr_type e next))

      unfoldable pub delta_at : Start → List ℤ → ℤ → ℕ → W
      unfolding prev_end next_start sp_seconds_or_approx
      delta_at v chain idx p =
          let (s, e) = endpoints tasks idx in
          let before = prev_end tasks v.node chain p in
          let next = next_start tasks chain p in
          let c1 = sp_seconds_or_approx before s v.amr_type in
          let c2 = sp_seconds_or_approx s e v.amr_type in
          let c3 = if is_negative next then d.nought else sp_seconds_or_approx e next v.amr_type in
          let base =
            if is_negative next then d.nought else sp_seconds_or_approx before next v.amr_type in
          d.sub (d.add (d.add c1 c2) c3) (if d.is_finite base then base else d.nought)

      -- The body of the loop over the positions.
      unfoldable pub consider_position : ℕ → Start → List ℤ → ℤ → ℕ → Reinsertion W → Reinsertion W
      unfolding fits_at delta_at
      consider_position amr v chain idx p best =
          if fits_at v chain idx p && d.lt (delta_at v chain idx p) best.delta
          then record { delta = delta_at v chain idx p; place = some (amr, p) }
          else best

      -- The positions from `p` on, `count` of them.
      unfoldable pub best_in_chain : ℕ → Start → List ℤ → ℤ → ℕ → ℕ → Reinsertion W → Reinsertion W
      unfolding consider_position
      best_in_chain amr v chain idx p zero best = best
      best_in_chain amr v chain idx p (suc count) best =
          best_in_chain amr v chain idx (suc p) count (consider_position amr v chain idx p best)

      unfoldable pub best_amr : ℕ → List Start → List (List ℤ) → ℤ → Reinsertion W → Reinsertion W
      unfolding best_in_chain
      best_amr amr [] chains idx best = best
      best_amr amr (v ∷ starts) [] idx best = best
      best_amr amr (v ∷ starts) (chain ∷ chains) idx best =
          best_amr (suc amr) starts chains idx
            (best_in_chain amr v chain idx 0 (suc (length chain)) best)

      abbrev pub inserted_at : List (List ℤ) → ℕ → ℕ → ℤ → List (List ℤ)
      inserted_at chains amr p idx = set chains amr (insert_at (get_or chains amr []) p idx)

      abbrev pub insert_best : Inserting → ℤ → Reinsertion W → Option (ℕ × ℕ) → Inserting
      insert_best r idx best none = r
      insert_best r idx best (some (amr, p)) =
          if d.is_finite best.delta
          then record { chains = inserted_at r.chains amr p idx; inserted = idx ∷ r.inserted }
          else r

      unfoldable pub reinsert : List Start → ℤ → Inserting → Inserting
      unfolding best_amr
      reinsert starts idx r =
          let best = best_amr 0 starts r.chains idx (record { delta = d.infinity; place = none }) in
          if in_range idx (length tasks) then insert_best r idx best best.place else r

      unfoldable pub reinsert_removed : List Start → List ℤ → Inserting → Inserting
      unfolding reinsert
      reinsert_removed starts [] r = r
      reinsert_removed starts (idx ∷ removed) r =
          reinsert_removed starts removed (reinsert starts idx r)

      -- What is done once the AMRs' nodes are known.
      unfoldable pub sanitized :
          SparseCost W → (ℕ → ℕ → ℕ → String) → List Start → AllocationResult W → AllocationResult W
      unfolding check_chains reinsert_removed merge_dropped count_reinserts
      sanitized t render starts result =
          let (checked, removed) =
            check_chains starts (padded (length starts) (chains_of result)) in
          let r = reinsert_removed starts removed (record { chains = checked; inserted = [] }) in
          record {
            amr_tasks = r.chains;
            code = de_parse_solution r.chains;
            repair_log = new_log render (length tasks) r.inserted removed result.repair_log;
            total_cost =
                calculate_total_cost t (length starts) (length tasks) (de_parse_solution r.chains);
            unallocated_task_ids =
                sort_unique ℤ_discrete leb_ℤ
                  (merge_dropped (length tasks) r.inserted removed result.unallocated_task_ids);
          }

  -- `none` is an exception from the map. The text is the variable REACH_FINAL_SPU.
  unfoldable pub sanitize_allocation_result :
      Option String
      → (ℤ → ℤ → ℤ → W)
      → List Task
      → SparseCost W
      → (ℕ → ℕ → ℕ → String)
      → AllocationResult W
      → List (Amr W)
      → Option (AllocationResult W)
  unfolding start_nodes sanitized
  sanitize_allocation_result env query tasks t render result amrs = elim (start_nodes amrs) [
    | none ↦ none
    | some starts ↦ some (sanitized (read_env_bool env false) query tasks t render starts result)
  ]
