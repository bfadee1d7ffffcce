-- ===== src/Allocator/Repair/Insertion.antt =====
-- Step 4 of `repairInvalidDuties`: each invalid task goes where it costs least.
use agvscheduling.Prelude.{
  ℕ, zero, suc, ◌+◌, ◌-◌, Bool, not, ◌&&◌, ◌||◌, ℤ, minus_one, ℤ_discrete, List, [], ◌∷◌, ◌++◌,
  Option, none, some, ite, if◌then◌else◌, ltb, ◌==◌, length, get_or, set, insert_at, Double,
}
use agvscheduling.Fleet.{Task, Amr}
use agvscheduling.Cost.{SparseCost}
use agvscheduling.Allocator.{leg, endurance_ms, is_charging}
use agvscheduling.Allocator.Repair.{Repairing, Invalid, no_amr, moved, no_place, can_follow}

-- `bestCostDelta`, and `bestAmrIdx` with `bestPos`.
pub record Best (W : Type 0) : Type 0 where
  pub cost_delta : W
  pub place : Option (ℕ × ℕ)

-- `originalTasks.erase(remove(..., task), end)`
unfoldable pub removed : ℤ → List ℤ → List ℤ
removed idx [] = []
removed idx (x ∷ xs) = ite (ℤ_discrete x idx) (removed idx xs) (x ∷ removed idx xs)

-- The chains with the task at its new place, and no longer at the AMR that it leaves.
unfoldable pub moved_chains : List (List ℤ) → ℤ → ℕ → ℕ → ℕ → List (List ℤ)
unfolding removed
moved_chains chains idx original amr p =
    let inserted = set chains amr (insert_at (get_or chains amr []) p idx) in
    if amr == original
    then inserted
    else set inserted original (removed idx (get_or inserted original []))

module _ {W : Type 0} ⦃d : Double W⦄ (t : SparseCost W) (tasks : List Task) where
  unfoldable pub valid_amr_idxs : ℕ → List (Amr W) → ℤ → List ℕ
  unfolding can_follow
  valid_amr_idxs amr [] idx = []
  valid_amr_idxs amr (a ∷ amrs) idx =
      let rest = valid_amr_idxs (suc amr) amrs idx in
      if can_follow t tasks amr none idx then amr ∷ rest else rest

  -- What a task adds to the cost of a chain at a position.
  unfoldable pub cost_delta_at : ℕ → List ℤ → ℕ → ℤ → W
  unfolding leg
  cost_delta_at amr chain p idx =
      let pre = get_or chain (p - 1) minus_one in
      let next = get_or chain p minus_one in
      let from_start = leg t tasks amr none in
      let from_task = λ (prev : ℤ). leg t tasks amr (some prev) in
      if length chain == 0
      then d.add d.nought (from_start idx)
      else if ltb 0 p && ltb p (length chain)
      then d.add (d.add (d.sub d.nought (from_task pre next)) (from_task pre idx))
          (from_task idx next)
      else if p == 0
      then d.add (d.add (d.sub d.nought (from_start next)) (from_start idx)) (from_task idx next)
      else d.add d.nought (from_task pre idx)

  -- `ok`: a task that is not charging keeps the AMR within its endurance.
  unfoldable pub is_within_endurance : W → W → ℤ → W → Bool
  is_within_endurance spent limit idx delta =
      is_charging tasks idx || not (d.lt limit (d.add spent delta))

  unfoldable pub consider : W → W → ℕ → ℤ → ℕ → W → Best W → Best W
  unfolding is_within_endurance
  consider spent limit amr idx p delta best =
      if is_within_endurance spent limit idx delta && d.lt delta best.cost_delta
      then record { cost_delta = delta; place = some (amr, p) }
      else best

  -- The loop over the positions, of which `count` are left.
  unfoldable pub best_position : W → W → ℕ → List ℤ → ℤ → ℕ → ℕ → Best W → Best W
  unfolding consider cost_delta_at
  best_position spent limit amr chain idx zero p best = best
  best_position spent limit amr chain idx (suc count) p best =
      best_position spent limit amr chain idx count (suc p)
        (consider spent limit amr idx p (cost_delta_at amr chain p idx) best)

  -- The loop over the AMRs that can start with the task.
  unfoldable pub best_target : List (Amr W) → List W → List (List ℤ) → ℤ → List ℕ → Best W → Best W
  unfolding best_position endurance_ms
  best_target amrs spent chains idx [] best = best
  best_target amrs spent chains idx (amr ∷ rest) best =
      let chain = get_or chains amr [] in
      let limit = get_or (endurances amrs) amr d.nought in
      best_target amrs spent chains idx rest
        (best_position (get_or spent amr d.nought) limit amr chain idx (suc (length chain)) 0 best)
    where
      endurances : List (Amr W) → List W
      endurances [] = []
      endurances (a ∷ as_) = endurance_ms a ∷ endurances as_

  abbrev pub placed : Repairing × List W → Invalid → Best W → Option (ℕ × ℕ) → Repairing × List W
  placed (r, spent) inv best none = (
    record r {
      unallocated = r.unallocated ++ inv.task ∷ [];
      log = r.log ++ no_place inv.task ∷ [];
    },
    spent,
  )
  placed (r, spent) inv best (some (amr, p)) = (
    record r {
      amr_tasks = moved_chains r.amr_tasks inv.task inv.original_amr amr p;
      log = r.log ++ moved inv.task (inv.original_amr + 1) (amr + 1) (p + 1) ∷ [];
    },
    if is_charging tasks inv.task
        then spent
        else set spent amr (d.add (get_or spent amr d.nought) best.cost_delta),
  )

  abbrev pub place_among : List (Amr W) → Repairing × List W → Invalid → List ℕ → Repairing × List W
  place_among amrs (r, spent) inv [] = (
    record r { unallocated = r.unallocated ++ inv.task ∷ []; log = r.log ++ no_amr inv.task ∷ [] },
    spent,
  )
  place_among amrs (r, spent) inv (amr ∷ rest) =
      let best =
        best_target amrs spent r.amr_tasks inv.task (amr ∷ rest)
          (record { cost_delta = d.infinity; place = none }) in
      placed (r, spent) inv best best.place

  unfoldable pub reinsert_all :
      List (Amr W) → List Invalid → Repairing × List W → Repairing × List W
  unfolding valid_amr_idxs best_target moved_chains
  reinsert_all amrs [] state = state
  reinsert_all amrs (inv ∷ rest) state =
      reinsert_all amrs rest (place_among amrs state inv (valid_amr_idxs 0 amrs inv.task))
