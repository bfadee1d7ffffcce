-- ===== src/Allocator/Repair/Complete.antt =====
-- The end of `repairInvalidDuties`: no task is left out, idle AMRs get one, and the whole of it.
use agvscheduling.Prelude.{
  ℕ, zero, suc, Bool, true, false, not, ◌&&◌, ◌||◌, ℤ, pos, ℤ_discrete, String, List, [], ◌∷◌, ◌++◌,
  Option, none, some, if◌then◌else◌, length, elem, take, Double,
}
use agvscheduling.Allocation.{AllocationResult, parse_solution, de_parse_solution}
use agvscheduling.Fleet.{Task, Amr}
use agvscheduling.MapInfo.{MapInfo}
use agvscheduling.Cost.{SparseCost, calculate_total_cost}
use agvscheduling.Allocator.{leg}
use agvscheduling.Allocator.Repair.{
  Repairing, LogEntry, padded, screen, overflow, non_charge, clean_all,
}
use agvscheduling.Allocator.Repair.Insertion.{removed, reinsert_all}
use agvscheduling.Allocator.Repair.Detour.{detour_all}

-- A task is in a chain: the vector `assigned`.
unfoldable pub is_assigned : ℤ → List (List ℤ) → Bool
is_assigned idx [] = false
is_assigned idx (chain ∷ chains) = elem ℤ_discrete idx chain || is_assigned idx chains

-- The tasks from `i` on, `count` of them, that pass a test.
unfoldable pub those : (ℤ → Bool) → ℕ → ℕ → List ℤ
those test i zero = []
those test i (suc count) =
    let rest = those test (suc i) count in if test (pos i) then pos i ∷ rest else rest

-- The tasks that are neither in a chain nor unallocated become unallocated.
unfoldable pub complete : ℕ → Repairing → Repairing
unfolding those is_assigned
complete task_num r = record r {
  unallocated =
      r.unallocated
      ++ those (λ idx. not (is_assigned idx r.amr_tasks) && not (elem ℤ_discrete idx r.unallocated))
          0 task_num;
}

abbrev pub unflag : Option ℤ → List ℤ → List ℤ
unflag none flagged = flagged
unflag (some idx) flagged = removed idx flagged

abbrev pub or_changed : Option ℤ → Bool → Bool
or_changed none changed = changed
or_changed (some idx) changed = true

-- The chain of an AMR and the task that it takes.
module _ {W : Type 0} ⦃d : Double W⦄ where
  abbrev pub filled : List ℤ → W × Option ℤ → List ℤ × Option ℤ
  filled (x ∷ chain) best = (x ∷ chain, none)
  filled [] (cost, none) = ([], none)
  filled [] (cost, some idx) = if d.lt cost d.infinity then (idx ∷ [], some idx) else ([], none)

module _ {W : Type 0} ⦃d : Double W⦄ (t : SparseCost W) (tasks : List Task) where
  -- The cheapest flagged task for an AMR, and its cost: the loop over the tasks from `i` on.
  unfoldable pub cheapest : ℕ → List ℤ → ℕ → ℕ → W × Option ℤ → W × Option ℤ
  unfolding leg
  cheapest amr flagged i zero best = best
  cheapest amr flagged i (suc count) best =
      let c = leg t tasks amr none (pos i) in
      cheapest amr flagged (suc i) count
        (if elem ℤ_discrete (pos i) flagged && d.lt c best.0 then (c, some (pos i)) else best)

  -- The loop of `fillIdleAmrs`: the chains, the tasks that are still flagged, and `changed`.
  unfoldable pub fill_loop :
      ℕ → List (Amr W) → List (List ℤ) → List ℤ → List (List ℤ) × List ℤ × Bool
  unfolding cheapest removed
  fill_loop amr [] chains flagged = (chains, flagged, false)
  fill_loop amr (a ∷ amrs) [] flagged = ([], flagged, false)
  fill_loop amr (a ∷ amrs) (chain ∷ chains) flagged =
      let (chain', taken) =
        filled chain (cheapest amr flagged 0 (length tasks) (d.infinity, none)) in
      let (rest, left, changed) = fill_loop (suc amr) amrs chains (unflag taken flagged) in
      (chain' ∷ rest, left, or_changed taken changed)

  -- A task of a chain beyond the AMRs does not count as assigned here.
  unfoldable pub fill_idle_amrs : List (Amr W) → Repairing → Repairing
  unfolding fill_loop is_assigned those
  fill_idle_amrs amrs r =
      let chains = padded (length amrs) r.amr_tasks in
      let flagged =
        those
          (λ idx.
            elem ℤ_discrete idx r.unallocated && not (is_assigned idx (take (length amrs) chains)))
          0 (length tasks) in
      let (filled_chains, left, changed) = fill_loop 0 amrs chains flagged in
      record r { amr_tasks = filled_chains; unallocated = if changed then left else r.unallocated }

  module _ (pow : W → W → W) (global_map : Option (MapInfo W)) where
    -- The steps on the chains.
    unfoldable pub repair_chains : AllocationResult W → List (Amr W) → Repairing
    unfolding padded screen overflow non_charge reinsert_all clean_all detour_all
    repair_chains result amrs =
        let parsed = padded (length amrs) (parse_solution result.code) in
        let (chains, invalid) = screen t tasks 0 amrs parsed in
        let late = overflow t tasks 0 amrs chains in
        let (placed, spent) = reinsert_all t tasks amrs (invalid ++ late) (
          record { amr_tasks = chains; unallocated = result.unallocated_task_ids; log = [] },
          non_charge t tasks 0 amrs chains,
        ) in
        detour_all t tasks pow global_map amrs (clean_all t tasks amrs placed)

    -- Then no task is left out, and the idle AMRs get one.
    unfoldable pub repair_steps : AllocationResult W → List (Amr W) → Repairing
    unfolding repair_chains complete fill_idle_amrs
    repair_steps result amrs =
        fill_idle_amrs amrs (complete (length tasks) (repair_chains result amrs))

    unfoldable pub repair_invalid_duties :
        (List LogEntry → String) → AllocationResult W → List (Amr W) → AllocationResult W
    unfolding repair_steps
    repair_invalid_duties render result amrs =
        let r = repair_steps result amrs in
        let code = de_parse_solution r.amr_tasks in
        record {
          amr_tasks = r.amr_tasks;
          code = code;
          repair_log = render r.log;
          total_cost = calculate_total_cost t (length amrs) (length tasks) code;
          unallocated_task_ids = r.unallocated;
        }
