-- ===== src/Allocator.antt =====
-- The allocators: src/algorithm/base/TaskAllocatorBase.cpp and src/algorithm/GreedyTaskAllocator.cpp.
-- `t` is the sparse table of costs and `tasks` the list that a task's index points into. An AMR that
-- has no task yet has no previous task, `none`.
pub mod Repair
pub mod Greedy
use agvscheduling.Prelude.{
  ℕ, Bool, ℤ, pos, minus_one, List, Option, none, some, ite, ℤ_discrete, if◌then◌else◌, length,
  true, false, Double,
}
use agvscheduling.Allocation.{at}
use agvscheduling.Fleet.{Task, Amr, default_task}
use agvscheduling.Cost.{SparseCost, get_cost}

abbrev pub charging_type : ℤ
charging_type = pos 3

-- `taskList[idx].getTaskType() == 3`
abbrev pub is_charging : List Task → ℤ → Bool
is_charging tasks idx =
    ite (ℤ_discrete (at tasks idx default_task).task_type charging_type) true false

module _ {W : Type 0} ⦃d : Double W⦄ where
  -- The cost of the first task of an AMR, or of a task after another.
  unfoldable pub leg : SparseCost W → List Task → ℕ → Option ℤ → ℤ → W
  unfolding get_cost
  leg t tasks amr none cur = get_cost t (pos (length tasks)) cur (pos amr)
  leg t tasks amr (some prev) cur = get_cost t prev cur (pos amr)

  -- The endurance in milliseconds; one that is not positive is unlimited.
  unfoldable pub endurance_ms : Amr W → W
  endurance_ms a =
      let e = d.of_int a.endurance in
      if d.lt d.nought e
      then d.mul (d.mul e (d.of_int (pos 3600))) (d.of_int (pos 1000))
      else d.of_int (pos 1_000_000_000_000_000_000)
