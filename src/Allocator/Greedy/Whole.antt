-- ===== src/Allocator/Greedy/Whole.antt =====
-- `GreedyTaskAllocator::allocate` with its repair.
use agvscheduling.Prelude.{ℕ, ◌<◌, ◌≡◌, ap, pos, String, List, [], Option, some, length, Double}
use agvscheduling.Allocation.{AllocationResult, de_parse_solution}
use agvscheduling.Fleet.{Task, Amr}
use agvscheduling.MapInfo.{MapInfo}
use agvscheduling.Cost.{SparseCost}
use agvscheduling.Allocator.Repair.{LogEntry}
use agvscheduling.Allocator.Repair.Complete.{repair_invalid_duties}
use agvscheduling.Allocator.Repair.Legs.{AreDrivable, repair_invalid_duties-AreDrivable}
use agvscheduling.Allocator.Repair.Cover.{IsKept, repair_invalid_duties-IsKept}
use agvscheduling.Allocator.Greedy.{allocate, finished, without_detour}
use agvscheduling.Allocator.Greedy.Rounds.{assign_greedily-ends}

module _ {W : Type 0} ⦃d : Double W⦄ (t : SparseCost W) (tasks : List Task)
    (parse_iso : String → Option W) (base_now coeff : W) (pow : W → W → W)
    (global_map : Option (MapInfo W)) (render : List LogEntry → String) (amrs : List (Amr W)) where
  -- What an allocation is to be: each task in a chain or unallocated, and each leg drivable.
  pub record IsAllocation (r : AllocationResult W) : Type 0 where
    pub covers : (j : ℕ) → j < length tasks → IsKept (pos j) r.amr_tasks r.unallocated_task_ids
    pub drivable : AreDrivable t tasks 0 (without_detour amrs) r.amr_tasks

  -- The greedy allocator ends, whatever the costs, and its result has each task in a chain or among
  -- the unallocated ones, and only legs that cost less than infinity.
  pub allocate-ends :
      (r : AllocationResult W) × (allocate t tasks parse_iso base_now coeff pow global_map render
          amrs
        ≡ some r)
      × IsAllocation r
  unfolding allocate
  allocate-ends =
      let (s, e) = assign_greedily-ends t tasks parse_iso base_now coeff (length amrs) in
      let given : AllocationResult W = record {
        amr_tasks = s.amr_tasks;
        code = de_parse_solution s.amr_tasks;
        repair_log = "";
        total_cost = d.nought;
        unallocated_task_ids = [];
      } in
      (
        repair_invalid_duties t tasks pow global_map render given (without_detour amrs),
        ap (finished t tasks parse_iso base_now coeff pow global_map render amrs) e,
        record {
          covers =
              repair_invalid_duties-IsKept t tasks render pow global_map given
                (without_detour amrs);
          drivable =
              repair_invalid_duties-AreDrivable t tasks render pow global_map given
                (without_detour amrs);
        },
      )
