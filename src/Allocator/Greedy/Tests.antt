-- ===== src/Allocator/Greedy/Tests.antt =====
-- Three tasks and two AMRs: the second AMR can start with the last task only.
use agvscheduling.Prelude.{ℕ, ◌≡◌, ℤ, pos, String, List, [], ◌∷◌, Option, none, some}
use agvscheduling.Extended.{extended}
use agvscheduling.Samples.{sample_amr}
use agvscheduling.Allocation.{AllocationResult}
use agvscheduling.Fleet.{Amr, Task, default_task}
use agvscheduling.Cost.{SparseCost, sparse_reset, sparse_put}
use agvscheduling.Allocator.Repair.{LogEntry}
use agvscheduling.Allocator.Greedy.{Assigning, assign_greedily, allocate}
use agvscheduling.Allocator.Greedy.Rounds.{assign_greedily-ends}
use agvscheduling.Allocator.Greedy.Invariant.{IsConsistent, assign_greedily-IsConsistent}
use agvscheduling.Allocator.Greedy.Whole.{IsAllocation, allocate-ends}

abbrev amr_with : ℤ → Amr (Option ℕ)
amr_with endurance = record sample_amr { endurance = endurance }

abbrev table : SparseCost (Option ℕ)
table =
    sparse_put
      (sparse_put
        (sparse_put (sparse_reset none (pos 3) (pos 2)) (pos 3) (pos 0) (pos 0) (some 4000)) (pos 0)
        (pos 2) (pos 0) (some 1000))
      (pos 3) (pos 2) (pos 1) (some 3000)

abbrev three_tasks : List Task
three_tasks = default_task ∷ default_task ∷ default_task ∷ []

abbrev amrs : List (Amr (Option ℕ))
amrs = amr_with (pos 0) ∷ amr_with (pos 0) ∷ []

abbrev no_time : String → Option (Option ℕ)
no_time text = none

abbrev zero_sec : Option ℕ
zero_sec = some 0

abbrev no_text : List LogEntry → String
no_text log = ""

abbrev no_power : Option ℕ → Option ℕ → Option ℕ
no_power a b = none

allocate-ends_example :
    (r : AllocationResult (Option ℕ)) × (allocate table three_tasks no_time zero_sec zero_sec
        no_power none no_text amrs
      ≡ some r)
    × IsAllocation table three_tasks no_time zero_sec zero_sec no_power none no_text amrs r
allocate-ends_example =
    allocate-ends table three_tasks no_time zero_sec zero_sec no_power none no_text amrs

abbrev assigned :
    (s : Assigning (Option ℕ)) × (assign_greedily table three_tasks no_time zero_sec zero_sec 2
      ≡ some s)
assigned = assign_greedily-ends table three_tasks no_time zero_sec zero_sec 2

assign_greedily-IsConsistent_example :
    IsConsistent table three_tasks no_time zero_sec zero_sec 2 assigned.0
assign_greedily-IsConsistent_example =
    assign_greedily-IsConsistent table three_tasks no_time zero_sec zero_sec 2 assigned.0 assigned.1
