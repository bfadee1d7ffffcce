-- ===== src/Allocator/Repair/Tests.antt =====
-- Two tasks, and an AMR with an endurance of one hour.
use agvscheduling.Prelude.{
  ℕ, max, ◌≡◌, refl, ℤ, pos, ℤ_discrete, String, List, [], ◌∷◌, Option, none, some, arith, ◌+◌,
  find, put, length, ℕ_discrete, elem,
}
use agvscheduling.Extended.{extended}
use agvscheduling.Samples.{sample_amr}
use agvscheduling.Allocation.{AllocationResult, parse_solution}
use agvscheduling.Allocation.Codec.{count_separators}
use agvscheduling.Fleet.{Amr, Task, default_task}
use agvscheduling.Cost.{SparseCost, sparse_reset, sparse_put, get_cost, make_key_sparse}
use agvscheduling.Allocator.Repair.{
  LogEntry, no_place, Invalid, Repairing, overflow, can_follow, padded,
}
use agvscheduling.Allocator.{leg, endurance_ms}
use agvscheduling.Allocator.Repair.Insertion.{reinsert_all}
use agvscheduling.Allocator.Repair.Complete.{repair_invalid_duties, fill_idle_amrs, is_assigned}
use agvscheduling.Allocator.Repair.Legs.{AreDrivable, repair_invalid_duties-AreDrivable}
use agvscheduling.Allocator.Repair.Cover.{IsKept, repair_invalid_duties-IsKept}
use agvscheduling.Allocator.Repair.Decodes.{repair_invalid_duties-decodes}

abbrev amr_with : ℤ → Amr (Option ℕ)
amr_with endurance = record sample_amr { endurance = endurance }

-- The first task takes more than an hour, and the second follows neither it nor the start.
abbrev table : SparseCost (Option ℕ)
table = sparse_put (sparse_reset none (pos 2) (pos 1)) (pos 2) (pos 0) (pos 0) (some 4_000_000)

abbrev two_tasks : List Task
two_tasks = default_task ∷ default_task ∷ []

abbrev amrs : List (Amr (Option ℕ))
amrs = amr_with (pos 1) ∷ []

abbrev given : AllocationResult (Option ℕ)
given = record {
  amr_tasks = [];
  code = pos 0 ∷ pos 1 ∷ [];
  repair_log = "";
  total_cost = some 0;
  unallocated_task_ids = [];
}

abbrev no_text : List LogEntry → String
no_text log = ""

abbrev no_power : Option ℕ → Option ℕ → Option ℕ
no_power a b = none

abbrev repaired : AllocationResult (Option ℕ)
repaired = repair_invalid_duties table two_tasks no_power none no_text given amrs

repair_invalid_duties-AreDrivable_example : AreDrivable table two_tasks 0 amrs repaired.amr_tasks
repair_invalid_duties-AreDrivable_example =
    repair_invalid_duties-AreDrivable table two_tasks no_text no_power none given amrs

repair_invalid_duties-IsKept_example :
    IsKept (pos 1) repaired.amr_tasks repaired.unallocated_task_ids
repair_invalid_duties-IsKept_example =
    repair_invalid_duties-IsKept table two_tasks no_text no_power none given amrs 1 (omega arith)

repair_invalid_duties-decodes_example :
    (length repaired.amr_tasks ≡ max 1 (count_separators (pos 0 ∷ pos 1 ∷ []) + 1))
    × (parse_solution repaired.code ≡ repaired.amr_tasks)
repair_invalid_duties-decodes_example =
    repair_invalid_duties-decodes table two_tasks no_power none no_text given amrs

-- The first task is over the endurance.
abbrev late : List Invalid
late = record { task = pos 0; original_amr = 0 } ∷ []

overflow_late : Path (List Invalid) (overflow table two_tasks 0 amrs ((pos 0 ∷ []) ∷ [])) late
unfolding overflow extended put find ℕ_discrete ℤ_discrete sparse_put sparse_reset make_key_sparse
    get_cost leg endurance_ms
overflow_late = refl

abbrev before : Repairing
before = record { amr_tasks = (pos 0 ∷ []) ∷ []; unallocated = []; log = [] }

abbrev after : Repairing
after = record {
  amr_tasks = (pos 0 ∷ []) ∷ [];
  unallocated = pos 0 ∷ [];
  log = no_place (pos 0) ∷ [];
}

-- It finds no other place, and becomes unallocated, but it stays in its chain.
late_in_both :
    Path Repairing (reinsert_all table two_tasks amrs late (before, some 4_000_000 ∷ [])).0 after
unfolding reinsert_all extended put find ℕ_discrete ℤ_discrete sparse_put sparse_reset
    make_key_sparse get_cost leg endurance_ms can_follow
late_in_both = refl

-- A chain beyond the one AMR has the first task, which is unallocated as well: the AMR gets it too.
beyond_not_counted :
    Path Repairing
      (fill_idle_amrs table two_tasks amrs
        (record { amr_tasks = [] ∷ (pos 0 ∷ []) ∷ []; unallocated = pos 0 ∷ []; log = [] }))
      (record { amr_tasks = (pos 0 ∷ []) ∷ (pos 0 ∷ []) ∷ []; unallocated = []; log = [] })
unfolding fill_idle_amrs extended put find elem ℕ_discrete ℤ_discrete sparse_put sparse_reset
    make_key_sparse get_cost leg is_assigned padded
beyond_not_counted = refl
