-- ===== src/Allocator/Greedy.antt =====
-- `GreedyTaskAllocator::allocate`: in each round every AMR asks for the task that costs it least, and
-- a task goes to the AMR that it costs least. `parse_iso` is the parser of times, `base_now` the clock's
-- reading and `coeff` the coefficient from the environment.
pub mod Rounds
pub mod Offers
pub mod Giving
pub mod Invariant
pub mod Whole
mod Tests
use agvscheduling.Prelude.{
  ℕ, zero, suc, ◌+◌, ◌-◌, Bool, true, false, not, ◌&&◌, ◌||◌, ℤ, pos, minus_one, String, List, [],
  ◌∷◌, ◌++◌, map, Option, none, some, if◌then◌else◌, ltb, ◌==◌, length, get_or, set, replicate,
  Double,
}
use agvscheduling.Allocation.{AllocationResult, de_parse_solution}
use agvscheduling.Fleet.{Task, Amr, default_task, is_blank}
use agvscheduling.MapInfo.{MapInfo}
use agvscheduling.Cost.{SparseCost}
use agvscheduling.Allocator.{leg, is_charging}
use agvscheduling.Allocator.Repair.{LogEntry}
use agvscheduling.Allocator.Repair.Complete.{repair_invalid_duties}

-- The variables of the loop.
pub record Assigning (W : Type 0) : Type 0 where
  pub amr_tasks : List (List ℤ)
  pub is_allocated : List Bool
  pub unallocated_num : ℕ
  pub amr_accum : List W

-- `bestTask` and `bestCost`.
pub record Choice (W : Type 0) : Type 0 where
  pub best_task : Option ℕ
  pub best_cost : W

-- `tempAllocate` and `tempCost`.
pub record Round (W : Type 0) : Type 0 where
  pub temp_allocate : List (Option ℕ)
  pub temp_cost : List W

-- `amrTasks[amrId].back()`, where there is one.
unfoldable pub last_of : List ℤ → Option ℤ
last_of [] = none
last_of (x ∷ []) = some x
last_of (x ∷ y ∷ xs) = last_of (y ∷ xs)

abbrev pub chain_of : {W : Type 0} → Assigning W → ℕ → List ℤ
chain_of s amr = get_or s.amr_tasks amr []

abbrev pub is_none : Option ℕ → Bool
is_none none = true
is_none (some a) = false

-- The AMRs without the thresholds of the detour.
unfoldable pub without_detour : {W : Type 0} → List (Amr W) → List (Amr W)
without_detour [] = []
without_detour (a ∷ amrs) =
    record a { max_time_ahead_ms = pos 0; max_detour_distance_mm = pos 0 } ∷ without_detour amrs

module _ {W : Type 0} ⦃d : Double W⦄ (t : SparseCost W) (tasks : List Task)
    (parse_iso : String → Option W) (base_now coeff : W) where
  -- `taskArriveSec`, -1 where there is no time.
  unfoldable pub arrive_sec : Task → W
  arrive_sec task =
      let missing = d.sub d.nought (d.of_int (pos 1)) in
      let ts =
        if is_blank task.create_timestamp_iso
        then task.expected_start_time_iso
        else task.create_timestamp_iso in
      if is_blank ts then missing else elim (parse_iso ts) [ none ↦ missing | some sec ↦ sec ]

  -- The cost with the penalty for waiting.
  unfoldable pub effective_cost : W → W → W → W
  effective_cost cost accum arrive =
      let start_sec = d.add base_now (d.div accum (d.of_int (pos 1000))) in
      let wait_sec = d.sub start_sec arrive in
      if d.lt d.nought coeff
        && d.lt d.nought base_now
        && d.lt d.nought arrive
        && d.lt d.nought wait_sec
      then d.add cost (d.mul (d.mul coeff wait_sec) (d.of_int (pos 1000)))
      else cost

  -- What the next task costs an AMR.
  abbrev pub cost_of : Assigning W → ℕ → ℕ → W
  cost_of s amr task = leg t tasks amr (last_of (chain_of s amr)) (pos task)

  -- The body of the loop over the tasks.
  unfoldable pub compare_task : Assigning W → Round W → ℕ → ℕ → Choice W → Choice W
  unfolding leg last_of arrive_sec effective_cost
  compare_task s r amr task best =
      let cost = cost_of s amr task in
      let accum = get_or s.amr_accum amr d.nought in
      let effective = effective_cost cost accum (arrive_sec (get_or tasks task default_task)) in
      let better =
        d.lt effective best.best_cost
        || (d.eq effective best.best_cost && is_none (get_or r.temp_allocate task none)) in
      if not (get_or s.is_allocated task true) && d.is_finite cost && better
      then record { best_task = some task; best_cost = effective }
      else best

  unfoldable pub choose : Assigning W → Round W → ℕ → ℕ → ℕ → Choice W → Choice W
  unfolding compare_task
  choose s r amr task zero best = best
  choose s r amr task (suc count) best =
      choose s r amr (suc task) count (compare_task s r amr task best)

  abbrev pub offered : Round W → ℕ → Choice W → Option ℕ → Round W
  offered r amr best none = r
  offered r amr best (some task) =
      if d.lt best.best_cost (get_or r.temp_cost task d.greatest)
      then record {
        temp_allocate = set r.temp_allocate task (some amr);
        temp_cost = set r.temp_cost task best.best_cost;
      }
      else r

  abbrev pub no_choice : Choice W
  no_choice = record { best_task = none; best_cost = d.greatest }

  abbrev pub choice_of : Assigning W → Round W → ℕ → Choice W
  choice_of s r amr = choose s r amr 0 (length tasks) no_choice

  -- The loop over the AMRs, of which `count` are left.
  unfoldable pub offer_all : Assigning W → ℕ → ℕ → Round W → Round W
  unfolding choose
  offer_all s amr zero r = r
  offer_all s amr (suc count) r =
      let best = choice_of s r amr in
      offer_all s (suc amr) count (offered r amr best best.best_task)

  -- A task becomes the last of an AMR.
  unfoldable pub give : Assigning W → ℕ → ℕ → Assigning W
  unfolding leg last_of
  give s task amr = record {
    amr_tasks = set s.amr_tasks amr (chain_of s amr ++ pos task ∷ []);
    is_allocated = set s.is_allocated task true;
    unallocated_num = s.unallocated_num - 1;
    amr_accum =
        if is_charging tasks (pos task)
        then s.amr_accum
        else set s.amr_accum amr (d.add (get_or s.amr_accum amr d.nought) (cost_of s amr task));
  }

  -- The loop over `tempAllocate`.
  unfoldable pub give_all : ℕ → List (Option ℕ) → Assigning W → Assigning W
  unfolding give
  give_all task [] s = s
  give_all task (none ∷ rest) s = give_all (suc task) rest s
  give_all task (some amr ∷ rest) s = give_all (suc task) rest (give s task amr)

  -- Which AMR each task is offered to in a round.
  unfoldable pub offers : ℕ → Assigning W → List (Option ℕ)
  unfolding offer_all
  offers amr_num s =
      let start : Round W = record {
        temp_allocate = replicate (length tasks) none;
        temp_cost = replicate (length tasks) d.greatest;
      } in
      (offer_all s 0 amr_num start).temp_allocate

  unfoldable pub round : ℕ → Assigning W → Assigning W
  unfolding offers give_all
  round amr_num s = give_all 0 (offers amr_num s) s

  -- The `while` loop; `none` where the fuel does not reach.
  unfoldable pub rounds : ℕ → ℕ → Assigning W → Option (Assigning W)
  unfolding round
  rounds amr_num zero s = none
  rounds amr_num (suc fuel) s = elim (ltb 0 s.unallocated_num) [
    | false ↦ some s
    | true ↦
        let next = round amr_num s in
        elim (next.unallocated_num == s.unallocated_num) [
          | true ↦ some next
          | false ↦ rounds amr_num fuel next
        ]
  ]

  unfoldable pub start_state : ℕ → Assigning W
  start_state amr_num = record {
    amr_tasks = replicate amr_num [];
    is_allocated = replicate (length tasks) false;
    unallocated_num = length tasks;
    amr_accum = replicate amr_num d.nought;
  }

  -- A round that does not end the loop takes a task off, so there is one more than tasks at most.
  unfoldable pub assign_greedily : ℕ → Option (Assigning W)
  unfolding rounds start_state
  assign_greedily amr_num = rounds amr_num (suc (length tasks)) (start_state amr_num)

  module _ (pow : W → W → W) (global_map : Option (MapInfo W))
      (render : List LogEntry → String) where
    -- The repair of what the loop gives, with the fields that the code leaves empty.
    abbrev pub finished : List (Amr W) → Option (Assigning W) → Option (AllocationResult W)
    finished amrs none = none
    finished amrs (some s) = some (
        repair_invalid_duties t tasks pow global_map render
          (record {
            amr_tasks = s.amr_tasks;
            code = de_parse_solution s.amr_tasks;
            repair_log = "";
            total_cost = d.nought;
            unallocated_task_ids = [];
          })
          (without_detour amrs))

    unfoldable pub allocate : List (Amr W) → Option (AllocationResult W)
    unfolding assign_greedily without_detour repair_invalid_duties
    allocate amrs = finished amrs (assign_greedily (length amrs))
