-- ===== src/Allocator/Repair.antt =====
-- `TaskAllocatorBase::repairInvalidDuties`, step by step. `render` writes the log's entries out, `pow`
-- is `std::pow`, and `global_map` is `g_map_info`, `none` for a null pointer.
pub mod Insertion
pub mod Detour
pub mod Legs
pub mod Complete
pub mod Cover
pub mod Shape
pub mod Decodes
mod Tests
use agvscheduling.Prelude.{
  ℕ, zero, suc, ◌+◌, Bool, true, false, not, ◌&&◌, ◌||◌, ℤ, pos, negsuc, minus_one, ℤ_discrete,
  String, List, [], ◌∷◌, ◌++◌, Option, none, some, ite, if◌then◌else◌, ltb, ◌==◌, length, elem,
  replicate, get_or, set, Double,
}
use agvscheduling.Allocation.{AllocationResult, in_range, parse_solution, de_parse_solution}
use agvscheduling.Fleet.{Task, Amr}
use agvscheduling.Cost.{SparseCost, get_cost, calculate_total_cost}
use agvscheduling.Allocator.{leg, endurance_ms, is_charging}

-- What a step writes to the log.
pub data LogEntry : Type 0 where
  no_amr : ℤ → LogEntry
  moved : ℤ → ℕ → ℕ → ℕ → LogEntry
  no_place : ℤ → LogEntry
  unreachable : ℤ → LogEntry
  cut_off : ℕ → Bool → Bool → ℕ → LogEntry

-- A task that has to move, with its AMR.
pub record Invalid : Type 0 where
  pub task : ℤ
  pub original_amr : ℕ

-- The chains, the unallocated tasks and the log, which the steps change.
pub record Repairing : Type 0 where
  pub amr_tasks : List (List ℤ)
  pub unallocated : List ℤ
  pub log : List LogEntry

-- `resize` of the chains that are fewer than the AMRs.
unfoldable pub padded : ℕ → List (List ℤ) → List (List ℤ)
padded zero chains = chains
padded (suc n) [] = [] ∷ padded n []
padded (suc n) (c ∷ chains) = c ∷ padded n chains

module _ {W : Type 0} ⦃d : Double W⦄ (t : SparseCost W) (tasks : List Task) where
  -- `getCost(...) < infinity` of a leg.
  unfoldable pub can_follow : ℕ → Option ℤ → ℤ → Bool
  unfolding leg
  can_follow amr prev cur = d.lt (leg t tasks amr prev cur) d.infinity

  -- Step 2: the tasks of an AMR that it can start with, and the others.
  unfoldable pub screen_chain : ℕ → List ℤ → List ℤ × List Invalid
  unfolding can_follow
  screen_chain amr [] = ([], [])
  screen_chain amr (idx ∷ rest) =
      let (valid, invalid) = screen_chain amr rest in
      if in_range idx (length tasks) && can_follow amr none idx
      then (idx ∷ valid, invalid)
      else (valid, record { task = idx; original_amr = amr } ∷ invalid)

  unfoldable pub screen : ℕ → List (Amr W) → List (List ℤ) → List (List ℤ) × List Invalid
  unfolding screen_chain
  screen amr [] chains = (chains, [])
  screen amr (a ∷ amrs) [] = ([], [])
  screen amr (a ∷ amrs) (chain ∷ chains) =
      let (valid, invalid) = screen_chain amr chain in
      let (rest, more) = screen (suc amr) amrs chains in (valid ∷ rest, invalid ++ more)

  -- The time of a chain without its charging tasks, from the task before.
  abbrev pub spent : W → ℕ → Option ℤ → ℤ → W
  spent acc amr prev idx =
      if is_charging tasks idx then acc else d.add acc (leg t tasks amr prev idx)

  -- Step 3: the tasks at which an AMR's time is over its endurance. They stay in the chain.
  unfoldable pub overflow_chain : ℕ → W → Option ℤ → W → List ℤ → List Invalid
  unfolding leg
  overflow_chain amr limit prev acc [] = []
  overflow_chain amr limit prev acc (idx ∷ rest) =
      let acc' = spent acc amr prev idx in
      let more = overflow_chain amr limit (some idx) acc' rest in
      if d.lt limit acc' then record { task = idx; original_amr = amr } ∷ more else more

  unfoldable pub overflow : ℕ → List (Amr W) → List (List ℤ) → List Invalid
  unfolding overflow_chain endurance_ms
  overflow amr [] chains = []
  overflow amr (a ∷ amrs) [] = []
  overflow amr (a ∷ amrs) (chain ∷ chains) =
      overflow_chain amr (endurance_ms a) none d.nought chain ++ overflow (suc amr) amrs chains

  unfoldable pub non_charge_chain : ℕ → Option ℤ → W → List ℤ → W
  unfolding leg
  non_charge_chain amr prev acc [] = acc
  non_charge_chain amr prev acc (idx ∷ rest) =
      non_charge_chain amr (some idx) (spent acc amr prev idx) rest

  -- `amrNonCharge`
  unfoldable pub non_charge : ℕ → List (Amr W) → List (List ℤ) → List W
  unfolding non_charge_chain
  non_charge amr [] chains = []
  non_charge amr (a ∷ amrs) [] = d.nought ∷ non_charge (suc amr) amrs []
  non_charge amr (a ∷ amrs) (chain ∷ chains) =
      non_charge_chain amr none d.nought chain ∷ non_charge (suc amr) amrs chains

  -- Step 5: tasks that cannot follow the one before are taken out.
  unfoldable pub clean_chain : ℕ → Option ℤ → List ℤ → List ℤ × List ℤ
  unfolding can_follow
  clean_chain amr prev [] = ([], [])
  clean_chain amr prev (cur ∷ rest) = elim (can_follow amr prev cur) [
    | true ↦ let (kept, gone) = clean_chain amr (some cur) rest in (cur ∷ kept, gone)
    | false ↦ let (kept, gone) = clean_chain amr prev rest in (kept, cur ∷ gone)
  ]

  abbrev pub removed_log : List ℤ → List LogEntry
  removed_log [] = []
  removed_log (cur ∷ rest) = unreachable cur ∷ removed_log rest

  unfoldable pub clean : ℕ → List (Amr W) → List (List ℤ) → List (List ℤ) × List ℤ
  unfolding clean_chain
  clean amr [] chains = (chains, [])
  clean amr (a ∷ amrs) [] = ([], [])
  clean amr (a ∷ amrs) (chain ∷ chains) =
      let (kept, gone) = clean_chain amr none chain in
      let (rest, more) = clean (suc amr) amrs chains in (kept ∷ rest, gone ++ more)

  unfoldable pub clean_all : List (Amr W) → Repairing → Repairing
  unfolding clean
  clean_all amrs r =
      let (chains, gone) = clean 0 amrs r.amr_tasks in
      record {
        amr_tasks = chains;
        unallocated = r.unallocated ++ gone;
        log = r.log ++ removed_log gone;
      }
