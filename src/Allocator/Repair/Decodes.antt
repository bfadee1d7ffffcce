-- ===== src/Allocator/Repair/Decodes.antt =====
-- The code that the repair writes decodes to the chains that it returns.
use agvscheduling.Prelude.{
  ℕ, zero, suc, ◌+◌, ◌≤◌, ◌≡◌, ◌≢◌, ◌∙◌, ap, refl, Bool, true, false, ◌&&◌, ℤ, pos, List, [], ◌∷◌,
  ◌++◌, Option, none, some, arith, inl, inr, Bool-cases, ℤ_discrete, elem, All, All-append, length,
  max, if◌then◌else◌, String, Double,
}
use agvscheduling.Allocation.{AllocationResult, parse_solution, code_separator}
use agvscheduling.Allocation.Codec.{
  count_separators, parse_solution-de_parse_solution, parse_solution_shape,
}
use agvscheduling.Fleet.{Task, Amr}
use agvscheduling.MapInfo.{MapInfo}
use agvscheduling.Cost.{SparseCost}
use agvscheduling.Allocator.{leg}
use agvscheduling.Allocator.Repair.{
  Repairing, LogEntry, padded, screen, overflow, non_charge, clean, clean_all,
}
use agvscheduling.Allocator.Repair.Insertion.{reinsert_all}
use agvscheduling.Allocator.Repair.Detour.{
  Cuts, cut_chain, cut_of, cut_position, detour, detour_all,
}
use agvscheduling.Allocator.Repair.Complete.{
  complete, cheapest, filled, unflag, fill_loop, fill_idle_amrs, repair_chains, repair_steps,
  repair_invalid_duties,
}
use agvscheduling.Allocator.Repair.Shape.{
  HaveAll, Fits, padded-HaveAll, take-All, screen-All, overflow-MoveAll, reinsert_all-Fits,
  clean-Fits,
}

length-padded_enough :
    (n : ℕ) (chains : List (List ℤ)) → n ≤ length chains → padded n chains ≡ chains
unfolding padded
length-padded_enough zero chains h = refl
length-padded_enough (suc n) [] h = absurd (omega arith)
length-padded_enough (suc n) (c ∷ chains) h =
    ap (λ x. c ∷ x) (length-padded_enough n chains (omega arith))

pub length-padded :
    (n : ℕ) (chains : List (List ℤ)) → length (padded n chains) ≡ max n (length chains)
unfolding padded
length-padded zero chains = omega arith
length-padded (suc n) [] = omega (arith, length-padded n [])
length-padded (suc n) (c ∷ chains) = omega (arith, length-padded n chains)

module _ (P : ℤ → Type 0) where
  cut_chain-All :
      (amr : ℕ) (cuts : Cuts) (cut : Option ℕ) (chain : List ℤ)
      → All P chain
      → All P (cut_chain amr cuts cut chain).0
  cut_chain-All amr cuts none chain h = h
  cut_chain-All amr cuts (some p) chain h = take-All P (max 1 p) chain h

  -- What a list of flagged tasks may have taken from it has the property.
  abbrev Found : {W : Type 0} → W × Option ℤ → Type 0
  Found (c, none) = Unit
  Found (c, some idx) = P idx

  module _ {W : Type 0} ⦃d : Double W⦄ (t : SparseCost W) (tasks : List Task)
      (indices : (i : ℕ) → P (pos i)) where
    detour-Fits :
        (pow : W → W → W) (global_map : Option (MapInfo W)) (n amr : ℕ) (amrs : List (Amr W))
        (chains : List (List ℤ))
        → Fits P n chains
        → Fits P n (detour t tasks pow global_map amr amrs chains).0
    unfolding detour
    detour-Fits pow global_map n amr [] chains h = h
    detour-Fits pow global_map n amr (a ∷ amrs) [] h = h
    detour-Fits pow global_map n amr (a ∷ amrs) (c ∷ chains) (len, h) =
        let (len', rest) =
          detour-Fits pow global_map (length chains) (suc amr) amrs chains (refl, h.1) in
        let cuts = cut_of t tasks pow global_map amr a c in
        (ap suc len' ∙ len, (cut_chain-All amr cuts (cut_position cuts) c h.0, rest))

    cheapest-Found :
        (amr : ℕ) (flagged : List ℤ) (i count : ℕ) (best : W × Option ℤ)
        → Found best
        → Found (cheapest t tasks amr flagged i count best)
    unfolding cheapest
    cheapest-Found amr flagged i zero best h = h
    cheapest-Found amr flagged i (suc count) best h =
        cheapest-Found amr flagged (suc i) count _
          (better (elem ℤ_discrete (pos i) flagged && d.lt (leg t tasks amr none (pos i)) best.0))
      where
        better :
            (b : Bool) → Found (if b then (leg t tasks amr none (pos i), some (pos i)) else best)
        better true = indices i
        better false = h

    filled-All :
        (chain : List ℤ) (best : W × Option ℤ)
        → Found best
        → All P chain
        → All P (filled chain best).0
    filled-All (x ∷ chain) best f h = h
    filled-All [] (cost, none) f h = tt
    filled-All [] (cost, some idx) f h = elim (Bool-cases (d.lt cost d.infinity)) [
      | inl e ↦ rw e (f, tt)
      | inr e ↦ rw e tt
    ]

    fill_loop-Fits :
        (n amr : ℕ) (amrs : List (Amr W)) (chains : List (List ℤ)) (flagged : List ℤ)
        → Fits P n chains
        → Fits P n (fill_loop t tasks amr amrs chains flagged).0
    unfolding fill_loop
    fill_loop-Fits n amr [] chains flagged h = h
    fill_loop-Fits n amr (a ∷ amrs) [] flagged h = h
    fill_loop-Fits n amr (a ∷ amrs) (c ∷ chains) flagged (len, h) =
        let best = cheapest t tasks amr flagged 0 (length tasks) (d.infinity, none) in
        let (len', rest) =
          fill_loop-Fits (length chains) (suc amr) amrs chains (unflag (filled c best).1 flagged)
            (refl, h.1) in
        (
          ap suc len' ∙ len,
          (
            filled-All c best (cheapest-Found amr flagged 0 (length tasks) (d.infinity, none) tt)
                h.0,
            rest,
          ),
        )

    repair_chains-Fits :
        (pow : W → W → W) (global_map : Option (MapInfo W)) (result : AllocationResult W)
        (amrs : List (Amr W))
        → HaveAll P (parse_solution result.code)
        → Fits P
            (length (padded (length amrs) (parse_solution result.code)))
            (repair_chains t tasks pow global_map result amrs).amr_tasks
    unfolding repair_chains detour_all clean_all
    repair_chains-Fits pow global_map result amrs h =
        let parsed = padded (length amrs) (parse_solution result.code) in
        let n = length parsed in
        let (fits, moves) =
          screen-All P t tasks n 0 amrs parsed
            (refl, padded-HaveAll P (length amrs) (parse_solution result.code) h) in
        let screened = screen t tasks 0 amrs parsed in
        let late = overflow t tasks 0 amrs screened.0 in
        let start : Repairing = record {
          amr_tasks = screened.0;
          unallocated = result.unallocated_task_ids;
          log = [];
        } in
        let times = non_charge t tasks 0 amrs screened.0 in
        let todo = screened.1 ++ late in
        let moved = reinsert_all t tasks amrs todo (start, times) in
        let cleaned = clean t tasks 0 amrs moved.0.amr_tasks in
        detour-Fits pow global_map n 0 amrs cleaned.0 (
          clean-Fits P t tasks n 0 amrs moved.0.amr_tasks (
            reinsert_all-Fits P t tasks n amrs todo start times fits (
              All-append _ screened.1 late moves
                (overflow-MoveAll P t tasks 0 amrs screened.0 fits.1))))

module _ {W : Type 0} ⦃d : Double W⦄ (t : SparseCost W) (tasks : List Task) (pow : W → W → W)
    (global_map : Option (MapInfo W)) (render : List LogEntry → String)
    (result : AllocationResult W) (amrs : List (Amr W)) where
  abbrev IsTask : ℤ → Type 0
  IsTask idx = idx ≢ code_separator

  is_task : (i : ℕ) → IsTask (pos i)
  is_task i h = ground arith

  -- As many chains as the code has, or one for each AMR where it has fewer.
  repaired-Fits :
      Fits IsTask
        (max (length amrs) (count_separators result.code + 1))
        (repair_invalid_duties t tasks pow global_map render result amrs).amr_tasks
  unfolding repair_invalid_duties repair_steps fill_idle_amrs complete
  repaired-Fits =
      let (count, chains) = parse_solution_shape result.code in
      let parsed = parse_solution result.code in
      let (len, h) = repair_chains-Fits IsTask t tasks is_task pow global_map result amrs chains in
      let before = (repair_chains t tasks pow global_map result amrs).amr_tasks in
      let wide = length-padded (length amrs) parsed in
      let same : padded (length amrs) before ≡ before =
        length-padded_enough (length amrs) before (omega (arith, len, wide)) in
      let total : length before ≡ max (length amrs) (count_separators result.code + 1) =
        omega (arith, len, wide, count) in
      fill_loop-Fits IsTask t tasks is_task _ 0 amrs (padded (length amrs) before) _
        (rw same (total, h))

  -- The repaired result has a chain for each chain of the code that it was given, and one at least for
  -- each AMR; and its own code decodes to its chains.
  pub repair_invalid_duties-decodes :
      let r = repair_invalid_duties t tasks pow global_map render result amrs in
      (length r.amr_tasks ≡ max (length amrs) (count_separators result.code + 1))
      × (parse_solution r.code ≡ r.amr_tasks)
  unfolding repair_invalid_duties
  repair_invalid_duties-decodes =
      let r = repair_invalid_duties t tasks pow global_map render result amrs in
      let (len, h) = repaired-Fits in
      (len, parse_solution-de_parse_solution r.amr_tasks (not_nil r.amr_tasks len) h)
    where
      not_nil :
          (cs : List (List ℤ))
          → length cs ≡ max (length amrs) (count_separators result.code + 1)
          → cs ≢ []
      not_nil [] e h = omega arith
      not_nil (c ∷ cs) e h = cc
