-- ===== src/Allocator/Repair/Legs.antt =====
-- What the repair leaves in the chains can be driven: every leg costs less than infinity.
use agvscheduling.Prelude.{
  ℕ, zero, suc, ◌≡◌, refl, Bool, true, false, ◌&&◌, ℤ, pos, List, [], ◌∷◌, Option, none, some, inl,
  inr, Bool-cases, ℤ_discrete, elem, take, length, if◌then◌else◌, String, Double,
}
use agvscheduling.Allocation.{AllocationResult}
use agvscheduling.Fleet.{Task, Amr}
use agvscheduling.MapInfo.{MapInfo}
use agvscheduling.Cost.{SparseCost}
use agvscheduling.Allocator.{leg}
use agvscheduling.Allocator.Repair.{LogEntry, padded, can_follow, clean_chain, clean, clean_all}
use agvscheduling.Allocator.Repair.Detour.{
  Cuts, cut_chain, cut_of, cut_position, detour, detour_all,
}
use agvscheduling.Allocator.Repair.Complete.{
  complete, cheapest, filled, fill_loop, fill_idle_amrs, repair_chains, repair_steps,
  repair_invalid_duties,
}

module _ {W : Type 0} ⦃d : Double W⦄ (t : SparseCost W) (tasks : List Task) where
  -- Each leg of a chain costs less than infinity, from the task before.
  abbrev pub IsDrivable : ℕ → Option ℤ → List ℤ → Type 0
  IsDrivable amr prev [] = Unit
  IsDrivable amr prev (idx ∷ rest) =
      (d.lt (leg t tasks amr prev idx) d.infinity ≡ true) × IsDrivable amr (some idx) rest

  -- So is the chain of every AMR, from its number on.
  abbrev pub AreDrivable : ℕ → List (Amr W) → List (List ℤ) → Type 0
  AreDrivable amr [] chains = Unit
  AreDrivable amr (a ∷ amrs) [] = Unit
  AreDrivable amr (a ∷ amrs) (chain ∷ chains) =
      IsDrivable amr none chain × AreDrivable (suc amr) amrs chains

  clean_chain-IsDrivable :
      (amr : ℕ) (prev : Option ℤ) (chain : List ℤ)
      → IsDrivable amr prev (clean_chain t tasks amr prev chain).0
  unfolding clean_chain can_follow
  clean_chain-IsDrivable amr prev [] = tt
  clean_chain-IsDrivable amr prev (idx ∷ rest) =
      elim (Bool-cases (d.lt (leg t tasks amr prev idx) d.infinity)) [
        | inl e ↦ rw (clean_chain, e) (e, clean_chain-IsDrivable amr (some idx) rest)
        | inr e ↦ rw (clean_chain, e) (clean_chain-IsDrivable amr prev rest)
      ]

  clean-AreDrivable :
      (amr : ℕ) (amrs : List (Amr W)) (chains : List (List ℤ))
      → AreDrivable amr amrs (clean t tasks amr amrs chains).0
  unfolding clean
  clean-AreDrivable amr [] chains = tt
  clean-AreDrivable amr (a ∷ amrs) [] = tt
  clean-AreDrivable amr (a ∷ amrs) (chain ∷ chains) =
      (clean_chain-IsDrivable amr none chain, clean-AreDrivable (suc amr) amrs chains)

  take-IsDrivable :
      (amr n : ℕ) (prev : Option ℤ) (chain : List ℤ)
      → IsDrivable amr prev chain
      → IsDrivable amr prev (take n chain)
  take-IsDrivable amr zero prev chain h = tt
  take-IsDrivable amr (suc n) prev [] h = tt
  take-IsDrivable amr (suc n) prev (idx ∷ rest) h = (h.0, take-IsDrivable amr n (some idx) rest h.1)

  cut_chain-IsDrivable :
      (amr : ℕ) (cuts : Cuts) (cut : Option ℕ) (chain : List ℤ)
      → IsDrivable amr none chain
      → IsDrivable amr none (cut_chain amr cuts cut chain).0
  cut_chain-IsDrivable amr cuts none chain h = h
  cut_chain-IsDrivable amr cuts (some p) chain h = take-IsDrivable amr _ none chain h

  padded-AreDrivable :
      (n amr : ℕ) (amrs : List (Amr W)) (chains : List (List ℤ))
      → AreDrivable amr amrs chains
      → AreDrivable amr amrs (padded n chains)
  unfolding padded
  padded-AreDrivable zero amr amrs chains h = h
  padded-AreDrivable (suc n) amr [] chains h = tt
  padded-AreDrivable (suc n) amr (a ∷ amrs) [] h =
      (tt, padded-AreDrivable n (suc amr) amrs [] (nothing (suc amr) amrs))
    where
      nothing : (k : ℕ) (as_ : List (Amr W)) → AreDrivable k as_ []
      nothing k [] = tt
      nothing k (b ∷ as_) = tt
  padded-AreDrivable (suc n) amr (a ∷ amrs) (c ∷ chains) h =
      (h.0, padded-AreDrivable n (suc amr) amrs chains h.1)

  module _ (pow : W → W → W) (global_map : Option (MapInfo W)) where
    detour-AreDrivable :
        (amr : ℕ) (amrs : List (Amr W)) (chains : List (List ℤ))
        → AreDrivable amr amrs chains
        → AreDrivable amr amrs (detour t tasks pow global_map amr amrs chains).0
    unfolding detour
    detour-AreDrivable amr [] chains h = tt
    detour-AreDrivable amr (a ∷ amrs) [] h = tt
    detour-AreDrivable amr (a ∷ amrs) (chain ∷ chains) h =
        let cuts = cut_of t tasks pow global_map amr a chain in
        (
          cut_chain-IsDrivable amr cuts (cut_position cuts) chain h.0,
          detour-AreDrivable (suc amr) amrs chains h.1,
        )

  -- What `cheapest` finds has the cost that it says.
  abbrev HasCost : ℕ → W × Option ℤ → Type 0
  HasCost amr (c, none) = Unit
  HasCost amr (c, some idx) = c ≡ leg t tasks amr none idx

  cheapest-HasCost :
      (amr : ℕ) (flagged : List ℤ) (i count : ℕ) (best : W × Option ℤ)
      → HasCost amr best
      → HasCost amr (cheapest t tasks amr flagged i count best)
  unfolding cheapest
  cheapest-HasCost amr flagged i zero best h = h
  cheapest-HasCost amr flagged i (suc count) best h =
      cheapest-HasCost amr flagged (suc i) count _
        (better (elem ℤ_discrete (pos i) flagged && d.lt (leg t tasks amr none (pos i)) best.0))
    where
      better :
          (b : Bool)
          → HasCost amr (if b then (leg t tasks amr none (pos i), some (pos i)) else best)
      better true = refl
      better false = h

  filled-IsDrivable :
      (amr : ℕ) (chain : List ℤ) (best : W × Option ℤ)
      → HasCost amr best
      → IsDrivable amr none chain
      → IsDrivable amr none (filled chain best).0
  filled-IsDrivable amr (x ∷ chain) best c h = h
  filled-IsDrivable amr [] (cost, none) c h = tt
  filled-IsDrivable amr [] (cost, some idx) c h = elim (Bool-cases (d.lt cost d.infinity)) [
    | inl e ↦ rw e (rw (← c) e, tt)
    | inr e ↦ rw e tt
  ]

  fill_loop-AreDrivable :
      (amr : ℕ) (amrs : List (Amr W)) (chains : List (List ℤ)) (flagged : List ℤ)
      → AreDrivable amr amrs chains
      → AreDrivable amr amrs (fill_loop t tasks amr amrs chains flagged).0
  unfolding fill_loop
  fill_loop-AreDrivable amr [] chains flagged h = tt
  fill_loop-AreDrivable amr (a ∷ amrs) [] flagged h = tt
  fill_loop-AreDrivable amr (a ∷ amrs) (chain ∷ chains) flagged h = (
    filled-IsDrivable amr chain _
        (cheapest-HasCost amr flagged 0 (length tasks) (d.infinity, none) tt) h.0,
    fill_loop-AreDrivable (suc amr) amrs chains _ h.1,
  )

  -- After the repair every leg of a chain that belongs to an AMR costs less than infinity: that of its
  -- first task from the AMR's start, and that of each other task from the one before. Of chains beyond
  -- the AMRs nothing is said.
  pub repair_invalid_duties-AreDrivable :
      (render : List LogEntry → String) (pow : W → W → W) (global_map : Option (MapInfo W))
      (result : AllocationResult W) (amrs : List (Amr W))
      → AreDrivable 0 amrs
          (repair_invalid_duties t tasks pow global_map render result amrs).amr_tasks
  unfolding repair_invalid_duties repair_steps repair_chains fill_idle_amrs complete detour_all
      clean_all
  repair_invalid_duties-AreDrivable render pow global_map result amrs =
      fill_loop-AreDrivable 0 amrs _ _ (
        padded-AreDrivable (length amrs) 0 amrs _
          (detour-AreDrivable pow global_map 0 amrs _ (clean-AreDrivable 0 amrs _)))
