-- ===== src/AStar/Routes.antt =====
-- `reconstructPath` walks back to the start along edges that the search may take.
use agvscheduling.Prelude.{
  ℕ, zero, suc, ◌<◌, ◌≡◌, refl, ap, subst, true, pos, minus_one, ℕ_discrete, List, [], ◌∷◌, none,
  some, ◌⊎◌, inl, inr, arith, length, elem, find,
}
use agvscheduling.MapInfo.{MapInfo}
use agvscheduling.AStar.{State, state_discrete, Query, may_enter, after, reconstruct}

module _ {W : Type 0} (m : MapInfo W) (q : Query W) (start goal : ℕ) where
  -- There is an edge, and the search may take it.
  abbrev pub IsAllowed : ℕ → ℕ → Type 0
  IsAllowed u v = (elem ℕ_discrete v (after m u) ≡ true) × (may_enter m q start goal u v ≡ true)

  -- Each index of a route is reached from the one before.
  abbrev pub IsLinked : List ℕ → Type 0
  IsLinked [] = Unit
  IsLinked (u ∷ []) = Unit
  IsLinked (u ∷ v ∷ rest) = IsAllowed u v × IsLinked (v ∷ rest)

  abbrev pub EndsAt : ℕ → List ℕ → Type 0
  EndsAt at [] = ⊥
  EndsAt at (u ∷ []) = u ≡ at
  EndsAt at (u ∷ v ∷ rest) = EndsAt at (v ∷ rest)

  abbrev pub BeginsAt : ℕ → List ℕ → Type 0
  BeginsAt at [] = ⊥
  BeginsAt at (u ∷ rest) = u ≡ at

  -- A route from the start to the goal.
  pub record IsRoute (route : List ℕ) : Type 0 where
    pub begins : BeginsAt start route
    pub ends : EndsAt goal route
    pub linked : IsLinked route

  abbrev pub root : State
  root = (minus_one, start)

  abbrev pub IsParent : State → State → Type 0
  IsParent p s = (s.0 ≡ pos p.1) × IsAllowed p.1 s.1

  -- A state is the start, or it has come from one of the states closed earlier.
  abbrev pub IsRooted : List (State × State) → List State → State → Type 0
  IsRooted came earlier s =
      ((s ≡ root) × (find state_discrete s came ≡ none))
      ⊎ ((p : State) × (find state_discrete s came ≡ some p)
          × IsParent p s
          × (elem state_discrete p earlier ≡ true))

  -- Every closed state is rooted in those that were closed before it.
  abbrev pub AreOrdered : List (State × State) → List State → Type 0
  AreOrdered came [] = Unit
  AreOrdered came (s ∷ earlier) = IsRooted came earlier s × AreOrdered came earlier

  -- The states that were closed before one of them.
  record Before (came : List (State × State)) (closed : List State) (p : State) : Type 0 where
    earlier : List State
    rooted : IsRooted came earlier p
    ordered : AreOrdered came earlier
    shorter : length earlier < length closed

  before :
      (came : List (State × State)) (closed : List State) (p : State)
      → AreOrdered came closed
      → elem state_discrete p closed ≡ true
      → Before came closed p
  unfolding elem
  before came [] p o h = absurd (ground (arith, h))
  before came (s ∷ earlier) p o h = elim (state_discrete s p) [
    | yes e ↦ record {
      earlier = earlier;
      rooted = subst (IsRooted came earlier) e o.0;
      ordered = o.1;
      shorter = omega arith;
    }
    | no ne ↦
        let b = before came earlier p o.1 (ground (arith, h, ne)) in
        record {
          earlier = b.earlier;
          rooted = b.rooted;
          ordered = b.ordered;
          shorter = omega (arith, b.shorter);
        }
  ]

  -- With fuel for each closed state the walk ends at the start.
  pub reconstruct_lem :
      (fuel : ℕ) (came : List (State × State)) (closed : List State) (s : State) (later : List ℕ)
      → length closed < fuel
      → AreOrdered came closed
      → IsRooted came closed s
      → IsLinked (s.1 ∷ later)
      → EndsAt goal (s.1 ∷ later)
      → (route : List ℕ) × (reconstruct fuel came s later ≡ some route) × IsRoute route
  unfolding reconstruct
  reconstruct_lem zero came closed s later small o r l e = absurd (omega arith)
  reconstruct_lem (suc fuel) came closed s later small o (inl (is_root, none_)) l e = (
    s.1 ∷ later,
    rw (reconstruct, none_) refl,
    record { begins = ap (λ x. x.1) is_root; ends = e; linked = l },
  )
  reconstruct_lem (suc fuel) came closed s later small o (inr (p, found, (here, allowed), inside)) l
        e =
      let b = before came closed p o inside in
      rw (reconstruct, found)
        (reconstruct_lem fuel came b.earlier p (s.1 ∷ later) (omega (arith, b.shorter)) b.ordered
          b.rooted (allowed, l) e)
