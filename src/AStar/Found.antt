-- ===== src/AStar/Found.antt =====
-- The `while` loop answers, and a path that it finds is a route of the map.
use agvscheduling.Prelude.{
  ℕ, zero, suc, ◌<◌, ◌≡◌, refl, ap, subst, true, minus_one, List, [], ◌∷◌, Option, none, some, ◌⊎◌,
  inl, inr, arith, length, find, All, map, Double,
}
use agvscheduling.MapInfo.{MapInfo}
use agvscheduling.AStar.{
  State, state_discrete, Query, OpenNode, Search, PathResult, reaches, take_out, taken, id_of,
  close, expand, with_ids, finish, not_found, found_path, search, start_search, enough,
}
use agvscheduling.AStar.Routes.{IsRoute, IsRooted, reconstruct_lem}
use agvscheduling.AStar.Invariant.{IsSound, close-IsSound, take_out-All}
use agvscheduling.AStar.Measure.{weight-states}
use agvscheduling.AStar.Ends.{IsState, AreStates, size, close-size, expand_cases}

length-take_out :
    {A : Type 0} (i : ℕ) (x : A) (xs : List A) → length (take_out i x xs).1 ≡ length xs
unfolding take_out
length-take_out zero x xs = refl
length-take_out (suc i) x [] = refl
length-take_out (suc i) x (y ∷ ys) = ap suc (length-take_out i y ys)

open_cases : {A : Type 0} (xs : List A) → (xs ≡ []) ⊎ ((x : A) × (rest : List A) × (xs ≡ x ∷ rest))
open_cases [] = inl refl
open_cases (x ∷ rest) = inr (x, rest, refl)

module _ {W : Type 0} ⦃d : Double W⦄ (sqrt : W → W) (top : List (OpenNode W) → ℕ) (m : MapInfo W)
    (q : Query W) where
  -- No path was found, or the path has the ids of a route from the start to the goal.
  abbrev pub IsAnswer : ℕ → ℕ → PathResult W → Type 0
  IsAnswer start goal r =
      (r ≡ not_found sqrt top m q)
      ⊎ ((route : List ℕ) × (r.found ≡ true)
          × (r.path ≡ map (id_of m) route)
          × IsRoute m q start goal route)

  module _ (start goal : ℕ) where
    pub record IsRunning (fuel : ℕ) (s : Search W) : Type 0 where
      pub sound : IsSound sqrt top m q start goal s
      pub inside : AreStates sqrt top m q start goal s.open_set
      pub small : size sqrt top m q start goal s < fuel

    abbrev pub Answered : Option (PathResult W) → Type 0
    Answered o = (r : PathResult W) × (o ≡ some r) × IsAnswer start goal r

    finish-reaches :
        (s : Search W) (current : OpenNode W) (next : Search W → Option (PathResult W))
        → IsSound sqrt top m q start goal s
        → IsRooted m q start goal s.came_from s.closed_set current.state
        → current.state.1 ≡ goal
        → Answered (finish sqrt top m q current (reaches s) next)
    finish-reaches s current next h r e =
        let (route, found, is_route) =
          reconstruct_lem m q start goal (suc (suc (length s.closed_set))) s.came_from s.closed_set
            current.state [] (omega arith) h.ordered r tt e in
        (
          found_path sqrt top m q current.g_score (map (id_of m) route),
          ap (with_ids sqrt top m q current.g_score) found,
          inr (route, refl, refl, is_route),
        )

    -- The search without the element on top.
    abbrev without_top : Search W → OpenNode W → List (OpenNode W) → Search W
    without_top s x xs = record s { open_set = (taken sqrt top m q x xs).1 }

    without_top-IsRunning :
        (fuel : ℕ) (s : Search W) (x : OpenNode W) (xs : List (OpenNode W))
        → s.open_set ≡ x ∷ xs
        → IsRunning (suc fuel) s
        → IsRunning fuel (without_top s x xs)
          × IsRooted m q start goal s.came_from s.closed_set (taken sqrt top m q x xs).0.state
          × IsState sqrt top m q start goal (taken sqrt top m q x xs).0.state
    without_top-IsRunning fuel s x xs e h =
        let i = top (x ∷ xs) in
        let rooted =
          subst (All (λ o. IsRooted m q start goal s.came_from s.closed_set o.state)) e
            h.sound.rooted in
        let inside = subst (AreStates sqrt top m q start goal) e h.inside in
        let (rooted_top, rooted_rest) =
          take_out-All sqrt top m q start goal
            (λ o. IsRooted m q start goal s.came_from s.closed_set o.state) i x xs rooted.0
            rooted.1 in
        let (inside_top, inside_rest) =
          take_out-All sqrt top m q start goal (λ o. IsState sqrt top m q start goal o.state) i x xs
            inside.0 inside.1 in
        let len : length s.open_set ≡ suc (length xs) = ap length e in
        (
          record {
            sound = record { ordered = h.sound.ordered; rooted = rooted_rest };
            inside = inside_rest;
            small = omega (arith, h.small, len, length-take_out i x xs);
          },
          rooted_top,
          inside_top,
        )

    search_turn :
        (fuel : ℕ) (s : Search W) (x : OpenNode W) (xs : List (OpenNode W))
        → s.open_set ≡ x ∷ xs
        → let current = (taken sqrt top m q x xs).0 in
          search sqrt top m q start goal (suc fuel) s
          ≡ finish sqrt top m q current
              (expand sqrt top m q start goal current (without_top s x xs))
              (search sqrt top m q start goal fuel)
    unfolding search
    search_turn fuel s x xs e = rw (search, e) refl

    search_stops :
        (fuel : ℕ) (s : Search W)
        → s.open_set ≡ []
        → search sqrt top m q start goal (suc fuel) s ≡ some (not_found sqrt top m q)
    unfolding search
    search_stops fuel s e = rw (search, e) refl

    no_parent : Path (Option State) (find {V = State} state_discrete (minus_one, start) []) none
    unfolding find
    no_parent = refl

    turn-answers :
        (fuel : ℕ) (s : Search W) (x : OpenNode W) (xs : List (OpenNode W))
        → s.open_set ≡ x ∷ xs
        → IsRunning (suc fuel) s
        → ((s' : Search W) → IsRunning fuel s' → Answered (search sqrt top m q start goal fuel s'))
        → Answered (search sqrt top m q start goal (suc fuel) s)
    turn-answers fuel s x xs e h go_on =
        let current = (taken sqrt top m q x xs).0 in
        let left = without_top s x xs in
        let next = search sqrt top m q start goal fuel in
        let (running, rooted, is_state) = without_top-IsRunning fuel s x xs e h in
        rw (search_turn fuel s x xs e) (elim (expand_cases sqrt top m q start goal left current) [
          | inl out ↦ rw out (go_on left running)
          | inr (inl (out, at_goal)) ↦
              rw out (finish-reaches left current next running.sound rooted at_goal)
          | inr (inr (out, fresh)) ↦
              let (inside, less) =
                close-size sqrt top m q start goal left current is_state fresh running.inside in
              rw out (
                go_on (close sqrt top m q start goal current left) (record {
                  sound = close-IsSound sqrt top m q start goal left current rooted running.sound;
                  inside = inside;
                  small = omega (arith, less, running.small);
                }))
        ])

    pub search-answers :
        (fuel : ℕ) (s : Search W)
        → IsRunning fuel s
        → Answered (search sqrt top m q start goal fuel s)
    search-answers zero s h = absurd (omega (arith, h.small))
    search-answers (suc fuel) s h = elim (open_cases s.open_set) [
      | inl e ↦ rw (search_stops fuel s e) (not_found sqrt top m q, refl, inl refl)
      | inr (x, xs, e) ↦ turn-answers fuel s x xs e h (search-answers fuel)
    ]

    pub start-IsRunning :
        start < length m.nodes
        → IsRunning (enough sqrt top m q) (start_search sqrt top m q start goal)
    start-IsRunning small = record {
      sound = record { ordered = tt; rooted = (inl (refl, no_parent), tt) };
      inside = ((small, inl refl), tt);
      small = omega (arith, weight-states m (length m.nodes));
    }
