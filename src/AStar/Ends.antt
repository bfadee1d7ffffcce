-- ===== src/AStar/Ends.antt =====
-- Each turn of the loop takes an open element off, or an edge, so the loop ends.
use agvscheduling.Prelude.{
  ℕ, zero, suc, ◌+◌, ◌≤◌, ◌<◌, ◌≡◌, ◌∙◌, sym, refl, ap, subst, true, false, pos, minus_one, List,
  [], ◌∷◌, some, ◌⊎◌, inl, inr, arith, Bool-cases, Option-cases, ==_iff, ◌==◌, length, get_elem?,
  elem, find, All, Double,
}
use agvscheduling.MapInfo.{Node, MapInfo}
use agvscheduling.AStar.{
  State, state_discrete, Query, OpenNode, Search, reaches, goes_on, may_enter, after, tentative,
  improves, reach, visit_all, close, is_stale, expand,
}
use agvscheduling.AStar.Invariant.{visit_cases, closed-reach}
use agvscheduling.AStar.Measure.{states, weight, weight_close, elem-states, elem-states_start}

module _ {W : Type 0} ⦃d : Double W⦄ (sqrt : W → W) (top : List (OpenNode W) → ℕ) (m : MapInfo W)
    (q : Query W) (start goal : ℕ) where
  abbrev pub count : ℕ
  count = length m.nodes

  -- A state of nodes of the map.
  abbrev pub IsState : State → Type 0
  IsState s = (s.1 < count) × ((s.0 ≡ minus_one) ⊎ ((p : ℕ) × (s.0 ≡ pos p) × (p < count)))

  IsState-elem : (s : State) → IsState s → elem state_discrete s (states count) ≡ true
  IsState-elem (p, c) (small, inl e) =
      subst (λ x. elem state_discrete (x, c) (states count) ≡ true) (sym e)
        (elem-states_start c count small)
  IsState-elem (p, c) (small, inr (i, e, low)) =
      subst (λ x. elem state_discrete (x, c) (states count) ≡ true) (sym e)
        (elem-states i c count low small)

  abbrev pub AreStates : List (OpenNode W) → Type 0
  AreStates = All (λ o. IsState o.state)

  get_elem_in_range :
      (ns : List (Node W)) (i : ℕ) (n : Node W) → get_elem? ns i ≡ some n → i < length ns
  get_elem_in_range [] i n h = cc
  get_elem_in_range (x ∷ ns) zero n h = omega arith
  get_elem_in_range (x ∷ ns) (suc i) n h = omega (arith, get_elem_in_range ns i n h)

  may_enter-in_range : (u v : ℕ) → may_enter m q start goal u v ≡ true → v < count
  unfolding may_enter
  may_enter-in_range u v h = elim (Option-cases (get_elem? m.nodes v)) [
    | inl e ↦ absurd (no_entry (rw (may_enter, e) refl))
    | inr (n, e) ↦ get_elem_in_range m.nodes v n e
  ]
    where
      no_entry : may_enter m q start goal u v ≡ false → ⊥
      no_entry e = ground (arith, h, e)

  -- A visit opens one state of the map at most.
  reach_fits :
      (s : Search W) (current : OpenNode W) (next : ℕ)
      → current.state.1 < count
      → next < count
      → AreStates s.open_set
      → let s' = reach sqrt top m q goal s current next in
        AreStates s'.open_set × (length s'.open_set ≤ suc (length s.open_set))
  unfolding reach
  reach_fits s current next here there h =
      let state : State = (pos current.state.1, next) in
      elim (Bool-cases (
        improves sqrt top m q (tentative sqrt top m q current next)
          (find state_discrete state s.g_scores))) [
            | inl e ↦ rw (reach, e) (((there, inr (current.state.1, refl, here)), h), omega arith)
            | inr e ↦ rw (reach, e) (h, omega arith)
          ]

  record Fits (more : ℕ) (s s' : Search W) : Type 0 where
    inside : AreStates s'.open_set
    few : length s'.open_set ≤ length s.open_set + more
    same : s'.closed_set ≡ s.closed_set

  visit_all-Fits :
      (current : OpenNode W) (nexts : List ℕ) (s : Search W)
      → current.state.1 < count
      → AreStates s.open_set
      → Fits (length nexts) s (visit_all sqrt top m q start goal current nexts s)
  unfolding visit_all
  visit_all-Fits current [] s here h = record { inside = h; few = omega arith; same = refl }
  visit_all-Fits current (next ∷ rest) s here h =
      elim (visit_cases sqrt top m q start goal s current next) [
        | inl e ↦
            let f = visit_all-Fits current rest s here h in
            rw (visit_all, e)
              (record { inside = f.inside; few = omega (arith, f.few); same = f.same })
        | inr (e, may, fresh) ↦
            let (states_, one) =
              reach_fits s current next here (may_enter-in_range current.state.1 next may) h in
            let f =
              visit_all-Fits current rest (reach sqrt top m q goal s current next) here states_ in
            rw (visit_all, e)
              (record {
                inside = f.inside;
                few = omega (arith, f.few, one);
                same = f.same ∙ closed-reach sqrt top m q start goal s current next;
              })
      ]

  abbrev pub size : Search W → ℕ
  size s = length s.open_set + weight m s.closed_set (states count)

  -- Closing a state of the map takes as many edges off as it may open states.
  pub close-size :
      (s : Search W) (current : OpenNode W)
      → IsState current.state
      → elem state_discrete current.state s.closed_set ≡ false
      → AreStates s.open_set
      → let s' = close sqrt top m q start goal current s in
        AreStates s'.open_set × (size s' ≤ size s)
  unfolding close
  close-size s current is_state fresh h =
      let opened : Search W = record s { closed_set = current.state ∷ s.closed_set } in
      let f = visit_all-Fits current (after m current.state.1) opened is_state.0 h in
      let less =
        weight_close m current.state s.closed_set (states count)
          (IsState-elem current.state is_state) fresh in
      let s' = visit_all sqrt top m q start goal current (after m current.state.1) opened in
      let same : weight m s'.closed_set (states count)
          ≡ weight m (current.state ∷ s.closed_set) (states count) =
        ap (λ c. weight m c (states count)) f.same in
      (f.inside, omega (arith, f.few, less, same))

  -- What a step does with the element on top.
  pub expand_cases :
      (s : Search W) (current : OpenNode W)
      → let out = expand sqrt top m q start goal current s in
        (out ≡ goes_on s)
        ⊎ ((out ≡ reaches s) × (current.state.1 ≡ goal))
        ⊎ ((out ≡ goes_on (close sqrt top m q start goal current s))
            × (elem state_discrete current.state s.closed_set ≡ false))
  unfolding expand
  expand_cases s current =
      elim (Bool-cases
        (is_stale sqrt top m q current (find state_discrete current.state s.g_scores))) [
          | inl e ↦ inl (rw (expand, e) refl)
          | inr e ↦ elim (Bool-cases (current.state.1 == goal)) [
            | inl e' ↦ inr (inl (rw (expand, e, e') refl, (==_iff current.state.1 goal).0 e'))
            | inr e' ↦ elim (Bool-cases (elem state_discrete current.state s.closed_set)) [
              | inl c ↦ inl (rw (expand, e, e', c) refl)
              | inr c ↦ inr (inr (rw (expand, e, e', c) refl, c))
            ]
          ]
        ]
