-- ===== src/AStar/Invariant.antt =====
-- What the search keeps: every closed and every open state leads back to the start.
use agvscheduling.Prelude.{
  ℕ, zero, suc, ◌≡◌, ◌≢◌, ◌∙◌, sym, refl, subst, true, false, pos, ℕ_discrete, List, [], ◌∷◌, some,
  ◌⊎◌, inl, inr, arith, Bool-cases, elem, find, find-put, put, All, Double,
}
use mathlib.Core.Logic.{if_pos, if_neg}
use agvscheduling.MapInfo.{MapInfo}
use agvscheduling.AStar.{
  State, state_discrete, Query, OpenNode, Search, may_enter, after, tentative, improves, reach,
  visit, visit_all, close, take_out,
}
use agvscheduling.AStar.Routes.{IsAllowed, IsRooted, AreOrdered}

module _ {W : Type 0} ⦃d : Double W⦄ (sqrt : W → W) (top : List (OpenNode W) → ℕ) (m : MapInfo W)
    (q : Query W) (start goal : ℕ) where
  abbrev Rooted : List (State × State) → List State → State → Type 0
  Rooted = IsRooted m q start goal

  -- The closed states are ordered, and every open state is rooted in them.
  pub record IsSound (s : Search W) : Type 0 where
    pub ordered : AreOrdered m q start goal s.came_from s.closed_set
    pub rooted : All (λ o. Rooted s.came_from s.closed_set o.state) s.open_set

  find-put_other :
      (came : List (State × State)) (next p s : State)
      → next ≢ s
      → find state_discrete s (put state_discrete next p came) ≡ find state_discrete s came
  find-put_other came next p s ne =
      find-put state_discrete next s p came
      ∙ if_neg (state_discrete next s) ne (some p) (find state_discrete s came)

  find-put_same :
      (came : List (State × State)) (next p : State)
      → find state_discrete next (put state_discrete next p came) ≡ some p
  find-put_same came next p =
      find-put state_discrete next next p came
      ∙ if_pos (state_discrete next next) refl (some p) (find state_discrete next came)

  put-Rooted :
      (came : List (State × State)) (earlier : List State) (next p s : State)
      → next ≢ s
      → Rooted came earlier s
      → Rooted (put state_discrete next p came) earlier s
  put-Rooted came earlier next p s ne (inl (is_root, e)) =
      inl (is_root, find-put_other came next p s ne ∙ e)
  put-Rooted came earlier next p s ne (inr (r, e, parent, inside)) =
      inr (r, find-put_other came next p s ne ∙ e, parent, inside)

  -- A new parent for a state that is not closed.
  put-AreOrdered :
      (came : List (State × State)) (closed : List State) (next p : State)
      → elem state_discrete next closed ≡ false
      → AreOrdered m q start goal came closed
      → AreOrdered m q start goal (put state_discrete next p came) closed
  unfolding elem
  put-AreOrdered came [] next p h o = tt
  put-AreOrdered came (s ∷ closed) next p h o = elim (state_discrete s next) [
    | yes e ↦ absurd (ground (arith, h, e))
    | no ne ↦ (
      put-Rooted came closed next p s (λ e. ne (sym e)) o.0,
      put-AreOrdered came closed next p (ground (arith, h, ne)) o.1,
    )
  ]

  new-Rooted :
      (came : List (State × State)) (closed : List State) (current : State) (next : ℕ) (s : State)
      → IsAllowed m q start goal current.1 next
      → elem state_discrete current closed ≡ true
      → Rooted came closed s
      → Rooted (put state_discrete (pos current.1, next) current came) closed s
  new-Rooted came closed current next s allowed inside r =
      let state : State = (pos current.1, next) in
      elim (state_discrete state s) [
        | no ne ↦ put-Rooted came closed state current s ne r
        | yes e ↦
            subst (Rooted (put state_discrete state current came) closed) e
              (inr (current, find-put_same came state current, (refl, allowed), inside))
      ]

  put-All-Rooted :
      (came : List (State × State)) (closed : List State) (current : State) (next : ℕ)
      (open_set : List (OpenNode W))
      → IsAllowed m q start goal current.1 next
      → elem state_discrete current closed ≡ true
      → All (λ o. Rooted came closed o.state) open_set
      → All
          (λ o. Rooted (put state_discrete (pos current.1, next) current came) closed o.state)
          open_set
  put-All-Rooted came closed current next [] allowed inside r = tt
  put-All-Rooted came closed current next (o ∷ rest) allowed inside r = (
    new-Rooted came closed current next o.state allowed inside r.0,
    put-All-Rooted came closed current next rest allowed inside r.1,
  )

  reach-IsSound :
      (s : Search W) (current : OpenNode W) (next : ℕ)
      → IsAllowed m q start goal current.state.1 next
      → elem state_discrete (pos current.state.1, next) s.closed_set ≡ false
      → elem state_discrete current.state s.closed_set ≡ true
      → IsSound s
      → IsSound (reach sqrt top m q goal s current next)
  unfolding reach
  reach-IsSound s current next allowed fresh inside h =
      let state : State = (pos current.state.1, next) in
      let came = put state_discrete state current.state s.came_from in
      elim (Bool-cases (
        improves sqrt top m q (tentative sqrt top m q current next)
          (find state_discrete state s.g_scores))) [
            | inr e ↦ rw (reach, e) h
            | inl e ↦
                rw (reach, e)
                  (record {
                    ordered =
                        put-AreOrdered s.came_from s.closed_set state current.state fresh h.ordered;
                    rooted = (
                      inr (
                        current.state,
                        find-put_same s.came_from state current.state,
                        (refl, allowed),
                        inside,
                      ),
                      put-All-Rooted s.came_from s.closed_set current.state next s.open_set allowed
                          inside h.rooted,
                    );
                  })
          ]

  pub closed-reach :
      (s : Search W) (current : OpenNode W) (next : ℕ)
      → (reach sqrt top m q goal s current next).closed_set ≡ s.closed_set
  unfolding reach
  closed-reach s current next =
      elim (Bool-cases (
        improves sqrt top m q (tentative sqrt top m q current next)
          (find state_discrete (pos current.state.1, next) s.g_scores))) [
            | inl e ↦ rw (reach, e) refl
            | inr e ↦ rw (reach, e) refl
          ]

  pub visit_cases :
      (s : Search W) (current : OpenNode W) (next : ℕ)
      → (visit sqrt top m q start goal s current next ≡ s)
        ⊎ ((visit sqrt top m q start goal s current next ≡ reach sqrt top m q goal s current next)
            × (may_enter m q start goal current.state.1 next ≡ true)
            × (elem state_discrete (pos current.state.1, next) s.closed_set ≡ false))
  unfolding visit
  visit_cases s current next = elim (Bool-cases (may_enter m q start goal current.state.1 next)) [
    | inr e ↦ inl (rw (visit, e) refl)
    | inl e ↦ elim (Bool-cases (elem state_discrete (pos current.state.1, next) s.closed_set)) [
      | inl e' ↦ inl (rw (visit, e, e') refl)
      | inr e' ↦ inr (rw (visit, e, e') refl, e, e')
    ]
  ]

  -- A visit keeps the search sound, and what is closed.
  pub record Keeps (s s' : Search W) : Type 0 where
    pub sound : IsSound s'
    pub same : s'.closed_set ≡ s.closed_set

  visit_all-Keeps :
      (current : OpenNode W) (nexts : List ℕ) (s : Search W)
      → All (λ v. elem ℕ_discrete v (after m current.state.1) ≡ true) nexts
      → elem state_discrete current.state s.closed_set ≡ true
      → IsSound s
      → Keeps s (visit_all sqrt top m q start goal current nexts s)
  unfolding visit_all
  visit_all-Keeps current [] s edges inside h = record { sound = h; same = refl }
  visit_all-Keeps current (next ∷ rest) s edges inside h = elim (visit_cases s current next) [
    | inl e ↦ rw (visit_all, e) (visit_all-Keeps current rest s edges.1 inside h)
    | inr (e, may, fresh) ↦
        let s' = reach sqrt top m q goal s current next in
        let same = closed-reach s current next in
        let k =
          visit_all-Keeps current rest s' edges.1 (rw same inside)
            (reach-IsSound s current next (edges.0, may) fresh inside h) in
        rw (visit_all, e) (record { sound = k.sound; same = k.same ∙ same })
  ]

  widen-Rooted :
      (came : List (State × State)) (closed : List State) (c s : State)
      → Rooted came closed s
      → Rooted came (c ∷ closed) s
  unfolding elem
  widen-Rooted came closed c s (inl r) = inl r
  widen-Rooted came closed c s (inr (p, e, parent, inside)) =
      inr (p, e, parent, ground (arith, inside))

  widen-All :
      (came : List (State × State)) (closed : List State) (c : State) (open_set : List (OpenNode W))
      → All (λ o. Rooted came closed o.state) open_set
      → All (λ o. Rooted came (c ∷ closed) o.state) open_set
  widen-All came closed c [] r = tt
  widen-All came closed c (o ∷ rest) r =
      (widen-Rooted came closed c o.state r.0, widen-All came closed c rest r.1)

  self_elem : (c : State) (closed : List State) → elem state_discrete c (c ∷ closed) ≡ true
  unfolding elem
  self_elem c closed = if_pos (state_discrete c c) refl true (elem state_discrete c closed)

  members :
      (xs ys : List ℕ)
      → ((v : ℕ) → elem ℕ_discrete v xs ≡ true → elem ℕ_discrete v ys ≡ true)
      → All (λ v. elem ℕ_discrete v ys ≡ true) xs
  unfolding elem
  members [] ys h = tt
  members (x ∷ xs) ys h = (h x (ground arith), members xs ys (λ v k. h v (ground (arith, k))))

  -- Closing a rooted state keeps the search sound.
  pub close-IsSound :
      (s : Search W) (current : OpenNode W)
      → Rooted s.came_from s.closed_set current.state
      → IsSound s
      → IsSound (close sqrt top m q start goal current s)
  unfolding close
  close-IsSound s current r h =
      let nexts = after m current.state.1 in
      (visit_all-Keeps current nexts (record s { closed_set = current.state ∷ s.closed_set })
        (members nexts nexts (λ v k. k)) (self_elem current.state s.closed_set)
        (record {
          ordered = (r, h.ordered);
          rooted = widen-All s.came_from s.closed_set current.state s.open_set h.rooted;
        })).sound

  -- Taking an element out splits what holds of all.
  pub take_out-All :
      (P : OpenNode W → Type 0) (i : ℕ) (x : OpenNode W) (xs : List (OpenNode W))
      → P x
      → All P xs
      → P (take_out i x xs).0 × All P (take_out i x xs).1
  unfolding take_out
  take_out-All P zero x xs h k = (h, k)
  take_out-All P (suc i) x [] h k = (h, tt)
  take_out-All P (suc i) x (y ∷ ys) h k = let (a, b) = take_out-All P i y ys k.0 k.1 in (a, (h, b))
