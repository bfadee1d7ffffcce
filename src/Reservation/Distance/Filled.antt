-- ===== src/Reservation/Distance/Filled.antt =====
-- What holds of any conflict index that `configureDistanceConflict` fills: which node lists which.
use agvscheduling.Prelude.{
  ℕ, ◌+◌, ◌≡◌, ◌∙◌, sym, ap, subst, refl, true, ℤ, ℤ_discrete, List, [], ◌∷◌, none, some, find,
  elem, ◌⊎◌, inl, inr, arith, get_elem?,
}
use agvscheduling.MapInfo.{Node}
use agvscheduling.Reservation.{Table, blocked_by}
use agvscheduling.Reservation.Exclusion.{Conflicts}
use agvscheduling.Reservation.Blocked.{ListsItself, Conflicts-blocked_by}
use agvscheduling.Reservation.Distance.{fill_index}
use agvscheduling.Reservation.Distance.Conflicts.{NodeAt, find-fill_index, Writes}

pub same_node :
    {W : Type 0} (nodes : List (Node W)) (i j : ℕ) (n o : Node W)
    → j ≡ i
    → get_elem? nodes j ≡ some n
    → get_elem? nodes i ≡ some o
    → n ≡ o
same_node nodes i j n o e h k = cc

-- No two nodes with a valid id share it.
abbrev pub HasUniqueIds : {W : Type 0} → List (Node W) → Type 0
HasUniqueIds nodes =
    (i j : ℕ) (n o : Node _) (id : ℤ) → NodeAt nodes i n id → NodeAt nodes j o id → i ≡ j

-- What holds of any index that lists each node in its own entry.
module _ {W : Type 0} (nodes : List (Node W)) (ids : ℕ → Node W → List ℤ)
    (self : (idx : ℕ) (n : Node W) → elem ℤ_discrete n.id (ids idx n) ≡ true) (t : Table)
    (filled : t.conflicts ≡ fill_index ids 0 nodes []) where
  entry_of :
      (a : ℤ)
      → Writes ids nodes 0 a (find ℤ_discrete a t.conflicts)
        ⊎ (((place : ℕ) (n : Node W) → ¬ NodeAt nodes place n a)
            × (find ℤ_discrete a t.conflicts ≡ none))
  unfolding find
  entry_of a = rw filled (find-fill_index ids nodes 0 [] a)

  pub filled-ListsItself : ListsItself t
  filled-ListsItself a near h = elim (entry_of a) [
    | inl w ↦
        let e : near ≡ ids (0 + w.place) w.node = ground (arith, w.entry) in
        rw (e, ← w.at.named) (self (0 + w.place) w.node)
    | inr (absent, e) ↦ absurd (ground arith)
  ]

  -- The last node of the id lists `b` in its entry.
  pub record Lists (a b : ℤ) : Type 0 where
    pub place : ℕ
    pub node : Node W
    pub at : NodeAt nodes place node a
    pub lists : elem ℤ_discrete b (ids place node) ≡ true

  blocked_by-entry :
      (a : ℤ) (near : List ℤ) → find ℤ_discrete a t.conflicts ≡ some near → blocked_by t a ≡ near
  unfolding blocked_by elem
  blocked_by-entry a [] h = absurd (ground (arith, filled-ListsItself a [] h))
  blocked_by-entry a (x ∷ near) h = rw (blocked_by, h) refl

  blocked_by-none : (a : ℤ) → find ℤ_discrete a t.conflicts ≡ none → blocked_by t a ≡ a ∷ []
  unfolding blocked_by
  blocked_by-none a h = rw (blocked_by, h) refl

  pub Conflicts-Lists : (a b : ℤ) → Conflicts t a b → (a ≡ b) ⊎ Lists a b
  unfolding elem
  Conflicts-Lists a b c =
      let blocked = (Conflicts-blocked_by t a b filled-ListsItself).0 c in
      elim (entry_of a) [
        | inl w ↦ inr (record {
          place = w.place;
          node = w.node;
          at = w.at;
          lists =
              rw
                (← blocked_by-entry a (ids w.place w.node)
                  (w.entry ∙ ap (λ i. some (ids i w.node)) {x = 0 + w.place} (omega arith)))
                blocked;
        })
        | inr (absent, e) ↦
            inl (lone (subst (λ xs. elem ℤ_discrete b xs ≡ true) (blocked_by-none a e) blocked))
      ]
    where
      lone : elem ℤ_discrete b (a ∷ []) ≡ true → a ≡ b
      lone h = ground arith

  pub Lists-Conflicts : HasUniqueIds nodes → (a b : ℤ) → Lists a b → Conflicts t a b
  Lists-Conflicts unique a b l =
      (Conflicts-blocked_by t a b filled-ListsItself).1 (elim (entry_of a) [
        | inl w ↦
            let place_ : l.place ≡ w.place = unique l.place w.place l.node w.node a l.at w.at in
            let node_ : w.node ≡ l.node =
              same_node nodes l.place w.place w.node l.node (sym place_) w.at.listed l.at.listed in
            let entry : find ℤ_discrete a t.conflicts ≡ some (ids l.place l.node) =
              w.entry
              ∙ ap (λ i. some (ids i w.node)) {x = 0 + w.place} (omega (arith, place_))
              ∙ ap (λ o. some (ids l.place o)) node_ in
            rw (blocked_by-entry a (ids l.place l.node) entry) l.lists
        | inr (absent, e) ↦ absurd (absent l.place l.node l.at)
      ])
