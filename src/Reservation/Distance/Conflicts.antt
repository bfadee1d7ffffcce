-- ===== src/Reservation/Distance/Conflicts.antt =====
-- Which nodes conflict once `configureDistanceConflict` has run.
use agvscheduling.Prelude.{
  ℕ, zero, suc, ◌+◌, ◌≡◌, ◌≢◌, ◌∙◌, ap, refl, true, false, ℤ, ℤ_discrete, ℕ_discrete, is_negative,
  List, [], ◌∷◌, Option, some, find, find-put, put, elem, elem_append_cases, elem-append_left,
  elem-append_right, ◌⊎◌, ◌↔◌, inl, inr, arith, Option-cases, Bool-cases, get_elem?, Double,
  if◌then◌else◌, ◌==◌, ==_iff,
}
use mathlib.Core.Logic.{if_pos, if_neg}
use agvscheduling.MapInfo.{Node}
use agvscheduling.Reservation.Distance.{is_within, near_in_cell, near_node, fill_index}

module _ {W : Type 0} where
  -- A place of the list of nodes, with the node that stands there.
  pub record NodeAt (nodes : List (Node W)) (place : ℕ) (n : Node W) (id : ℤ) : Type 0 where
    pub listed : get_elem? nodes place ≡ some n
    pub valid : is_negative n.id ≡ false
    pub named : n.id ≡ id

  module _ (ids : ℕ → Node W → List ℤ) where
    -- The last node of an id writes its entry.
    pub record Writes (ns : List (Node W)) (idx : ℕ) (k : ℤ) (written : Option (List ℤ))
        : Type 0 where
      pub place : ℕ
      pub node : Node W
      pub at : NodeAt ns place node k
      pub entry : written ≡ some (ids (idx + place) node)

    later-Writes :
        (n : Node W) (ns : List (Node W)) (idx : ℕ) (k : ℤ) (written : Option (List ℤ))
        → Writes ns (suc idx) k written
        → Writes (n ∷ ns) idx k written
    later-Writes n ns idx k written w = record {
      place = suc w.place;
      node = w.node;
      at = record { listed = w.at.listed; valid = w.at.valid; named = w.at.named };
      entry = w.entry ∙ ap (λ i. some (ids i w.node)) (omega arith);
    }

    absent_later :
        (n : Node W) (ns : List (Node W)) (k : ℤ)
        → ((is_negative n.id ≡ false) → n.id ≢ k)
        → ((place : ℕ) (o : Node W) → ¬ NodeAt ns place o k)
        → (place : ℕ) (o : Node W) → ¬ NodeAt (n ∷ ns) place o k
    absent_later n ns k here later zero o a =
        let e : n ≡ o = ground (arith, a.listed) in here (rw e a.valid) (rw e a.named)
    absent_later n ns k here later (suc place) o a =
        later place o (record { listed = a.listed; valid = a.valid; named = a.named })

    pub find-fill_index :
        (ns : List (Node W)) (idx : ℕ) (index : List (ℤ × List ℤ)) (k : ℤ)
        → Writes ns idx k (find ℤ_discrete k (fill_index ids idx ns index))
          ⊎ (((place : ℕ) (n : Node W) → ¬ NodeAt ns place n k)
              × (find ℤ_discrete k (fill_index ids idx ns index) ≡ find ℤ_discrete k index))
    unfolding fill_index
    find-fill_index [] idx index k = inr (λ place n a. ground (arith, a.listed), refl)
    find-fill_index (n ∷ ns) idx index k =
        let next = if is_negative n.id then index else put ℤ_discrete n.id (ids idx n) index in
        elim (find-fill_index ns (suc idx) next k) [
          | inl w ↦ inl (later-Writes n ns idx k _ w)
          | inr (absent, same) ↦ elim (Bool-cases (is_negative n.id)) [
            | inl bad ↦ inr (absent_later n ns k (λ fine. cc) absent, same ∙ rw bad refl)
            | inr fine ↦
                let found = find-put ℤ_discrete n.id k (ids idx n) index in
                elim (ℤ_discrete n.id k) [
                  | yes e ↦ inl (record {
                    place = 0;
                    node = n;
                    at = record { listed = refl; valid = fine; named = e };
                    entry =
                        same
                        ∙ rw fine (
                            found
                            ∙ if_pos (ℤ_discrete n.id k) e (some (ids idx n))
                                (find ℤ_discrete k index)
                            ∙ ap (λ i. some (ids i n)) {x = idx} (omega arith));
                  })
                  | no ne ↦ inr (
                    absent_later n ns k (λ _. ne) absent,
                    same
                        ∙ rw fine (
                            found
                            ∙ if_neg (ℤ_discrete n.id k) ne (some (ids idx n))
                                (find ℤ_discrete k index)),
                  )
                ]
          ]
        ]

module _ {W : Type 0} ⦃d : Double W⦄ (threshold : W) (nodes : List (Node W)) where
  -- A place of the list other than `idx` has a node with the id, within the threshold of `n`.
  pub record IsNear (idx : ℕ) (n : Node W) (b : ℤ) (place : ℕ) (other : Node W) : Type 0 where
    pub elsewhere : place ≢ idx
    pub at : NodeAt nodes place other b
    pub within : is_within threshold n other ≡ true

  lone_answer :
      (b : ℤ) (n o : Node W)
      → (elem ℤ_discrete b (near_node threshold nodes n (some o)) ≡ true)
        ↔ ((is_negative o.id ≡ false) × (is_within threshold n o ≡ true) × (o.id ≡ b))
  unfolding elem
  lone_answer b n o = ground arith

  elem-near_node :
      (idx : ℕ) (n : Node W) (b : ℤ) (place : ℕ)
      → place ≢ idx
      → (elem ℤ_discrete b (near_node threshold nodes n (get_elem? nodes place)) ≡ true)
        ↔ ((other : Node W) × IsNear idx n b place other)
  unfolding elem
  elem-near_node idx n b place ne = elim (Option-cases (get_elem? nodes place)) [
    | inl e ↦ rw e (λ m. cc, λ (other, near). ground (arith, near.at.listed))
    | inr (o, e) ↦
        let (there, back) = lone_answer b n o in
        rw e (
          λ m.
              let (valid, within, named) = there m in
              (
                o,
                record {
                  elsewhere = ne;
                  at = record { listed = e; valid = valid; named = named };
                  within = within;
                },
              ),
          λ (other, near).
              let same : other ≡ o = ground (arith, near.at.listed) in
              back (rw (← same) near.at.valid, rw (← same) near.within, rw (← same) near.at.named),
        )
  ]

  pub elem-near_in_cell :
      (idx : ℕ) (n : Node W) (b : ℤ) (js : List ℕ)
      → (elem ℤ_discrete b (near_in_cell threshold nodes idx n js) ≡ true) ↔ (
          (place : ℕ) × (elem ℕ_discrete place js ≡ true)
          × (other : Node W) × IsNear idx n b place other)
  unfolding near_in_cell elem
  elem-near_in_cell idx n b [] = (λ m. cc, λ (place, m, _, _). cc)
  elem-near_in_cell idx n b (j ∷ js) =
      let (there, back) = elem-near_in_cell idx n b js in
      elim (ℕ_discrete j idx) [
        | yes e ↦ rw ((==_iff j idx).1 e) (
          λ m. let (place, k, other, near) = there m in (place, ground arith, other, near),
          λ (place, k, other, near). back (place, ground (arith, near.elsewhere), other, near),
        )
        | no ne ↦
            let (there', back') = elem-near_node idx n b j ne in
            let apart : (j == idx) ≡ false = ground arith in
            rw apart (
              λ m. elim (elem_append_cases ℤ_discrete b _ _ m) [
                | inl here ↦ let (other, near) = there' here in (j, ground arith, other, near)
                | inr later ↦
                    let (place, k, other, near) = there later in (place, ground arith, other, near)
              ],
              λ (place, k, other, near). elim (ℕ_discrete j place) [
                | yes e ↦ elem-append_left ℤ_discrete b _ _ (back' (other, rw e near))
                | no far ↦
                    elem-append_right ℤ_discrete b (near_node threshold nodes n (get_elem? nodes j))
                      _ (back (place, ground arith, other, near))
              ],
            )
      ]
