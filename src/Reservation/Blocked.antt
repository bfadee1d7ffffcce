-- ===== src/Reservation/Blocked.antt =====
-- `snapshotBlockedNodes` against `tryReserve`.
use agvscheduling.Prelude.{
  ℕ, ◌≡◌, ◌≢◌, ◌↔◌, ◌∙◌, sym, refl, true, false, ℤ, ℤ_discrete, leb_ℤ, String, some, List, [], ◌∷◌,
  inl, inr, Bool-cases, Option-cases, arith, elem, find, sort_unique, elem-sort_unique,
  elem_append_cases, elem-append_left, elem-append_right, is_negative,
}
use agvscheduling.Reservation.{
  Table, HoldReason, excluded, entry, blocked_by, expand_conflicts, others_than,
  snapshot_held_nodes, snapshot_blocked_nodes, conflict_node_ids_for, try_reserve,
}
use agvscheduling.Reservation.WellFormed.{IsWellFormed}
use agvscheduling.Reservation.Exclusion.{Conflicts, IsSymmetric}
use agvscheduling.Reservation.Reserve.{HeldByOther, try_reserve-granted_iff}
use agvscheduling.Reservation.Snapshot.{shown, snapshot_held_nodes_lem}

-- What the distance index gives: the group of a node lists the node.
abbrev pub ListsItself : Table → Type 0
ListsItself t =
    (a : ℤ) (near : List ℤ)
    → find ℤ_discrete a t.conflicts ≡ some near
    → elem ℤ_discrete a near ≡ true

elem-others_than :
    (node j : ℤ) (xs : List ℤ)
    → node ≢ j
    → elem ℤ_discrete j (others_than node xs) ≡ elem ℤ_discrete j xs
unfolding elem others_than
elem-others_than node j [] ne = refl
elem-others_than node j (x ∷ xs) ne = ground (arith, elem-others_than node j xs)

elem-expand_conflicts :
    (t : Table) (hs : List ℤ) (j : ℤ)
    → (elem ℤ_discrete j (expand_conflicts t hs) ≡ true)
      ↔ ((h : ℤ) × (elem ℤ_discrete h hs ≡ true) × (elem ℤ_discrete j (blocked_by t h) ≡ true))
unfolding elem expand_conflicts
elem-expand_conflicts t [] j = (λ h. cc, λ (h, m, k). cc)
elem-expand_conflicts t (c ∷ hs) j =
    let (there, back) = elem-expand_conflicts t hs j in
    (
      λ m. elim (elem_append_cases ℤ_discrete j (blocked_by t c) _ m) [
        | inl k ↦ (c, ground arith, k)
        | inr rest ↦ let (h, m', k) = there rest in (h, ground arith, k)
      ],
      λ (h, m, k). elim (ℤ_discrete c h) [
        | yes e ↦ elem-append_left ℤ_discrete j (blocked_by t c) _ (ground arith)
        | no ne ↦ elem-append_right ℤ_discrete j (blocked_by t c) _ (back (h, ground arith, k))
      ],
    )

pub Conflicts-blocked_by :
    (t : Table) (h j : ℤ)
    → ListsItself t
    → Conflicts t h j ↔ (elem ℤ_discrete j (blocked_by t h) ≡ true)
unfolding conflict_node_ids_for blocked_by elem
Conflicts-blocked_by t h j self = elim (Option-cases (find ℤ_discrete h t.conflicts)) [
  | inl lone ↦ rw (lone, conflict_node_ids_for, blocked_by) (λ k. k, λ k. k)
  | inr ([], e) ↦ absurd (ground (arith, self h []))
  | inr (x ∷ near, e) ↦ elim (ℤ_discrete h j) [
    | yes here ↦ ground (arith, self h (x ∷ near) e)
    | no away ↦ ground (arith, elem-others_than h j (x ∷ near) away)
  ]
]

module _ (hash : ℤ → ℕ) (t : Table) (w : IsWellFormed hash t) (sym_t : IsSymmetric t)
    (self : ListsItself t) (now : ℕ) (owner : String) (named : owner ≢ "") where
  shown_iff : (h : ℤ) → (shown now owner (entry hash t h) ≡ true) ↔ HeldByOther hash t now owner h
  unfolding excluded
  shown_iff h = elim (Option-cases (entry hash t h)) [
    | inl free ↦ (λ s. cc, λ (e, held, _, _). cc)
    | inr (e, held) ↦
        (λ s. (e, held, ground arith, ground arith), λ (e', held', alive, ne). ground arith)
  ]

  elem-snapshot_blocked :
      (j : ℤ)
      → elem ℤ_discrete j (snapshot_blocked_nodes now t owner)
        ≡ elem ℤ_discrete j (expand_conflicts t (snapshot_held_nodes now t owner))
  unfolding snapshot_blocked_nodes expand_conflicts
  elem-snapshot_blocked j = go (snapshot_held_nodes now t owner)
    where
      go :
          (hs : List ℤ)
          → elem ℤ_discrete j (elim hs as (λ _. List ℤ) [
            | [] ↦ []
            | h ∷ r ↦ sort_unique ℤ_discrete leb_ℤ (expand_conflicts t (h ∷ r))
          ])
            ≡ elem ℤ_discrete j (expand_conflicts t hs)
      go [] = refl
      go (h ∷ r) = elem-sort_unique ℤ_discrete leb_ℤ j (expand_conflicts t (h ∷ r))

  -- Where the shards are well formed and the conflict index is symmetric and lists each node in its own
  -- group: for an AGV with a name, a node that is not negative stands in the snapshot of the blocked
  -- nodes, taken for it, exactly if its reservation of that node at that time would be refused.
  pub snapshot_blocked_nodes-refused :
      (j : ℤ) (reason : HoldReason) (detail : String) (ttl : ℤ)
      → is_negative j ≡ false
      → (elem ℤ_discrete j (snapshot_blocked_nodes now t owner) ≡ true)
        ↔ ((try_reserve hash now t j owner reason detail ttl).1 ≡ false)
  snapshot_blocked_nodes-refused j reason detail ttl valid =
      let granted = try_reserve-granted_iff hash t now j owner reason detail ttl in
      let spread = elem-expand_conflicts t (snapshot_held_nodes now t owner) j in
      let (_, listed) = snapshot_held_nodes_lem hash t w now owner in
      let same_elem = elem-snapshot_blocked j in
      let answer = (try_reserve hash now t j owner reason detail ttl).1 in
      (
        λ m.
            let (h, m', k) = spread.0 (sym same_elem ∙ m) in
            let other = (shown_iff h).0 ((listed h).0 m') in
            elim (Bool-cases answer) [
              | inl yes_ ↦
                  absurd
                    ((granted.0 yes_).2 h (sym_t h j ((Conflicts-blocked_by t h j self).1 k)) other)
              | inr no_ ↦ no_
            ],
        λ refused. elim (Bool-cases (elem ℤ_discrete j (snapshot_blocked_nodes now t owner))) [
          | inl blocked ↦ blocked
          | inr clear ↦ absurd (
              ground (
                arith,
                granted.1 (
                  valid,
                  named,
                  λ b c other.
                      let m : elem ℤ_discrete j
                            (expand_conflicts t (snapshot_held_nodes now t owner))
                          ≡ true =
                        spread.1 (
                          b,
                          (listed b).1 ((shown_iff b).1 other),
                          (Conflicts-blocked_by t b j self).0 (sym_t j b c),
                        ) in
                      ground arith,
                ),
              ))
        ],
      )
