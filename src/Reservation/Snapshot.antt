-- ===== src/Reservation/Snapshot.antt =====
-- The snapshots list exactly the held nodes, or those that these block.
use agvscheduling.Prelude.{
  ℕ, zero, suc, ◌<◌, ◌≡◌, ◌↔◌, ◌∙◌, sym, refl, Bool, true, false, not, ◌||◌, ℤ, ℤ_discrete, leb_ℤ,
  String, Option, none, some, [], ◌∷◌, inl, inr, Option-cases, arith, elem, find, HasUniqueKeys,
  elem-sort_unique, sort_unique-IsAscending, IsAscending, leb_ℤ-IsOrder, ℕ_discrete,
  elem_append_cases, elem-append_left, elem-append_right,
}
use agvscheduling.Reservation.{
  Table, Entry, Shard, is_expired, excluded, entry, shard_of, shard_count, held_in_shard,
  held_in_shards, snapshot_held_nodes,
}
use agvscheduling.Reservation.WellFormed.{IsWellFormed}

-- The entry counts for the snapshot.
abbrev pub shown : ℕ → String → Option Entry → Bool
shown now skip none = false
shown now skip (some e) = not (is_expired e now || excluded skip e.owner)

elem-held_in_shard_absent :
    (now : ℕ) (skip : String) (m : Shard) (j : ℤ)
    → find ℤ_discrete j m ≡ none
    → elem ℤ_discrete j (held_in_shard now skip m) ≡ false
unfolding held_in_shard elem find
elem-held_in_shard_absent now skip [] j h = refl
elem-held_in_shard_absent now skip ((i, e) ∷ m) j h =
    ground (arith, elem-held_in_shard_absent now skip m j)

elem-held_in_shard :
    (now : ℕ) (skip : String) (m : Shard) (j : ℤ)
    → HasUniqueKeys ℤ_discrete m
    → elem ℤ_discrete j (held_in_shard now skip m) ≡ shown now skip (find ℤ_discrete j m)
unfolding held_in_shard elem find
elem-held_in_shard now skip [] j u = refl
elem-held_in_shard now skip ((i, e) ∷ m) j u = elim (ℤ_discrete i j) [
  | yes here ↦ ground (arith, elem-held_in_shard_absent now skip m j)
  | no away ↦ ground (arith, elem-held_in_shard now skip m j u.1)
]

module _ (hash : ℤ → ℕ) (t : Table) (w : IsWellFormed hash t) (now : ℕ) (skip : String) where
  in_shard :
      (i : ℕ) (j : ℤ)
      → elem ℤ_discrete j (held_in_shard now skip (t.shards i)) ≡ true
      → shown now skip (entry hash t j) ≡ true
  unfolding entry
  in_shard i j h = elim (Option-cases (find ℤ_discrete j (t.shards i))) [
    | inl absent ↦ ground (arith, elem-held_in_shard now skip (t.shards i) j (w.unique i))
    | inr (e, here) ↦
        ground (arith, elem-held_in_shard now skip (t.shards i) j (w.unique i), w.placed i j e here)
  ]

  in_shards :
      (n : ℕ) (j : ℤ)
      → elem ℤ_discrete j (held_in_shards now skip t n) ≡ true
      → shown now skip (entry hash t j) ≡ true
  unfolding held_in_shards elem
  in_shards zero j h = cc
  in_shards (suc n) j h = elim (elem_append_cases ℤ_discrete j (held_in_shards now skip t n) _ h) [
    | inl early ↦ in_shards n j early
    | inr here ↦ in_shard n j here
  ]

  shown_in_shards :
      (n : ℕ) (j : ℤ)
      → shard_of hash j < n
      → shown now skip (entry hash t j) ≡ true
      → elem ℤ_discrete j (held_in_shards now skip t n) ≡ true
  unfolding held_in_shards entry
  shown_in_shards zero j h s = elim h [ ]
  shown_in_shards (suc n) j h s = elim (ℕ_discrete (shard_of hash j) n) [
    | yes here ↦
        elem-append_right ℤ_discrete j (held_in_shards now skip t n) _
          (ground (arith, elem-held_in_shard now skip (t.shards n) j (w.unique n)))
    | no away ↦
        elem-append_left ℤ_discrete j (held_in_shards now skip t n) _
          (shown_in_shards n j (omega arith) s)
  ]

  shard_bound : (j : ℤ) → shard_of hash j < shard_count
  unfolding shard_of
  shard_bound j = omega arith

  -- The snapshot is strictly ascending, and a node stands in it exactly if it has a live entry
  -- whose owner is not the excluded one.
  pub snapshot_held_nodes_lem :
      IsAscending leb_ℤ (snapshot_held_nodes now t skip)
      × ((j : ℤ)
          → (elem ℤ_discrete j (snapshot_held_nodes now t skip) ≡ true)
            ↔ (shown now skip (entry hash t j) ≡ true))
  unfolding snapshot_held_nodes
  snapshot_held_nodes_lem =
      let held = held_in_shards now skip t shard_count in
      (
        sort_unique-IsAscending leb_ℤ ℤ_discrete leb_ℤ-IsOrder held,
        λ j.
            let law = elem-sort_unique ℤ_discrete leb_ℤ j held in
            (
              λ h. in_shards shard_count j (sym law ∙ h),
              λ s. law ∙ shown_in_shards shard_count j (shard_bound j) s,
            ),
      )
