-- ===== src/Reservation/Entries.antt =====
-- The reservation table seen through `entry`: what each write to a shard does to every node's
-- entry, and the well-formedness that makes the loops over the shards readable.
use agvscheduling.Prelude.{
  ℕ, ◌≤◌, ◌≡◌, ◌≢◌, string_discrete, refl, true, false, ℤ, ℤ_discrete, String, Option, none, some,
  List, [], ◌∷◌, ite, inl, inr, if◌then◌else◌, Option-cases, arith, find-erase, find-put, elem,
}
use agvscheduling.Reservation.{
  Table, Entry, is_expired, shard_of, entry, erase_entry, put_entry, drop_if_expired, drop_expired,
  held_by_other, store, refreshed,
}

-- What is left of an entry at a time: nothing, once it has expired.
abbrev pub live : ℕ → Option Entry → Option Entry
live now none = none
live now (some e) = if is_expired e now then none else some e

pub is_expired_mono :
    (e : Entry) (now later : ℕ) → now ≤ later → is_expired e now ≡ true → is_expired e later ≡ true
unfolding is_expired
is_expired_mono e now later h x = ground arith

module _ (hash : ℤ → ℕ) where
  pub entry-erase_entry :
      (t : Table) (k j : ℤ)
      → entry hash (erase_entry hash t k) j ≡ ite (ℤ_discrete k j) none (entry hash t j)
  unfolding entry erase_entry
  entry-erase_entry t k j = ground (arith, find-erase ℤ_discrete k j (t.shards (shard_of hash j)))

  pub entry-put_entry :
      (t : Table) (k j : ℤ) (e : Entry)
      → entry hash (put_entry hash t k e) j ≡ ite (ℤ_discrete k j) (some e) (entry hash t j)
  unfolding entry put_entry
  entry-put_entry t k j e = ground (arith, find-put ℤ_discrete k j e (t.shards (shard_of hash j)))

  entry-drop_if_expired :
      (now : ℕ) (t : Table) (c j : ℤ)
      → entry hash (drop_if_expired hash now t c) j
        ≡ ite (ℤ_discrete c j) (live now (entry hash t j)) (entry hash t j)
  unfolding drop_if_expired
  entry-drop_if_expired now t c j = ground (arith, entry-erase_entry t c j)

  -- The clean-up loop of `tryReserve` drops what has expired at the nodes that it visits.
  pub entry-drop_expired :
      (now : ℕ) (t : Table) (cs : List ℤ) (j : ℤ)
      → entry hash (drop_expired hash now t cs) j
        ≡ (if elem ℤ_discrete j cs then live now (entry hash t j) else entry hash t j)
  unfolding drop_expired elem
  entry-drop_expired now t [] j = refl
  entry-drop_expired now t (c ∷ cs) j = ground (
    arith,
    entry-drop_if_expired now t c j,
    entry-drop_expired now (drop_if_expired hash now t c) cs j,
  )

  pub entry-store :
      (t : Table) (node j : ℤ) (new : Entry)
      → entry hash (store hash t node new) j
        ≡ ite (ℤ_discrete node j) (some (refreshed (entry hash t node) new)) (entry hash t j)
  unfolding store
  entry-store t node j new = entry-put_entry t node j (refreshed (entry hash t node) new)

  -- The scan of `tryReserve` lets pass only nodes that are free or the owner's.
  pub owner_of_not_held :
      (owner : String) (t : Table) (cs : List ℤ) (j : ℤ) (e : Entry)
      → held_by_other hash owner t cs ≡ false
      → elem ℤ_discrete j cs ≡ true
      → entry hash t j ≡ some e
      → e.owner ≡ owner
  unfolding held_by_other elem
  owner_of_not_held owner t [] j e h m x = cc
  owner_of_not_held owner t (c ∷ cs) j e h m x = ground (arith, owner_of_not_held owner t cs j e)

  -- It stops only at a node that another owner holds.
  pub held_by_other_witness :
      (owner : String) (t : Table) (cs : List ℤ)
      → held_by_other hash owner t cs ≡ true
      → (j : ℤ) × (e : Entry) × (elem ℤ_discrete j cs ≡ true)
        × (entry hash t j ≡ some e)
        × (e.owner ≢ owner)
  unfolding held_by_other elem
  held_by_other_witness owner t [] h = cc
  held_by_other_witness owner t (c ∷ cs) h = elim (Option-cases (entry hash t c)) [
    | inl free ↦
        let (j, e, m, x, ne) = held_by_other_witness owner t cs (ground arith) in
        (j, e, ground arith, x, ne)
    | inr (e, x) ↦ elim (string_discrete e.owner owner) [
      | yes mine ↦
          let (j, e', m, x', ne) = held_by_other_witness owner t cs (ground arith) in
          (j, e', ground arith, x', ne)
      | no ne ↦ (c, e, ground arith, x, ne)
    ]
  ]
