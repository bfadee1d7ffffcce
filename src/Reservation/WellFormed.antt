-- ===== src/Reservation/WellFormed.antt =====
-- The invariant of the shards: no node twice in a shard, and every entry in its node's shard.
use agvscheduling.Prelude.{
  ℕ, ◌≡◌, Bool, true, false, ℤ, ℤ_discrete, String, Option, none, some, List, [], ◌∷◌, inl, inr,
  ◌==◌, if◌then◌else◌, Bool-cases, arith, find, erase, put, find-erase, find-put, find-erase_if,
  HasUniqueKeys, erase-HasUniqueKeys, put-HasUniqueKeys, erase_if-HasUniqueKeys, keep_unless, ◌||◌,
  is_negative,
}
use agvscheduling.Reservation.{
  Table, Entry, HoldReason, shard_of, entry, erase_entry, put_entry, erase_where, drop_if_expired,
  drop_expired, store, try_reserve, is_expired, is_empty, held_by_other, conflict_node_ids_for,
}

module _ (hash : ℤ → ℕ) where
  pub record IsWellFormed (t : Table) : Type 0 where
    pub unique : (i : ℕ) → HasUniqueKeys ℤ_discrete (t.shards i)
    pub placed :
        (i : ℕ) (j : ℤ) (e : Entry) → find ℤ_discrete j (t.shards i) ≡ some e → shard_of hash j ≡ i

  pub entry-erase_where :
      (drop : ℤ → Entry → Bool) (t : Table) (j : ℤ)
      → IsWellFormed t
      → entry hash (erase_where hash drop t) j ≡ keep_unless ℤ_discrete drop j (entry hash t j)
  unfolding entry erase_where
  entry-erase_where drop t j w =
      find-erase_if ℤ_discrete drop j (t.shards (shard_of hash j)) (w.unique (shard_of hash j))

  pub erase_entry-IsWellFormed :
      (t : Table) (k : ℤ) → IsWellFormed t → IsWellFormed (erase_entry hash t k)
  unfolding erase_entry
  erase_entry-IsWellFormed t k w = record {
    unique = λ i.
        elim (shard_of hash k == i)
          as (λ b.
            HasUniqueKeys ℤ_discrete (if b then erase ℤ_discrete k (t.shards i) else t.shards i)) [
              | true ↦ erase-HasUniqueKeys ℤ_discrete k (t.shards i) (w.unique i)
              | false ↦ w.unique i
            ];
    placed = λ i j e h. ground (arith, find-erase ℤ_discrete k j (t.shards i), w.placed i j e);
  }

  pub put_entry-IsWellFormed :
      (t : Table) (k : ℤ) (new : Entry) → IsWellFormed t → IsWellFormed (put_entry hash t k new)
  unfolding put_entry
  put_entry-IsWellFormed t k new w = record {
    unique = λ i.
        elim (shard_of hash k == i)
          as (λ b.
            HasUniqueKeys ℤ_discrete
              (if b then put ℤ_discrete k new (t.shards i) else t.shards i)) [
                | true ↦ put-HasUniqueKeys ℤ_discrete k new (t.shards i) (w.unique i)
                | false ↦ w.unique i
              ];
    placed = λ i j e h. ground (arith, find-put ℤ_discrete k j new (t.shards i), w.placed i j e);
  }

  pub erase_where-IsWellFormed :
      (drop : ℤ → Entry → Bool) (t : Table)
      → IsWellFormed t
      → IsWellFormed (erase_where hash drop t)
  unfolding erase_where
  erase_where-IsWellFormed drop t w = record {
    unique = λ i. erase_if-HasUniqueKeys ℤ_discrete drop (t.shards i) (w.unique i);
    placed = λ i j e h.
        ground (arith, find-erase_if ℤ_discrete drop j (t.shards i) (w.unique i), w.placed i j e);
  }

  pub drop_expired-IsWellFormed :
      (now : ℕ) (t : Table) (cs : List ℤ)
      → IsWellFormed t
      → IsWellFormed (drop_expired hash now t cs)
  unfolding drop_expired
  drop_expired-IsWellFormed now t [] w = w
  drop_expired-IsWellFormed now t (c ∷ cs) w =
      drop_expired-IsWellFormed now (drop_if_expired hash now t c) cs (one (entry hash t c))
    where
      one :
          (o : Option Entry)
          → IsWellFormed (elim o as (λ _. Table) [
            | none ↦ t
            | some e ↦ if is_expired e now then erase_entry hash t c else t
          ])
      one none = w
      one (some e) =
          elim (is_expired e now) as (λ b. IsWellFormed (if b then erase_entry hash t c else t)) [
            | true ↦ erase_entry-IsWellFormed t c w
            | false ↦ w
          ]

  pub try_reserve-IsWellFormed :
      (t : Table) (now : ℕ) (node : ℤ) (owner : String) (reason : HoldReason) (detail : String)
      (ttl : ℤ)
      → IsWellFormed t
      → IsWellFormed (try_reserve hash now t node owner reason detail ttl).0
  unfolding try_reserve store
  try_reserve-IsWellFormed t now node owner reason detail ttl w =
      let near = conflict_node_ids_for t node in
      let clean = drop_expired hash now t near in
      let w' = drop_expired-IsWellFormed now t near w in
      elim (Bool-cases (is_negative node || is_empty owner)) [
        | inl bad ↦ rw bad w
        | inr fine ↦ elim (Bool-cases (held_by_other hash owner clean near)) [
          | inl taken ↦ rw (fine, taken) w'
          | inr free ↦ rw (fine, free) (put_entry-IsWellFormed clean node _ w')
        ]
      ]
