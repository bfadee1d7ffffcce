-- ===== src/Reservation/Reserve.antt =====
-- What `tryReserve` answers and does, and that `findBlockingHold` foretells it.
use agvscheduling.Prelude.{
  ℕ, ◌≡◌, ◌≢◌, ◌↔◌, true, false, ◌||◌, ℤ, ℤ_discrete, String, none, some, List, [], ◌∷◌, inl, inr,
  Bool-cases, Option-cases, arith, elem, is_negative,
}
use agvscheduling.Reservation.{
  Table, Entry, HoldReason, HoldEntry, is_expired, entry, conflict_node_ids_for, drop_expired,
  held_by_other, try_reserve, find_blocking_hold, first_blocking, excluded, hold_of,
}
use agvscheduling.Reservation.Entries.{
  live, entry-drop_expired, owner_of_not_held, held_by_other_witness,
}
use agvscheduling.Reservation.Exclusion.{Conflicts}

module _ (hash : ℤ → ℕ) where
  -- Another AGV has a live entry at the node.
  abbrev pub HeldByOther : Table → ℕ → String → ℤ → Type 0
  HeldByOther t now owner b =
      (e : Entry) × (entry hash t b ≡ some e) × (is_expired e now ≡ false) × (e.owner ≢ owner)

  scan_of_blocked :
      (t : Table) (now : ℕ) (near cs : List ℤ) (owner : String)
      → ((b : ℤ) → elem ℤ_discrete b cs ≡ true → elem ℤ_discrete b near ≡ true)
      → held_by_other hash owner (drop_expired hash now t near) cs ≡ true
      → (b : ℤ) × (elem ℤ_discrete b cs ≡ true) × HeldByOther t now owner b
  scan_of_blocked t now near cs owner inside h =
      let (b, e, m, held, ne) =
        held_by_other_witness hash owner (drop_expired hash now t near) cs h in
      let law = entry-drop_expired hash now t near b in
      let was : live now (entry hash t b) ≡ some e = ground (arith, law, inside b m) in
      (b, m, (e, ground (arith, was), ground (arith, was), ne))

  scan_not_blocked :
      (t : Table) (now : ℕ) (near : List ℤ) (owner : String) (b : ℤ)
      → held_by_other hash owner (drop_expired hash now t near) near ≡ false
      → elem ℤ_discrete b near ≡ true
      → ¬ HeldByOther t now owner b
  scan_not_blocked t now near owner b free m (e, held, alive, ne) = ne (
      owner_of_not_held hash owner (drop_expired hash now t near) near b e free m
        (ground (arith, entry-drop_expired hash now t near b)))

  -- A reservation is granted exactly if the node and the owner are valid and no other AGV has a live
  -- entry at a node that conflicts with it, itself included.
  pub try_reserve-granted_iff :
      (t : Table) (now : ℕ) (node : ℤ) (owner : String) (reason : HoldReason) (detail : String)
      (ttl : ℤ)
      → ((try_reserve hash now t node owner reason detail ttl).1 ≡ true) ↔ (
          (is_negative node ≡ false)
          × (owner ≢ "")
          × ((b : ℤ) → Conflicts t node b → ¬ HeldByOther t now owner b))
  unfolding try_reserve
  try_reserve-granted_iff t now node owner reason detail ttl =
      let near = conflict_node_ids_for t node in
      elim (Bool-cases (held_by_other hash owner (drop_expired hash now t near) near)) [
        | inl taken ↦
            let (b, m, other) = scan_of_blocked t now near near owner (λ b m. m) taken in
            (λ h. absurd (ground arith), λ (_, _, free). absurd (free b m other))
        | inr free ↦ (
          λ h. (ground arith, ground arith, λ b m. scan_not_blocked t now near owner b free m),
          λ (valid, named, _). ground arith,
        )
      ]

  first_blocking_finds :
      (t : Table) (now : ℕ) (owner : String) (cs : List ℤ) (x : HoldEntry)
      → owner ≢ ""
      → first_blocking hash now t owner cs ≡ some x
      → (elem ℤ_discrete x.node_id cs ≡ true) × HeldByOther t now owner x.node_id
  unfolding first_blocking elem
  first_blocking_finds t now owner [] x named h = cc
  first_blocking_finds t now owner (c ∷ cs) x named h = elim (Option-cases (entry hash t c)) [
    | inl free ↦
        let (m, other) = first_blocking_finds t now owner cs x named (ground arith) in
        (ground arith, other)
    | inr (e, held) ↦ elim (Bool-cases (is_expired e now || excluded owner e.owner)) [
      | inl skipped ↦
          let (m, other) = first_blocking_finds t now owner cs x named (ground arith) in
          (ground arith, other)
      | inr blocks ↦
          let here : x ≡ hold_of c e = ground arith in
          rw here (ground arith, (e, held, ground arith, ground arith))
    ]
  ]

  first_blocking_misses :
      (t : Table) (now : ℕ) (owner : String) (cs : List ℤ) (b : ℤ)
      → first_blocking hash now t owner cs ≡ none
      → elem ℤ_discrete b cs ≡ true
      → ¬ HeldByOther t now owner b
  unfolding first_blocking elem
  first_blocking_misses t now owner [] b h m other = cc
  first_blocking_misses t now owner (c ∷ cs) b h m (e, held, alive, ne) = ground (
    arith,
    λ (m' : elem ℤ_discrete b cs ≡ true) (h' : first_blocking hash now t owner cs ≡ none).
        first_blocking_misses t now owner cs b h' m' (e, held, alive, ne),
  )

  -- `findBlockingHold` finds nothing exactly if `tryReserve` would grant the node, for a valid node
  -- and a named owner; and what it finds is a live entry of another owner at a conflicting node.
  pub find_blocking_hold-foretells :
      (t : Table) (now : ℕ) (node : ℤ) (owner : String) (reason : HoldReason) (detail : String)
      (ttl : ℤ)
      → is_negative node ≡ false
      → owner ≢ ""
      → ((find_blocking_hold hash now t node owner ≡ none)
          ↔ ((try_reserve hash now t node owner reason detail ttl).1 ≡ true))
        × ((x : HoldEntry)
            → find_blocking_hold hash now t node owner ≡ some x
            → Conflicts t node x.node_id × HeldByOther t now owner x.node_id)
  unfolding find_blocking_hold
  find_blocking_hold-foretells t now node owner reason detail ttl valid named =
      let near = conflict_node_ids_for t node in
      let granted = try_reserve-granted_iff t now node owner reason detail ttl in
      let searched : find_blocking_hold hash now t node owner
          ≡ first_blocking hash now t owner near =
        ground arith in
      (
        (
          λ h.
              granted.1
                (valid, named, λ b m. first_blocking_misses t now owner near b (ground arith) m),
          λ g. elim (Option-cases (first_blocking hash now t owner near)) [
            | inl clear ↦ ground arith
            | inr (x, found) ↦
                let (m, other) = first_blocking_finds t now owner near x named found in
                absurd ((granted.0 g).2 x.node_id m other)
          ],
        ),
        λ x h. first_blocking_finds t now owner near x named (ground arith),
      )
