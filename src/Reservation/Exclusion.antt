-- ===== src/Reservation/Exclusion.antt =====
-- Mutual exclusion: no two AGVs ever hold conflicting nodes.
use agvscheduling.Prelude.{
  ℕ, ◌≤◌, ◌≡◌, refl, subst, true, false, ◌||◌, ℤ, ℤ_discrete, String, some, List, [], ◌∷◌, ◌⊎◌, inl,
  inr, Bool-cases, Option-cases, arith, elem, is_negative,
}
use agvscheduling.Reservation.{
  Table, Entry, HoldReason, is_expired, is_empty, entry, conflict_node_ids_for, drop_expired,
  drop_if_expired, erase_entry, put_entry, held_by_other, store, refreshed, fresh_entry,
  try_reserve,
}
use agvscheduling.Reservation.Entries.{
  is_expired_mono, entry-drop_expired, entry-store, owner_of_not_held,
}

-- `b` is among the nodes that a reservation of `a` excludes.
abbrev pub Conflicts : Table → ℤ → ℤ → Type 0
Conflicts t a b = elem ℤ_discrete b (conflict_node_ids_for t a) ≡ true

-- What the distance index gives: the Euclidean distance is symmetric.
abbrev pub IsSymmetric : Table → Type 0
IsSymmetric t = (a b : ℤ) → Conflicts t a b → Conflicts t b a

pub self_conflict : (t : Table) (node : ℤ) → Conflicts t node node
unfolding conflict_node_ids_for elem
self_conflict t node = ground arith

module _ (hash : ℤ → ℕ) where
  -- An AGV holds a node at a time, by an entry that has not expired.
  abbrev pub Holds : Table → ℕ → ℤ → String → Type 0
  Holds t now node owner =
      (e : Entry) × (entry hash t node ≡ some e) × (is_expired e now ≡ false) × (e.owner ≡ owner)

  -- Conflicting nodes are held by one AGV only.
  abbrev pub IsExclusive : Table → ℕ → Type 0
  IsExclusive t now =
      (a b : ℤ) (x y : String) → Holds t now a x → Holds t now b y → Conflicts t a b → x ≡ y

  Holds-mono :
      (t : Table) (now later : ℕ) (a : ℤ) (x : String)
      → now ≤ later
      → Holds t later a x
      → Holds t now a x
  Holds-mono t now later a x h (e, held, alive, o) =
      (e, held, ground (arith, is_expired_mono e now later h), o)

  pub conflicts-drop_expired :
      (now : ℕ) (t : Table) (cs : List ℤ) → (drop_expired hash now t cs).conflicts ≡ t.conflicts
  unfolding drop_expired erase_entry
  conflicts-drop_expired now t [] = refl
  conflicts-drop_expired now t (c ∷ cs) = ground (
    arith,
    conflicts-drop_expired now (drop_if_expired hash now t c) cs,
    conflicts-drop_if_expired now t c,
  )
    where
      conflicts-drop_if_expired :
          (now : ℕ) (t : Table) (c : ℤ) → (drop_if_expired hash now t c).conflicts ≡ t.conflicts
      conflicts-drop_if_expired now t c = ground arith

  -- A clean-up makes no entry.
  Holds-of_drop_expired :
      (now : ℕ) (t : Table) (cs : List ℤ) (later : ℕ) (b : ℤ) (y : String)
      → Holds (drop_expired hash now t cs) later b y
      → Holds t later b y
  Holds-of_drop_expired now t cs later b y (e, held, alive, o) =
      (e, ground (arith, entry-drop_expired hash now t cs b), alive, o)

  -- A reservation that is granted found every live conflicting node free or the owner's.
  near_owner :
      (now : ℕ) (t : Table) (cs : List ℤ) (owner : String) (b : ℤ) (y : String)
      → held_by_other hash owner (drop_expired hash now t cs) cs ≡ false
      → elem ℤ_discrete b cs ≡ true
      → Holds t now b y
      → y ≡ owner
  near_owner now t cs owner b y free m (e, held, alive, o) = ground (
    arith,
    entry-drop_expired hash now t cs b,
    owner_of_not_held hash owner (drop_expired hash now t cs) cs b e,
  )

  refreshed_owner :
      (t : Table) (cs : List ℤ) (node : ℤ) (new : Entry)
      → held_by_other hash new.owner t cs ≡ false
      → elem ℤ_discrete node cs ≡ true
      → (refreshed (entry hash t node) new).owner ≡ new.owner
  refreshed_owner t cs node new free m = elim (Option-cases (entry hash t node)) [
    | inl e ↦ rw e
    | inr (e, held) ↦ rw held (owner_of_not_held hash new.owner t cs node e free m held)
  ]

  -- Who holds a node after a granted reservation: the owner its node, and everybody what they held.
  Holds-of_store :
      (t : Table) (cs : List ℤ) (node : ℤ) (new : Entry) (later : ℕ) (b : ℤ) (y : String)
      → held_by_other hash new.owner t cs ≡ false
      → elem ℤ_discrete node cs ≡ true
      → Holds (store hash t node new) later b y
      → ((b ≡ node) × (y ≡ new.owner)) ⊎ Holds t later b y
  Holds-of_store t cs node new later b y free m (e, held, alive, o) = elim (ℤ_discrete node b) [
    | yes here ↦
        inl (ground (arith, entry-store hash t node b new, refreshed_owner t cs node new free m))
    | no away ↦ inr (e, ground (arith, entry-store hash t node b new), alive, o)
  ]

  -- What follows where two AGVs hold two nodes that conflict: a property of one pair, which a step
  -- carries on if it holds of an AGV and itself.
  abbrev pub IfConflicting : Type 0 → Table → ℕ → ℤ → ℤ → String → String → Type 0
  IfConflicting R t now a b p q = Holds t now a p → Holds t now b q → Conflicts t a b → R

  module _ (R : Type 0) (a b : ℤ) (p q : String) where
    -- A table whose entries are among those of another.
    pub fewer-IfConflicting :
        (t u : Table) (now later : ℕ)
        → now ≤ later
        → u.conflicts ≡ t.conflicts
        → ((c : ℤ) (y : String) → Holds u later c y → Holds t later c y)
        → IfConflicting R t now a b p q
        → IfConflicting R u later a b p q
    unfolding conflict_node_ids_for
    fewer-IfConflicting t u now later h c fewer x hp hq k =
        x (Holds-mono t now later a p h (fewer a p hp))
          (Holds-mono t now later b q h (fewer b q hq)) (ground arith)

    store-IfConflicting :
        (t : Table) (now : ℕ) (node : ℤ) (new : Entry)
        → IsSymmetric t
        → (p ≡ q → R)
        → let near = conflict_node_ids_for t node in
          held_by_other hash new.owner (drop_expired hash now t near) near ≡ false
          → IfConflicting R t now a b p q
          → IfConflicting R (store hash (drop_expired hash now t near) node new) now a b p q
    unfolding conflict_node_ids_for store put_entry
    store-IfConflicting t now node new sym same free x hp hq k =
        let near = conflict_node_ids_for t node in
        let clean = drop_expired hash now t near in
        let same_conflicts = conflicts-drop_expired now t near in
        let old = λ (c : ℤ) (o : String). Holds-of_drop_expired now t near now c o in
        let mine = λ (c : ℤ) (o : String). near_owner now t near new.owner c o free in
        let who = λ (c : ℤ) (o : String).
          Holds-of_store clean near node new now c o free (self_conflict t node) in
        let k' : Conflicts t a b = ground arith in
        elim (who a p hp) [
          | inl (at_a, o) ↦ elim (who b q hq) [
            | inl (at_b, o') ↦ same (ground arith)
            | inr hb ↦
                same (ground (arith, mine b q (subst (λ c. Conflicts t c b) at_a k') (old b q hb)))
          ]
          | inr ha ↦ elim (who b q hq) [
            | inl (at_b, o') ↦
                same (
                  ground
                    (arith, mine a p (sym a node (subst (Conflicts t a) at_b k')) (old a p ha)))
            | inr hb ↦ x (old a p ha) (old b q hb) k'
          ]
        ]

    pub try_reserve-IfConflicting :
        (t : Table) (now : ℕ) (node : ℤ) (owner : String) (reason : HoldReason) (detail : String)
        (ttl : ℤ)
        → IsSymmetric t
        → (p ≡ q → R)
        → IfConflicting R t now a b p q
        → IfConflicting R (try_reserve hash now t node owner reason detail ttl).0 now a b p q
    unfolding try_reserve fresh_entry
    try_reserve-IfConflicting t now node owner reason detail ttl sym same x =
        let near = conflict_node_ids_for t node in
        let clean = drop_expired hash now t near in
        elim (Bool-cases (is_negative node || is_empty owner)) [
          | inl bad ↦ rw bad x
          | inr fine ↦ elim (Bool-cases (held_by_other hash owner clean near)) [
            | inl taken ↦
                rw (fine, taken)
                  (fewer-IfConflicting t clean now now (omega arith)
                    (conflicts-drop_expired now t near) (Holds-of_drop_expired now t near now) x)
            | inr free ↦
                rw (fine, free)
                  (store-IfConflicting t now node (fresh_entry now owner reason detail ttl) sym same
                    free x)
          ]
        ]

  pub conflicts-try_reserve :
      (t : Table) (now : ℕ) (node : ℤ) (owner : String) (reason : HoldReason) (detail : String)
      (ttl : ℤ)
      → (try_reserve hash now t node owner reason detail ttl).0.conflicts ≡ t.conflicts
  unfolding try_reserve store put_entry
  conflicts-try_reserve t now node owner reason detail ttl =
      ground (arith, conflicts-drop_expired now t (conflict_node_ids_for t node))
