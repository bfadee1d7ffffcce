-- ===== src/Reservation/History.antt =====
-- The table after a history of calls that reserve, release and clean up; Reservation/Reload adds
-- configureDistanceConflict. The clock is steady, so the times of the calls do not fall. A call is one
-- step: see the header for what that leaves out.
use agvscheduling.Prelude.{
  ℕ, ◌≤◌, ◌≡◌, refl, Bool, true, false, ℤ, String, some, List, [], ◌∷◌, if◌then◌else◌, arith,
}
use agvscheduling.Reservation.{
  Table, Entry, HoldReason, is_empty, entry, erase_entry, erase_where, try_reserve, release,
  release_all_by_owner, release_all_by_owner_except, release_all_by_owner_except_set,
  cleanup_expired, conflict_node_ids_for,
}
use agvscheduling.Reservation.Entries.{entry-erase_entry}
use agvscheduling.Reservation.Exclusion.{
  Conflicts, IsExclusive, IsSymmetric, IfConflicting, fewer-IfConflicting,
  try_reserve-IfConflicting, conflicts-try_reserve,
}
use agvscheduling.Reservation.WellFormed.{
  IsWellFormed, entry-erase_where, erase_entry-IsWellFormed, erase_where-IsWellFormed,
  try_reserve-IsWellFormed,
}

-- The methods that change the shards.
pub data Call : Type 0 where
  reserves : ℤ → String → HoldReason → String → ℤ → Call
  releases : ℤ → String → Call
  releases_all : String → Call
  releases_all_except : String → ℤ → Call
  releases_all_except_set : String → List ℤ → Call
  cleans : Call

abbrev reserves_node : Call → Bool
reserves_node (reserves node owner reason detail ttl) = true
reserves_node (releases node owner) = false
reserves_node (releases_all owner) = false
reserves_node (releases_all_except owner keep) = false
reserves_node (releases_all_except_set owner keep) = false
reserves_node cleans = false

-- No call comes before the time of the last one.
abbrev pub AreOrdered : ℕ → List (ℕ × Call) → Type 0
AreOrdered now [] = Unit
AreOrdered now ((at, c) ∷ cs) = (now ≤ at) × AreOrdered at cs

abbrev pub end_time : ℕ → List (ℕ × Call) → ℕ
end_time now [] = now
end_time now ((at, c) ∷ cs) = end_time at cs

-- A table as it is constructed, with the conflict index of a configuration.
abbrev pub fresh_table : List (ℤ × List ℤ) → Table
fresh_table near = record { shards = λ _. []; conflicts = near }

module _ (hash : ℤ → ℕ) where
  unfoldable pub step : Table → ℕ → Call → Table
  step t now (reserves node owner reason detail ttl) =
      (try_reserve hash now t node owner reason detail ttl).0
  step t now (releases node owner) = release hash now t node owner
  step t now (releases_all owner) = release_all_by_owner hash now t owner
  step t now (releases_all_except owner keep) = release_all_by_owner_except hash now t owner keep
  step t now (releases_all_except_set owner keep) =
      release_all_by_owner_except_set hash now t owner keep
  step t now cleans = cleanup_expired hash now t

  unfoldable pub run : Table → List (ℕ × Call) → Table
  run t [] = t
  run t ((at, c) ∷ cs) = run (step t at c) cs

  -- What a call may be, up to the entries: a reservation, or an erasure.
  record IsErasure (t u : Table) : Type 0 where
    kept : u.conflicts ≡ t.conflicts
    shaped : IsWellFormed hash u
    fewer : (j : ℤ) (e : Entry) → entry hash u j ≡ some e → entry hash t j ≡ some e

  none-IsErasure : (t : Table) → IsWellFormed hash t → IsErasure t t
  none-IsErasure t w = record { kept = refl; shaped = w; fewer = λ j e h. h }

  erase_entry-IsErasure :
      (t : Table) (k : ℤ) → IsWellFormed hash t → IsErasure t (erase_entry hash t k)
  unfolding erase_entry
  erase_entry-IsErasure t k w = record {
    kept = refl;
    shaped = erase_entry-IsWellFormed hash t k w;
    fewer = λ j e h. ground (arith, entry-erase_entry hash t k j);
  }

  erase_where-IsErasure :
      (drop : ℤ → Entry → Bool) (t : Table)
      → IsWellFormed hash t
      → IsErasure t (erase_where hash drop t)
  unfolding erase_where
  erase_where-IsErasure drop t w = record {
    kept = refl;
    shaped = erase_where-IsWellFormed hash drop t w;
    fewer = λ j e h. ground (arith, entry-erase_where hash drop t j w);
  }

  release-IsErasure :
      (t : Table) (now : ℕ) (node : ℤ) (owner : String)
      → IsWellFormed hash t
      → IsErasure t (release hash now t node owner)
  unfolding release
  release-IsErasure t now node owner w =
      ground (arith, none-IsErasure t w, erase_entry-IsErasure t node w)

  -- The conflict relation is symmetric, the shards are well formed, and no two AGVs hold
  -- conflicting nodes.
  pub record IsSafe (t : Table) (now : ℕ) : Type 0 where
    pub shaped : IsWellFormed hash t
    pub symmetric : IsSymmetric t
    pub exclusive : IsExclusive hash t now

  same_conflicts-IsSymmetric :
      (t u : Table) → u.conflicts ≡ t.conflicts → IsSymmetric t → IsSymmetric u
  unfolding conflict_node_ids_for
  same_conflicts-IsSymmetric t u e s a b k = ground (arith, s a b)

  release_all-IsErasure :
      (drop : ℤ → Entry → Bool) (guarded : Bool) (t : Table)
      → IsWellFormed hash t
      → IsErasure t (if guarded then t else erase_where hash drop t)
  release_all-IsErasure drop true t w = none-IsErasure t w
  release_all-IsErasure drop false t w = erase_where-IsErasure drop t w

  -- No call changes what conflicts.
  pub conflicts-step : (t : Table) (at : ℕ) (c : Call) → (step t at c).conflicts ≡ t.conflicts
  unfolding step release release_all_by_owner release_all_by_owner_except
      release_all_by_owner_except_set cleanup_expired erase_entry erase_where
  conflicts-step t at (reserves node owner reason detail ttl) =
      conflicts-try_reserve hash t at node owner reason detail ttl
  conflicts-step t at (releases node owner) = ground arith
  conflicts-step t at (releases_all owner) = ground arith
  conflicts-step t at (releases_all_except owner keep) = ground arith
  conflicts-step t at (releases_all_except_set owner keep) = ground arith
  conflicts-step t at cleans = refl

  pub step-IsSymmetric : (t : Table) (at : ℕ) (c : Call) → IsSymmetric t → IsSymmetric (step t at c)
  step-IsSymmetric t at c = same_conflicts-IsSymmetric t (step t at c) (conflicts-step t at c)

  -- A call other than a reservation erases entries.
  step-IsErasure :
      (t : Table) (at : ℕ) (c : Call)
      → reserves_node c ≡ false
      → IsWellFormed hash t
      → IsErasure t (step t at c)
  unfolding step release_all_by_owner release_all_by_owner_except release_all_by_owner_except_set
      cleanup_expired
  step-IsErasure t at (reserves node owner reason detail ttl) h w = absurd (ground arith)
  step-IsErasure t at (releases node owner) h w = release-IsErasure t at node owner w
  step-IsErasure t at (releases_all owner) h w = release_all-IsErasure _ (is_empty owner) t w
  step-IsErasure t at (releases_all_except owner keep) h w =
      release_all-IsErasure _ (is_empty owner) t w
  step-IsErasure t at (releases_all_except_set owner keep) h w =
      release_all-IsErasure _ (is_empty owner) t w
  step-IsErasure t at cleans h w = erase_where-IsErasure _ t w

  erased-IfConflicting :
      (R : Type 0) (a b : ℤ) (p q : String) (t u : Table) (now at : ℕ)
      → now ≤ at
      → IsErasure t u
      → IfConflicting hash R t now a b p q
      → IfConflicting hash R u at a b p q
  erased-IfConflicting R a b p q t u now at h r =
      fewer-IfConflicting hash R a b p q t u now at h r.kept
        (λ c y (e, held, alive, o). (e, r.fewer c e held, alive, o))

  pub step-IsWellFormed :
      (t : Table) (at : ℕ) (c : Call) → IsWellFormed hash t → IsWellFormed hash (step t at c)
  unfolding step
  step-IsWellFormed t at (reserves node owner reason detail ttl) w =
      try_reserve-IsWellFormed hash t at node owner reason detail ttl w
  step-IsWellFormed t at (releases node owner) w =
      (step-IsErasure t at (releases node owner) refl w).shaped
  step-IsWellFormed t at (releases_all owner) w =
      (step-IsErasure t at (releases_all owner) refl w).shaped
  step-IsWellFormed t at (releases_all_except owner keep) w =
      (step-IsErasure t at (releases_all_except owner keep) refl w).shaped
  step-IsWellFormed t at (releases_all_except_set owner keep) w =
      (step-IsErasure t at (releases_all_except_set owner keep) refl w).shaped
  step-IsWellFormed t at cleans w = (step-IsErasure t at cleans refl w).shaped

  pub step-IfConflicting :
      (R : Type 0) (a b : ℤ) (p q : String) (t : Table) (now at : ℕ) (c : Call)
      → now ≤ at
      → IsWellFormed hash t
      → IsSymmetric t
      → (p ≡ q → R)
      → IfConflicting hash R t now a b p q
      → IfConflicting hash R (step t at c) at a b p q
  unfolding step
  step-IfConflicting R a b p q t now at (reserves node owner reason detail ttl) h w s same x =
      try_reserve-IfConflicting hash R a b p q t at node owner reason detail ttl s same
        (erased-IfConflicting R a b p q t t now at h (none-IsErasure t w) x)
  step-IfConflicting R a b p q t now at (releases node owner) h w s same x =
      erased-IfConflicting R a b p q t _ now at h (step-IsErasure t at (releases node owner) refl w)
        x
  step-IfConflicting R a b p q t now at (releases_all owner) h w s same x =
      erased-IfConflicting R a b p q t _ now at h (step-IsErasure t at (releases_all owner) refl w)
        x
  step-IfConflicting R a b p q t now at (releases_all_except owner keep) h w s same x =
      erased-IfConflicting R a b p q t _ now at h
        (step-IsErasure t at (releases_all_except owner keep) refl w) x
  step-IfConflicting R a b p q t now at (releases_all_except_set owner keep) h w s same x =
      erased-IfConflicting R a b p q t _ now at h
        (step-IsErasure t at (releases_all_except_set owner keep) refl w) x
  step-IfConflicting R a b p q t now at cleans h w s same x =
      erased-IfConflicting R a b p q t _ now at h (step-IsErasure t at cleans refl w) x

  pub step-IsSafe :
      (t : Table) (now at : ℕ) (c : Call) → now ≤ at → IsSafe t now → IsSafe (step t at c) at
  step-IsSafe t now at c h s = record {
    shaped = step-IsWellFormed t at c s.shaped;
    symmetric = step-IsSymmetric t at c s.symmetric;
    exclusive = λ a b x y.
        step-IfConflicting (x ≡ y) a b x y t now at c h s.shaped s.symmetric (λ e. e)
          (s.exclusive a b x y);
  }

  -- Of calls that reserve, release and clean up, at times that do not fall, on a table whose shards
  -- are well formed, whose conflicts are symmetric and in which no two AGVs hold nodes that conflict:
  -- all three are so at the time of the last call.
  pub run-IsSafe :
      (t : Table) (now : ℕ) (cs : List (ℕ × Call))
      → AreOrdered now cs
      → IsSafe t now
      → IsSafe (run t cs) (end_time now cs)
  unfolding run
  run-IsSafe t now [] h s = s
  run-IsSafe t now ((at, c) ∷ cs) h s =
      run-IsSafe (step t at c) at cs h.1 (step-IsSafe t now at c h.0 s)

  pub Conflicts-run :
      (t : Table) (cs : List (ℕ × Call)) (a b : ℤ) → Conflicts t a b → Conflicts (run t cs) a b
  unfolding run conflict_node_ids_for
  Conflicts-run t [] a b h = h
  Conflicts-run t ((at, c) ∷ cs) a b h =
      Conflicts-run (step t at c) cs a b (ground (arith, conflicts-step t at c))
