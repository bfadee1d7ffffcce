-- ===== src/Reservation/Releases.antt =====
-- What the releasing methods leave, seen through `get`.
use agvscheduling.Prelude.{
  ℕ, ◌≤◌, ◌≡◌, ◌≢◌, Bool, true, false, not, ◌||◌, ◌&&◌, ℤ, ℤ_discrete, String, Option, none, some,
  List, ite, inl, inr, if◌then◌else◌, Option-cases, arith, elem,
}
use agvscheduling.Reservation.{
  Table, HoldEntry, is_expired, same, entry, get, release, release_all_by_owner_except,
  release_all_by_owner_except_set, cleanup_expired, erase_where,
}
use agvscheduling.Reservation.Entries.{entry-erase_entry, is_expired_mono}
use agvscheduling.Reservation.WellFormed.{IsWellFormed, entry-erase_where}

-- What is left of a hold when `owner` gives up the nodes that `keep` does not name.
abbrev pub without : String → Bool → Option HoldEntry → Option HoldEntry
without owner keep none = none
without owner keep (some x) = if same x.owner owner && not keep then none else some x

module _ (hash : ℤ → ℕ) (t : Table) (now later : ℕ) (h : now ≤ later) where
  -- `release` frees the node if the owner holds it, and leaves every other hold alone.
  pub get-release :
      (node j : ℤ) (owner : String)
      → owner ≢ ""
      → get hash later (release hash now t node owner) j
        ≡ ite (ℤ_discrete node j) (without owner false (get hash later t j)) (get hash later t j)
  unfolding get release
  get-release node j owner named = elim (Option-cases (entry hash t node)) [
    | inl free ↦ ground (arith, entry-erase_entry hash t node j)
    | inr (e, held) ↦ ground (arith, entry-erase_entry hash t node j, is_expired_mono e now later h)
  ]

  get-erase_where :
      (owner : String) (keep : ℤ → Bool) (j : ℤ)
      → IsWellFormed hash t
      → get hash later
          (erase_where hash (λ node e. is_expired e now || same e.owner owner && not (keep node)) t)
          j
        ≡ without owner (keep j) (get hash later t j)
  unfolding get
  get-erase_where owner keep j w = elim (Option-cases (entry hash t j)) [
    | inl free ↦ ground (
      arith,
      entry-erase_where hash (λ node e. is_expired e now || same e.owner owner && not (keep node)) t
          j w,
    )
    | inr (e, held) ↦ ground (
      arith,
      entry-erase_where hash (λ node e. is_expired e now || same e.owner owner && not (keep node)) t
          j w,
      is_expired_mono e now later h,
    )
  ]

  -- `releaseAllByOwnerExceptSet` frees exactly the nodes of the owner that the list does not name.
  pub get-release_all_by_owner_except_set :
      (owner : String) (keep : List ℤ) (j : ℤ)
      → IsWellFormed hash t
      → owner ≢ ""
      → get hash later (release_all_by_owner_except_set hash now t owner keep) j
        ≡ without owner (elem ℤ_discrete j keep) (get hash later t j)
  unfolding release_all_by_owner_except_set
  get-release_all_by_owner_except_set owner keep j w named =
      ground (arith, get-erase_where owner (λ node. elem ℤ_discrete node keep) j w)

  -- `releaseAllByOwnerExcept` frees exactly the nodes of the owner but one.
  pub get-release_all_by_owner_except :
      (owner : String) (keep j : ℤ)
      → IsWellFormed hash t
      → owner ≢ ""
      → get hash later (release_all_by_owner_except hash now t owner keep) j
        ≡ without owner (ite (ℤ_discrete j keep) true false) (get hash later t j)
  unfolding release_all_by_owner_except
  get-release_all_by_owner_except owner keep j w named =
      ground (arith, get-erase_where owner (λ node. ite (ℤ_discrete node keep) true false) j w)

  -- `cleanupExpired` changes nothing that `get` shows.
  pub get-cleanup_expired :
      (j : ℤ)
      → IsWellFormed hash t
      → get hash later (cleanup_expired hash now t) j ≡ get hash later t j
  unfolding get cleanup_expired
  get-cleanup_expired j w = elim (Option-cases (entry hash t j)) [
    | inl free ↦ ground (arith, entry-erase_where hash (λ node e. is_expired e now) t j w)
    | inr (e, held) ↦ ground (
      arith,
      entry-erase_where hash (λ node e. is_expired e now) t j w,
      is_expired_mono e now later h,
    )
  ]
