-- ===== src/Reservation/Tests.antt =====
-- A map of three nodes in a row, where neighbours conflict, and the calls of two AGVs.
use agvscheduling.Prelude.{
  ℕ, ◌≡◌, ◌≢◌, ◌↔◌, refl, true, false, ℤ, pos, negsuc, ℤ_discrete, String, none, some, List, [],
  ◌∷◌, ite, arith, elem, leb_ℤ, IsAscending, find, string_discrete, is_negative, Bool-cases, put,
  sort_unique,
}
use agvscheduling.Reservation.{
  Table, HoldEntry, reserved_path, entry, is_expired, conflict_node_ids_for, try_reserve, release,
  release_all_by_owner_except, release_all_by_owner_except_set, cleanup_expired, get,
  find_blocking_hold, lock_order, put_entry, snapshot_held_nodes, snapshot_blocked_nodes,
  fresh_entry, hold_of,
}
use agvscheduling.Reservation.Exclusion.{IsSymmetric, Conflicts}
use agvscheduling.Reservation.History.{Call, reserves, cleans, run, run-IsSafe, IsSafe, fresh_table}
use agvscheduling.Reservation.Reserve.{
  HeldByOther, try_reserve-granted_iff, find_blocking_hold-foretells,
}
use agvscheduling.Reservation.Releases.{
  without, get-release, get-release_all_by_owner_except_set, get-release_all_by_owner_except,
  get-cleanup_expired,
}
use agvscheduling.Reservation.Snapshot.{shown, snapshot_held_nodes_lem}
use agvscheduling.Reservation.Blocked.{ListsItself, snapshot_blocked_nodes-refused}

abbrev number : ℤ → ℕ
number (pos n) = n
number (negsuc n) = n

abbrev first : String
first = "a"

abbrev second : String
second = "b"

first_not_empty : ite (string_discrete first "") true false ≡ false
unfolding string_discrete Bool-cases
first_not_empty = refl

first_named : first ≢ ""
first_named e = ground (arith, first_not_empty)

abbrev row : Table
row = fresh_table (
    (pos 1, pos 1 ∷ pos 2 ∷ [])
    ∷ (pos 2, pos 1 ∷ pos 2 ∷ pos 3 ∷ [])
    ∷ (pos 3, pos 2 ∷ pos 3 ∷ [])
    ∷ [])

row-IsSymmetric : IsSymmetric row
unfolding conflict_node_ids_for elem find
row-IsSymmetric a b h = ground arith

row-IsSafe : IsSafe number row 0
unfolding entry find
row-IsSafe = record {
  shaped = record { unique = λ i. tt; placed = λ i j e h. cc };
  symmetric = row-IsSymmetric;
  exclusive = λ a b x y (e, held, alive, o) q k. cc;
}

abbrev calls : List (ℕ × Call)
calls =
    (5, reserves (pos 1) first reserved_path "" (pos 3))
    ∷ (6, reserves (pos 3) second reserved_path "" (pos 0))
    ∷ (9, cleans)
    ∷ []

run-IsSafe_example : IsSafe number (run number row calls) 9
run-IsSafe_example =
    run-IsSafe number row 0 calls (omega arith, (omega arith, (omega arith, tt))) row-IsSafe

-- After the calls AGV "b" holds node 3, and the hold of "a" has not run out at time 9.
abbrev later : Table
later = run number row calls

later-IsSafe : IsSafe number later 9
later-IsSafe = run-IsSafe_example

try_reserve-granted_iff_example :
    ((try_reserve number 0 row (pos 2) first reserved_path "" (pos 5)).1 ≡ true) ↔ (
      (is_negative (pos 2) ≡ false)
      × (first ≢ "")
      × ((b : ℤ) → Conflicts row (pos 2) b → ¬ HeldByOther number row 0 first b))
try_reserve-granted_iff_example =
    try_reserve-granted_iff number row 0 (pos 2) first reserved_path "" (pos 5)

find_blocking_hold-foretells_example :
    ((find_blocking_hold number 9 later (pos 2) first ≡ none)
      ↔ ((try_reserve number 9 later (pos 2) first reserved_path "" (pos 5)).1 ≡ true))
    × ((x : HoldEntry)
        → find_blocking_hold number 9 later (pos 2) first ≡ some x
        → Conflicts later (pos 2) x.node_id × HeldByOther number later 9 first x.node_id)
find_blocking_hold-foretells_example =
    find_blocking_hold-foretells number later 9 (pos 2) first reserved_path "" (pos 5) refl
      first_named

get-release_example :
    get number 9 (release number 9 later (pos 1) first) (pos 1)
    ≡ without first false (get number 9 later (pos 1))
unfolding get ℤ_discrete
get-release_example = get-release number later 9 9 (omega arith) (pos 1) (pos 1) first first_named

get-release_all_by_owner_except_set_example :
    get number 9 (release_all_by_owner_except_set number 9 later first (pos 1 ∷ [])) (pos 1)
    ≡ without first (elem ℤ_discrete (pos 1) (pos 1 ∷ [])) (get number 9 later (pos 1))
get-release_all_by_owner_except_set_example =
    get-release_all_by_owner_except_set number later 9 9 (omega arith) first (pos 1 ∷ []) (pos 1)
      later-IsSafe.shaped first_named

get-release_all_by_owner_except_example :
    get number 9 (release_all_by_owner_except number 9 later first (pos 2)) (pos 1)
    ≡ without first (ite (ℤ_discrete (pos 1) (pos 2)) true false) (get number 9 later (pos 1))
get-release_all_by_owner_except_example =
    get-release_all_by_owner_except number later 9 9 (omega arith) first (pos 2) (pos 1)
      later-IsSafe.shaped first_named

get-cleanup_expired_example :
    get number 9 (cleanup_expired number 9 later) (pos 3) ≡ get number 9 later (pos 3)
get-cleanup_expired_example =
    get-cleanup_expired number later 9 9 (omega arith) (pos 3) later-IsSafe.shaped

snapshot_held_nodes_example :
    IsAscending leb_ℤ (snapshot_held_nodes 9 later first)
    × ((j : ℤ)
        → (elem ℤ_discrete j (snapshot_held_nodes 9 later first) ≡ true)
          ↔ (shown 9 first (entry number later j) ≡ true))
snapshot_held_nodes_example = snapshot_held_nodes_lem number later later-IsSafe.shaped 9 first

row-ListsItself : ListsItself row
unfolding find elem
row-ListsItself a near h = ground arith

snapshot_blocked_nodes-refused_example :
    (elem ℤ_discrete (pos 2) (snapshot_blocked_nodes 0 row first) ≡ true)
    ↔ ((try_reserve number 0 row (pos 2) first reserved_path "" (pos 5)).1 ≡ false)
snapshot_blocked_nodes-refused_example =
    snapshot_blocked_nodes-refused number row row-IsSafe.shaped row-IsSymmetric row-ListsItself 0
      first first_named (pos 2) reserved_path "" (pos 5) refl

abbrev taken : Table
taken = (try_reserve number 0 row (pos 3) second reserved_path "" (pos 0)).0

neighbour_refused :
    (get number 9 taken (pos 3)
      ≡ some (hold_of (pos 3) (fresh_entry 0 second reserved_path "" (pos 0))))
    × (snapshot_blocked_nodes 9 taken first ≡ pos 2 ∷ pos 3 ∷ [])
    × ((try_reserve number 9 taken (pos 2) first reserved_path "" (pos 0)).1 ≡ false)
    × (lock_order number row (pos 2) ≡ 1 ∷ 2 ∷ 3 ∷ [])
unfolding get snapshot_blocked_nodes try_reserve lock_order fresh_entry string_discrete Bool-cases
    find entry conflict_node_ids_for ℤ_discrete is_expired put_entry put sort_unique
neighbour_refused = (refl, refl, refl, refl)
