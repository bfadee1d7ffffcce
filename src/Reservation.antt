-- ===== src/Reservation.antt =====
-- include/common/NodeReservationTable.h and src/common/NodeReservationTable.cpp: which AGV holds
-- which map node. A time is a count of the steady clock's ticks, and 0 is `time_point{}`, which an
-- entry without a time to live has for its end. A method is one step here. `now` is the clock's reading
-- inside the call.
pub mod Entries
pub mod WellFormed
pub mod Exclusion
pub mod History
pub mod Reload
pub mod Reserve
pub mod Releases
pub mod Snapshot
pub mod Blocked
pub mod Distance
mod Tests
use agvscheduling.Prelude.{
  ℕ, zero, suc, ◌+◌, ◌*◌, ◌%◌, Bool, true, false, not, ◌&&◌, ◌||◌, ℤ, ℤ_discrete, is_negative,
  leb_ℤ, String, string_discrete, Option, none, some, List, [], ◌∷◌, ◌++◌, map, ite, leb, ltb, ◌==◌,
  if◌then◌else◌, elem, find, erase, put, erase_if, sort_unique, ℕ_discrete,
}

pub data HoldReason : Type 0 where
  reserved_path waiting_point temp_goal other : HoldReason

pub record Entry : Type 0 where
  pub owner : String
  pub reason : HoldReason
  pub detail : String
  pub updated_at : ℕ
  pub expires_at : ℕ

pub record HoldEntry : Type 0 where
  pub node_id : ℤ
  pub owner : String
  pub reason : HoldReason
  pub detail : String
  pub updated_at : ℕ
  pub expires_at : ℕ

abbrev pub Shard : Type 0
Shard = List (ℤ × Entry)

-- `conflicts` is `distanceConflictIndex_.nodeIdsByNodeId`; the array of shards is read and written
-- at indices below 64 only.
pub record Table : Type 0 where
  pub shards : ℕ → Shard
  pub conflicts : List (ℤ × List ℤ)

abbrev pub shard_count : ℕ
shard_count = 64

pub is_expired : Entry → ℕ → Bool
is_expired e now = if e.expires_at == 0 then false else leb e.expires_at now

abbrev pub is_empty : String → Bool
is_empty s = ite (string_discrete s "") true false

abbrev pub same : String → String → Bool
same a b = ite (string_discrete a b) true false

others_than : ℤ → List ℤ → List ℤ
others_than node [] = []
others_than node (x ∷ xs) = ite (ℤ_discrete x node) (others_than node xs) (x ∷ others_than node xs)

pub conflict_node_ids_for : Table → ℤ → List ℤ
unfolding others_than
conflict_node_ids_for t node = elim (find ℤ_discrete node t.conflicts) [
  | none ↦ node ∷ []
  | some [] ↦ node ∷ []
  | some (x ∷ near) ↦ node ∷ others_than node (x ∷ near)
]

-- A millisecond in ticks of the steady clock.
abbrev pub ticks_per_ms : ℕ
ticks_per_ms = 1_000_000

pub expiry : ℕ → ℤ → ℕ
expiry now (ℤ.pos n) = if ltb 0 n then now + n * ticks_per_ms else 0
expiry now (ℤ.negsuc n) = 0

pub fresh_entry : ℕ → String → HoldReason → String → ℤ → Entry
unfolding expiry
fresh_entry now owner reason detail ttl = record {
  owner = owner;
  reason = reason;
  detail = detail;
  updated_at = now;
  expires_at = expiry now ttl;
}

-- The last branch of `tryReserve`: a new entry, or the held one with its owner kept.
abbrev pub refreshed : Option Entry → Entry → Entry
refreshed none new = new
refreshed (some e) new = record e {
  reason = new.reason;
  detail = new.detail;
  updated_at = new.updated_at;
  expires_at = new.expires_at;
}

abbrev pub hold_of : ℤ → Entry → HoldEntry
hold_of node e = record {
  node_id = node;
  owner = e.owner;
  reason = e.reason;
  detail = e.detail;
  updated_at = e.updated_at;
  expires_at = e.expires_at;
}

-- `skip` is an empty text where the caller excludes nobody.
pub excluded : String → String → Bool
excluded skip owner = not (is_empty skip) && same owner skip

pub held_in_shard : ℕ → String → Shard → List ℤ
unfolding excluded
held_in_shard now skip [] = []
held_in_shard now skip ((node, e) ∷ es) =
    let rest = held_in_shard now skip es in
    if is_expired e now || excluded skip e.owner then rest else node ∷ rest

-- The loop over the last `n` shards.
pub held_in_shards : ℕ → String → Table → ℕ → List ℤ
unfolding held_in_shard
held_in_shards now skip t zero = []
held_in_shards now skip t (suc n) =
    held_in_shards now skip t n ++ held_in_shard now skip (t.shards n)

pub snapshot_held_nodes : ℕ → Table → String → List ℤ
unfolding held_in_shards
snapshot_held_nodes now t skip =
    sort_unique ℤ_discrete leb_ℤ (held_in_shards now skip t shard_count)

-- What a held node blocks.
pub blocked_by : Table → ℤ → List ℤ
blocked_by t h = elim (find ℤ_discrete h t.conflicts) [
  | none ↦ h ∷ []
  | some [] ↦ h ∷ []
  | some (x ∷ near) ↦ x ∷ near
]

pub expand_conflicts : Table → List ℤ → List ℤ
unfolding blocked_by
expand_conflicts t [] = []
expand_conflicts t (h ∷ hs) = blocked_by t h ++ expand_conflicts t hs

pub snapshot_blocked_nodes : ℕ → Table → String → List ℤ
unfolding snapshot_held_nodes expand_conflicts
snapshot_blocked_nodes now t skip = elim (snapshot_held_nodes now t skip) [
  | [] ↦ []
  | h ∷ hs ↦ sort_unique ℤ_discrete leb_ℤ (expand_conflicts t (h ∷ hs))
]

-- `std::hash<int>` is the library's.
module _ (hash : ℤ → ℕ) where
  pub shard_of : ℤ → ℕ
  shard_of node = hash node % shard_count

  -- `shards_[shardOf(node)].entries.find(node)`
  pub entry : Table → ℤ → Option Entry
  unfolding shard_of
  entry t node = find ℤ_discrete node (t.shards (shard_of node))

  pub with_shard : Table → ℕ → (Shard → Shard) → Table
  with_shard t i f = record t { shards = λ j. if i == j then f (t.shards j) else t.shards j }

  pub erase_entry : Table → ℤ → Table
  unfolding with_shard
  erase_entry t node = with_shard t (shard_of node) (erase ℤ_discrete node)

  pub put_entry : Table → ℤ → Entry → Table
  unfolding with_shard
  put_entry t node e = with_shard t (shard_of node) (put ℤ_discrete node e)

  -- A loop over all shards that erases the entries that meet `drop`.
  pub erase_where : (ℤ → Entry → Bool) → Table → Table
  erase_where drop t = record t { shards = λ i. erase_if ℤ_discrete drop (t.shards i) }

  pub drop_if_expired : ℕ → Table → ℤ → Table
  drop_if_expired now t node = elim (entry t node) [
    | none ↦ t
    | some e ↦ if is_expired e now then erase_entry t node else t
  ]

  -- The first loop of `tryReserve`.
  pub drop_expired : ℕ → Table → List ℤ → Table
  unfolding drop_if_expired
  drop_expired now t [] = t
  drop_expired now t (c ∷ cs) = drop_expired now (drop_if_expired now t c) cs

  -- The second loop of `tryReserve`: it returns false at the first entry of another owner.
  pub held_by_other : String → Table → List ℤ → Bool
  held_by_other owner t [] = false
  held_by_other owner t (c ∷ cs) = elim (entry t c) [
    | none ↦ held_by_other owner t cs
    | some e ↦ not (same e.owner owner) || held_by_other owner t cs
  ]

  pub store : Table → ℤ → Entry → Table
  store t node new = put_entry t node (refreshed (entry t node) new)

  pub try_reserve : ℕ → Table → ℤ → String → HoldReason → String → ℤ → Table × Bool
  unfolding drop_expired held_by_other store
  try_reserve now t node owner reason detail ttl =
      if is_negative node || is_empty owner
      then (t, false)
      else (let near = conflict_node_ids_for t node in
          let clean = drop_expired now t near in
          if held_by_other owner clean near
          then (clean, false)
          else (store clean node (fresh_entry now owner reason detail ttl), true))

  pub release : ℕ → Table → ℤ → String → Table
  release now t node owner = if is_negative node || is_empty owner then t else elim (entry t node) [
    | none ↦ t
    | some e ↦
        if is_expired e now
        then erase_entry t node
        else if same e.owner owner
        then erase_entry t node
        else t
  ]

  pub release_all_by_owner : ℕ → Table → String → Table
  unfolding erase_where
  release_all_by_owner now t owner =
      if is_empty owner then t else erase_where (λ node e. is_expired e now || same e.owner owner) t

  pub release_all_by_owner_except : ℕ → Table → String → ℤ → Table
  unfolding erase_where
  release_all_by_owner_except now t owner keep =
      if is_empty owner
      then t
      else erase_where
          (λ node e.
            is_expired e now || same e.owner owner && not (ite (ℤ_discrete node keep) true false))
          t

  pub release_all_by_owner_except_set : ℕ → Table → String → List ℤ → Table
  unfolding erase_where
  release_all_by_owner_except_set now t owner keep =
      if is_empty owner
      then t
      else erase_where
          (λ node e. is_expired e now || same e.owner owner && not (elem ℤ_discrete node keep)) t

  pub cleanup_expired : ℕ → Table → Table
  unfolding erase_where
  cleanup_expired now t = erase_where (λ node e. is_expired e now) t

  pub get : ℕ → Table → ℤ → Option HoldEntry
  get now t node = if is_negative node then none else elim (entry t node) [
    | none ↦ none
    | some e ↦ if is_expired e now then none else some (hold_of node e)
  ]

  pub first_blocking : ℕ → Table → String → List ℤ → Option HoldEntry
  unfolding excluded
  first_blocking now t skip [] = none
  first_blocking now t skip (c ∷ cs) =
      let rest = first_blocking now t skip cs in
      elim (entry t c) [
        | none ↦ rest
        | some e ↦ if is_expired e now || excluded skip e.owner then rest else some (hold_of c e)
      ]

  pub find_blocking_hold : ℕ → Table → ℤ → String → Option HoldEntry
  unfolding first_blocking
  find_blocking_hold now t node skip =
      if is_negative node then none else first_blocking now t skip (conflict_node_ids_for t node)

  -- The shards that `tryReserve` and `findBlockingHold` lock, in this order.
  pub lock_order : Table → ℤ → List ℕ
  lock_order t node = sort_unique ℕ_discrete leb (map shard_of (conflict_node_ids_for t node))
