-- ===== src/Arbitration/Order.antt =====
-- A robot's status through a sequence of updates, each offered to `ShouldAcceptStatusUpdate`.
use agvscheduling.Prelude.{
  ℕ, ◌≡◌, refl, ◌∙◌, true, ℤ, pos, negsuc, ◌≤ℤ◌, ltb_ℤ, leb_ℤ, List, [], ◌∷◌, inl, inr, arith,
  if◌then◌else◌, Bool-cases, All, ◌≤◌, ◌<◌, ◌*◌,
}
use agvscheduling.Arbitration.{
  StatusSource, status_stream, task_snapshot, default_policy, should_accept_status_update,
  saturated, over_thousand, normalize_epoch_seconds, max_int,
}

-- The source and the time that are stored, and those of an update.
pub record Stamp : Type 0 where
  pub source : StatusSource
  pub timestamp : ℤ

pub take_update : Stamp → Stamp → Stamp
take_update old new =
    if should_accept_status_update old.source old.timestamp new.source new.timestamp default_policy
    then new
    else old

pub take_updates : Stamp → List Stamp → Stamp
take_updates s [] = s
take_updates s (u ∷ us) = take_updates (take_update s u) us

abbrev pub IsPositive : ℤ → Type 0
IsPositive z = ltb_ℤ (pos 0) z ≡ true

abbrev pub max_ℤ : ℤ → ℤ → ℤ
max_ℤ a b = if leb_ℤ a b then b else a

-- The latest of the given times.
pub latest : ℤ → List Stamp → ℤ
latest t [] = t
latest t (u ∷ us) = latest (max_ℤ t u.timestamp) us

accepted_time :
    (x y : StatusSource) (o n : ℤ)
    → IsPositive o
    → IsPositive n
    → (if should_accept_status_update x o y n default_policy then n else o) ≡ max_ℤ o n
unfolding should_accept_status_update
accepted_time x y (pos o) (pos n) ho hn = ground arith
accepted_time x y (pos o) (negsuc n) ho hn = ground arith
accepted_time x y (negsuc o) n ho hn = ground arith

take_update-timestamp :
    (s u : Stamp)
    → IsPositive s.timestamp
    → IsPositive u.timestamp
    → (take_update s u).timestamp ≡ max_ℤ s.timestamp u.timestamp
unfolding take_update
take_update-timestamp s u hs hu =
    elim (Bool-cases
      (should_accept_status_update s.source s.timestamp u.source u.timestamp default_policy)) [
        | inl accepted ↦
            rw (← accepted_time s.source u.source s.timestamp u.timestamp hs hu, accepted) refl
        | inr refused ↦
            rw (← accepted_time s.source u.source s.timestamp u.timestamp hs hu, refused) refl
      ]

max_ℤ-IsPositive : (a b : ℤ) → IsPositive a → IsPositive b → IsPositive (max_ℤ a b)
max_ℤ-IsPositive a b ha hb = elim (Bool-cases (leb_ℤ a b)) [ inl le ↦ rw le hb | inr gt ↦ rw gt ha ]

AllPositive : List Stamp → Type 0
AllPositive us = All (λ u. IsPositive u.timestamp) us

-- Where every update has a time, the time that is kept is the latest one, whichever sources the
-- updates come from.
pub take_updates-latest :
    (s : Stamp) (us : List Stamp)
    → IsPositive s.timestamp
    → All (λ u. IsPositive u.timestamp) us
    → (take_updates s us).timestamp ≡ latest s.timestamp us
unfolding take_updates latest
take_updates-latest s [] hs h = refl
take_updates-latest s (u ∷ us) hs (hu, h) =
    take_updates-latest (take_update s u) us
      (rw (take_update-timestamp s u hs hu) (max_ℤ-IsPositive s.timestamp u.timestamp hs hu)) h
    ∙ rw (take_update-timestamp s u hs hu) refl

-- A snapshot replaces a status of the stream only where its time is later than the status's.
pub task_snapshot-is_later :
    (o n : ℤ)
    → should_accept_status_update status_stream o task_snapshot n default_policy ≡ true
    → ltb_ℤ o n ≡ true
unfolding should_accept_status_update
task_snapshot-is_later o n h = ground arith

-- A time over 10^8 seconds that fits an `int` comes out of `NormalizeEpochSeconds` the same whether
-- it is given in seconds or in milliseconds.
pub normalize_epoch_seconds_lem :
    (n : ℕ)
    → n ≤ max_int
    → 100000000 < n
    → (normalize_epoch_seconds (pos n) ≡ pos n) × (normalize_epoch_seconds (pos (n * 1000)) ≡ pos n)
unfolding normalize_epoch_seconds
normalize_epoch_seconds_lem n hn hm = (ground arith, ground arith)

saturated-bounds : (z : ℤ) → (pos 0 ≤ℤ saturated z) × (saturated z ≤ℤ pos max_int)
saturated-bounds (pos n) = elim (Bool-cases (leb_ℤ (pos n) (pos 0))) [
  | inl low ↦ rw low (ground arith)
  | inr high ↦ rw high (elim (Bool-cases (ltb_ℤ (pos max_int) (pos n))) [
    | inl over ↦ rw over (ground arith)
    | inr fits ↦ rw fits (ground arith)
  ])
]
saturated-bounds (negsuc n) = ground arith

-- `NormalizeEpochSeconds` returns an `int` that is not negative.
pub normalize_epoch_seconds-bounds :
    (z : ℤ) → (pos 0 ≤ℤ normalize_epoch_seconds z) × (normalize_epoch_seconds z ≤ℤ pos max_int)
unfolding normalize_epoch_seconds
normalize_epoch_seconds-bounds z = elim (Bool-cases (ltb_ℤ (pos 100000000000) z)) [
  | inl large ↦ rw large (saturated-bounds (over_thousand z))
  | inr small ↦ rw small (saturated-bounds z)
]
