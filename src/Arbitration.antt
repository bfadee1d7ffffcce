-- ===== src/Arbitration.antt =====
-- Which status update of a robot is taken, and the time of one: include/common/StatusArbitration.h,
-- `ShouldAcceptStatusUpdate` and `NormalizeEpochSeconds`.
mod Order
mod Tests
use agvscheduling.Prelude.{
  ℕ, zero, suc, Bool, true, false, ◌&&◌, not, ℤ, pos, negsuc, ltb_ℤ, leb_ℤ, ltb, leb, ◌/◌,
  if◌then◌else◌,
}

pub data StatusSource : Type 0 where
  unknown status_stream task_snapshot : StatusSource

pub record Policy : Type 0 where
  pub drop_regressing_timestamp : Bool
  pub prefer_status_stream_on_equal_timestamp : Bool

abbrev pub default_policy : Policy
default_policy = record {
  drop_regressing_timestamp = true;
  prefer_status_stream_on_equal_timestamp = true;
}

-- `oldSource == StatusSource::STATUS_STREAM && newSource == StatusSource::TASK_SNAPSHOT`
abbrev pub overrides_stream : StatusSource → StatusSource → Bool
overrides_stream unknown new = false
overrides_stream status_stream unknown = false
overrides_stream status_stream status_stream = false
overrides_stream status_stream task_snapshot = true
overrides_stream task_snapshot new = false

pub should_accept_status_update : StatusSource → ℤ → StatusSource → ℤ → Policy → Bool
should_accept_status_update old_source old_timestamp new_source new_timestamp policy =
    if policy.drop_regressing_timestamp
      && (ltb_ℤ (pos 0) old_timestamp
          && (ltb_ℤ (pos 0) new_timestamp && ltb_ℤ new_timestamp old_timestamp))
    then false
    else if policy.prefer_status_stream_on_equal_timestamp
        && (overrides_stream old_source new_source && leb_ℤ new_timestamp old_timestamp)
    then false
    else true

-- `raw /= 1000LL` for a `raw` that is positive.
abbrev pub over_thousand : ℤ → ℤ
over_thousand (pos n) = pos (n / 1000)
over_thousand (negsuc n) = negsuc n

abbrev pub max_int : ℕ
max_int = 2147483647

-- The lines after the division: 0 for what is not positive, and at most the largest `int`.
abbrev pub saturated : ℤ → ℤ
saturated raw =
    if leb_ℤ raw (pos 0) then pos 0 else if ltb_ℤ (pos max_int) raw then pos max_int else raw

pub normalize_epoch_seconds : ℤ → ℤ
normalize_epoch_seconds raw =
    if ltb_ℤ (pos 100000000000) raw then saturated (over_thousand raw) else saturated raw
