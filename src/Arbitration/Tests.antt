-- ===== src/Arbitration/Tests.antt =====
-- Updates of one robot, and times in seconds and in milliseconds.
use agvscheduling.Prelude.{◌≡◌, ◌*◌, refl, pos, ltb_ℤ, true, List, [], ◌∷◌, arith, ◌≤ℤ◌}
use agvscheduling.Arbitration.{
  status_stream, task_snapshot, default_policy, normalize_epoch_seconds,
  should_accept_status_update, max_int,
}
use agvscheduling.Arbitration.Order.{
  Stamp, take_updates, latest, take_updates-latest, task_snapshot-is_later,
  normalize_epoch_seconds_lem, normalize_epoch_seconds-bounds,
}

abbrev at_ten : Stamp
at_ten = record { source = status_stream; timestamp = pos 10 }

abbrev updates : List Stamp
updates =
    record { source = task_snapshot; timestamp = pos 12 }
    ∷ record { source = status_stream; timestamp = pos 11 }
    ∷ []

take_updates-latest_example : (take_updates at_ten updates).timestamp ≡ latest (pos 10) updates
take_updates-latest_example = take_updates-latest at_ten updates refl (refl, (refl, tt))

later_accepted :
    should_accept_status_update status_stream (pos 10) task_snapshot (pos 12) default_policy ≡ true
unfolding should_accept_status_update
later_accepted = refl

task_snapshot-is_later_example : ltb_ℤ (pos 10) (pos 12) ≡ true
task_snapshot-is_later_example = task_snapshot-is_later (pos 10) (pos 12) later_accepted

normalize_epoch_seconds_example :
    (normalize_epoch_seconds (pos 1700000000) ≡ pos 1700000000)
    × (normalize_epoch_seconds (pos (1700000000 * 1000)) ≡ pos 1700000000)
normalize_epoch_seconds_example = normalize_epoch_seconds_lem 1700000000 (omega arith) (omega arith)

normalize_epoch_seconds-bounds_example :
    (pos 0 ≤ℤ normalize_epoch_seconds (pos 5000000000))
    × (normalize_epoch_seconds (pos 5000000000) ≤ℤ pos max_int)
normalize_epoch_seconds-bounds_example = normalize_epoch_seconds-bounds (pos 5000000000)
