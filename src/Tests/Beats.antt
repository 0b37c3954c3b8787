-- ===== src/Tests/Beats.antt =====
-- Heartbeats on concrete inputs.
use tend.Prelude.{
  ℕ, ◌+◌, ◌*◌, ◌≤◌, ◌<◌, ◌≡◌, ◌≢◌, ◌↔◌, refl, true, false, none, some, [], ◌∷◌, arith, min, length,
}
use tend.Prelude.Int.{pos}
use tend.Clock.{Time, second}
use tend.Heartbeat.{Heartbeat, deadline, anchor}
use tend.Heartbeat.Deadline.{Schedule, if_zero, deadline-Schedule}
use tend.Heartbeat.Ping.{Ping, PingKind, PingResult}
use tend.Store.PingLog.{log_ping, bytes}
use tend.Store.PingLog.Bounds.{entries, log_ping-bounded}
use tend.Store.Schema.{Db}
use tend.Store.PingState.{answer, update}
use tend.Store.Pings.{record_heartbeat_ping, create_heartbeat}
use tend.Store.Pings.Reported.{reported_down, is_down_now}
use tend.Store.Pings.Transitions.Reach.{created, pinged, here, then_step, reported-iff_down}
use tend.Prelude.{inl}
use tend.Store.Pings.{mark_heartbeat_down, miss_event}
use tend.Store.Pings.Keys.{Keys}
use tend.Store.Pings.Race.{mark_heartbeat_down-race}
use tend.Tests.Data.{empty_db, get, backup, seen_backup, failing_ping}

abbrev with_backup : Db
unfolding create_heartbeat
with_backup = get empty_db (create_heartbeat 100 empty_db backup)

abbrev nobody : PingResult
nobody = record { org_id = 0; heartbeat_id = 0; name = ""; event = none }

abbrev failed_backup : Db × PingResult
unfolding create_heartbeat record_heartbeat_ping
failed_backup = get (empty_db, nobody) (record_heartbeat_ping 200 with_backup "t1" failing_ping 200)

with_backup-created : create_heartbeat 100 empty_db backup ≡ some with_backup
unfolding create_heartbeat
with_backup-created = refl

failed_backup-pinged :
    record_heartbeat_ping 200 with_backup "t1" failing_ping 200 ≡ some failed_backup
unfolding record_heartbeat_ping create_heartbeat answer update
failed_backup-pinged = refl

reported-iff_down_example :
    reported_down 1 "backup" failed_backup.0.events
    ≡ is_down_now 1 "backup" failed_backup.0.heartbeats
reported-iff_down_example = reported-iff_down 1 "backup" refl refl (
    then_step (then_step here (created empty_db with_backup 100 backup with_backup-created))
      (pinged with_backup 200 "t1" failing_ping 200 failed_backup failed_backup-pinged))

seen_backup-Schedule : Schedule seen_backup 3600 600
seen_backup-Schedule = record {
  period_is = refl;
  grace_is = refl;
  period_positive = omega arith;
  fits = omega arith;
}

abbrev regular : Time
regular = anchor seen_backup + (3600 + 600) * second

abbrev run_limit : Time
run_limit = seen_backup.started_at + if_zero 600 3600 * second

deadline-Schedule_example :
    (seen_backup.started_at ≡ 0
      → deadline seen_backup ≡ record { deadline = regular; overran = false; watched = true })
    × (0 < seen_backup.started_at
        → ((deadline seen_backup).deadline ≡ min regular run_limit)
          × (((deadline seen_backup).overran ≡ true) ↔ (run_limit < regular)))
deadline-Schedule_example =
    deadline-Schedule seen_backup 3600 600 seen_backup-Schedule (ground arith) (omega arith)

-- A period of 317 years.
abbrev forgotten : Heartbeat
forgotten = record seen_backup { period_seconds = pos 10000000000; grace_seconds = pos 0 }

abbrev entry : Ping
entry = record {
  id = 5;
  org_id = 1;
  heartbeat_id = 1;
  kind = PingKind.success;
  exit_status = none;
  rid = "";
  duration = none;
  body = 111 ∷ 107 ∷ [];
  created_at = 300;
}

log_ping-bounded_example :
    (length (entries 1 (log_ping entry (record entry { id = 4 } ∷ []))) ≤ 1000)
    × (bytes (entries 1 (log_ping entry (record entry { id = 4 } ∷ []))) ≤ 10000000)
    × ((k : ℕ)
        → k ≢ 1
        → entries k (log_ping entry (record entry { id = 4 } ∷ []))
          ≡ entries k (record entry { id = 4 } ∷ entry ∷ []))
log_ping-bounded_example =
    log_ping-bounded entry (record entry { id = 4 } ∷ []) ((omega arith, tt), (tt, tt))

-- The row of the heartbeat as the watcher read it before the failure ping.
abbrev new_backup : Heartbeat
new_backup = record backup { id = 1; created_at = 100 }

with_backup-Keys : Keys with_backup.heartbeats
unfolding create_heartbeat
with_backup-Keys = record {
  ids = λ x y i j k. ground arith;
  names = λ x y i j k. ground arith;
  tokens = λ x y i j k. ground arith;
}

mark_heartbeat_down-race_example :
    mark_heartbeat_down 300 failed_backup.0 new_backup (miss_event new_backup)
    ≡ (failed_backup.0, false)
unfolding create_heartbeat
mark_heartbeat_down-race_example =
    mark_heartbeat_down-race 200 300 with_backup new_backup failing_ping 200 failed_backup
      (miss_event new_backup) with_backup-Keys (inl refl) refl (ground arith) (ground arith)
      failed_backup-pinged
