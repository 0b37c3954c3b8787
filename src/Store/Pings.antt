-- ===== src/Store/Pings.antt =====
-- internal/store/pings.go and the heartbeats of sqlite.go: recording a ping (the heartbeat's new
-- state, the ping log and the event in one transaction), the watcher's scan and its mark, and
-- creating and deleting heartbeats. A transaction that fails writes nothing, so a call is a function
-- from the store to the store; what the database driver may fail with is left out.
pub mod Reported
pub mod Keys
pub mod Transitions
pub mod Race
use Prim.Native.String.{String}
use text.Mathlib.Text.{◌==◌ as str_eq}
use tend.Prelude.{
  ℕ, zero, suc, ◌+◌, Option, none, some, Bool, true, false, not, ◌&&◌, ◌||◌, List, [], ◌∷◌, ◌++◌,
  ◌==◌, if◌then◌else◌, find, select, any,
}
use tend.Prelude.Int.{ℤ}
use tend.Clock.{Time, zero_time, is_zero, after}
use tend.Event.{Event}
use tend.Heartbeat.{
  Heartbeat, Status, new, up, down, is_down, is_new, is_up, removed_event, deadline, overdue_event,
  overran_event,
}
use tend.Heartbeat.Ping.{PingInput, Ping, PingResult}
use tend.Store.Schema.{Db}
use tend.Store.Table.{update_where, delete_where, returning}
use tend.Store.Emit.{emit_event}
use tend.Store.PingState.{Answer, answer}
use tend.Store.PingLog.{run_duration, log_ping}

abbrev pub emit_if : Time → Option Event → Db → Db
emit_if wall none db = db
emit_if wall (some e) db = emit_event wall db e

-- The transaction after the switch: the ping log and the event.
unfoldable pub write_answer : Time → PingInput → Time → Db → Answer → Db
unfolding log_ping run_duration
write_answer wall ping now db a =
    let entry : Ping = record {
      id = db.next_ping_id;
      org_id = a.row.org_id;
      heartbeat_id = a.row.id;
      kind = ping.kind;
      exit_status = ping.exit_status;
      rid = ping.rid;
      duration = run_duration db.pings a.row.id ping now;
      body = ping.body;
      created_at = now;
    } in
    emit_if wall a.event (record db {
      heartbeats = a.rows;
      pings = log_ping entry db.pings;
      next_ping_id = suc db.next_ping_id;
    })

-- recordHeartbeatPing, with `wall` the time at which its event is written; none is ErrNotFound.
unfoldable pub record_heartbeat_ping :
    Time → Db → String → PingInput → Time → Option (Db × PingResult)
unfolding answer write_answer
record_heartbeat_ping wall db token ping now = elim (answer token ping now db.heartbeats) [
  | none ↦ none
  | some a ↦ some (
    write_answer wall ping now db a,
    record { org_id = a.row.org_id; heartbeat_id = a.row.id; name = a.row.name; event = a.event },
  )
]

abbrev same_status : Status → Status → Bool
same_status new s = is_new s
same_status up s = is_up s
same_status down s = is_down s

-- The guard of markHeartbeatDown: the row is still what was observed.
abbrev pub unchanged : Heartbeat → Heartbeat → Bool
unchanged seen h =
    (h.id == seen.id)
    && same_status seen.status h.status
    && (h.last_seen_at == seen.last_seen_at)
    && (h.started_at == seen.started_at)

abbrev pub put_down : Heartbeat → Heartbeat
put_down h = record h { status = down; started_at = zero_time; started_rid = "" }

-- markHeartbeatDown: the store after it, and whether the move happened.
unfoldable pub mark_heartbeat_down : Time → Db → Heartbeat → Event → Db × Bool
mark_heartbeat_down wall db seen e =
    if any (unchanged seen) db.heartbeats
    then (
      emit_event wall
          (record db { heartbeats = update_where (unchanged seen) put_down db.heartbeats }) e,
      true,
    )
    else (db, false)

-- DueHeartbeats: the rows that the SELECT narrows to, past their deadline (dueFromCandidates).
abbrev is_candidate : Heartbeat → Bool
is_candidate h = (is_up h.status && not (is_zero h.last_seen_at)) || is_new h.status

unfoldable pub is_due : Time → Heartbeat → Bool
unfolding deadline
is_due now h = let d = deadline h in d.watched && after now d.deadline

unfoldable pub due_heartbeats : Db → Time → List Heartbeat
unfolding is_due
due_heartbeats db now = select (is_due now) (select is_candidate db.heartbeats)

-- The event that the watcher records for an overdue heartbeat.
unfoldable pub miss_event : Heartbeat → Event
miss_event h = if (deadline h).overran then overran_event h else overdue_event h

-- Watcher.Check, over the heartbeats that were due: how many it marked is the number dispatched.
unfoldable pub mark_each : Time → List Heartbeat → Db → Db
unfolding mark_heartbeat_down miss_event
mark_each wall [] db = db
mark_each wall (h ∷ hs) db = mark_each wall hs (mark_heartbeat_down wall db h (miss_event h)).0

unfoldable pub check : Time → Time → Db → Db
unfolding mark_each due_heartbeats
check wall now db = mark_each wall (due_heartbeats db now) db

-- CreateHeartbeat: an upsert by (org, name). The unique index on tokens refuses an insert whose token
-- is taken; none is that error.
abbrev pub is_named : ℕ → String → Heartbeat → Bool
is_named org n h = (h.org_id == org) && str_eq h.name n

abbrev pub reschedule : Heartbeat → Heartbeat → Heartbeat
reschedule given h = record h {
  period_seconds = given.period_seconds;
  grace_seconds = given.grace_seconds;
}

unfoldable pub inserted : Time → ℕ → Heartbeat → Heartbeat
inserted wall id given = record given {
  id = id;
  status = new;
  last_seen_at = zero_time;
  created_at = wall;
  started_at = zero_time;
  started_rid = "";
}

unfoldable pub create_heartbeat : Time → Db → Heartbeat → Option Db
unfolding inserted
create_heartbeat wall db given =
    if any (is_named given.org_id given.name) db.heartbeats
    then some (record db {
      heartbeats = update_where (is_named given.org_id given.name) (reschedule given) db.heartbeats;
    })
    else if any (λ h. str_eq h.token given.token) db.heartbeats
    then none
    else some (record db {
      heartbeats = db.heartbeats ++ inserted wall db.next_heartbeat_id given ∷ [];
      next_heartbeat_id = suc db.next_heartbeat_id;
    })

-- DeleteHeartbeat: the row with its ping log goes and heartbeat.removed is recorded; none is
-- ErrNotFound.
abbrev pub is_heartbeat : ℕ → ℕ → Heartbeat → Bool
is_heartbeat org id h = (h.org_id == org) && (h.id == id)

unfoldable pub delete_heartbeat : Time → Db → ℕ → ℕ → Option Db
delete_heartbeat wall db org id = elim (find (is_heartbeat org id) db.heartbeats) [
  | none ↦ none
  | some h ↦ some (
      emit_event wall
        (record db {
          heartbeats = delete_where (is_heartbeat org id) db.heartbeats;
          pings = delete_where (λ p. (p.org_id == org) && (p.heartbeat_id == id)) db.pings;
        })
        (removed_event org h.name))
]
