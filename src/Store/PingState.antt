-- ===== src/Store/PingState.antt =====
-- internal/store/pings.go: what a ping does to its heartbeat's row (the `update` closure and the
-- switch on the kind in recordHeartbeatPing).
use Prim.Native.String.{String}
use text.Mathlib.Text.{◌==◌ as str_eq}
use tend.Prelude.{Option, none, some, Bool, true, false, not, ◌&&◌, ◌||◌, List, if◌then◌else◌, find}
use tend.Clock.{Time, zero_time}
use tend.Event.{Event}
use tend.Heartbeat.{Heartbeat, up, down, is_down, recovered_event, failed_event}
use tend.Heartbeat.Ping.{PingKind, success, start, failure, log, PingInput}
use tend.Store.Table.{update_where}

abbrev pub owns : String → Heartbeat → Bool
owns token h = str_eq h.token token

-- What an UPDATE did to the table: the row that it returns, the rows, and whether the guarded
-- statement fired.
pub record Updated : Type 0 where
  pub row : Heartbeat
  pub rows : List Heartbeat
  pub transitioned : Bool

abbrev run_update :
    Bool → (Heartbeat → Bool) → (Heartbeat → Heartbeat) → List Heartbeat → Option Updated
run_update fired p set rows = elim (find p rows) [
  | none ↦ none
  | some h ↦ some (record { row = set h; rows = update_where p set rows; transitioned = fired })
]

abbrev or_else : Option Updated → Option Updated → Option Updated
or_else none b = b
or_else (some u) b = some u

-- `update`: the guarded UPDATE first, and the unguarded one when the guard matched no row.
unfoldable pub update :
    (Heartbeat → Heartbeat) → (Heartbeat → Bool) → String → List Heartbeat → Option Updated
update set guard token rows =
    or_else (run_update true (λ h. owns token h && guard h) set rows)
      (run_update false (owns token) set rows)

-- A success ends the run being timed when it carries that run's rid, or none.
abbrev ends_run : String → Heartbeat → Bool
ends_run rid h = str_eq rid "" || str_eq h.started_rid rid

abbrev pub succeed : Time → String → Heartbeat → Heartbeat
succeed now rid h = record h {
  last_seen_at = now;
  status = up;
  started_at = if ends_run rid h then zero_time else h.started_at;
  started_rid = if ends_run rid h then "" else h.started_rid;
}

abbrev pub fail : Time → Heartbeat → Heartbeat
fail now h = record h {
  last_seen_at = now;
  status = down;
  started_at = zero_time;
  started_rid = "";
}

abbrev pub begin : Time → String → Heartbeat → Heartbeat
begin now rid h = record h { started_at = now; started_rid = rid }

abbrev event_if : Bool → Event → Option Event
event_if true e = some e
event_if false e = none

-- The switch on the ping's kind: the row that answers, the rows, and the event to record.
pub record Answer : Type 0 where
  pub row : Heartbeat
  pub rows : List Heartbeat
  pub event : Option Event

abbrev looked_up : Option Heartbeat → List Heartbeat → Option Answer
looked_up none rows = none
looked_up (some h) rows = some (record { row = h; rows = rows; event = none })

abbrev silent : Option Updated → Option Answer
silent none = none
silent (some u) = some (record { row = u.row; rows = u.rows; event = none })

abbrev recovering : Option Updated → Option Answer
recovering none = none
recovering (some u) = some (record {
  row = u.row;
  rows = u.rows;
  event = event_if u.transitioned (recovered_event u.row.org_id u.row.id u.row.name);
})

abbrev failing : PingInput → Option Updated → Option Answer
failing ping none = none
failing ping (some u) = some (record {
  row = u.row;
  rows = u.rows;
  event =
      event_if u.transitioned
        (failed_event u.row.org_id u.row.id u.row.name ping.exit_status ping.body);
})

unfoldable pub answer_by_kind :
    PingKind → String → PingInput → Time → List Heartbeat → Option Answer
answer_by_kind log token ping now rows = looked_up (find (owns token) rows) rows
answer_by_kind start token ping now rows =
    silent (run_update false (owns token) (begin now ping.rid) rows)
answer_by_kind success token ping now rows =
    recovering (update (succeed now ping.rid) (λ h. is_down h.status) token rows)
answer_by_kind failure token ping now rows =
    failing ping (update (fail now) (λ h. not (is_down h.status)) token rows)

unfoldable pub answer : String → PingInput → Time → List Heartbeat → Option Answer
unfolding answer_by_kind
answer token ping now rows = answer_by_kind ping.kind token ping now rows
