-- ===== src/Store/Emit.antt =====
-- internal/store/emit.go: every event is written here, with the deliveries its rules match.
pub mod Laws
pub mod Deliveries
pub mod Definitions
use tend.Prelude.{ℕ, zero, suc, ◌+◌, Bool, true, false, List, [], ◌∷◌, ◌++◌, ◌==◌, if◌then◌else◌}
use tend.Clock.{Time, is_zero}
use tend.Event.{Event, EventType, Streak, alertable, event_job_id}
use tend.Store.Schema.{Db, Delivery, DeliveryState}
use tend.Store.Streak.{streak_of, with_streak}
use tend.Store.Pacing.{paced}
use tend.Store.Pacing.Channels.{MatchedChannel, matched_channels}

-- insertDelivery, with `wall` the current time.
unfoldable pub insert_delivery : Time → Db → ℕ → ℕ → ℕ → Db
insert_delivery wall db org event channel = record db {
  deliveries =
      db.deliveries
      ++ record {
        id = db.next_delivery_id;
        org_id = org;
        event_id = event;
        channel_id = channel;
        attempts = 0;
        state = DeliveryState.pending;
        next_attempt_at = wall;
        first_attempt_at = 0;
        created_at = wall;
      }
        ∷ [];
  next_delivery_id = suc db.next_delivery_id;
}

-- One round of the loop over the matched channels.
unfoldable pub deliver_to : Time → Event → ℕ → Streak → MatchedChannel → Db → Db
unfolding insert_delivery
deliver_to wall e job streak ch db =
    let (send, db') = paced db e job streak ch in
    if send then insert_delivery wall db' e.org_id e.id ch.id else db'

unfoldable pub deliver_all : Time → Event → ℕ → Streak → List MatchedChannel → Db → Db
unfolding deliver_to
deliver_all wall e job streak [] db = db
deliver_all wall e job streak (ch ∷ chs) db =
    deliver_all wall e job streak chs (deliver_to wall e job streak ch db)

unfoldable pub enqueue_deliveries : Time → Db → Event → ℕ → Streak → Db
unfolding deliver_all event_job_id
enqueue_deliveries wall db e job streak =
    let scoped = if job == 0 then event_job_id e else job in
    if alertable e.event_type
    then deliver_all wall e scoped streak (matched_channels db e.org_id e.event_type scoped) db
    else db

-- INSERT INTO events.
unfoldable pub insert_event : Db → Event → Db
insert_event db e = record db { events = db.events ++ e ∷ []; next_event_id = suc db.next_event_id }

-- The event as it is recorded: stamped if it has no time, with its id and with its streak.
unfoldable pub stamped : Time → Event → Event
stamped wall e = record e { created_at = if is_zero e.created_at then wall else e.created_at }

unfoldable pub as_recorded : Time → Db → Event → Event
unfolding stamped
as_recorded wall db e =
    let e' = stamped wall e in
    let (db', (job, streak)) = streak_of db e' e'.created_at in
    record (with_streak e' streak) { id = db.next_event_id }

-- recordEvent: the store after it, and the event as it was recorded.
unfoldable pub record_event : Time → Db → Event → Db × Event
unfolding as_recorded insert_event enqueue_deliveries
record_event wall db e =
    let e' = stamped wall e in
    let (db', (job, streak)) = streak_of db e' e'.created_at in
    let recorded = as_recorded wall db e in
    (enqueue_deliveries wall (insert_event db' recorded) recorded job streak, recorded)

-- emitEvent, of which the callers here keep the store only.
unfoldable pub emit_event : Time → Db → Event → Db
unfolding record_event
emit_event wall db e = (record_event wall db e).0
