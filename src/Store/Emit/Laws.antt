-- ===== src/Store/Emit/Laws.antt =====
-- What recording an event changes and what it leaves alone.
use tend.Prelude.{ℕ, ◌≡◌, inl, inr, List, [], ◌∷◌, ◌++◌, arith, Bool-cases, if◌then◌else◌, ◌==◌}
use tend.Clock.{Time}
use tend.Event.{Event, Streak, alertable, event_job_id}
use tend.Store.Schema.{Db}
use tend.Store.Streak.{streak_of, with_streak}
use tend.Store.Pacing.{paced}
use tend.Store.Pacing.Channels.{MatchedChannel, matched_channels}
use tend.Store.Emit.{
  deliver_to, deliver_all, enqueue_deliveries, insert_event, as_recorded, stamped, record_event,
  emit_event,
}

-- The tables that the pacing and the deliveries of an event leave alone.
pub record Frame (a b : Db) : Type 0 where
  pub heartbeats : b.heartbeats ≡ a.heartbeats
  pub pings : b.pings ≡ a.pings
  pub next_ping_id : b.next_ping_id ≡ a.next_ping_id
  pub next_heartbeat_id : b.next_heartbeat_id ≡ a.next_heartbeat_id
  pub runs : b.runs ≡ a.runs
  pub next_run_id : b.next_run_id ≡ a.next_run_id
  pub rules : b.rules ≡ a.rules
  pub channels : b.channels ≡ a.channels
  pub events : b.events ≡ a.events
  pub next_event_id : b.next_event_id ≡ a.next_event_id

Frame-refl : (a : Db) → Frame a a
Frame-refl a = ground arith

Frame-trans : (a b c : Db) → Frame a b → Frame b c → Frame a c
Frame-trans a b c f g = ground arith

pub streak_of-Frame : (db : Db) (e : Event) (at : Time) → Frame db (streak_of db e at).0
unfolding streak_of
streak_of-Frame db e at = ground arith

paced-Frame :
    (db : Db) (e : Event) (job : ℕ) (s : Streak) (ch : MatchedChannel)
    → Frame db (paced db e job s ch).1
unfolding paced
paced-Frame db e job s ch = ground arith

deliver_to-Frame :
    (wall : Time) (e : Event) (job : ℕ) (s : Streak) (ch : MatchedChannel) (db : Db)
    → Frame db (deliver_to wall e job s ch db)
unfolding deliver_to
deliver_to-Frame wall e job s ch db = ground (arith, paced-Frame db e job s ch)

deliver_all-Frame :
    (wall : Time) (e : Event) (job : ℕ) (s : Streak) (chs : List MatchedChannel) (db : Db)
    → Frame db (deliver_all wall e job s chs db)
unfolding deliver_all
deliver_all-Frame wall e job s [] db = Frame-refl db
deliver_all-Frame wall e job s (ch ∷ chs) db =
    Frame-trans db (deliver_to wall e job s ch db) _ (deliver_to-Frame wall e job s ch db)
      (deliver_all-Frame wall e job s chs (deliver_to wall e job s ch db))

enqueue_deliveries-Frame :
    (wall : Time) (db : Db) (e : Event) (job : ℕ) (s : Streak)
    → Frame db (enqueue_deliveries wall db e job s)
unfolding enqueue_deliveries
enqueue_deliveries-Frame wall db e job s = elim (Bool-cases (alertable e.event_type)) [
  | inl y ↦
      let scoped = if job == 0 then event_job_id e else job in
      rw y (deliver_all-Frame wall e scoped s (matched_channels db e.org_id e.event_type scoped) db)
  | inr n ↦ rw n (Frame-refl db)
]

-- Everything that recording an event leaves alone, and the event at the end of the events.
pub record Recorded (wall : Time) (e : Event) (a b : Db) : Type 0 where
  pub heartbeats : b.heartbeats ≡ a.heartbeats
  pub pings : b.pings ≡ a.pings
  pub next_ping_id : b.next_ping_id ≡ a.next_ping_id
  pub next_heartbeat_id : b.next_heartbeat_id ≡ a.next_heartbeat_id
  pub runs : b.runs ≡ a.runs
  pub next_run_id : b.next_run_id ≡ a.next_run_id
  pub rules : b.rules ≡ a.rules
  pub channels : b.channels ≡ a.channels
  pub events : b.events ≡ a.events ++ as_recorded wall a e ∷ []

pub emit_event-Recorded :
    (wall : Time) (db : Db) (e : Event) → Recorded wall e db (emit_event wall db e)
unfolding emit_event record_event insert_event
emit_event-Recorded wall db e =
    let e' = stamped wall e in
    let at = e'.created_at in
    let f = streak_of-Frame db e' at in
    let db' = (streak_of db e' at).0 in
    let r = as_recorded wall db e in
    let g =
      enqueue_deliveries-Frame wall (insert_event db' r) r (streak_of db e' at).1.0
        (streak_of db e' at).1.1 in
    ground (arith, f, g)

with_streak-same :
    (e : Event) (s : Streak)
    → ((with_streak e s).event_type ≡ e.event_type)
      × ((with_streak e s).org_id ≡ e.org_id)
      × ((with_streak e s).payload ≡ e.payload)
unfolding with_streak
with_streak-same e s = ground arith

-- An event is recorded with the type, the org and the payload that it was given.
pub as_recorded-same :
    (wall : Time) (db : Db) (e : Event)
    → let r = as_recorded wall db e in
      (r.event_type ≡ e.event_type) × (r.org_id ≡ e.org_id) × (r.payload ≡ e.payload)
unfolding as_recorded
as_recorded-same wall db e =
    with_streak-same (stamped wall e)
      (streak_of db (stamped wall e) (stamped wall e).created_at).1.1
