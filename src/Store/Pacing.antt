-- ===== src/Store/Pacing.antt =====
-- internal/store/pacing.go: the pacing of failure alerts, applied where events are recorded.
pub mod Channels
pub mod Release
pub mod Matched
use tend.Prelude.{
  ℕ, zero, Option, none, some, Bool, true, false, not, ◌&&◌, List, [], ◌∷◌, ◌++◌, ◌==◌,
  if◌then◌else◌, find, any,
}
use tend.Prelude.Int.{ℤ}
use tend.Clock.{Time, Duration, zero_time}
use tend.Event.{
  Event, EventType, run_started, run_succeeded, run_failed, run_recovered, job_removed,
  heartbeat_missed, heartbeat_recovered, heartbeat_removed, notification_failed, Streak,
}
use tend.Notify.Pacing.{AlertState, no_state, pace_failure, pace_recovery}
use tend.Store.Schema.{Db, AlertRow}
use tend.Store.Table.{update_where}
use Channels.{MatchedChannel, failed_repeat}

abbrev pub is_alert : ℕ → ℕ → AlertRow → Bool
is_alert channel job a = (a.channel_id == channel) && (a.job_id == job)

abbrev pub is_held : Option ℕ → Bool
is_held none = false
is_held (some id) = true

abbrev pub alert_of : AlertRow → AlertState
alert_of a = record { last_sent_at = a.last_sent_at; held = is_held a.held_event_id }

-- alertState: what a channel was told about a job's failures, whether anything is kept, and the
-- held event.
abbrev read_alert : Option AlertRow → AlertState × Bool × Option ℕ
read_alert none = (no_state, false, none)
read_alert (some a) = (alert_of a, true, a.held_event_id)

unfoldable pub alert_state : Db → ℕ → ℕ → AlertState × Bool × Option ℕ
alert_state db channel job = read_alert (find (is_alert channel job) db.alerts)

-- saveAlertState: INSERT ... ON CONFLICT (channel_id, job_id) DO UPDATE.
unfoldable pub save_alert : AlertRow → List AlertRow → List AlertRow
save_alert row [] = row ∷ []
save_alert row (a ∷ as') =
    if is_alert row.channel_id row.job_id a
    then record a { last_sent_at = row.last_sent_at; held_event_id = row.held_event_id } ∷ as'
    else a ∷ save_alert row as'

unfoldable pub save_alert_state : Db → ℕ → ℕ → ℕ → AlertState → Option ℕ → Db
unfolding save_alert
save_alert_state db org channel job st held = record db {
  alerts =
      save_alert
        (record {
          org_id = org;
          channel_id = channel;
          job_id = job;
          last_sent_at = st.last_sent_at;
          held_event_id = held;
        })
        db.alerts;
}

paced_failure : Db → Event → ℕ → Streak → MatchedChannel → Bool × Db
unfolding alert_state save_alert_state
paced_failure db e job streak ch =
    let (st, known, held) = alert_state db ch.id job in
    let (send, next) = pace_failure st known e.created_at streak.failing_since ch.repeat in
    if streak.failed_runs == 0
    then (true, db)
    else (send, save_alert_state db e.org_id ch.id job next (if next.held then some e.id else none))

-- A channel that does not get the job's failures gets its recoveries.
abbrev pub recovery_goes : Bool → AlertState → Bool → Time → Bool
recovery_goes routed st known since = if not routed then true else pace_recovery st known since

paced_recovery : Db → Event → ℕ → Streak → MatchedChannel → Bool × Db
unfolding alert_state failed_repeat
paced_recovery db e job streak ch =
    let (st, known, held) = alert_state db ch.id job in
    let (repeat, routed) = failed_repeat db e.org_id ch.id job ch.kind in
    (recovery_goes routed st known streak.failing_since, db)

paced_by_type : EventType → Db → Event → ℕ → Streak → MatchedChannel → Bool × Db
unfolding paced_failure paced_recovery
paced_by_type run_failed db e job streak ch = paced_failure db e job streak ch
paced_by_type run_recovered db e job streak ch = paced_recovery db e job streak ch
paced_by_type _ db e job streak ch = (true, db)

-- paced: whether an event goes to a channel, and the store with what the channel was told.
unfoldable pub paced : Db → Event → ℕ → Streak → MatchedChannel → Bool × Db
unfolding paced_by_type
paced db e job streak ch =
    if job == 0 then (true, db) else paced_by_type e.event_type db e job streak ch
