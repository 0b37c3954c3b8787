-- ===== src/Store/Pacing/Release.antt =====
-- Held failures whose hold has ended (releaseHeld and releaseOne of internal/store/pacing.go). The
-- calls are made one after another, as SQLite's one connection makes them: the state does not
-- change between the reads of one release.
use tend.Prelude.{
  ℕ, suc, Option, none, some, Bool, true, false, not, ◌&&◌, List, [], ◌∷◌, ◌==◌, ltb, if◌then◌else◌,
  find, select, any,
}
use tend.Clock.{Time, is_zero}
use tend.Jobs.{Run, is_active, is_succeeded}
use tend.Notify.Pacing.{ChannelType, release_due, released}
use tend.Store.Schema.{Db, JobRow, AlertRow, Channel}
use tend.Store.Table.{update_where}
use tend.Store.Streak.{is_job, latest}
use tend.Store.Pacing.{is_alert, alert_state, save_alert_state}
use tend.Store.Pacing.Channels.{failed_repeat, is_channel}
use tend.Store.Emit.{insert_delivery}

pub record HeldCandidate : Type 0 where
  pub org_id : ℕ
  pub channel_id : ℕ
  pub job_id : ℕ
  pub event_id : ℕ
  pub kind : ChannelType

abbrev holds : ℕ → Option ℕ → Bool
holds event none = false
holds event (some id) = id == event

abbrev holds_this : HeldCandidate → AlertRow → Bool
holds_this c a = is_alert c.channel_id c.job_id a && holds c.event_id a.held_event_id

-- `drop`: forget the held failure.
unfoldable pub drop_alert : HeldCandidate → Db → Db
drop_alert c db = record db {
  alerts = update_where (holds_this c) (λ a. record a { held_event_id = none }) db.alerts;
}

-- The last run of the job that finished.
abbrev finished_of : HeldCandidate → Run → Bool
finished_of c r =
    (r.org_id == c.org_id)
    && (r.job_id == c.job_id)
    && not (is_active r.status)
    && not (is_zero r.ended_at)

abbrev is_success : Option Run → Bool
is_success none = false
is_success (some r) = is_succeeded r.status

abbrev is_failing : Option JobRow → Bool
is_failing none = false
is_failing (some j) = ltb 0 j.failed_runs

unfoldable pub release_one : Time → Time → HeldCandidate → Db → Db × Bool
unfolding alert_state save_alert_state latest insert_delivery drop_alert
release_one wall now c db =
    let (st, known, held) = alert_state db c.channel_id c.job_id in
    let (repeat, routed) = failed_repeat db c.org_id c.channel_id c.job_id c.kind in
    if not (known && holds c.event_id held)
    then (db, false)
    else if not routed
    then (drop_alert c db, false)
    else if not (release_due st now repeat)
    then (db, false)
    else if not (is_failing (find (is_job c.org_id c.job_id) db.jobs))
    then (drop_alert c db, false)
    else if is_success (latest (select (finished_of c) db.runs))
    then (drop_alert c db, false)
    else if not (any (λ e. e.id == c.event_id) db.events)
    then (drop_alert c db, false)
    else (
      insert_delivery wall (save_alert_state db c.org_id c.channel_id c.job_id (released now) none)
          c.org_id c.event_id c.channel_id,
      true,
    )

-- The held failures with a channel; a candidate keeps what it was read with.
unfoldable pub candidates : List Channel → List AlertRow → List HeldCandidate
candidates channels [] = []
candidates channels (a ∷ as') =
    let rest = candidates channels as' in
    elim a.held_event_id [
      | none ↦ rest
      | some event ↦ elim (find (is_channel a.channel_id a.org_id) channels) [
        | none ↦ rest
        | some c ↦
            record {
              org_id = a.org_id;
              channel_id = a.channel_id;
              job_id = a.job_id;
              event_id = event;
              kind = c.kind;
            }
            ∷ rest
      ]
    ]

unfoldable pub release_each : Time → Time → List HeldCandidate → Db → ℕ → Db × ℕ
unfolding release_one
release_each wall now [] db n = (db, n)
release_each wall now (c ∷ cs) db n =
    let (db', ok) = release_one wall now c db in
    release_each wall now cs db' (if ok then suc n else n)

-- releaseHeld, but for the order of the candidates (by their last alert), on which nothing depends:
-- each concerns a row of its own.
unfoldable pub release_held : Time → Time → Db → Db × ℕ
unfolding candidates release_each
release_held wall now db = release_each wall now (candidates db.channels db.alerts) db 0
