-- ===== src/Store/Streak.antt =====
-- internal/store/streak.go: a job's failing streak, kept on its row with the run events.
pub mod Last
use tend.Prelude.{
  ℕ, ◌+◌, Option, none, some, Bool, false, not, ◌&&◌, ◌||◌, List, [], ◌∷◌, ltb, ◌==◌, if◌then◌else◌,
  find, select,
}
use tend.Clock.{Time, is_zero}
use tend.Event.{
  Event, EventType, run_failed, run_recovered, Payload, run, removed_job, heartbeat_name,
  failed_type, event_job_id, RunStatus, Streak, no_streak, no_detail, streak_ended, Detail,
  with_streak_detail,
}
use tend.Jobs.{Run, is_active, is_succeeded}
use tend.Store.Schema.{Db, JobRow}
use tend.Store.Table.{update_where, returning}

abbrev pub is_job : ℕ → ℕ → JobRow → Bool
is_job org id j = (j.org_id == org) && (j.id == id)

-- ORDER BY ended_at DESC, id DESC LIMIT 1.
abbrev pub ended_after : Run → Run → Bool
ended_after p q = ltb q.ended_at p.ended_at || ((q.ended_at == p.ended_at) && ltb q.id p.id)

unfoldable pub latest : List Run → Option Run
latest [] = none
latest (p ∷ ps) = elim (latest ps) [
  | none ↦ some p
  | some q ↦ some (if ended_after p q then p else q)
]

abbrev pub is_run : ℕ → Run → Bool
is_run id r = r.id == id

-- previousRunStatusSQL: the finished runs of the job of `r`, other than `r`.
abbrev pub finished_before : Run → Run → Bool
finished_before r p =
    (p.org_id == r.org_id)
    && (p.job_id == r.job_id)
    && not (p.id == r.id)
    && not (is_active p.status)
    && not (is_zero p.ended_at)

unfoldable pub previous_run_status : List Run → ℕ → Option RunStatus
unfolding latest
previous_run_status runs id = elim (find (is_run id) runs) [
  | none ↦ none
  | some r ↦ elim (latest (select (finished_before r) runs)) [
    | none ↦ none
    | some p ↦ some p.status
  ]
]

abbrev pub payload_run_id : Payload → ℕ
payload_run_id (run p) = p.run_id
payload_run_id (removed_job id n) = 0
payload_run_id (heartbeat_name n) = 0
payload_run_id (failed_type t) = 0

-- afterSuccess.
unfoldable pub after_success : List Run → Event → Bool
unfolding previous_run_status
after_success runs e =
    if payload_run_id e.payload == 0
    then false
    else elim (previous_run_status runs (payload_run_id e.payload)) [
      | none ↦ false
      | some status ↦ is_succeeded status
    ]

-- `failed_runs = 1, failing_since = at`.
abbrev pub begins_streak : Time → JobRow → JobRow
begins_streak at j = record j { failed_runs = 1; failing_since = at }

-- `failed_runs = failed_runs + 1, failing_since = COALESCE(failing_since, at)`.
abbrev pub extends_streak : Time → JobRow → JobRow
extends_streak at j = record j {
  failed_runs = j.failed_runs + 1;
  failing_since = if is_zero j.failing_since then at else j.failing_since;
}

-- The streak read from a job's row, `(0, no_streak)` when there is no row.
abbrev pub read_streak : ℕ → Option JobRow → ℕ × Streak
read_streak id none = (0, no_streak)
read_streak id (some j) = (
  id,
  if j.failed_runs == 0
      then no_streak
      else record { failed_runs = j.failed_runs; failing_since = j.failing_since },
)

fail_streak : Db → Event → Time → Db × (ℕ × Streak)
unfolding after_success
fail_streak db e at =
    let set = if after_success db.runs e then begins_streak at else extends_streak at in
    let here = is_job e.org_id (event_job_id e) in
    (
      record db { jobs = update_where here set db.jobs },
      read_streak (event_job_id e) (returning here set db.jobs),
    )

streak_by_type : EventType → Db → Event → Time → Db × (ℕ × Streak)
streak_by_type run_failed db e at = fail_streak db e at
streak_by_type run_recovered db e at =
    (db, read_streak (event_job_id e) (find (is_job e.org_id (event_job_id e)) db.jobs))
streak_by_type _ db e at = (db, (0, no_streak))

-- streakOf.
unfoldable pub streak_of : Db → Event → Time → Db × (ℕ × Streak)
unfolding fail_streak streak_by_type event_job_id
streak_of db e at =
    if event_job_id e == 0 then (db, (0, no_streak)) else streak_by_type e.event_type db e at

abbrev recovery_detail : Detail → Streak → Detail
recovery_detail no_detail s = streak_ended s
recovery_detail d s = d

abbrev streak_detail : EventType → Detail → Streak → Detail
streak_detail run_failed d s = with_streak_detail d s
streak_detail run_recovered d s = recovery_detail d s
streak_detail _ d s = d

-- withStreak.
unfoldable pub with_streak : Event → Streak → Event
unfolding with_streak_detail
with_streak e s =
    if s.failed_runs == 0 then e else record e { detail = streak_detail e.event_type e.detail s }
