-- ===== src/Store/Runs.antt =====
-- internal/store/sqlite.go: the queue of runs and their history. `wall` is the current time of the
-- statement or transaction (nowStr). A failed transaction leaves the store as it was.
pub mod Terminal
pub mod Final
pub mod Claim
pub mod Recovery
pub mod Lifecycle
use Prim.Native.String.{String}
use tend.Prelude.{
  ℕ, suc, Option, none, some, Bool, true, false, not, ◌&&◌, ◌||◌, ◌⊎◌, inl, inr, List, [], ◌∷◌,
  ◌++◌, ◌==◌, leb, if◌then◌else◌, find, select, any, length,
}
use tend.Prelude.Int.{ℤ, pos, negsuc}
use tend.Core.Tail.{Text}
use tend.Clock.{Time, zero_time, is_zero}
use tend.Event.{
  Event, EventType, run_failed, run_succeeded, Detail, RunStatus, pending, running, succeeded,
  failed,
}
use tend.Jobs.{
  Job, Run, Claimant, nobody, serve_runner, manual, is_pending, is_running, is_succeeded, is_active,
  run_event, recovered_event, removed_event,
}
use tend.Jobs.Unreadable.{unreadable_failure_detail}
use tend.Store.Schema.{Db, JobRow}
use tend.Store.Table.{update_where, delete_where}
use tend.Store.Streak.{is_job, is_run, previous_run_status}
use tend.Store.Emit.{record_event, emit_event}

-- INSERT INTO job_runs.
unfoldable pub insert_run : Db → Run → Db
insert_run db r = record db { runs = db.runs ++ r ∷ []; next_run_id = suc db.next_run_id }

unfoldable pub enqueue_run : Time → Db → ℕ → ℕ → Db × ℕ
unfolding insert_run
enqueue_run wall db org job = (
  insert_run db (record {
    id = db.next_run_id;
    org_id = org;
    job_id = job;
    status = pending;
    attempt = 1;
    exit_code = pos 0;
    output = [];
    claimed_by = nobody;
    started_at = zero_time;
    ended_at = zero_time;
    created_at = wall;
  }),
  db.next_run_id,
)

-- ClaimRun: the first pending run in the order of the ids.
abbrev pub claimed : Time → Claimant → Run → Run
claimed wall worker r = record r { status = running; claimed_by = worker; started_at = wall }

unfoldable pub claim_run : Time → Claimant → Db → Option (Db × Run)
claim_run wall worker db = elim (find (λ r. is_pending r.status) db.runs) [
  | none ↦ none
  | some r ↦ some (
    record db { runs = update_where (is_run r.id) (claimed wall worker) db.runs },
    claimed wall worker r,
  )
]

-- jobs.ErrRunGone and jobs.ErrRunNotRunning.
pub data FinishError : Type 0 where
  run_gone run_not_running : FinishError

-- `WHERE id = ? AND status = 'running'`.
abbrev pub is_running_run : ℕ → Run → Bool
is_running_run id r = is_run id r && is_running r.status

abbrev pub finished : Time → RunStatus → ℤ → Text → Run → Run
finished wall status exit_code output r = record r {
  status = status;
  exit_code = exit_code;
  output = output;
  ended_at = wall;
}

-- finishRunTx, and FinishRun, which is it in a transaction of its own.
unfoldable pub finish_run : Time → Db → ℕ → RunStatus → ℤ → Text → FinishError ⊎ Db
finish_run wall db id status exit_code output =
    if any (is_running_run id) db.runs
    then inr (record db {
      runs = update_where (is_running_run id) (finished wall status exit_code output) db.runs;
    })
    else inl (if any (is_run id) db.runs then run_not_running else run_gone)

-- The rows of the job of a run, by its id alone, as the SQL has it.
abbrev pub of_run : List Run → ℕ → ℕ → Bool
of_run runs id job = elim (find (is_run id) runs) [ none ↦ false | some r ↦ r.job_id == job ]

-- endStreak and dropHeld.
unfoldable pub end_streak : ℕ → Db → Db
end_streak id db = record db {
  jobs =
      update_where (λ j. of_run db.runs id j.id && not (j.failed_runs == 0))
        (λ j. record j { failed_runs = 0; failing_since = zero_time }) db.jobs;
  alerts =
      update_where (λ a. of_run db.runs id a.job_id) (λ a. record a { held_event_id = none })
        db.alerts;
}

-- `found && prev != StatusSucceeded`.
abbrev pub failed_before : List Run → ℕ → Bool
failed_before runs id = elim (previous_run_status runs id) [
  | none ↦ false
  | some s ↦ not (is_succeeded s)
]

-- What FinishRunAndEmit does for a success: run.recovered, and the end of the streak.
unfoldable pub after_finish : Time → ℕ → RunStatus → Event → Db → Db
unfolding end_streak
after_finish wall id status e db =
    if is_succeeded status
    then end_streak id
        (if failed_before db.runs id then emit_event wall db (recovered_event e id) else db)
    else db

abbrev pub attempted : ℕ → Run → Run
attempted n r = record r { attempt = n }

-- FinishRunAndEmit: the store after it.
unfoldable pub finish_run_and_emit :
    Time → Db → ℕ → RunStatus → ℤ → ℕ → Text → Event → FinishError ⊎ Db
finish_run_and_emit wall db id status exit_code attempt output e =
    elim (finish_run wall db id status exit_code output) [
      | inl err ↦ inl err
      | inr db' ↦
          let ran = record db' { runs = update_where (is_run id) (attempted attempt) db'.runs } in
          inr (after_finish wall id status e (emit_event wall ran e))
    ]

-- The type of the terminal event of a run, and that event (claimAndRun of runner.go): only a
-- success is not a run.failed.
abbrev pub terminal_type : RunStatus → EventType
terminal_type succeeded = run_succeeded
terminal_type _ = run_failed

unfoldable pub terminal_event : Run → String → RunStatus → ℤ → Detail → Event
unfolding run_event
terminal_event r name status exit_code d =
    record (run_event r.id r.org_id r.job_id name (terminal_type status) status exit_code) {
      detail = d;
    }

-- ListRunningRuns.
unfoldable pub list_running_runs : Db → List Run
list_running_runs db = select (λ r. is_running r.status) db.runs

-- ReapStaleRun.
unfoldable pub reap_stale_run : Time → Db → ℕ → Text → Event → Db × Bool
reap_stale_run wall db id output e =
    if any (is_running_run id) db.runs
    then (
      emit_event wall
          (record db {
            runs =
                update_where (is_running_run id) (finished wall failed (negsuc 0) output) db.runs;
          })
          e,
      true,
    )
    else (db, false)

-- RequeueOrphanedRuns.
abbrev pub is_manual : Claimant → Bool
is_manual nobody = false
is_manual serve_runner = false
is_manual (manual name) = true

abbrev pub orphaned : Run → Bool
orphaned r = is_running r.status && not (is_manual r.claimed_by)

abbrev pub requeued : Run → Run
requeued r = record r { status = pending; claimed_by = nobody; started_at = zero_time }

unfoldable pub requeue_orphaned_runs : Db → Db × ℕ
requeue_orphaned_runs db =
    (record db { runs = update_where orphaned requeued db.runs }, length (select orphaned db.runs))

-- DueJobs, in the order of the ids.
abbrev pub is_due_job : List Run → Time → JobRow → Bool
is_due_job runs now j =
    j.enabled
    && not (is_zero j.next_run_at)
    && leb j.next_run_at now
    && not (any (λ r. (r.job_id == j.id) && is_active r.status) runs)

unfoldable pub due_jobs : Db → Time → List JobRow
due_jobs db now = select (is_due_job db.runs now) db.jobs

abbrev pub unscheduled : JobRow → JobRow
unscheduled j = record j { job = record j.job { next_run_at = zero_time } }

abbrev pub unreadable_run : Time → ℕ → ℕ → ℕ → Text → Run
unreadable_run wall id org job output = record {
  id = id;
  org_id = org;
  job_id = job;
  status = failed;
  attempt = 1;
  exit_code = negsuc 0;
  output = output;
  claimed_by = serve_runner;
  started_at = wall;
  ended_at = wall;
  created_at = wall;
}

abbrev pub unreadable_event : ℕ → ℕ → ℕ → String → Text → Event
unfolding run_event
unreadable_event id org job name output =
    record (run_event id org job name run_failed failed (negsuc 0)) {
      detail = unreadable_failure_detail output;
    }

-- FailUnreadableJob: a failed run with its event, and the job off the schedule.
unfoldable pub fail_unreadable_job : Time → Db → ℕ → ℕ → String → Text → Db × Event
fail_unreadable_job wall db org job name output =
    let id = db.next_run_id in
    let (db', recorded) =
      record_event wall (insert_run db (unreadable_run wall id org job output))
        (unreadable_event id org job name output) in
    (record db' { jobs = update_where (is_job org job) unscheduled db'.jobs }, recorded)

-- DeleteJob: none for ErrNotFound, with the job's removal told before its rules go.
unfoldable pub delete_job : Time → Db → ℕ → ℕ → Option Db
delete_job wall db org id = elim (find (is_job org id) db.jobs) [
  | none ↦ none
  | some j ↦
      let told = emit_event wall db (removed_event org id j.name) in
      some (record told {
        runs = delete_where (λ r. (r.org_id == org) && (r.job_id == id)) told.runs;
        rules = delete_where (λ r. (r.org_id == org) && (r.job_id == id)) told.rules;
        jobs = delete_where (is_job org id) told.jobs;
        alerts = delete_where (λ a. (a.org_id == org) && (a.job_id == id)) told.alerts;
      })
]
