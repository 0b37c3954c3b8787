-- ===== src/Runner/Tick.antt =====
-- Tick of internal/jobs/runner.go. Its calls of the store are made one after another, with no other
-- process in between, and none of them fails but for a row that is not there; `wall` is their time.
pub mod Loop
pub mod Unreadable
pub mod Exact
use Prim.Native.String.{String}
use tend.Prelude.{Option, none, some, Bool, true, false, not, List, [], ◌∷◌, select}
use tend.Core.Tail.{Text}
use tend.Clock.{Time, zero_time}
use tend.Jobs.{Job}
use tend.Jobs.Schedule.{next_run}
use tend.Store.Schema.{Db, JobRow}
use tend.Store.JobRows.{update_job}
use tend.Store.Runs.{enqueue_run, due_jobs, fail_unreadable_job}

-- The steps that `record` tells apart: a next time that cannot be computed, and a job that is gone.
pub data TickError : Type 0 where
  compute_next_run clear_schedule advance_schedule : TickError

-- The first error.
abbrev pub first : Option TickError → TickError → Option TickError
first none e = some e
first (some f) e = some f

abbrev pub with_next : Time → JobRow → Job
with_next t j = record j.job { next_run_at = t }

-- The update of a job's row, and the error if that is gone.
unfoldable pub save_next :
    Time → Time → JobRow → TickError → Db → Option TickError → Db × Option TickError
save_next wall t j step db err = elim (update_job wall (with_next t j) db) [
  | none ↦ (db, first err step)
  | some db' ↦ (db', err)
]

module _ (cron_next : String → Time → Option Time) where
  -- One round of the loop over the due jobs.
  unfoldable pub tick_job : Time → Time → JobRow → Db → Option TickError → Db × Option TickError
  unfolding save_next
  tick_job wall now j db err =
      let queued = (enqueue_run wall db j.org_id j.id).0 in
      elim (next_run cron_next j.job now) [
        | none ↦ save_next wall zero_time j clear_schedule queued (first err compute_next_run)
        | some next ↦ save_next wall next j advance_schedule queued err
      ]

  unfoldable pub tick_jobs :
      Time → Time → List JobRow → Db → Option TickError → Db × Option TickError
  unfolding tick_job
  tick_jobs wall now [] db err = (db, err)
  tick_jobs wall now (j ∷ js) db err =
      let (db', err') = tick_job wall now j db err in tick_jobs wall now js db' err'

-- What cannot be read of a row, if anything: the output that UnreadableRunOutput makes of the error
-- with which its stored columns (JSON and times) decode.
module _ (unreadable : JobRow → Option Text) where
  abbrev pub is_readable : JobRow → Bool
  is_readable j = elim (unreadable j) [ none ↦ true | some output ↦ false ]

  -- The loop over the unreadable jobs.
  unfoldable pub tick_unreadable : Time → List JobRow → Db → Db
  tick_unreadable wall [] db = db
  tick_unreadable wall (j ∷ js) db = elim (unreadable j) [
    | none ↦ tick_unreadable wall js db
    | some output ↦
        tick_unreadable wall js (fail_unreadable_job wall db j.org_id j.id j.name output).0
  ]

module _ (cron_next : String → Time → Option Time) (unreadable : JobRow → Option Text) where
  -- The store after a tick, and the error that it returns.
  unfoldable pub tick : Time → Time → Db → Db × Option TickError
  unfolding tick_jobs tick_unreadable
  tick wall now db =
      let due = due_jobs db now in
      let (db', err) = tick_jobs cron_next wall now (select (is_readable unreadable) due) db none in
      (tick_unreadable unreadable wall due db', err)
