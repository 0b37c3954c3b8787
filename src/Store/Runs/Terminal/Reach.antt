-- ===== src/Store/Runs/Terminal/Reach.antt =====
-- The queue over time: enqueues, claims, ends, reaps, requeues, unreadable jobs, deletions of jobs
-- and other events, in any order and from any number of workers.
use Prim.Native.String.{String}
use tend.Prelude.{ℕ, ◌≤◌, ◌≡◌, refl, inr, false, some, [], arith, if◌then◌else◌}
use tend.Prelude.Int.{ℤ, negsuc}
use tend.Core.Tail.{Text}
use tend.Clock.{Time}
use tend.Event.{Event, Detail, RunStatus, failed}
use tend.Jobs.{Run, Claimant, is_active}
use tend.Store.Schema.{Db}
use tend.Store.Table.{In}
use tend.Store.Emit.{emit_event}
use tend.Store.Runs.{
  enqueue_run, claim_run, finish_run_and_emit, reap_stale_run, requeue_orphaned_runs,
  fail_unreadable_job, delete_job, terminal_event,
}
use tend.Store.Runs.Terminal.{is_terminal, told, Inv}
use tend.Store.Runs.Terminal.Steps.{
  emitted-Inv, enqueue_run-Inv, requeue-Inv, claim_run-Inv, delete_job-Inv,
}
use tend.Store.Runs.Terminal.Ends.{
  finish_run_and_emit-Inv, reap_stale_run-Inv, fail_unreadable_job-Inv,
}

-- A worker ends the run that it claimed (`r`, which it may have read any time before) with an
-- outcome, and with the event that it builds for that run.
pub data Step : Db → Db → Type 0 where
  enqueued : (db : Db) (wall : Time) (org job : ℕ) → Step db (enqueue_run wall db org job).0
  claimed :
      (db : Db) (wall : Time) (worker : Claimant) (r : Db × Run)
      → claim_run wall worker db ≡ some r
      → Step db r.0
  ended :
      (db db' : Db) (wall : Time) (r : Run) (name : String) (s : RunStatus) (code : ℤ) (attempt : ℕ)
      (output : Text) (d : Detail)
      → is_active s ≡ false
      → finish_run_and_emit wall db r.id s code attempt output (terminal_event r name s code d)
        ≡ inr db'
      → Step db db'
  reaped :
      (db : Db) (wall : Time) (r : Run) (name : String) (output : Text) (d : Detail)
      → Step db (reap_stale_run wall db r.id output (terminal_event r name failed (negsuc 0) d)).0
  requeued : (db : Db) → Step db (requeue_orphaned_runs db).0
  unreadable :
      (db : Db) (wall : Time) (org job : ℕ) (name : String) (output : Text)
      → Step db (fail_unreadable_job wall db org job name output).0
  deleted :
      (db db' : Db) (wall : Time) (org id : ℕ) → delete_job wall db org id ≡ some db' → Step db db'
  emitted :
      (db : Db) (wall : Time) (e : Event)
      → is_terminal e.event_type ≡ false
      → Step db (emit_event wall db e)

pub data Reach (a : Db) : Db → Type 0 where
  here : Reach a a
  then_step : {b c : Db} → Reach a b → Step b c → Reach a c

Step-Inv : {a b : Db} → Step a b → Inv a → Inv b
Step-Inv (enqueued db wall org job) i = enqueue_run-Inv wall db org job i
Step-Inv (claimed db wall worker r e) i = claim_run-Inv wall worker db r e i
Step-Inv (ended db db' wall r name s code attempt output d f e) i =
    finish_run_and_emit-Inv wall db db' r name s code attempt output d f e i
Step-Inv (reaped db wall r name output d) i = reap_stale_run-Inv wall db r name output d i
Step-Inv (requeued db) i = requeue-Inv db i
Step-Inv (unreadable db wall org job name output) i =
    fail_unreadable_job-Inv wall db org job name output i
Step-Inv (deleted db db' wall org id e) i = delete_job-Inv wall db db' org id e i
Step-Inv (emitted db wall e h) i = emitted-Inv wall db e h i

pub Reach-Inv : {a b : Db} → Inv a → Reach a b → Inv b
Reach-Inv i here = i
Reach-Inv i (then_step r s) = Step-Inv s (Reach-Inv i r)

pub empty-Inv : (db : Db) → db.runs ≡ [] → db.events ≡ [] → Inv db
unfolding told
empty-Inv db r e =
    rw (r, e)
      (record {
        ids = λ x y i j k. elim i [ ];
        below = λ x i. elim i [ ];
        agrees = λ x i. elim i [ ];
        at_most = λ id. omega arith;
        none_ahead = λ id h. refl;
      })

-- From a store with no runs and no events, whatever enqueues, claims, ends, reaps, requeues,
-- unreadable jobs, deletions and other events came: every run in the table has exactly one terminal
-- event if it has finished and none while it is pending or running, and no run, deleted ones
-- included, ever has two.
pub told-once :
    {a b : Db}
    → a.runs ≡ []
    → a.events ≡ []
    → Reach a b
    → ((r : Run) → In r b.runs → told r.id b.events ≡ (if is_active r.status then 0 else 1))
      × ((id : ℕ) → told id b.events ≤ 1)
told-once {a} h e r = let i = Reach-Inv (empty-Inv a h e) r in (i.agrees, i.at_most)
