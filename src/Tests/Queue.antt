-- ===== src/Tests/Queue.antt =====
-- The queue of runs, and the events, on concrete inputs.
use tend.Prelude.{
  ℕ, ◌≤◌, ◌≡◌, ◌≢◌, ◌⊎◌, inl, inr, refl, true, false, some, [], arith, if◌then◌else◌,
}
use tend.Prelude.Int.{pos, negsuc}
use tend.Event.{Event, alertable, no_detail, succeeded, failed}
use tend.Jobs.{Run, nobody, serve_runner, manual, is_active, is_pending}
use tend.Store.Schema.{Db}
use tend.Store.Table.{In}
use tend.Store.Emit.{emit_event}
use tend.Store.Streak.{previous_run_status, with_streak, streak_of}
use tend.Store.Emit.Laws.{Recorded, emit_event-Recorded}
use tend.Store.Runs.{
  enqueue_run, claim_run, claimed, after_finish, finish_run_and_emit, finish_run, reap_stale_run,
  terminal_event, FinishError, run_not_running,
}
use tend.Store.Runs.Terminal.{told}
use tend.Store.Runs.Terminal.Reach.{Step, Reach, here, then_step, told-once}
use tend.Store.Runs.Lifecycle.{life_of}
use tend.Store.Runs.Lifecycle.Refines.{Moves, ops, Reach-refines}
use tend.Store.Runs.Final.{finish_run_and_emit-once, reap_stale_run-once}
use tend.Store.Runs.Claim.{claim_run-oldest, claim_run-distinct}
use tend.Event.{RunStatus}
use tend.Prelude.{◌∷◌, ◌+◌}
use tend.Jobs.{is_succeeded}
use tend.Store.Streak.{finished_before}
use tend.Store.Streak.Last.{IsLast}
use tend.Store.Pings.Keys.{Unique}
use tend.Store.Runs.Recovery.{recoveries, finish_run_and_emit-recovers}
use tend.Prelude.{◌*◌, min}
use tend.Prelude.Int.{ℤ, max_int64}
use tend.Clock.{second}
use tend.Jobs.{Job, JobType}
use tend.Jobs.Limits.{
  max_run_duration, grace_of, true_timeout, whole_time, max_run_duration-saturates,
}
use tend.Tests.Data.{empty_db, get}

-- Two runs of job 7, claimed one after the other.
abbrev queued : Db
unfolding enqueue_run
queued = (enqueue_run 200 (enqueue_run 100 empty_db 1 7).0 1 7).0

abbrev no_run : Run
no_run = record {
  id = 0;
  org_id = 0;
  job_id = 0;
  status = failed;
  attempt = 0;
  exit_code = pos 0;
  output = [];
  claimed_by = nobody;
  started_at = 0;
  ended_at = 0;
  created_at = 0;
}

abbrev first_claim : Db × Run
unfolding claim_run enqueue_run
first_claim = get (empty_db, no_run) (claim_run 300 serve_runner queued)

abbrev second_claim : Db × Run
unfolding claim_run enqueue_run
second_claim = get (empty_db, no_run) (claim_run 400 (manual "desk") first_claim.0)

first_claim-claimed : claim_run 300 serve_runner queued ≡ some first_claim
unfolding claim_run enqueue_run
first_claim-claimed = refl

second_claim-claimed : claim_run 400 (manual "desk") first_claim.0 ≡ some second_claim
unfolding claim_run enqueue_run
second_claim-claimed = refl

claim_run-oldest_example :
    (q : Run) × In q queued.runs
    × (is_pending q.status ≡ true)
    × (first_claim.1 ≡ claimed 300 serve_runner q)
    × ((x : Run) → In x queued.runs → is_pending x.status ≡ true → q.id ≤ x.id)
unfolding enqueue_run
claim_run-oldest_example =
    claim_run-oldest 300 serve_runner queued first_claim (((omega arith), tt), (tt, tt))
      first_claim-claimed

claim_run-distinct_example : second_claim.1.id ≢ first_claim.1.id
claim_run-distinct_example =
    claim_run-distinct 300 400 serve_runner (manual "desk") queued first_claim second_claim
      first_claim-claimed second_claim-claimed

-- The first run succeeds.
abbrev success : Event
success = terminal_event first_claim.1 "tidy" succeeded (pos 0) no_detail

abbrev from_finish : FinishError ⊎ Db → Db
from_finish (inl err) = empty_db
from_finish (inr db) = db

abbrev done : Db
unfolding finish_run_and_emit
done = from_finish (finish_run_and_emit 500 second_claim.0 1 succeeded (pos 0) 1 [] success)

done-finished : finish_run_and_emit 500 second_claim.0 1 succeeded (pos 0) 1 [] success ≡ inr done
unfolding finish_run_and_emit finish_run claim_run enqueue_run
done-finished = refl

finish_run_and_emit-once_example :
    (finish_run_and_emit 600 done 1 failed (negsuc 0) 1 [] success ≡ inl run_not_running)
    × (reap_stale_run 600 done 1 [] success ≡ (done, false))
finish_run_and_emit-once_example =
    finish_run_and_emit-once 500 600 second_claim.0 done 1 succeeded failed (pos 0) (negsuc 0) 1 1
      [] [] success success refl done-finished

-- The second one is lost, and reaped.
abbrev loss : Event
loss = terminal_event second_claim.1 "tidy" failed (negsuc 0) no_detail

abbrev reaped : Db
reaped = (reap_stale_run 700 done 2 [] loss).0

reaped-reaped : reap_stale_run 700 done 2 [] loss ≡ (reaped, true)
unfolding reap_stale_run finish_run_and_emit finish_run claim_run enqueue_run after_finish
    previous_run_status emit_event alertable with_streak streak_of terminal_event
reaped-reaped = refl

reap_stale_run-once_example :
    (finish_run_and_emit 800 reaped 2 succeeded (pos 0) 1 [] loss ≡ inl run_not_running)
    × (reap_stale_run 800 reaped 2 [] loss ≡ (reaped, false))
reap_stale_run-once_example =
    reap_stale_run-once 700 800 done reaped 2 succeeded (pos 0) 1 [] [] loss loss reaped-reaped

reaped-Reach : Reach empty_db reaped
unfolding claim_run enqueue_run
reaped-Reach =
    let two =
      then_step
        (then_step {b = (enqueue_run 100 empty_db 1 7).0}
          (then_step here (Step.enqueued empty_db 100 1 7))
          (Step.enqueued (enqueue_run 100 empty_db 1 7).0 200 1 7))
        (Step.claimed queued 300 serve_runner first_claim first_claim-claimed) in
    then_step
      (then_step
        (then_step two
          (Step.claimed first_claim.0 400 (manual "desk") second_claim second_claim-claimed))
        (Step.ended second_claim.0 done 500 first_claim.1 "tidy" succeeded (pos 0) 1 [] no_detail
          refl done-finished))
      (Step.reaped done 700 second_claim.1 "tidy" [] no_detail)

told-once_example :
    ((r : Run) → In r reaped.runs → told r.id reaped.events ≡ (if is_active r.status then 0 else 1))
    × ((id : ℕ) → told id reaped.events ≤ 1)
told-once_example = told-once refl refl reaped-Reach

Reach-refines_example : Moves 2 (life_of 2 empty_db) (ops reaped-Reach) (life_of 2 reaped)
Reach-refines_example = Reach-refines refl refl reaped-Reach 2

emit_event-Recorded_example : Recorded 500 success queued (emit_event 500 queued success)
emit_event-Recorded_example = emit_event-Recorded 500 queued success

-- A lost run, and the next one, which succeeds.
abbrev lost : Run
lost = record no_run { id = 1; org_id = 1; job_id = 7; ended_at = 200 }

abbrev live : Run
live = record no_run {
  id = 2;
  org_id = 1;
  job_id = 7;
  status = RunStatus.running;
  started_at = 300;
}

abbrev two_runs : Db
two_runs = record empty_db { runs = lost ∷ live ∷ [] }

two_runs-Unique : Unique (λ (x y : Run). x.id ≡ y.id) two_runs.runs
two_runs-Unique x y i j k = ground arith

lost-IsLast : IsLast (finished_before live) two_runs.runs lost
lost-IsLast = (inl refl, refl, λ q i f. ground arith)

abbrev mended : Db
unfolding finish_run_and_emit
mended = from_finish (
    finish_run_and_emit 400 two_runs 2 succeeded (pos 0) 1 []
      (terminal_event live "tidy" succeeded (pos 0) no_detail))

mended-finished :
    finish_run_and_emit 400 two_runs 2 succeeded
      (pos 0)
      1
      []
      (terminal_event live "tidy" succeeded (pos 0) no_detail)
    ≡ inr mended
unfolding finish_run_and_emit finish_run
mended-finished = refl

finish_run_and_emit-recovers_example :
    recoveries 2 mended.events
    ≡ recoveries 2 two_runs.events + (if is_succeeded lost.status then 0 else 1)
finish_run_and_emit-recovers_example =
    finish_run_and_emit-recovers 400 two_runs mended live lost "tidy" (pos 0) 1 [] no_detail
      two_runs-Unique (inr (inl refl)) lost-IsLast mended-finished

-- A job that is tried three times.
abbrev tidy : Job
tidy = record {
  id = 7;
  org_id = 1;
  name = "tidy";
  job_type = JobType.shell;
  command = "tidy";
  http_url = "";
  http_method = "";
  http_body = "";
  cron = "";
  interval_seconds = pos 60;
  run_at = 0;
  timeout_seconds = pos 10;
  max_retries = pos 2;
  enabled = true;
  env = [];
  next_run_at = 0;
  created_at = 0;
  updated_at = 0;
}

abbrev squares : ℕ → ℤ
squares n = pos (n * n * second)

max_run_duration-saturates_example :
    max_run_duration squares tidy
    ≡ min max_int64 (
        true_timeout 10
        + grace_of JobType.shell
        + whole_time squares (true_timeout 10 + grace_of JobType.shell) 2 1)
max_run_duration-saturates_example =
    max_run_duration-saturates squares tidy 10 2 refl refl (omega arith)
