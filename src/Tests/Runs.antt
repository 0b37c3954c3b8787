-- ===== src/Tests/Runs.antt =====
-- The runner on concrete inputs.
use Prim.Native.String.{String}
use tend.Prelude.{
  ℕ, ◌+◌, ◌*◌, ◌≤◌, ◌<◌, ◌≡◌, ◌≢◌, ◌⊎◌, inl, inr, refl, true, false, Bool, Option, none, some, [],
  ◌∷◌, ◌++◌, take, drop, length, List, arith, any, if◌then◌else◌, ltb, ◌&&◌, ◌||◌,
}
use tend.Prelude.Int.{ℤ, pos}
use tend.Core.Tail.{Text}
use tend.Clock.{Time, second, is_zero, since}
use tend.Event.{no_detail, succeeded, RunStatus}
use tend.Jobs.{Job, JobType, Run, serve_runner}
use tend.Jobs.Schedule.{next_run, next_run-overflow}
use tend.Store.Schema.{Db, JobRow}
use tend.Store.Table.{In}
use tend.Store.JobRows.{update_job}
use tend.Store.Runs.{due_jobs, is_due_job, terminal_event, enqueue_run, is_running_run}
use tend.Runner.Tick.{tick, is_readable}
use tend.Runner.Tick.Loop.{active_of}
use tend.Runner.Tick.Exact.{tick-active, tick-schedule}
use tend.Runner.Finish.{
  World, Call, answers, lost, Ending, recorded, gave_up, RunResult, record_result, finish,
}
use tend.Runner.Finish.Ends.{of_attempt, finish-ends}
use tend.Runner.Reap.{reap_once}
use tend.Runner.Reap.Sweep.{definition, allowed, reap_once-exact}
use tend.Jobs.Limits.{reap_slack}
use tend.Runner.Redact.{redact, has_prefix, index}
use tend.Runner.Redact.Cover.{covers_any}
use tend.Runner.Redact.Build.{starred}
use tend.Runner.Redact.Exact.{redact-starred, redact-order}
use tend.Jobs.Failure.{truncation_marker}
use tend.Jobs.Capture.{head_of, tail_of}
use tend.Jobs.Capture.Buffer.{
  fresh, write_all, without_nuls, joined_output, holding, shell_output, secret_margin,
  write_all-holding,
}
use tend.Jobs.Capture.Whole.{Across, tail_of-whole}
use tend.Jobs.Capture.Shell.{shell_output-whole}
use tend.Tests.Data.{empty_db, get}

-- A job every minute, and a cron library that knows no expression.
abbrev tidy : Job
tidy = record {
  id = 7;
  org_id = 1;
  name = "tidy";
  job_type = JobType.shell;
  command = "tidy";
  http_url = "";
  http_method = "";
  http_body = "";
  cron = "";
  interval_seconds = pos 60;
  run_at = 0;
  timeout_seconds = pos 10;
  max_retries = pos 2;
  enabled = true;
  env = [];
  next_run_at = 100;
  created_at = 0;
  updated_at = 0;
}

abbrev no_cron : String → Time → Option Time
no_cron expr now = none

abbrev all_readable : JobRow → Option Text
all_readable j = none

abbrev all_decode : Job → Bool
all_decode j = true

abbrev tidy_row : JobRow
tidy_row = record { job = tidy; failed_runs = 0; failing_since = 0 }

abbrev first {ℓ} : {A : Type ℓ} → List A → Option A
first [] = none
first (x ∷ xs) = some x

abbrev scheduled : Db
scheduled = record empty_db { jobs = tidy_row ∷ [] }

tick-active_example : active_of 7 (tick no_cron all_readable 200 200 scheduled).0.runs ≡ (
    if is_due_job [] 200 tidy_row && is_readable all_readable tidy_row then 1 else active_of 7 [])
tick-active_example =
    tick-active no_cron all_readable 200 200 scheduled tidy_row (tt, tt) (inl refl)

abbrev ticked_row : JobRow
unfolding tick
ticked_row = get tidy_row (first (tick no_cron all_readable 200 200 scheduled).0.jobs)

tick-schedule_example :
    (x : JobRow) × In x scheduled.jobs
    × (ticked_row.id ≡ x.id)
    × (is_due_job [] 200 x ≡ false → ticked_row.next_run_at ≡ x.next_run_at)
    × (is_due_job [] 200 x ≡ true → (ticked_row.next_run_at ≡ 0) ⊎ (200 < ticked_row.next_run_at))
unfolding tick due_jobs next_run update_job enqueue_run
tick-schedule_example =
    tick-schedule no_cron all_readable 200 200 scheduled ticked_row (tt, tt)
      (λ e n t h. ground arith) (λ x i n h. ground arith) (inl refl)

next_run-overflow_example :
    get 0 (next_run no_cron (record tidy { interval_seconds = pos 10000000000 }) 200) ≤ 200
unfolding next_run
next_run-overflow_example =
    next_run-overflow no_cron (record tidy { interval_seconds = pos 10000000000 }) 200 _ 10000000000
      refl refl (omega arith) (omega arith) refl

-- A run that is being executed, whose result meets a store that fails once.
abbrev live : Run
live = record {
  id = 4;
  org_id = 1;
  job_id = 7;
  status = RunStatus.running;
  attempt = 1;
  exit_code = pos 0;
  output = [];
  claimed_by = serve_runner;
  started_at = 300;
  ended_at = 0;
  created_at = 0;
}

abbrev executing : Db
executing = record scheduled { runs = live ∷ []; next_run_id = 5 }

abbrev result : RunResult
result = record {
  run_id = 4;
  status = succeeded;
  exit_code = pos 0;
  attempt = 1;
  output = [];
  event = terminal_event live "tidy" succeeded (pos 0) no_detail;
}

abbrev fails_once : ℕ → Call
fails_once n = if ltb n 2 then lost else answers

abbrev shaky : World
shaky = record {
  call = fails_once;
  cancelled = λ n. false;
  cancelled_in_pause = λ n. false;
  others = λ n db. db;
}

finish-ends_example :
    (out : Db × Ending) × (finish 400 result shaky executing ≡ some out)
    × (out.1 ≡ gave_up → (n : ℕ) → 1 ≤ n → n ≤ 4 → fails_once n ≢ answers)
    × (out.1 ≡ recorded → (before : Db) × (record_result 400 result before ≡ inr out.0))
    × (of_attempt out.1 ≡ true → any (is_running_run 4) out.0.runs ≡ false)
finish-ends_example = finish-ends 400 result shaky executing refl

abbrev no_pause : ℕ → ℤ
no_pause n = pos 0

abbrev no_text : ℕ → Bool → Text
no_text limit ours = []

reap_once-exact_example :
    any
      (is_running_run 4)
      (reap_once all_decode no_pause no_text
        (500 * second)
        (500 * second)
        ((4, 60 * second) ∷ [])
        executing).0.runs
    ≡ (elim (definition all_decode live executing) [
      | none ↦ true
      | some j ↦
          is_zero live.started_at
          || ltb
              (since (500 * second) live.started_at)
              (allowed no_pause ((4, 60 * second) ∷ []) live j + reap_slack)
    ])
reap_once-exact_example =
    reap_once-exact all_decode no_pause no_text (500 * second) (500 * second)
      ((4, 60 * second) ∷ []) executing live (λ x y i j e. ground arith) (inl refl) refl

-- "abcbcd" with "bc" and "cb".
abbrev printed : Text
printed = 97 ∷ 98 ∷ 99 ∷ 98 ∷ 99 ∷ 100 ∷ []

abbrev secrets : List Text
secrets = (98 ∷ 99 ∷ []) ∷ (99 ∷ 98 ∷ []) ∷ []

printed-redacted : redact printed secrets ≡ 97 ∷ 42 ∷ 42 ∷ 42 ∷ 100 ∷ []
unfolding redact
printed-redacted = refl

redact-starred_example :
    redact printed secrets ≡ starred (covers_any secrets printed) 0 false printed
redact-starred_example = redact-starred printed secrets

swap-In : (v a b : Text) → In v (a ∷ b ∷ []) → In v (b ∷ a ∷ [])
swap-In v a b (inl e) = inr (inl e)
swap-In v a b (inr (inl e)) = inl e
swap-In v a b (inr (inr h)) = elim h [ ]

redact-order_example :
    redact printed secrets ≡ redact printed ((99 ∷ 98 ∷ []) ∷ (98 ∷ 99 ∷ []) ∷ [])
redact-order_example =
    redact-order printed secrets ((99 ∷ 98 ∷ []) ∷ (98 ∷ 99 ∷ []) ∷ [])
      (λ v. (swap-In v _ _, swap-In v _ _))

-- A secret "bcd" printed across the second byte, in two writes and with a NUL in it.
abbrev code : Text
code = 98 ∷ 99 ∷ 100 ∷ []

abbrev writes : List Text
writes = (97 ∷ 98 ∷ 0 ∷ []) ∷ (99 ∷ 100 ∷ 101 ∷ 102 ∷ 103 ∷ []) ∷ []

abbrev letters : Text
letters = 97 ∷ 98 ∷ 99 ∷ 100 ∷ 101 ∷ 102 ∷ 103 ∷ []

code-Across : Across (without_nuls (joined_output writes)) code 2 1
unfolding has_prefix without_nuls joined_output
code-Across = record { long = omega arith; before = omega arith; past = omega arith; stands = refl }

more_printed : 2 + secret_margin (code ∷ []) < length (without_nuls (joined_output writes))
unfolding secret_margin without_nuls joined_output
more_printed = omega arith

shell_output-whole_example :
    (m : ℕ) × (shell_output 2 (write_all (2 + secret_margin (code ∷ [])) fresh writes) (code ∷ [])
      ≡ take m (without_nuls (joined_output writes)) ++ truncation_marker)
    × (4 ≤ m)
shell_output-whole_example =
    shell_output-whole 2 1 code (code ∷ []) writes (inl refl) code-Across more_printed

code-Across_tail : Across letters code 3 1
unfolding has_prefix
code-Across_tail = record {
  long = omega arith;
  before = omega arith;
  past = omega arith;
  stands = refl;
}

tail_of-whole_example :
    (m : ℕ) × (tail_of letters 4 (code ∷ []) false ≡ (drop m letters, true))
    × (m ≤ 1)
    × ((w : Text) × In w (code ∷ []) × (has_prefix (drop m letters) w ≡ true))
tail_of-whole_example = tail_of-whole letters code 4 1 (code ∷ []) false (inl refl) code-Across_tail

write_all-holding_example :
    write_all 4 fresh writes ≡ holding 4 (without_nuls (joined_output writes))
write_all-holding_example = write_all-holding 4 writes

-- A secret that ends with the first byte of a rune, right at the end of what is shown, loses it.
abbrev binary : Text
binary = 98 ∷ 99 ∷ 195 ∷ []

head_of-binary : head_of (binary ++ letters) 3 (binary ∷ []) true ≡ (98 ∷ 99 ∷ [], true)
unfolding head_of index
head_of-binary = refl
