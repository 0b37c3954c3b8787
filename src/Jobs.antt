-- ===== src/Jobs.antt =====
-- internal/jobs/job.go and unreadable.go: jobs, their runs, and the events of a run's lifecycle.
-- `Spec`, the settings of probes and drills, is left out: nothing here reads it.
pub mod Unreadable
pub mod Limits
pub mod Schedule
pub mod Capture
pub mod Failure
use Prim.Native.String.{String}
use tend.Prelude.{ℕ, Bool, true, false, List}
use tend.Prelude.Int.{ℤ}
use tend.Clock.{Time, zero_time}
use tend.Core.Tail.{Text}
use tend.Event.{
  Event, EventType, run_recovered, job_removed, RunStatus, pending, running, succeeded, failed,
  timed_out, run, removed_job, jobs_runner, jobs, run_key, job_key, no_detail,
}

pub data JobType : Type 0 where
  shell http tls domain expiry drill : JobType

-- HasSpec.
abbrev pub has_spec : JobType → Bool
has_spec shell = false
has_spec http = false
has_spec tls = true
has_spec domain = true
has_spec expiry = true
has_spec drill = true

pub record Job : Type 0 where
  pub id : ℕ
  pub org_id : ℕ
  pub name : String
  pub job_type : JobType
  pub command : String
  pub http_url : String
  pub http_method : String
  pub http_body : String
  pub cron : String
  pub interval_seconds : ℤ
  pub run_at : Time
  pub timeout_seconds : ℤ
  pub max_retries : ℤ
  pub enabled : Bool
  pub env : List (String × String)
  pub next_run_at : Time
  pub created_at : Time
  pub updated_at : Time

-- Who claimed a run: serve's own runner ("runner"), or a `tend run` process ("run:" and the host
-- and process it names, ManualClaimantPrefix).
pub data Claimant : Type 0 where
  nobody serve_runner : Claimant
  manual : String → Claimant

pub record Run : Type 0 where
  pub id : ℕ
  pub org_id : ℕ
  pub job_id : ℕ
  pub status : RunStatus
  pub attempt : ℕ
  pub exit_code : ℤ
  pub output : Text
  pub claimed_by : Claimant
  pub started_at : Time
  pub ended_at : Time
  pub created_at : Time

abbrev pub is_pending : RunStatus → Bool
is_pending pending = true
is_pending _ = false

abbrev pub is_running : RunStatus → Bool
is_running running = true
is_running _ = false

abbrev pub is_succeeded : RunStatus → Bool
is_succeeded succeeded = true
is_succeeded _ = false

-- `status IN ('pending', 'running')`.
abbrev pub is_active : RunStatus → Bool
is_active pending = true
is_active running = true
is_active _ = false

-- RunEvent: the standard small payload and the dedup key run:<run_id>:<type>.
unfoldable pub run_event : ℕ → ℕ → ℕ → String → EventType → RunStatus → ℤ → Event
run_event run_id org job_id job_name t status exit_code = record {
  id = 0;
  org_id = org;
  event_type = t;
  source = jobs_runner;
  payload = run (record {
    run_id = run_id;
    job_id = job_id;
    job_name = job_name;
    status = status;
    exit_code = exit_code;
  });
  dedup_key = run_key run_id t;
  created_at = zero_time;
  detail = no_detail;
}

-- RecoveredEvent.
unfoldable pub recovered_event : Event → ℕ → Event
recovered_event e run_id = record e {
  id = 0;
  event_type = run_recovered;
  dedup_key = run_key run_id run_recovered;
}

-- RemovedEvent.
unfoldable pub removed_event : ℕ → ℕ → String → Event
removed_event org id name = record {
  id = 0;
  org_id = org;
  event_type = job_removed;
  source = jobs;
  payload = removed_job id name;
  dedup_key = job_key id;
  created_at = zero_time;
  detail = no_detail;
}
