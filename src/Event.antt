-- ===== src/Event.antt =====
-- internal/core/event.go, and the JSON that events carry in `Payload` and `Detail`. A JSON text is
-- represented by the value that it encodes, so that encoding it and reading it back (the standard
-- library's encoding/json) is the identity. A heartbeat's name is taken not to be a JSON object.
mod Details
unfoldable pub use Details.*
use Prim.Native.String.{String}
use tend.Prelude.{ℕ, Option, none, some, Bool, true, false, ◌==◌, if◌then◌else◌}
use tend.Prelude.Int.{ℤ}
use tend.Clock.{Time}
use Details.{RunStatus, Detail}

-- jobs.EventRun*, jobs.EventJobRemoved, heartbeat.Event* and notify.EventNotificationFailed.
pub data EventType : Type 0 where
  run_started run_succeeded run_failed run_recovered : EventType
  job_removed heartbeat_missed heartbeat_recovered heartbeat_removed : EventType
  notification_failed : EventType

unfoldable pub code_of : EventType → ℕ
code_of run_started = 0
code_of run_succeeded = 1
code_of run_failed = 2
code_of run_recovered = 3
code_of job_removed = 4
code_of heartbeat_missed = 5
code_of heartbeat_recovered = 6
code_of heartbeat_removed = 7
code_of notification_failed = 8

unfoldable pub same_type : EventType → EventType → Bool
unfolding code_of
same_type a b = code_of a == code_of b

-- The payload of a run.* event.
pub record RunPayload : Type 0 where
  pub run_id : ℕ
  pub job_id : ℕ
  pub job_name : String
  pub status : RunStatus
  pub exit_code : ℤ

pub data Payload : Type 0 where
  run : RunPayload → Payload
  removed_job : ℕ → String → Payload
  heartbeat_name : String → Payload
  failed_type : EventType → Payload

pub data Source : Type 0 where
  jobs_runner jobs heartbeat notify : Source

pub data DedupKey : Type 0 where
  no_key : DedupKey
  run_key : ℕ → EventType → DedupKey
  job_key : ℕ → DedupKey

pub record Event : Type 0 where
  pub id : ℕ
  pub org_id : ℕ
  pub event_type : EventType
  pub source : Source
  pub payload : Payload
  pub dedup_key : DedupKey
  pub created_at : Time
  pub detail : Detail

-- notify.EventJobID: the `job_id` that a payload carries, or 0.
abbrev payload_job_id : Payload → ℕ
payload_job_id (run p) = p.job_id
payload_job_id (removed_job id n) = id
payload_job_id (heartbeat_name n) = 0
payload_job_id (failed_type t) = 0

unfoldable pub event_job_id : Event → ℕ
event_job_id e = payload_job_id e.payload

-- notify.Alertable.
unfoldable pub alertable : EventType → Bool
alertable run_started = false
alertable run_succeeded = false
alertable _ = true
