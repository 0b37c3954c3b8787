-- ===== src/Event/Details.antt =====
-- What an event's `Detail` can say: jobs.FailureDetail and jobs.Streak (internal/jobs/failure.go),
-- and heartbeat.MissDetail (internal/heartbeat/detail.go).
use tend.Prelude.{ℕ, Option, Bool, false, []}
use tend.Prelude.Int.{ℤ, pos}
use tend.Clock.{Time, zero_time}
use tend.Core.Tail.{Text}

-- jobs.RunStatus.
pub data RunStatus : Type 0 where
  pending running succeeded failed timed_out : RunStatus

pub record Streak : Type 0 where
  pub failed_runs : ℕ
  pub failing_since : Time

abbrev pub no_streak : Streak
no_streak = record { failed_runs = 0; failing_since = zero_time }

pub record FailureDetail : Type 0 where
  pub verdict : Text
  pub output : Text
  pub truncated : Bool
  pub timeout_seconds : ℤ
  pub http_status : ℤ
  pub streak : Streak

abbrev pub no_failure : FailureDetail
no_failure = record {
  verdict = [];
  output = [];
  truncated = false;
  timeout_seconds = pos 0;
  http_status = pos 0;
  streak = no_streak;
}

pub data Reason : Type 0 where
  missed overran : Reason
  gave_failure : Reason

pub record MissDetail : Type 0 where
  pub reason : Reason
  pub heartbeat_id : ℕ
  pub exit_status : Option ℕ
  pub output : Text
  pub last_seen_at : Time
  pub period_seconds : ℤ
  pub started_at : Time
  pub grace_seconds : ℤ

-- `heartbeat_of id` is {"heartbeat_id":id}.
pub data Detail : Type 0 where
  no_detail : Detail
  failure : FailureDetail → Detail
  streak_ended : Streak → Detail
  miss : MissDetail → Detail
  heartbeat_of : ℕ → Detail

-- json.Unmarshal of a detail into a FailureDetail: the keys that it knows.
abbrev pub read_failure : Detail → FailureDetail
read_failure no_detail = no_failure
read_failure (failure d) = d
read_failure (streak_ended s) = record no_failure { streak = s }
read_failure (miss m) = record no_failure { output = m.output }
read_failure (heartbeat_of id) = no_failure

-- jobs.WithStreak.
unfoldable pub with_streak_detail : Detail → Streak → Detail
with_streak_detail detail s = failure (record (read_failure detail) { streak = s })

-- heartbeat.IDOf: the heartbeat that a detail names, or 0.
unfoldable pub id_of : Detail → ℕ
id_of (miss m) = m.heartbeat_id
id_of (heartbeat_of id) = id
id_of _ = 0
