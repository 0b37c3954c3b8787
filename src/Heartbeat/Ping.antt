-- ===== src/Heartbeat/Ping.antt =====
-- internal/heartbeat/ping.go: the pings of the ping API and what recording one gives back.
pub mod Uuid
use Prim.Native.String.{String}
use tend.Prelude.{ℕ, ◌*◌, Option, Bool, true, false}
use tend.Clock.{Time, hour}
use tend.Core.Tail.{Text}
use tend.Event.{Event}

pub data PingKind : Type 0 where
  success start failure log : PingKind

-- 72 hours.
abbrev pub max_run_duration : ℕ
max_run_duration = 72 * hour

pub record PingInput : Type 0 where
  pub kind : PingKind
  pub exit_status : Option ℕ
  pub rid : String
  pub body : Text

pub record Ping : Type 0 where
  pub id : ℕ
  pub org_id : ℕ
  pub heartbeat_id : ℕ
  pub kind : PingKind
  pub exit_status : Option ℕ
  pub rid : String
  -- in milliseconds
  pub duration : Option ℕ
  pub body : Text
  pub created_at : Time

pub record PingResult : Type 0 where
  pub org_id : ℕ
  pub heartbeat_id : ℕ
  pub name : String
  pub event : Option Event
