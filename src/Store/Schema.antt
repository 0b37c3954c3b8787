-- ===== src/Store/Schema.antt =====
-- The tables of internal/store/migrations, and the row types that internal/store reads from them.
-- A NULL time is the zero time, as parseTime and nullTime have it. Ids grow by one per table.
use Prim.Native.String.{String}
use tend.Prelude.{ℕ, Bool, Option, List}
use tend.Prelude.Int.{ℤ}
use tend.Clock.{Time}
use tend.Event.{Event, EventType}
use tend.Heartbeat.{Heartbeat}
use tend.Heartbeat.Ping.{Ping}
use tend.Jobs.{Job, Run}
use tend.Notify.Pacing.{ChannelType}

-- A row of jobs: the job, and the failing streak that migration 0014 added.
pub record JobRow : Type 0 where
  pub job : Job
  pub open job use *
  pub failed_runs : ℕ
  pub failing_since : Time

-- notify.Rule, with `Repeat` as it is stored.
pub record Rule : Type 0 where
  pub id : ℕ
  pub org_id : ℕ
  pub channel_id : ℕ
  pub event_type : EventType
  pub enabled : Bool
  pub job_id : ℕ
  pub repeat_seconds : Option ℤ

-- notify.Channel, with its encrypted config; the code does not read the time of its creation.
pub record Channel : Type 0 where
  pub id : ℕ
  pub org_id : ℕ
  pub name : String
  pub kind : ChannelType
  pub config : String

pub data DeliveryState : Type 0 where
  pending delivered failed : DeliveryState

-- notify.Delivery; its event is joined in by its id.
pub record Delivery : Type 0 where
  pub id : ℕ
  pub org_id : ℕ
  pub event_id : ℕ
  pub channel_id : ℕ
  pub attempts : ℕ
  pub state : DeliveryState
  pub next_attempt_at : Time
  pub first_attempt_at : Time
  pub created_at : Time

-- A row of failure_alerts (migration 0017).
pub record AlertRow : Type 0 where
  pub org_id : ℕ
  pub channel_id : ℕ
  pub job_id : ℕ
  pub last_sent_at : Time
  pub held_event_id : Option ℕ

pub record Db : Type 0 where
  pub jobs : List JobRow
  pub runs : List Run
  pub events : List Event
  pub rules : List Rule
  pub channels : List Channel
  pub deliveries : List Delivery
  pub alerts : List AlertRow
  pub heartbeats : List Heartbeat
  pub pings : List Ping
  -- The ids that the next rows get.
  pub next_run_id : ℕ
  pub next_event_id : ℕ
  pub next_delivery_id : ℕ
  pub next_heartbeat_id : ℕ
  pub next_ping_id : ℕ
  pub next_rule_id : ℕ
  pub next_channel_id : ℕ
  pub next_job_id : ℕ
