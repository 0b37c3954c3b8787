-- ===== src/Tests/Data.antt =====
-- The stores and rows that the tests start from.
use tend.Prelude.{◌*◌, Option, none, some, []}
use tend.Prelude.Int.{pos}
use tend.Clock.{zero_time, second}
use tend.Heartbeat.{Heartbeat, new, up}
use tend.Heartbeat.Ping.{PingInput, PingKind}
use tend.Store.Schema.{Db}

abbrev pub empty_db : Db
empty_db = record {
  jobs = [];
  runs = [];
  events = [];
  rules = [];
  channels = [];
  deliveries = [];
  alerts = [];
  heartbeats = [];
  pings = [];
  next_run_id = 1;
  next_event_id = 1;
  next_delivery_id = 1;
  next_heartbeat_id = 1;
  next_ping_id = 1;
  next_rule_id = 1;
  next_channel_id = 1;
  next_job_id = 1;
}

abbrev pub get {ℓ} : {A : Type ℓ} → A → Option A → A
get a none = a
get a (some b) = b

-- A heartbeat as `tend sync` gives it: a ping an hour, with ten minutes of grace.
abbrev pub backup : Heartbeat
backup = record {
  id = 0;
  org_id = 1;
  name = "backup";
  token = "t1";
  last_seen_at = zero_time;
  period_seconds = pos 3600;
  grace_seconds = pos 600;
  status = new;
  created_at = zero_time;
  started_at = zero_time;
  started_rid = "";
}

-- The same, up and last seen at 1000 s.
abbrev pub seen_backup : Heartbeat
seen_backup = record backup { id = 1; status = up; last_seen_at = 1000 * second; created_at = 1 }

abbrev pub failing_ping : PingInput
failing_ping = record { kind = PingKind.failure; exit_status = some 1; rid = ""; body = [] }
