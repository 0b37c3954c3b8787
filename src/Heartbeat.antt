-- ===== src/Heartbeat.antt =====
-- internal/heartbeat/heartbeat.go: a heartbeat and its deadline, and the events of its lifecycle
-- (with internal/heartbeat/detail.go).
pub mod Deadline
pub mod Ping
use Prim.Native.String.{String}
use tend.Prelude.{ℕ, Option, none, some, Bool, true, false, ◌||◌, [], ltb, if◌then◌else◌}
use tend.Prelude.Int.{ℤ, pos, ◌+ℤ◌, int64, ltb_ℤ, leb_ℤ, ◌/ℤ◌}
use tend.Clock.{Time, Duration, zero_time, is_zero, before, add, seconds, second}
use tend.Core.Tail.{Text, tail_lines, max_output_tail_lines}
use tend.Event.{
  Event, EventType, heartbeat_missed, heartbeat_recovered, heartbeat_removed, heartbeat_name,
  heartbeat, no_key, Detail, no_detail, miss, heartbeat_of, missed, overran, gave_failure,
}

pub data Status : Type 0 where
  new up down : Status

pub record Heartbeat : Type 0 where
  pub id : ℕ
  pub org_id : ℕ
  pub name : String
  pub token : String
  pub last_seen_at : Time
  pub period_seconds : ℤ
  pub grace_seconds : ℤ
  pub status : Status
  pub created_at : Time
  pub started_at : Time
  pub started_rid : String

abbrev pub is_down : Status → Bool
is_down down = true
is_down _ = false

abbrev pub is_new : Status → Bool
is_new new = true
is_new _ = false

abbrev pub is_up : Status → Bool
is_up up = true
is_up _ = false

unfoldable pub run_grace : Heartbeat → Duration
run_grace h =
    if ltb_ℤ (pos 0) h.grace_seconds then seconds h.grace_seconds else seconds h.period_seconds

-- The instant, whether it is a started run's, and whether the heartbeat is watched.
pub record DeadlineResult : Type 0 where
  pub deadline : Time
  pub overran : Bool
  pub watched : Bool

abbrev pub unwatched : DeadlineResult
unwatched = record { deadline = zero_time; overran = false; watched = false }

abbrev pub anchor : Heartbeat → Time
anchor h = if is_new h.status then h.created_at else h.last_seen_at

unfoldable pub regular_deadline : Heartbeat → Time
regular_deadline h = add (anchor h) (int64 (seconds h.period_seconds +ℤ seconds h.grace_seconds))

unfoldable pub deadline : Heartbeat → DeadlineResult
deadline h =
    let regular = regular_deadline h in
    let run = add h.started_at (run_grace h) in
    if leb_ℤ h.period_seconds (pos 0) || is_down h.status
    then unwatched
    else if is_zero (anchor h)
    then unwatched
    else if is_zero h.started_at
    then record { deadline = regular; overran = false; watched = true }
    else if before run regular
    then record { deadline = run; overran = true; watched = true }
    else record { deadline = regular; overran = false; watched = true }

-- The events carry the heartbeat's name, no dedup key, and a time that the store stamps.
unfoldable pub lifecycle_event : EventType → ℕ → String → Detail → Event
lifecycle_event t org n d = record {
  id = 0;
  org_id = org;
  event_type = t;
  source = heartbeat;
  payload = heartbeat_name n;
  dedup_key = no_key;
  created_at = zero_time;
  detail = d;
}

unfoldable pub recovered_event : ℕ → ℕ → String → Event
unfolding lifecycle_event
recovered_event org id n =
    lifecycle_event heartbeat_recovered org n (if ltb 0 id then heartbeat_of id else no_detail)

unfoldable pub removed_event : ℕ → String → Event
unfolding lifecycle_event
removed_event org n = lifecycle_event heartbeat_removed org n no_detail

unfoldable pub failed_event : ℕ → ℕ → String → Option ℕ → Text → Event
unfolding lifecycle_event
failed_event org id n exit_status body = lifecycle_event heartbeat_missed org n (
    miss (record {
      reason = gave_failure;
      heartbeat_id = id;
      exit_status = exit_status;
      output = tail_lines body max_output_tail_lines;
      last_seen_at = zero_time;
      period_seconds = pos 0;
      started_at = zero_time;
      grace_seconds = pos 0;
    }))

unfoldable pub overdue_event : Heartbeat → Event
unfolding lifecycle_event
overdue_event h = lifecycle_event heartbeat_missed h.org_id h.name (
    miss (record {
      reason = missed;
      heartbeat_id = h.id;
      exit_status = none;
      output = [];
      last_seen_at = h.last_seen_at;
      period_seconds = h.period_seconds;
      started_at = zero_time;
      grace_seconds = h.grace_seconds;
    }))

unfoldable pub overran_event : Heartbeat → Event
unfolding lifecycle_event run_grace
overran_event h = lifecycle_event heartbeat_missed h.org_id h.name (
    miss (record {
      reason = overran;
      heartbeat_id = h.id;
      exit_status = none;
      output = [];
      last_seen_at = zero_time;
      period_seconds = pos 0;
      started_at = h.started_at;
      grace_seconds = run_grace h /ℤ second;
    }))
