-- ===== src/Tests/Alerts.antt =====
-- The pacing of alerts, and the form of run ids, on concrete inputs.
use tend.Prelude.{
  ℕ, ◌+◌, ◌*◌, ◌≤◌, ◌≡◌, ◌↔◌, refl, true, false, none, some, [], ◌∷◌, arith, length, any, ◌&&◌,
  if◌then◌else◌,
}
use tend.Prelude.Int.{pos}
use tend.Clock.{second, hour}
use tend.Core.Tail.{Text}
use tend.Heartbeat.Ping.Uuid.{canonical_uuid, canonical_uuid-exact, IsCanon, to_lower}
use tend.Event.{Event, heartbeat_missed, alertable, event_job_id}
use tend.Heartbeat.{overdue_event}
use tend.Store.Schema.{Db, Rule, Channel}
use tend.Store.Emit.{emit_event}
use tend.Store.Emit.Deliveries.{queued, emit_event-queued, emit_event-unscoped}
use tend.Store.Pacing.Channels.{matched_channels}
use tend.Store.Pacing.Matched.{Distinct, has, routed_to, matched_channels-exact}
use tend.Tests.Data.{empty_db, seen_backup}
use tend.Notify.Pacing.{ChannelType, AlertState, told, pace_failure, pace_recovery}
use tend.Notify.Pacing.Laws.{gap, less_slack, pace_failure-reminder, pace_failure-before_hold_ends}
use tend.Notify.Pacing.Trace.{
  World, start, fails, polls, recovers, failure, recovery, Reach, here, more, Spaced,
}
use tend.Notify.Pacing.Recoveries
use tend.Notify.Pacing.Recoveries.{Line, new_line, rerouted, Reach-recoveries}
use tend.Notify.Pacing.Trace.Invariant.{Reach-Spaced, Reach-polls_announce}

-- Two rules that route heartbeat.missed to one channel, and one for another org.
abbrev to_chat : Rule
to_chat = record {
  id = 1;
  org_id = 1;
  channel_id = 3;
  event_type = heartbeat_missed;
  enabled = true;
  job_id = 0;
  repeat_seconds = none;
}

abbrev chat : Channel
chat = record { id = 3; org_id = 1; name = "chat"; kind = ChannelType.discord; config = "" }

abbrev routed : Db
routed = record empty_db {
  rules = to_chat ∷ record to_chat { id = 2 } ∷ record to_chat { id = 3; org_id = 2 } ∷ [];
  channels = chat ∷ [];
}

matched_channels-exact_example :
    Distinct (matched_channels routed 1 heartbeat_missed 0)
    × ((k : ℕ)
        → has k (matched_channels routed 1 heartbeat_missed 0)
          ≡ any (routed_to k routed.channels 1 heartbeat_missed 0) routed.rules)
matched_channels-exact_example = matched_channels-exact routed 1 heartbeat_missed 0

abbrev miss : Event
miss = overdue_event seen_backup

emit_event-queued_example :
    queued 1 3 (emit_event 500 routed miss).deliveries
    ≤ queued 1 3 routed.deliveries
      + (if alertable miss.event_type
            && any
                (routed_to 3 routed.channels miss.org_id miss.event_type (event_job_id miss))
                routed.rules
          then 1
          else 0)
emit_event-queued_example = emit_event-queued 500 routed miss 3

emit_event-unscoped_example :
    queued 1 3 (emit_event 500 routed miss).deliveries
    ≡ queued 1 3 routed.deliveries
      + (if alertable miss.event_type
            && any (routed_to 3 routed.channels miss.org_id miss.event_type 0) routed.rules
          then 1
          else 0)
unfolding event_job_id overdue_event
emit_event-unscoped_example = emit_event-unscoped 500 routed miss 3 refl

-- The channel was told of a failure at 1000 s, and hears of a job every 24 hours.
abbrev alerted : AlertState
alerted = record { last_sent_at = 1000 * second; held = false }

abbrev daily : ℕ
daily = 24 * hour

pace_failure-reminder_example :
    ((pace_failure alerted true (5000 * second) (900 * second) (pos daily)).0 ≡ true)
    ↔ (alerted.last_sent_at + less_slack daily ≤ 5000 * second)
unfolding told
pace_failure-reminder_example =
    pace_failure-reminder alerted (5000 * second) (900 * second) daily (omega arith) refl

-- 3550 s after it, within the last minute of the hold of an hour.
pace_failure-before_hold_ends_example :
    pace_failure alerted true (4550 * second) (4000 * second) (pos daily)
    ≡ (true, record { last_sent_at = 4550 * second; held = false })
unfolding told
pace_failure-before_hold_ends_example =
    pace_failure-before_hold_ends alerted (4550 * second) (4000 * second) daily (omega arith) refl
      (omega arith) (omega arith)

-- A failure that is sent, its recovery, and a failure ten minutes later, which is held.
abbrev first : World
unfolding fails
first = fails (pos daily) start (1000 * second)

abbrev mended : World
unfolding fails recovers
mended = recovers first (1300 * second)

abbrev second_streak : World
unfolding fails recovers
second_streak = fails (pos daily) mended (1600 * second)

second_streak-Reach : Reach (pos daily) second_streak
unfolding fails recovers
second_streak-Reach =
    more
      (more (more here (failure start (1000 * second) (omega arith)))
        (recovery first (1300 * second) (omega arith) refl))
      (failure mended (1600 * second) (omega arith))

Reach-Spaced_example : Spaced (gap (pos daily)) second_streak.sends
Reach-Spaced_example = Reach-Spaced second_streak-Reach

-- Two streaks, the second too short for its held failure to go out, and then one with no rule.
abbrev told_line : Line
unfolding Recoveries.fails
told_line = Recoveries.fails (pos daily) (new_line true false) (1000 * second)

abbrev mended_line : Line
unfolding Recoveries.fails Recoveries.recovers
mended_line = Recoveries.recovers told_line (1300 * second)

abbrev held_line : Line
unfolding Recoveries.fails Recoveries.recovers
held_line = Recoveries.fails (pos daily) mended_line (1600 * second)

abbrev unrouted_line : Line
unfolding Recoveries.fails Recoveries.recovers
unrouted_line = rerouted false (Recoveries.recovers held_line (1700 * second))

abbrev unheard_line : Line
unfolding Recoveries.fails Recoveries.recovers
unheard_line = Recoveries.fails (pos daily) unrouted_line (1800 * second)

abbrev last_line : Line
unfolding Recoveries.fails Recoveries.recovers
last_line = Recoveries.recovers unheard_line (1900 * second)

last_line-Reach : Recoveries.Reach true false last_line
unfolding Recoveries.fails Recoveries.recovers
last_line-Reach =
    let r1 =
      Recoveries.more Recoveries.here
        (Recoveries.failure (new_line true false) (pos daily) (1000 * second) (omega arith)) in
    let r2 =
      Recoveries.more r1 (Recoveries.recovery told_line (1300 * second) (omega arith) refl) in
    let r3 =
      Recoveries.more r2
        (Recoveries.failure mended_line (pos daily) (1600 * second) (omega arith)) in
    let r4 =
      Recoveries.more r3 (Recoveries.recovery held_line (1700 * second) (omega arith) refl) in
    let r5 =
      Recoveries.more r4
        (Recoveries.reroute (Recoveries.recovers held_line (1700 * second)) false) in
    let r6 =
      Recoveries.more r5
        (Recoveries.failure unrouted_line (pos daily) (1800 * second) (omega arith)) in
    Recoveries.more r6 (Recoveries.recovery unheard_line (1900 * second) (omega arith) refl)

-- The first recovery is sent, the second not, the third again.
last_line-recoveries : last_line.recoveries ≡ (true, true) ∷ (false, false) ∷ (true, true) ∷ []
unfolding Recoveries.fails Recoveries.recovers pace_failure pace_recovery
last_line-recoveries = refl

Reach-recoveries_example : Recoveries.Matched last_line.recoveries
Reach-recoveries_example = Reach-recoveries last_line-Reach

Reach-polls_announce_example : (polls (pos daily) second_streak (5000 * second)).announced ≡ true
unfolding fails recovers pace_failure
Reach-polls_announce_example =
    Reach-polls_announce (5000 * second) second_streak-Reach refl (omega arith)

-- Thirty-two digits and four separators.
abbrev run_id : Text
run_id =
    65 ∷ 65 ∷ 65 ∷ 65 ∷ 65 ∷ 65 ∷ 65 ∷ 65 ∷ 45 ∷ 65 ∷ 65 ∷ 65 ∷ 65 ∷ 45 ∷ 65 ∷ 65 ∷ 65 ∷ 65 ∷ 45
    ∷ 65 ∷ 65 ∷ 65 ∷ 65 ∷ 45 ∷ 65 ∷ 65 ∷ 65 ∷ 65 ∷ 65 ∷ 65 ∷ 65 ∷ 65 ∷ 65 ∷ 65 ∷ 65 ∷ 65 ∷ []

abbrev lower_run_id : Text
unfolding to_lower
lower_run_id = to_lower run_id

canonical_uuid-exact_example :
    (canonical_uuid run_id ≡ some lower_run_id)
    ↔ ((length run_id ≡ 36) × IsCanon 0 run_id lower_run_id)
canonical_uuid-exact_example = canonical_uuid-exact run_id lower_run_id

-- "ab\ncd\n" to one line.
abbrev printed : Text
printed = 97 ∷ 98 ∷ 10 ∷ 99 ∷ 100 ∷ 10 ∷ []
