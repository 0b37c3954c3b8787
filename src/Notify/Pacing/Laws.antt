-- ===== src/Notify/Pacing/Laws.antt =====
-- One decision of the pacing at a time.
use tend.Prelude.{ℕ, ◌+◌, ◌-◌, ◌/◌, ◌≤◌, ◌<◌, ◌≡◌, ◌⊎◌, ◌↔◌, Bool, true, false, arith, min}
use tend.Prelude.Int.{pos, negsuc}
use tend.Clock.{Time, Duration, minute, hour}
use tend.Notify.Pacing.{AlertState, told, pace_failure, release_due}

-- An interval less its slack: a minute, or a tenth of an interval shorter than ten minutes.
abbrev pub less_slack : ℕ → ℕ
less_slack r = r - min (r / 10) minute

-- How far two alerts are apart at least: the hold (the interval, at most an hour) less its slack.
-- An interval that is not positive holds nothing.
abbrev pub gap : Duration → ℕ
gap (pos r) = less_slack (min r hour)
gap (negsuc r) = 0

-- What the pacing decides: the alert goes out and the state says so, or the channel was sent one
-- before and the alert does not go out, held if the channel was not told of the streak.
pub pace_failure-outcome :
    (st : AlertState) (known : Bool) (at since : Time) (repeat : Duration)
    → let (send, next) = pace_failure st known at since repeat in
      ((send ≡ true) × (next ≡ record { last_sent_at = at; held = false }))
      ⊎ ((send ≡ false)
          × (known ≡ true)
          × (next.last_sent_at ≡ st.last_sent_at)
          × (((told st since ≡ true) × (next.held ≡ false))
              ⊎ ((told st since ≡ false) × (next.held ≡ true))))
unfolding pace_failure
pace_failure-outcome st known at since (pos r) = ground arith
pace_failure-outcome st known at since (negsuc r) = ground arith

-- A failure that is sent to a channel which was sent one before comes at least the hold less its
-- slack after that one, if it does not come before it.
pub pace_failure-gap :
    (st : AlertState) (at since : Time) (repeat : Duration)
    → st.last_sent_at ≤ at
    → (pace_failure st true at since repeat).0 ≡ true
    → st.last_sent_at + gap repeat ≤ at
unfolding pace_failure
pace_failure-gap st at since (pos r) o h = ground arith
pace_failure-gap st at since (negsuc r) o h = omega arith

-- A reminder, a failure sent to a channel that was already sent one of the streak, comes at least
-- the interval less its slack after the last alert; and a failure that late is sent.
pub pace_failure-reminder :
    (st : AlertState) (at since : Time) (r : ℕ)
    → 0 < r
    → told st since ≡ true
    → ((pace_failure st true at since (pos r)).0 ≡ true) ↔ (st.last_sent_at + less_slack r ≤ at)
unfolding pace_failure
pace_failure-reminder st at since r p t = (λ h. ground arith, λ h. ground arith)

-- A held failure is due no later than the hold after the channel's last alert.
pub release_due-by_hold :
    (st : AlertState) (now : Time) (r : ℕ)
    → st.held ≡ true
    → st.last_sent_at + min r hour ≤ now
    → release_due st now (pos r) ≡ true
unfolding release_due
release_due-by_hold st now r h o = ground arith

-- And no earlier than the hold less its slack.
pub release_due-gap :
    (st : AlertState) (now : Time) (repeat : Duration)
    → st.last_sent_at ≤ now
    → release_due st now repeat ≡ true
    → st.last_sent_at + gap repeat ≤ now
unfolding release_due
release_due-gap st now (pos r) o h = ground arith
release_due-gap st now (negsuc r) o h = omega arith

-- The slack applies to the hold as well: a failure that begins a new streak within the last slack
-- before the hold ends is sent, although less than the hold has passed since the last alert.
pub pace_failure-before_hold_ends :
    (st : AlertState) (at since : Time) (r : ℕ)
    → 0 < r
    → told st since ≡ false
    → st.last_sent_at + less_slack (min r hour) ≤ at
    → at < st.last_sent_at + min r hour
    → pace_failure st true at since (pos r) ≡ (true, record { last_sent_at = at; held = false })
unfolding pace_failure
pace_failure-before_hold_ends st at since r p t lo hi = ground arith

pub release_due-held :
    (st : AlertState) (now : Time) (repeat : Duration)
    → release_due st now repeat ≡ true
    → st.held ≡ true
unfolding release_due
release_due-held st now (pos r) h = ground arith
release_due-held st now (negsuc r) h = ground arith
