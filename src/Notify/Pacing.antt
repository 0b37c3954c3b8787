-- ===== src/Notify/Pacing.antt =====
-- internal/notify/pacing.go: how often a channel hears that a job is failing.
pub mod Laws
pub mod Trace
pub mod Recoveries
use tend.Prelude.{ℕ, ◌*◌, Option, none, some, Bool, true, false, not, ◌&&◌, ◌||◌, if◌then◌else◌}
use tend.Prelude.Int.{ℤ, pos, ◌/ℤ◌, min_ℤ, leb_ℤ}
use tend.Clock.{Time, Duration, zero_time, is_zero, before, add, add_neg, minute, hour}

-- kit's notify.ChannelType, as channel.go lists it.
pub data ChannelType : Type 0 where
  webhook slack_chat discord smtp telegram ntfy pushover : ChannelType

abbrev pub default_repeat : Duration
default_repeat = pos hour

unfoldable pub effective_repeat : ChannelType → Option Duration → Duration
effective_repeat kind (some repeat) = repeat
effective_repeat webhook none = pos 0
effective_repeat _ none = default_repeat

pub record AlertState : Type 0 where
  pub last_sent_at : Time
  pub held : Bool

abbrev pub no_state : AlertState
no_state = record { last_sent_at = zero_time; held = false }

abbrev pub sent_at : Time → AlertState
sent_at t = record { last_sent_at = t; held = false }

unfoldable pub told : AlertState → Time → Bool
told st since = not (is_zero st.last_sent_at) && not (before st.last_sent_at since)

unfoldable pub flap_hold : Duration → Duration
flap_hold repeat = min_ℤ repeat default_repeat

unfoldable pub slack : Duration → Duration
unfolding ◌/ℤ◌
slack repeat = min_ℤ (repeat /ℤ 10) (pos minute)

unfoldable pub reached : Time → Time → Duration → Bool
reached at mark repeat = not (before at (add_neg mark (slack repeat)))

unfoldable pub pace_failure : AlertState → Bool → Time → Time → Duration → Bool × AlertState
unfolding told flap_hold slack reached
pace_failure st known at since repeat =
    if leb_ℤ repeat (pos 0)
    then (true, sent_at at)
    else if known && told st since
    then (if not (reached at (add st.last_sent_at repeat) repeat)
        then (false, record st { held = false })
        else (true, sent_at at))
    else if known && not (reached at (add st.last_sent_at (flap_hold repeat)) (flap_hold repeat))
    then (false, record st { held = true })
    else (true, sent_at at)

unfoldable pub pace_recovery : AlertState → Bool → Time → Bool
unfolding told
pace_recovery st known since = not known || is_zero since || told st since

unfoldable pub release_due : AlertState → Time → Duration → Bool
unfolding flap_hold slack reached
release_due st now repeat =
    st.held
    && (leb_ℤ repeat (pos 0)
        || reached now (add st.last_sent_at (flap_hold repeat)) (flap_hold repeat))

unfoldable pub released : Time → AlertState
released now = sent_at now
