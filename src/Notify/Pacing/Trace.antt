-- ===== src/Notify/Pacing/Trace.antt =====
-- A channel that is routed a job's failures, over time: failures, polls for held failures and
-- recoveries, as the store applies the pacing to them, and the failure alerts that the channel is sent.
pub mod Invariant
use tend.Prelude.{ℕ, ◌+◌, ◌≤◌, ◌<◌, ◌≡◌, Bool, true, false, List, [], ◌∷◌, if◌then◌else◌, ◌&&◌}
use tend.Clock.{Time, Duration, zero_time}
use tend.Notify.Pacing.{AlertState, no_state, pace_failure, pace_recovery, release_due, released}

-- `sends` are the times of the failure alerts that the channel was sent, newest first, and
-- `announced` says whether one of them was of the current streak.
pub record World : Type 0 where
  pub now : Time
  pub failing : Bool
  pub since : Time
  pub known : Bool
  pub state : AlertState
  pub sends : List Time
  pub announced : Bool

abbrev pub start : World
start = record {
  now = zero_time;
  failing = false;
  since = zero_time;
  known = false;
  state = no_state;
  sends = [];
  announced = false;
}

-- A run.failed at `t`: it begins a streak if the job was not failing.
unfoldable pub fails : Duration → World → Time → World
fails repeat w t =
    let since' = if w.failing then w.since else t in
    let (send, next) = pace_failure w.state w.known t since' repeat in
    record w {
      now = t;
      failing = true;
      since = since';
      known = true;
      state = next;
      sends = if send then t ∷ w.sends else w.sends;
      announced = if send then true else (w.failing && w.announced);
    }

-- A poll at `t`: a held failure whose hold has ended is sent.
unfoldable pub polls : Duration → World → Time → World
unfolding released
polls repeat w t =
    if release_due w.state t repeat
    then record w { now = t; state = released t; sends = t ∷ w.sends; announced = true }
    else record w { now = t }

-- A success of a failing job at `t`: the streak ends and what was held is forgotten.
unfoldable pub recovers : World → Time → World
recovers w t = record w {
  now = t;
  failing = false;
  state = record w.state { held = false };
  announced = false;
}

pub data Step (repeat : Duration) : World → World → Type 0 where
  failure : (w : World) (t : Time) → w.now < t → Step repeat w (fails repeat w t)
  poll : (w : World) (t : Time) → w.now < t → Step repeat w (polls repeat w t)
  recovery : (w : World) (t : Time) → w.now < t → w.failing ≡ true → Step repeat w (recovers w t)

pub data Reach (repeat : Duration) : World → Type 0 where
  here : Reach repeat start
  more : {v w : World} → Reach repeat v → Step repeat v w → Reach repeat w

-- Each alert comes at least `g` after the one before it.
abbrev pub Spaced : ℕ → List Time → Type 0
Spaced g [] = Unit
Spaced g (t ∷ []) = Unit
Spaced g (t ∷ u ∷ ts) = (u + g ≤ t) × Spaced g (u ∷ ts)
