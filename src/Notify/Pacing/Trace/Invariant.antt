-- ===== src/Notify/Pacing/Trace/Invariant.antt =====
-- What holds of a channel and a job at all times, and what follows for the alerts.
use tend.Prelude.{
  ℕ, ◌+◌, ◌≤◌, ◌<◌, ◌≡◌, ◌⊎◌, inl, inr, refl, subst, ◌∙◌, Bool, true, false, List, [], ◌∷◌, arith,
  min, if◌then◌else◌, ◌&&◌, Bool-cases,
}
use tend.Prelude.Int.{pos}
use tend.Clock.{Time, Duration, hour}
use tend.Notify.Pacing.{AlertState, no_state, told, pace_failure, release_due, released}
use tend.Notify.Pacing.Laws.{
  gap, pace_failure-gap, release_due-gap, release_due-held, release_due-by_hold,
  pace_failure-outcome,
}
use tend.Notify.Pacing.Trace.{
  World, start, fails, polls, recovers, Step, failure, poll, recovery, Reach, here, more, Spaced,
}

abbrev LastSent : List Time → Bool → AlertState → Type 0
LastSent [] known st = (st ≡ no_state) × (known ≡ false)
LastSent (t ∷ ts) known st = (st.last_sent_at ≡ t) × (known ≡ true) × (0 < t)

pub record Inv (repeat : Duration) (w : World) : Type 0 where
  pub last : LastSent w.sends w.known w.state
  pub spaced : Spaced (gap repeat) w.sends
  pub past : w.state.last_sent_at ≤ w.now
  pub idle : w.failing ≡ false → w.state.held ≡ false
  pub streak : w.failing ≡ true → (0 < w.since) × (w.since ≤ w.now) × (w.known ≡ true)
  pub news : w.failing ≡ true → told w.state w.since ≡ w.announced
  pub waits : w.failing ≡ true → w.announced ≡ false → w.state.held ≡ true

Spaced-cons :
    (g : ℕ) (known : Bool) (st : AlertState) (sends : List Time) (t : Time)
    → LastSent sends known st
    → Spaced g sends
    → (known ≡ true → st.last_sent_at + g ≤ t)
    → Spaced g (t ∷ sends)
Spaced-cons g known st [] t l s h = tt
Spaced-cons g known st (u ∷ ts) t l s h = ground (arith, h l.1)

LastSent-known :
    (sends : List Time) (st next : AlertState) (known : Bool)
    → LastSent sends known st
    → known ≡ true
    → next.last_sent_at ≡ st.last_sent_at
    → LastSent sends true next
LastSent-known [] st next known l k e = cc
LastSent-known (t ∷ ts) st next known l k e = ground arith

told-last :
    (st next : AlertState) (since : Time)
    → st.last_sent_at ≡ next.last_sent_at
    → told st since ≡ told next since
unfolding told
told-last st next since e = rw e

abbrev since_at : World → Time → Time
since_at w t = if w.failing then w.since else t

since_at-bounds :
    (repeat : Duration) (w : World) (t : Time)
    → w.now < t
    → Inv repeat w
    → (0 < since_at w t) × (since_at w t ≤ t)
since_at-bounds repeat w t lt v = ground (arith, v.streak)

-- A streak that begins now is news to every channel.
told-since_at :
    (repeat : Duration) (w : World) (t : Time)
    → w.now < t
    → Inv repeat w
    → told w.state (since_at w t) ≡ (w.failing && w.announced)
unfolding told
told-since_at repeat w t lt v = ground (arith, v.news, v.past)

abbrev paced : Duration → World → Time → Bool × AlertState
paced repeat w t = pace_failure w.state w.known t (since_at w t) repeat

sent-Inv :
    (repeat : Duration) (w : World) (t : Time)
    → w.now < t
    → Inv repeat w
    → (paced repeat w t).0 ≡ true
    → (paced repeat w t).1 ≡ released t
    → Inv repeat (fails repeat w t)
unfolding fails released told
sent-Inv repeat w t lt v s e =
    let b = since_at-bounds repeat w t lt v in
    rw (s, e)
      (record {
        last = (refl, refl, omega arith);
        spaced = Spaced-cons (gap repeat) w.known w.state w.sends t v.last v.spaced (λ k.
            pace_failure-gap w.state t (since_at w t) repeat (omega arith)
              (subst (λ x. (pace_failure w.state x t (since_at w t) repeat).0 ≡ true) k s));
        past = omega arith;
        idle = λ f. refl;
        streak = λ f. (b.0, b.1, refl);
        news = λ f. ground arith;
        waits = λ f a. cc;
      })

kept-Inv :
    (repeat : Duration) (w : World) (t : Time)
    → w.now < t
    → Inv repeat w
    → (paced repeat w t).0 ≡ false
    → w.known ≡ true
    → (paced repeat w t).1.last_sent_at ≡ w.state.last_sent_at
    → ((told w.state (since_at w t) ≡ true) × ((paced repeat w t).1.held ≡ false))
      ⊎ ((told w.state (since_at w t) ≡ false) × ((paced repeat w t).1.held ≡ true))
    → Inv repeat (fails repeat w t)
unfolding fails
kept-Inv repeat w t lt v s k l h =
    let b = since_at-bounds repeat w t lt v in
    let same = told-last (paced repeat w t).1 w.state (since_at w t) l in
    let fresh = told-since_at repeat w t lt v in
    rw s (record {
      last = LastSent-known w.sends w.state (paced repeat w t).1 w.known v.last k l;
      spaced = v.spaced;
      past = omega arith;
      idle = λ f. cc;
      streak = λ f. (b.0, b.1, refl);
      news = λ f. same ∙ fresh;
      waits = λ f a. ground arith;
    })

fails-Inv :
    (repeat : Duration) (w : World) (t : Time)
    → w.now < t
    → Inv repeat w
    → Inv repeat (fails repeat w t)
unfolding released
fails-Inv repeat w t lt v = elim (pace_failure-outcome w.state w.known t (since_at w t) repeat) [
  | inl (s, e) ↦ sent-Inv repeat w t lt v s e
  | inr (s, k, l, h) ↦ kept-Inv repeat w t lt v s k l h
]

held-failing :
    (repeat : Duration) (w : World) → Inv repeat w → w.state.held ≡ true → w.failing ≡ true
held-failing repeat w v h = ground (arith, v.idle)

polls-Inv :
    (repeat : Duration) (w : World) (t : Time)
    → w.now < t
    → Inv repeat w
    → Inv repeat (polls repeat w t)
unfolding polls told
polls-Inv repeat w t lt v = elim (Bool-cases (release_due w.state t repeat)) [
  | inl due ↦
      let failing = held-failing repeat w v (release_due-held w.state t repeat due) in
      let streak = v.streak failing in
      rw due (record {
        last = (refl, streak.2, omega arith);
        spaced =
            Spaced-cons (gap repeat) w.known w.state w.sends t v.last v.spaced
              (λ k. release_due-gap w.state t repeat (omega arith) due);
        past = omega arith;
        idle = λ f. refl;
        streak = λ f. (streak.0, omega arith, streak.2);
        news = λ f. ground arith;
        waits = λ f a. cc;
      })
  | inr not_due ↦ rw not_due (record {
    last = v.last;
    spaced = v.spaced;
    past = omega arith;
    idle = v.idle;
    streak = λ f. ground (arith, v.streak f);
    news = v.news;
    waits = v.waits;
  })
]

recovers-Inv :
    (repeat : Duration) (w : World) (t : Time)
    → w.now < t
    → w.failing ≡ true
    → Inv repeat w
    → Inv repeat (recovers w t)
unfolding recovers
recovers-Inv repeat w t lt f v = ground (arith, v.streak f, v.news f)

start-Inv : (repeat : Duration) → Inv repeat start
start-Inv repeat = ground arith

Step-Inv : {repeat : Duration} {v w : World} → Step repeat v w → Inv repeat v → Inv repeat w
Step-Inv {repeat} (failure w t lt) i = fails-Inv repeat w t lt i
Step-Inv {repeat} (poll w t lt) i = polls-Inv repeat w t lt i
Step-Inv {repeat} (recovery w t lt f) i = recovers-Inv repeat w t lt f i

pub Reach-Inv : {repeat : Duration} {w : World} → Reach repeat w → Inv repeat w
Reach-Inv {repeat} here = start-Inv repeat
Reach-Inv (more r s) = Step-Inv s (Reach-Inv r)

-- However the job fails, recovers and is polled for, two failure alerts to one channel are at
-- least the hold (the interval, at most an hour) less its slack apart.
pub Reach-Spaced : {repeat : Duration} {w : World} → Reach repeat w → Spaced (gap repeat) w.sends
Reach-Spaced r = (Reach-Inv r).spaced

-- While a job is failing, a poll at or after the end of the hold that the last alert to the channel
-- began leaves the streak announced to it, whether it was before or not.
pub Reach-polls_announce :
    {r : ℕ} {w : World} (t : Time)
    → Reach (pos r) w
    → w.failing ≡ true
    → w.state.last_sent_at + min r hour ≤ t
    → (polls (pos r) w t).announced ≡ true
unfolding polls
Reach-polls_announce {r} {w} t reach f late = elim (Bool-cases w.announced) [
  | inl a ↦ ground arith
  | inr a ↦ rw (release_due-by_hold w.state t r ((Reach-Inv reach).waits f a) late)
]
