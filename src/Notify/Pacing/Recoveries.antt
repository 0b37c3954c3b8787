-- ===== src/Notify/Pacing/Recoveries.antt =====
-- Who hears that a job recovered: one channel and one job over time, as internal/store/pacing.go
-- applies internal/notify/pacing.go to them, while the rules come and go that route the job's failures
-- to the channel. A rule that routes its recoveries there stays; the interval may be another each time.
use tend.Prelude.{
  ◌≤◌, ◌<◌, ◌≡◌, inl, inr, refl, ◌∙◌, Bool, true, false, not, ◌&&◌, ◌||◌, List, [], ◌∷◌, arith,
  if◌then◌else◌, Bool-cases,
}
use tend.Clock.{Time, Duration, zero_time, is_zero}
use tend.Notify.Pacing.{
  AlertState, no_state, told, pace_failure, pace_recovery, release_due, released,
}
use tend.Store.Pacing.{recovery_goes}
use tend.Notify.Pacing.Laws.{pace_failure-outcome, release_due-held}

-- `routed` says whether a rule routes the job's failures to the channel, `known` whether a state is
-- kept of them, and `announced` whether one of the current streak was sent; a job that has been failing
-- since before streaks were kept has the zero time in `since`. `recoveries` says of each streak that
-- ended, newest first, whether its recovery was sent and whether it was due.
pub record Line : Type 0 where
  pub now : Time
  pub routed : Bool
  pub failing : Bool
  pub since : Time
  pub known : Bool
  pub state : AlertState
  pub announced : Bool
  pub recoveries : List (Bool × Bool)

abbrev pub since_at : Line → Time → Time
since_at l t = if l.failing && not (is_zero l.since) then l.since else t

-- A run.failed at `t`, with the interval of its rules.
unfoldable pub fails : Duration → Line → Time → Line
fails repeat l t =
    let (send, next) = pace_failure l.state l.known t (since_at l t) repeat in
    if l.routed
    then record l {
      now = t;
      failing = true;
      since = since_at l t;
      known = true;
      state = next;
      announced = if send then true else (l.failing && l.announced);
    }
    else record l {
      now = t;
      failing = true;
      since = since_at l t;
      announced = l.failing && l.announced;
    }

-- A poll: a held failure is forgotten if it is not routed any more, and sent if its hold has ended.
unfoldable pub polls : Duration → Line → Time → Line
unfolding released
polls repeat l t =
    if not l.routed
    then record l { now = t; state = record l.state { held = false } }
    else if release_due l.state t repeat
    then record l { now = t; state = released t; announced = true }
    else record l { now = t }

-- Whether a recovery is sent, as the store has it, and whether it is due: to a channel that failures are
-- not routed to, or of which no state is kept, always, and otherwise if one of the streak was sent.
abbrev pub sent : Line → Bool
sent l = recovery_goes l.routed l.state l.known l.since

abbrev pub due : Line → Bool
due l = not l.routed || not l.known || l.announced

unfoldable pub recovers : Line → Time → Line
recovers l t = record l {
  now = t;
  failing = false;
  since = zero_time;
  state = record l.state { held = false };
  announced = false;
  recoveries = (sent l, due l) ∷ l.recoveries;
}

abbrev pub rerouted : Bool → Line → Line
rerouted r l = record l { routed = r }

-- A channel that is new, and a job that is failing, since before it was kept, or not.
abbrev pub new_line : Bool → Bool → Line
new_line routed failing = record {
  now = zero_time;
  routed = routed;
  failing = failing;
  since = zero_time;
  known = false;
  state = no_state;
  announced = false;
  recoveries = [];
}

pub data Step : Line → Line → Type 0 where
  failure : (l : Line) (repeat : Duration) (t : Time) → l.now < t → Step l (fails repeat l t)
  poll : (l : Line) (repeat : Duration) (t : Time) → l.now < t → Step l (polls repeat l t)
  recovery : (l : Line) (t : Time) → l.now < t → l.failing ≡ true → Step l (recovers l t)
  reroute : (l : Line) (r : Bool) → Step l (rerouted r l)

pub data Reach (routed failing : Bool) : Line → Type 0 where
  here : Reach routed failing (new_line routed failing)
  more : {l m : Line} → Reach routed failing l → Step l m → Reach routed failing m

-- Each recovery was sent exactly if it was due.
abbrev pub Matched : List (Bool × Bool) → Type 0
Matched [] = Unit
Matched ((s, d) ∷ rs) = (s ≡ d) × Matched rs

record Inv (l : Line) : Type 0 where
  past : l.state.last_sent_at ≤ l.now
  held : l.state.held ≡ true → (l.failing ≡ true) × (l.known ≡ true)
  old : l.since ≤ l.now
  unknown : l.failing ≡ true → l.since ≡ zero_time → (l.known ≡ false) × (l.announced ≡ false)
  news : l.failing ≡ true → l.known ≡ true → told l.state l.since ≡ l.announced
  quiet : l.known ≡ false → l.announced ≡ false
  matched : Matched l.recoveries

told-same :
    (st next : AlertState) (since : Time)
    → next.last_sent_at ≡ st.last_sent_at
    → told next since ≡ told st since
unfolding told
told-same st next since e = rw e refl

told-at : (t since : Time) → 0 < since → since ≤ t → told (released t) since ≡ true
unfolding told released
told-at t since b h = ground arith

-- The streak of a failure at `t`, and what the channel was told of it before.
since_at-told :
    (l : Line) (t : Time)
    → l.now < t
    → Inv l
    → (0 < since_at l t)
      × (since_at l t ≤ t)
      × (l.known ≡ true → told l.state (since_at l t) ≡ (l.failing && l.announced))
unfolding told
since_at-told l t lt v =
    let past = v.past in
    let old = v.old in (ground arith, ground arith, λ k. ground (arith, v.news, v.unknown))

fails-Inv : (repeat : Duration) (l : Line) (t : Time) → l.now < t → Inv l → Inv (fails repeat l t)
unfolding fails released
fails-Inv repeat l t lt v =
    let (began, before, heard) = since_at-told l t lt v in
    let since = since_at l t in
    let st = l.state in
    let next = (pace_failure st l.known t since repeat).1 in
    let past = v.past in
    elim (Bool-cases l.routed) [
      | inr n ↦ rw n (record {
        past = omega (arith, past, lt);
        held = λ h. (refl, (v.held h).1);
        old = before;
        unknown = λ f z. absurd (omega (arith, began, z));
        news = λ f k. heard k;
        quiet = λ k. ground (arith, v.quiet k);
        matched = v.matched;
      })
      | inl y ↦ elim (pace_failure-outcome st l.known t since repeat) [
        | inl (s, e) ↦
            rw (y, s, e)
              (record {
                past = omega arith;
                held = λ h. cc;
                old = before;
                unknown = λ f z. absurd (omega (arith, began, z));
                news = λ f k. told-at t since began before;
                quiet = λ k. cc;
                matched = v.matched;
              })
        | inr (s, k, e, h) ↦
            rw (y, s)
              (record {
                past = omega (arith, past, e, lt);
                held = λ h. (refl, refl);
                old = before;
                unknown = λ f z. absurd (omega (arith, began, z));
                news = λ f g. told-same st next since e ∙ heard k;
                quiet = λ g. cc;
                matched = v.matched;
              })
      ]
    ]

polls-Inv : (repeat : Duration) (l : Line) (t : Time) → l.now < t → Inv l → Inv (polls repeat l t)
unfolding polls released
polls-Inv repeat l t lt v =
    let past = v.past in
    let old = v.old in
    elim (Bool-cases l.routed) [
      | inr n ↦ rw n (record {
        past = omega (arith, past, lt);
        held = λ h. cc;
        old = omega (arith, old, lt);
        unknown = v.unknown;
        news = λ f k. told-same l.state _ l.since refl ∙ v.news f k;
        quiet = v.quiet;
        matched = v.matched;
      })
      | inl y ↦ elim (Bool-cases (release_due l.state t repeat)) [
        | inr n ↦
            rw (y, n)
              (record {
                past = omega (arith, past, lt);
                held = v.held;
                old = omega (arith, old, lt);
                unknown = v.unknown;
                news = v.news;
                quiet = v.quiet;
                matched = v.matched;
              })
        | inl r ↦
            let (f, k) = v.held (release_due-held l.state t repeat r) in
            let began : 0 < l.since = ground (arith, v.unknown) in
            rw (y, r)
              (record {
                past = omega arith;
                held = λ h. cc;
                old = omega (arith, old, lt);
                unknown = λ g z. absurd (omega (arith, began, z));
                news = λ g q. told-at t l.since began (omega (arith, old, lt));
                quiet = λ q. cc;
                matched = v.matched;
              })
      ]
    ]

sent-due : (l : Line) → l.failing ≡ true → Inv l → sent l ≡ due l
unfolding pace_recovery
sent-due l f v = elim (Bool-cases l.known) [
  | inr n ↦ rw n (ground arith)
  | inl k ↦
      let heard = v.news f k in
      let began : is_zero l.since ≡ false = ground (arith, v.unknown) in
      rw (k, began, heard) (ground arith)
]

recovers-Inv : (l : Line) (t : Time) → l.now < t → l.failing ≡ true → Inv l → Inv (recovers l t)
unfolding recovers pace_recovery
recovers-Inv l t lt f v =
    let past = v.past in
    record {
      past = omega (arith, past, lt);
      held = λ h. cc;
      old = omega arith;
      unknown = λ g z. cc;
      news = λ g k. cc;
      quiet = λ k. refl;
      matched = (sent-due l f v, v.matched);
    }

rerouted-Inv : (r : Bool) (l : Line) → Inv l → Inv (rerouted r l)
rerouted-Inv r l v = record {
  past = v.past;
  held = v.held;
  old = v.old;
  unknown = v.unknown;
  news = v.news;
  quiet = v.quiet;
  matched = v.matched;
}

Step-Inv : {l m : Line} → Step l m → Inv l → Inv m
Step-Inv (failure l repeat t lt) v = fails-Inv repeat l t lt v
Step-Inv (poll l repeat t lt) v = polls-Inv repeat l t lt v
Step-Inv (recovery l t lt f) v = recovers-Inv l t lt f v
Step-Inv (reroute l r) v = rerouted-Inv r l v

Reach-Inv : {r f : Bool} {l : Line} → Reach r f l → Inv l
Reach-Inv {r} {f} here = record {
  past = omega arith;
  held = λ h. cc;
  old = omega arith;
  unknown = λ g z. (refl, refl);
  news = λ g k. cc;
  quiet = λ k. refl;
  matched = tt;
}
Reach-Inv (more r s) = Step-Inv s (Reach-Inv r)

-- However a job fails, recovers and is polled for, and rules come and go that route its failures to a
-- channel that is routed its recoveries, a run.recovered is sent to the channel exactly if it is not
-- routed the failures then, or no state is kept of one, or a failure of the streak that it ends went
-- there; from a channel of which nothing is kept, whether the job has been failing, since before that
-- was kept, or not.
pub Reach-recoveries : {r f : Bool} {l : Line} → Reach r f l → Matched l.recoveries
Reach-recoveries r = (Reach-Inv r).matched
