-- ===== src/Heartbeat/Deadline.antt =====
-- When a heartbeat is due: its deadline against the schedule it was given.
use tend.Prelude.{ℕ, zero, suc, ◌+◌, ◌*◌, ◌<◌, ◌≡◌, ◌≢◌, ◌↔◌, true, false, arith, min}
use tend.Prelude.Int.{pos, ◌+ℤ◌, int64-pos, two63}
use tend.Clock.{second, seconds-pos}
use tend.Heartbeat.{Heartbeat, down, deadline, run_grace, regular_deadline, anchor}

-- The schedule of a heartbeat in seconds, small enough for its sum to fit a duration (292 years).
pub record Schedule (h : Heartbeat) (period grace : ℕ) : Type 0 where
  pub period_is : h.period_seconds ≡ pos period
  pub grace_is : h.grace_seconds ≡ pos grace
  pub period_positive : 0 < period
  pub fits : (period + grace) * second < two63

regular_deadline-Schedule :
    (h : Heartbeat) (p g : ℕ) → Schedule h p g → regular_deadline h ≡ anchor h + (p + g) * second
unfolding regular_deadline ◌+ℤ◌
regular_deadline-Schedule h p g s = ground (
  arith,
  seconds-pos p,
  seconds-pos g,
  int64-pos (p * second + g * second),
  s.period_is,
  s.grace_is,
)

-- The grace, or the period where there is none.
abbrev pub if_zero : ℕ → ℕ → ℕ
if_zero zero p = p
if_zero (suc g) p = suc g

pub run_grace-Schedule :
    (h : Heartbeat) (p g : ℕ) → Schedule h p g → run_grace h ≡ pos (if_zero g p * second)
unfolding run_grace
run_grace-Schedule h p zero s = ground (arith, s.grace_is, s.period_is, seconds-pos p)
run_grace-Schedule h p (suc g) s = ground (arith, s.grace_is, seconds-pos (suc g))

-- Of a watched heartbeat with a schedule: with no run started the deadline is period + grace after
-- the last ping (the creation, if it never pinged); a started run brings it forward to its own
-- limit after the start (the grace, or the period where the grace is 0) if that is earlier, and
-- only then is the deadline said to be the run's.
pub deadline-Schedule :
    (h : Heartbeat) (p g : ℕ)
    → Schedule h p g
    → h.status ≢ down
    → 0 < anchor h
    → let regular = anchor h + (p + g) * second in
      let run = h.started_at + if_zero g p * second in
      (h.started_at ≡ 0
        → deadline h ≡ record { deadline = regular; overran = false; watched = true })
      × (0 < h.started_at
          → ((deadline h).deadline ≡ min regular run)
            × (((deadline h).overran ≡ true) ↔ (run < regular)))
unfolding deadline
deadline-Schedule h p g s nd a =
    let period = s.period_is in
    let regular = regular_deadline-Schedule h p g s in
    let run = run_grace-Schedule h p g s in
    (λ z. ground arith, λ z. (ground arith, (λ o. ground arith, λ o. ground arith)))
