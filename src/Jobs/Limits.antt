-- ===== src/Jobs/Limits.antt =====
-- internal/jobs/executor.go: how long a run can take at most, and the reaper's window of runner.go
-- (ReapOnce). Durations here are not negative, so they are numbers of nanoseconds; `backoff` is the
-- executor's Backoff, or the default.
use tend.Prelude.{
  ℕ, zero, suc, ◌+◌, ◌-◌, ◌*◌, ◌≤◌, ◌<◌, ◌≡◌, ◌∙◌, ap, Bool, ◌||◌, arith, min, ltb, if◌then◌else◌,
  Bool-cases, inl, inr,
}
use tend.Prelude.Int.{ℤ, pos, negsuc, pos_part, sub_ℕ, ltb_ℤ, leb_ℤ, ◌+ℤ◌, int64, max_int64}
use tend.Clock.{Duration, second, minute, seconds, seconds-pos}
use tend.Jobs.{Job, JobType, drill}

abbrev pub default_timeout : ℕ
default_timeout = 30 * minute

abbrev pub kill_grace_delay : ℕ
kill_grace_delay = 5 * second

abbrev pub drill_cleanup_timeout : ℕ
drill_cleanup_timeout = minute

abbrev pub reap_slack : ℕ
reap_slack = 2 * minute

-- `seconds`, with `forever / time.Second` of 9223372036.
unfoldable pub saturated_seconds : ℤ → Duration
saturated_seconds n =
    if ltb_ℤ (pos 9223372036) n
    then pos max_int64
    else if ltb_ℤ n (negsuc 9223372035)
    then negsuc (max_int64 - 1)
    else seconds n

abbrev pub attempts_of : ℤ → ℕ
unfolding int64 ◌+ℤ◌
attempts_of retries =
    let attempts = int64 (retries +ℤ pos 1) in
    if ltb_ℤ attempts (pos 1) then 1 else pos_part attempts

abbrev pub timeout_of : ℤ → ℕ
unfolding saturated_seconds
timeout_of n =
    let timeout = saturated_seconds n in
    if leb_ℤ timeout (pos 0) then default_timeout else pos_part timeout

abbrev pub grace_of : JobType → ℕ
grace_of drill = kill_grace_delay + drill_cleanup_timeout + kill_grace_delay
grace_of _ = kill_grace_delay

-- The loop over the attempts after the first, of which `left` are left.
unfoldable pub add_attempts : (ℕ → ℤ) → ℕ → ℕ → ℕ → ℕ → ℕ
add_attempts backoff per zero attempt total = total
add_attempts backoff per (suc left) attempt total =
    let pause = pos_part (backoff attempt) in
    let rest = add_attempts backoff per left (suc attempt) (total + pause + per) in
    if ltb_ℤ (sub_ℕ max_int64 (pause + per)) (pos total) then max_int64 else rest

unfoldable pub max_run_duration : (ℕ → ℤ) → Job → ℕ
unfolding add_attempts
max_run_duration backoff j =
    let timeout = timeout_of j.timeout_seconds in
    let grace = grace_of j.job_type in
    if ltb (max_int64 - grace) timeout
    then max_int64
    else add_attempts backoff (timeout + grace) (attempts_of j.max_retries - 1) 1 (timeout + grace)

-- withinWindow of ReapOnce.
unfoldable pub within_window : ℕ → ℕ → Bool
within_window elapsed limit = ltb elapsed reap_slack || ltb (elapsed - reap_slack) limit

-- The time of the attempts and the pauses, with no bound.
unfoldable pub whole_time : (ℕ → ℤ) → ℕ → ℕ → ℕ → ℕ
whole_time backoff per zero attempt = 0
whole_time backoff per (suc left) attempt =
    pos_part (backoff attempt) + per + whole_time backoff per left (suc attempt)

add_attempts-min :
    (backoff : ℕ → ℤ) (per left attempt total : ℕ)
    → total ≤ max_int64
    → add_attempts backoff per left attempt total
      ≡ min max_int64 (total + whole_time backoff per left attempt)
unfolding add_attempts whole_time
add_attempts-min backoff per zero attempt total h = omega (arith, h)
add_attempts-min backoff per (suc left) attempt total h =
    let pause = pos_part (backoff attempt) in
    elim (Bool-cases (ltb_ℤ (sub_ℕ max_int64 (pause + per)) (pos total))) [
      | inl y ↦
          let over : max_int64 < total + pause + per = ground arith in rw y (omega (arith, over))
      | inr n ↦
          let fits : total + pause + per ≤ max_int64 = ground arith in
          rw n (
            add_attempts-min backoff per left (suc attempt) (total + pause + per) fits
            ∙ omega arith)
    ]

abbrev pub true_timeout : ℕ → ℕ
true_timeout zero = default_timeout
true_timeout (suc t) = suc t * second

attempts_of-pos : (r : ℕ) → r < max_int64 → attempts_of (pos r) ≡ suc r
unfolding int64 ◌+ℤ◌
attempts_of-pos r h = ground arith

-- The timeout of a job, as it is or more than any duration.
timeout_of-pos : (t : ℕ) → timeout_of (pos t) ≡ min max_int64 (true_timeout t)
unfolding saturated_seconds
timeout_of-pos zero = (let s = seconds-pos 0 in ground arith)
timeout_of-pos (suc t) = elim (Bool-cases (ltb 9223372036 (suc t))) [
  | inl y ↦ ground arith
  | inr n ↦ let fits = seconds-pos (suc t) (ground arith) in ground arith
]

-- The longest that a run can take, by the whole times of its attempts and of the pauses between
-- them, or the longest duration if that is more: nothing wraps around, whatever the timeout, the
-- number of retries and the pauses, where neither of the first two is negative and the retries are
-- fewer than the largest int64.
pub max_run_duration-saturates :
    (backoff : ℕ → ℤ) (j : Job) (t r : ℕ)
    → j.timeout_seconds ≡ pos t
    → j.max_retries ≡ pos r
    → r < max_int64
    → let attempt = true_timeout t + grace_of j.job_type in
      max_run_duration backoff j ≡ min max_int64 (attempt + whole_time backoff attempt r 1)
unfolding max_run_duration
max_run_duration-saturates backoff j t r et er lr =
    let attempts = attempts_of-pos r lr in
    let timeout = timeout_of-pos t in
    let grace = grace_of j.job_type in
    elim (Bool-cases (ltb (max_int64 - grace) (timeout_of (pos t)))) [
      | inl y ↦
          let over : max_int64 < true_timeout t + grace = ground arith in
          rw (et, y) (omega (arith, over))
      | inr n ↦
          let exact : timeout_of (pos t) ≡ true_timeout t = ground arith in
          let fits : true_timeout t + grace ≤ max_int64 = ground arith in
          let all =
            add_attempts-min backoff (true_timeout t + grace) r 1 (true_timeout t + grace) fits in
          let left : attempts_of (pos r) - 1 ≡ r = rw attempts (omega arith) in
          rw (et, er, n, exact, left) all
    ]

pub within_window-exact :
    (elapsed limit : ℕ) → within_window elapsed limit ≡ ltb elapsed (limit + reap_slack)
unfolding within_window
within_window-exact elapsed limit = ground arith

-- Of a run of such a job, the reaper leaves it alone exactly while less than that time and the slack
-- of two minutes has passed since it was started.
pub within_window-max_run_duration :
    (backoff : ℕ → ℤ) (j : Job) (t r elapsed : ℕ)
    → j.timeout_seconds ≡ pos t
    → j.max_retries ≡ pos r
    → r < max_int64
    → let attempt = true_timeout t + grace_of j.job_type in
      within_window elapsed (max_run_duration backoff j)
      ≡ ltb elapsed (min max_int64 (attempt + whole_time backoff attempt r 1) + reap_slack)
within_window-max_run_duration backoff j t r elapsed et er lr =
    within_window-exact elapsed (max_run_duration backoff j)
    ∙ ap (λ n. ltb elapsed (n + reap_slack)) (max_run_duration-saturates backoff j t r et er lr)
