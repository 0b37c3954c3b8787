-- ===== src/Jobs/Schedule.antt =====
-- internal/jobs/schedule.go. Parsing a cron expression and finding its next time is robfig/cron's,
-- a parameter here: none for an expression that it refuses, and the zero time for no next time.
use Prim.Native.String.{String}
use text.Mathlib.Text.{◌==◌ as str_eq}
use tend.Prelude.{
  ℕ, ◌-◌, ◌*◌, ◌≤◌, ◌<◌, ◌≡◌, ◌⊎◌, inl, inr, Bool, true, false, not, Option, none, some, arith,
  if◌then◌else◌, Bool-cases,
}
use tend.Prelude.Int.{pos, negsuc, ltb_ℤ, pos_part, two63, two64}
use tend.Clock.{
  Time, zero_time, is_zero, after, add, second, seconds, seconds-pos, seconds-overflow,
}
use tend.Jobs.{Job}

-- The interval in nanoseconds fits a duration.
abbrev pub Fits : Job → Type 0
Fits j = (n : ℕ) → j.interval_seconds ≡ pos n → n * second < two63

module _ (cron_next : String → Time → Option Time) where
  -- ValidateCron.
  unfoldable pub validate_cron : String → Bool
  validate_cron expr = elim (cron_next expr zero_time) [ none ↦ false | some t ↦ true ]

  -- NextRun: none for an error, and the zero time for never again.
  unfoldable pub next_run : Job → Time → Option Time
  next_run j now =
      if not (str_eq j.cron "")
      then cron_next j.cron now
      else if ltb_ℤ (pos 0) j.interval_seconds
      then some (add now (seconds j.interval_seconds))
      else if not (is_zero j.run_at)
      then some (if after j.run_at now then j.run_at else zero_time)
      else none

  -- What the code relies on of the cron library: a next time comes after the time given.
  abbrev pub Later : Type 0
  Later = (expr : String) (now t : Time) → cron_next expr now ≡ some t → (t ≡ zero_time) ⊎ (now < t)

  next_interval :
      (j : Job) (now t : Time)
      → Fits j
      → str_eq j.cron "" ≡ true
      → ltb_ℤ (pos 0) j.interval_seconds ≡ true
      → next_run j now ≡ some t
      → now < t
  unfolding next_run
  next_interval j now t f c i h =
      let n = pos_part j.interval_seconds in
      let e : j.interval_seconds ≡ pos n = ground arith in
      let exact : seconds j.interval_seconds ≡ pos (n * second) = rw e (seconds-pos n (f n e)) in
      ground arith

  -- The next time of a job, if any, is after the one given, or never.
  pub next_run-later :
      Later
      → (j : Job) (now t : Time) → Fits j
      → next_run j now ≡ some t
      → (t ≡ zero_time) ⊎ (now < t)
  unfolding next_run
  next_run-later later j now t f h = elim (Bool-cases (str_eq j.cron "")) [
    | inr c ↦ later j.cron now t (ground arith)
    | inl c ↦ elim (Bool-cases (ltb_ℤ (pos 0) j.interval_seconds)) [
      | inl i ↦ inr (next_interval j now t f c i h)
      | inr i ↦ ground arith
    ]
  ]

  -- An interval between 2^63 and 2^64 nanoseconds wraps around: the next time is not after the one
  -- given.
  pub next_run-overflow :
      (j : Job) (now t : Time) (n : ℕ)
      → str_eq j.cron "" ≡ true
      → j.interval_seconds ≡ pos n
      → two63 ≤ n * second
      → n * second < two64
      → next_run j now ≡ some t
      → t ≤ now
  unfolding next_run
  next_run-overflow j now t n c e lo hi h =
      let wrapped : seconds j.interval_seconds ≡ negsuc (two64 - 1 - n * second) =
        rw e (seconds-overflow n lo hi) in
      ground arith
