-- ===== src/Clock.antt =====
-- Go's `time.Time` and `time.Duration` (the standard library's), as far as the program uses them.
-- A time is its number of nanoseconds since Go's zero time (year 1), so 0 is the zero time, which
-- the code uses for "never". A duration is an int64 of nanoseconds. `Add` cannot leave the range
-- of a time here: a duration is at most 292 years, and a clock's times lie centuries after year 1.
use tend.Prelude.{ℕ, ◌+◌, ◌-◌, ◌*◌, ◌≤◌, ◌<◌, ◌≡◌, Bool, arith, ltb, ◌==◌}
use tend.Prelude.Int.{
  ℤ, pos, negsuc, pos_part, neg_part, ◌*ℤ◌, int64, int64-pos, int64-overflow, two63, two64,
}

abbrev pub Time : Type 0
Time = ℕ

abbrev pub Duration : Type 0
Duration = ℤ

abbrev pub zero_time : Time
zero_time = 0

abbrev pub is_zero : Time → Bool
is_zero t = t == 0

abbrev pub before : Time → Time → Bool
before t u = ltb t u

abbrev pub after : Time → Time → Bool
after t u = ltb u t

abbrev pub add : Time → Duration → Time
add t d = t + pos_part d - neg_part d

-- `u.Sub(t)` for a `t` that is not after `u`.
abbrev pub since : Time → Time → ℕ
since u t = u - t

-- Nanoseconds.
abbrev pub millisecond : ℕ
millisecond = 1000000

abbrev pub second : ℕ
second = 1000000000

abbrev pub minute : ℕ
minute = 60000000000

abbrev pub hour : ℕ
hour = 3600000000000

-- `time.Duration(n) * time.Second`, which wraps around.
unfoldable pub seconds : ℤ → Duration
seconds n = int64 (n *ℤ pos second)

pub seconds-pos : (n : ℕ) → n * second < two63 → seconds (pos n) ≡ pos (n * second)
unfolding seconds ◌*ℤ◌
seconds-pos n h = ground (arith, int64-pos (n * second))

pub seconds-overflow :
    (n : ℕ)
    → two63 ≤ n * second
    → n * second < two64
    → seconds (pos n) ≡ negsuc (two64 - 1 - n * second)
unfolding seconds ◌*ℤ◌
seconds-overflow n h k = ground (arith, int64-overflow (n * second))

-- `t.Add(-d)`.
abbrev pub add_neg : Time → Duration → Time
add_neg t d = t + neg_part d - pos_part d
