-- ===== src/Jobs/Capture.antt =====
-- internal/jobs/capture.go, and trimPartialRune of internal/jobs/executor.go: the part of a step's
-- output that is shown, cut so that no secret is.
pub mod Buffer
pub mod Scan
pub mod Shell
pub mod Whole
use tend.Prelude.{
  ℕ, zero, suc, ◌+◌, ◌-◌, ◌*◌, Bool, true, false, not, ◌&&◌, ◌||◌, none, some, List, [], ◌∷◌, ltb,
  leb, ◌==◌, if◌then◌else◌, min, max, take, drop, length,
}
use tend.Core.Tail.{Text, rune_start, to_rune_start}
use tend.Runner.Redact.{index}

-- The number of bytes of the rune that begins with `b`, 1 if none does.
abbrev pub rune_size : ℕ → ℕ
rune_size b =
    if ltb b 194
    then 1
    else if ltb b 224
    then 2
    else if ltb b 240
    then 3
    else if ltb b 245
    then 4
    else 1

-- The least and the greatest byte that may follow it.
abbrev pub least_second : ℕ → ℕ
least_second b = if b == 224 then 160 else if b == 240 then 144 else 128

abbrev pub greatest_second : ℕ → ℕ
greatest_second b = if b == 237 then 159 else if b == 244 then 143 else 191

abbrev pub is_outside : ℕ → ℕ → ℕ → Bool
is_outside lo hi c = ltb c lo || ltb hi c

-- A byte that cannot come second, or third, makes what begins with `b` one wrong rune.
abbrev pub is_broken : ℕ → Text → Bool
is_broken b [] = false
is_broken b (c ∷ []) = is_outside (least_second b) (greatest_second b) c
is_broken b (c ∷ d ∷ p) = is_outside (least_second b) (greatest_second b) c || is_outside 128 191 d

-- `utf8.FullRune`.
unfoldable pub full_rune : Text → Bool
full_rune [] = false
full_rune (b ∷ p) = leb (rune_size b) (suc (length p)) || is_broken b p

-- Whether a rune starts at the head.
abbrev pub starts_rune : Text → Bool
starts_rune [] = false
starts_rune (b ∷ p) = rune_start b

-- The loop from `i` on, over `left` places.
unfoldable pub trim_from : ℕ → ℕ → Text → Text
unfolding full_rune
trim_from zero i b = b
trim_from (suc left) i b =
    let rest = trim_from left (suc i) b in
    let start = length b - i in
    if leb i (length b)
    then (if starts_rune (drop start b)
        then (if full_rune (drop start b) then b else take start b)
        else rest)
    else b

unfoldable pub trim_partial_rune : Text → Text
unfolding trim_from
trim_partial_rune b = trim_from 3 1 b

-- The loop over the places of one secret from `i` to the point `n`, within the first `hi` bytes: each
-- place at which it starts before the point is given to `found`. The fuel is the bytes left.
unfoldable pub scan : (ℕ → ℕ → ℕ) → ℕ → Text → Text → ℕ → ℕ → ℕ → ℕ → ℕ
scan found zero b v hi n i acc = acc
scan found (suc fuel) b v hi n i acc =
    if ltb i n
    then (elim (index (take (hi - i) (drop i b)) v) [
      | none ↦ acc
      | some at ↦
          let rest = scan found fuel b v hi n (suc (i + at)) (found acc (i + at)) in
          if leb n (i + at) then acc else rest
    ])
    else acc

-- The window around the point in which a secret across it lies, and its scan.
unfoldable pub scan_window : (ℕ → ℕ → ℕ) → Text → Text → ℕ → ℕ → ℕ
unfolding scan
scan_window found b v n acc =
    scan found n b v (min (length b) (n + length v - 1)) n (suc n - length v) acc

-- The end of a head, at the end of any secret across the point.
unfoldable pub head_end : Text → ℕ → List Text → ℕ → ℕ
unfolding scan_window
head_end b n [] end = end
head_end b n (v ∷ vs) end =
    head_end b n vs
      (if ltb (length v) 2 then end else scan_window (λ e p. max e (p + length v)) b v n end)

-- The start of a tail, at the start of any secret across the point.
unfoldable pub tail_start : Text → ℕ → List Text → ℕ → ℕ
unfolding scan_window
tail_start b at [] start = start
tail_start b at (v ∷ vs) start =
    tail_start b at vs
      (if ltb (length v) 2 then start else scan_window (λ s p. min s p) b v at start)

-- headOf.
unfoldable pub head_of : Text → ℕ → List Text → Bool → Text × Bool
unfolding trim_partial_rune head_end
head_of b n secrets lost =
    if leb (length b) n
    then (if lost then (trim_partial_rune b, true) else (b, false))
    else let end = head_end b n secrets n in
      (if end == n then trim_partial_rune (take end b) else take end b, true)

-- tailOf.
unfoldable pub tail_of : Text → ℕ → List Text → Bool → Text × Bool
unfolding to_rune_start tail_start
tail_of b n secrets lost =
    if leb (length b) n
    then (if lost then (to_rune_start b, true) else (b, false))
    else let at = length b - n in
      let start = tail_start b at secrets at in
      (if start == at then to_rune_start (drop start b) else drop start b, true)
