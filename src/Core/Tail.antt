-- ===== src/Core/Tail.antt =====
-- internal/core/tail.go: the end (or the start) of some output, by lines and bytes. A text is the
-- list of its bytes. A number of lines that is not positive is 0 here.
pub mod Bounds
use tend.Prelude.{
  ℕ, zero, suc, ◌+◌, ◌-◌, ◌/◌, Bool, true, false, not, ◌||◌, List, [], ◌∷◌, ◌++◌, ltb, ◌==◌,
  if◌then◌else◌, length, take, drop,
}

abbrev pub Text : Type 0
Text = List ℕ

abbrev pub output_tail_lines : ℕ
output_tail_lines = 10

abbrev pub max_output_tail_lines : ℕ
max_output_tail_lines = 50

abbrev pub output_tail_bytes : ℕ
output_tail_bytes = 1000

-- The cut set of `strings.TrimRight(s, " \t\r\n")`.
abbrev pub is_blank : ℕ → Bool
is_blank c = c == 32 || c == 9 || c == 13 || c == 10

-- `utf8.RuneStart`: the byte is no continuation byte 10xxxxxx.
abbrev pub rune_start : ℕ → Bool
rune_start b = not (b / 64 == 2)

-- `strings.TrimLeft` and `strings.TrimRight` with that cut set.
unfoldable pub trim_left : Text → Text
trim_left [] = []
trim_left (c ∷ s) = let rest = trim_left s in if is_blank c then rest else c ∷ s

-- A byte before an already trimmed end: a blank one goes if nothing is left behind it.
abbrev pub cons_trimmed : ℕ → Text → Text
cons_trimmed c [] = if is_blank c then [] else c ∷ []
cons_trimmed c (d ∷ r) = c ∷ d ∷ r

unfoldable pub trim_right : Text → Text
trim_right [] = []
trim_right (c ∷ s) = cons_trimmed c (trim_right s)

-- The lines of `strings.Split(s, "\n")`: never none.
abbrev pub cons_line : ℕ → List Text → List Text
cons_line c [] = (c ∷ []) ∷ []
cons_line c (l ∷ ls) = if c == 10 then [] ∷ l ∷ ls else (c ∷ l) ∷ ls

unfoldable pub split : Text → List Text
split [] = [] ∷ []
split (c ∷ s) = cons_line c (split s)

-- `strings.Join(parts, "\n")`.
unfoldable pub join : List Text → Text
join [] = []
join (l ∷ []) = l
join (l ∷ m ∷ ls) = l ++ 10 ∷ join (m ∷ ls)

-- `for len(t) > 0 && !utf8.RuneStart(t[0]) { t = t[1:] }`
unfoldable pub to_rune_start : Text → Text
to_rune_start [] = []
to_rune_start (b ∷ t) = let rest = to_rune_start t in if rune_start b then b ∷ t else rest

unfoldable pub last_bytes : ℕ → Text → Text
unfolding to_rune_start
last_bytes n t = if ltb n (length t) then to_rune_start (drop (length t - n) t) else t

unfoldable pub last_lines : ℕ → List Text → List Text
last_lines n parts = if ltb n (length parts) then drop (length parts - n) parts else parts

abbrev pub is_empty : Text → Bool
is_empty [] = true
is_empty (c ∷ s) = false

unfoldable pub tail_lines : Text → ℕ → Text
unfolding trim_right split join last_lines last_bytes
tail_lines s lines =
    let t = trim_right s in
    if is_empty t || lines == 0
    then []
    else last_bytes output_tail_bytes (join (last_lines lines (split t)))

unfoldable pub output_tail : Text → Text
unfolding tail_lines
output_tail s = tail_lines s output_tail_lines

-- `strings.SplitN(s, "\n", n)` for n of at least 1: the last part keeps its line breaks.
abbrev pub cons_part : ℕ → List Text → List Text
cons_part c [] = (c ∷ []) ∷ []
cons_part c (l ∷ ls) = (c ∷ l) ∷ ls

unfoldable pub split_n : ℕ → Text → List Text
split_n zero s = []
split_n (suc zero) s = s ∷ []
split_n (suc (suc n)) [] = [] ∷ []
split_n (suc (suc n)) (c ∷ s) =
    let cut = [] ∷ split_n (suc n) s in
    let kept = cons_part c (split_n (suc (suc n)) s) in if c == 10 then cut else kept

-- `for cut > 0 && !utf8.RuneStart(head[cut]) { cut-- }`: the bytes before the last place, at or
-- before `cut`, where a character starts.
abbrev pub starts_at : ℕ → Text → Bool
starts_at n [] = true
starts_at zero (b ∷ t) = rune_start b
starts_at (suc n) (b ∷ t) = starts_at n t

unfoldable pub back_to_rune_start : ℕ → Text → ℕ
back_to_rune_start zero s = 0
back_to_rune_start (suc n) s =
    let back = back_to_rune_start n s in if starts_at (suc n) s then suc n else back

unfoldable pub first_bytes : ℕ → Text → Text
unfolding back_to_rune_start
first_bytes n s = if ltb n (length s) then take (back_to_rune_start n s) s else s

unfoldable pub head_lines : Text → ℕ → Text
unfolding trim_left trim_right split_n join first_bytes
head_lines s lines =
    let t = trim_left (trim_right s) in
    if is_empty t || lines == 0
    then []
    else let parts = split_n (lines + 1) t in
      first_bytes output_tail_bytes
        (join (if ltb lines (length parts) then take lines parts else parts))
