-- ===== src/Heartbeat/Ping/Uuid.antt =====
-- `CanonicalUUID` of internal/heartbeat/ping.go, over the bytes of a text.
use tend.Prelude.{
  ◌≤◌, ◌⊎◌, ◌↔◌, inl, inr, Bool-cases, false, ℕ, suc, ◌+◌, ◌≡◌, refl, ap, Bool, true, ◌&&◌, ◌||◌,
  Option, none, some, [], ◌∷◌, arith, leb, ◌==◌, if◌then◌else◌, length,
}
use tend.Core.Tail.{Text}

abbrev is_separator : ℕ → Bool
is_separator i = i == 8 || i == 13 || i == 18 || i == 23

abbrev is_hex : ℕ → Bool
is_hex c = (leb b'0' c && leb c b'9') || (leb b'a' c && leb c b'f') || (leb b'A' c && leb c b'F')

-- The loop over the bytes, `i` the index of the first one left.
unfoldable pub well_formed_from : ℕ → Text → Bool
well_formed_from i [] = true
well_formed_from i (c ∷ s) =
    (if is_separator i then c == b'-' else is_hex c) && well_formed_from (suc i) s

-- `strings.ToLower` on ASCII, which a text that passed the loop is.
abbrev lower : ℕ → ℕ
lower c = if leb b'A' c && leb c b'Z' then c + 32 else c

unfoldable pub to_lower : Text → Text
to_lower [] = []
to_lower (c ∷ s) = lower c ∷ to_lower s

unfoldable pub canonical_uuid : Text → Option Text
canonical_uuid s =
    if length s == 36 then if well_formed_from 0 s then some (to_lower s) else none else none

-- The digits of the canonical form, and what may stand for one of them.
abbrev pub LowerHex : ℕ → Type 0
LowerHex d = ((48 ≤ d) × (d ≤ 57)) ⊎ ((97 ≤ d) × (d ≤ 102))

abbrev pub Stands : ℕ → ℕ → Type 0
Stands c d = (c ≡ d) ⊎ ((97 ≤ d) × (c + 32 ≡ d))

abbrev pub Between : ℕ → Type 0
Between i = (i ≡ 8) ⊎ ((i ≡ 13) ⊎ ((i ≡ 18) ⊎ (i ≡ 23)))

-- Byte by byte, the first one at `i`: a text and its canonical form.
abbrev pub IsCanon : ℕ → Text → Text → Type 0
IsCanon i [] [] = Unit
IsCanon i [] (d ∷ t) = ⊥
IsCanon i (c ∷ s) [] = ⊥
IsCanon i (c ∷ s) (d ∷ t) =
    ((Between i × (c ≡ 45) × (d ≡ 45)) ⊎ (¬ Between i × LowerHex d × Stands c d))
    × IsCanon (suc i) s t

byte_from :
    (i c d : ℕ)
    → (if is_separator i then c == 45 else is_hex c) ≡ true
    → lower c ≡ d
    → (Between i × (c ≡ 45) × (d ≡ 45)) ⊎ (¬ Between i × LowerHex d × Stands c d)
byte_from i c d h e = elim (Bool-cases (is_separator i)) [
  | inl y ↦ let at : Between i = ground arith in inl (at, ground arith, ground arith)
  | inr n ↦
      let off : ¬ Between i = λ b. ground arith in
      let digit : LowerHex d = ground arith in
      let stands : Stands c d = ground arith in inr (off, digit, stands)
]

byte_to :
    (i c d : ℕ)
    → (Between i × (c ≡ 45) × (d ≡ 45)) ⊎ (¬ Between i × LowerHex d × Stands c d)
    → ((if is_separator i then c == 45 else is_hex c) ≡ true) × (lower c ≡ d)
byte_to i c d (inl (b, e, f)) = let y : is_separator i ≡ true = ground arith in ground arith
byte_to i c d (inr (b, l, s)) =
    let n : is_separator i ≡ false = elim (Bool-cases (is_separator i)) [
      | inr m ↦ m
      | inl y ↦ absurd (b (ground arith))
    ] in
    (ground arith, ground arith)

from_code : (i : ℕ) (s t : Text) → well_formed_from i s ≡ true → to_lower s ≡ t → IsCanon i s t
unfolding well_formed_from to_lower
from_code i [] [] h e = tt
from_code i [] (d ∷ t) h e = ground arith
from_code i (c ∷ s) [] h e = ground arith
from_code i (c ∷ s) (d ∷ t) h e = (
  byte_from i c d (ground arith) (ground arith),
  from_code (suc i) s t (ground arith) (ground arith),
)

to_code : (i : ℕ) (s t : Text) → IsCanon i s t → (well_formed_from i s ≡ true) × (to_lower s ≡ t)
unfolding well_formed_from to_lower
to_code i [] [] h = (refl, refl)
to_code i [] (d ∷ t) h = absurd h
to_code i (c ∷ s) [] h = absurd h
to_code i (c ∷ s) (d ∷ t) h =
    let (w, l) = to_code (suc i) s t h.1 in
    let (p, q) = byte_to i c d h.0 in (ground arith, ground arith)

IsCanon-length : (i : ℕ) (s t : Text) → IsCanon i s t → length s ≡ length t
IsCanon-length i [] [] h = refl
IsCanon-length i [] (d ∷ t) h = absurd h
IsCanon-length i (c ∷ s) [] h = absurd h
IsCanon-length i (c ∷ s) (d ∷ t) h = ap suc (IsCanon-length (suc i) s t h.1)

-- A text has a canonical form exactly if it has 36 bytes and, byte by byte: at 8, 13, 18 and 23 the
-- text and the form have a hyphen, and everywhere else the form has a digit or one of a to f, and the
-- text has the same or its capital.
pub canonical_uuid-exact :
    (s t : Text) → (canonical_uuid s ≡ some t) ↔ ((length s ≡ 36) × IsCanon 0 s t)
unfolding canonical_uuid
canonical_uuid-exact s t = (
  λ h. (ground arith, from_code 0 s t (ground arith) (ground arith)),
  λ h. let (w, l) = to_code 0 s t h.1 in let n = h.0 in ground arith,
)
