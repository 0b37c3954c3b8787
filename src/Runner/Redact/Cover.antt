-- ===== src/Runner/Redact/Cover.antt =====
-- Which bytes of a text its spans cover.
use tend.Prelude.{
  ℕ, zero, suc, ◌+◌, ◌-◌, ◌≤◌, ◌<◌, ◌≡◌, inl, inr, refl, sym, ap, ◌∙◌, subst, Bool, false, not,
  ◌&&◌, ◌||◌, none, some, List, [], ◌∷◌, arith, ltb, leb, Bool-cases, Option-cases, any, drop,
  length,
}
use native.Mathlib.Nat.{add-zero}
use tend.Core.Tail.{Text, is_empty}
use tend.Runner.Redact.{
  Span, has_prefix, index, add_span, matches, all_matches, insert_span, sort_spans,
}

abbrev pub holds : ℕ → Span → Bool
holds i p = leb p.0 i && ltb i p.1

abbrev pub covered : List Span → ℕ → Bool
covered spans i = any (holds i) spans

-- The value stands in `s`, the text from `p` on, at a place that covers the byte at `i`.
unfoldable pub covers_from : Text → ℕ → Text → ℕ → Bool
covers_from v p [] i = false
covers_from v p (b ∷ s) i =
    (has_prefix (b ∷ s) v && holds i (p, p + length v)) || covers_from v (suc p) s i

add_span-covered :
    (p : Span) (spans : List Span) (i : ℕ)
    → p.0 ≤ p.1
    → covered (add_span p spans) i ≡ (holds i p || covered spans i)
unfolding add_span
add_span-covered p [] i h = ground arith
add_span-covered p (q ∷ spans) i h = ground arith

insert_span-covered :
    (p : Span) (spans : List Span) (i : ℕ)
    → covered (insert_span p spans) i ≡ (holds i p || covered spans i)
unfolding insert_span
insert_span-covered p [] i = refl
insert_span-covered p (q ∷ spans) i = ground (arith, insert_span-covered p spans i)

pub sort_spans-covered :
    (spans : List Span) (i : ℕ) → covered (sort_spans spans) i ≡ covered spans i
unfolding sort_spans
sort_spans-covered [] i = refl
sort_spans-covered (p ∷ spans) i =
    insert_span-covered p (sort_spans spans) i
    ∙ ap (λ b. holds i p || b) (sort_spans-covered spans i)

-- No place of the value is left where it is not found, and the first one where it is.
index-none : (v s : Text) (p i : ℕ) → index s v ≡ none → covers_from v p s i ≡ false
unfolding index covers_from
index-none v [] p i h = refl
index-none v (b ∷ s) p i h = ground (arith, index-none v s (suc p) i)

index-some :
    (v s : Text) (p i j : ℕ)
    → is_empty v ≡ false
    → index s v ≡ some j
    → covers_from v p s i
      ≡ (holds i (p + j, p + j + length v) || covers_from v (suc (p + j)) (drop (suc j) s) i)
unfolding index covers_from
index-some v [] p i j e h = ground arith
index-some v (b ∷ s) p i j e h = elim (Bool-cases (has_prefix (b ∷ s) v)) [
  | inl t ↦ let first : j ≡ 0 = ground arith in rw (t, first, add-zero p) refl
  | inr n ↦ elim (Option-cases (index s v)) [
    | inl q ↦ absurd (ground arith)
    | inr (k, q) ↦
        let later : j ≡ suc k = ground arith in
        let at : suc p + k ≡ p + suc k = omega arith in
        rw (n, later)
          (subst
            (λ m.
              covers_from v (suc p) s i
              ≡ (holds i (m, m + length v) || covers_from v (suc m) (drop (suc k) s) i))
            at (index-some v s (suc p) i k e q))
  ]
]

drop-nil : {A : Type 0} (n : ℕ) → drop {A = A} n [] ≡ []
drop-nil zero = refl
drop-nil (suc n) = refl

pub drop-drop : {A : Type 0} (n m : ℕ) (xs : List A) → drop n (drop m xs) ≡ drop (m + n) xs
drop-drop n zero xs = let e : n ≡ 0 + n = omega arith in ap (λ k. drop k xs) e
drop-drop n (suc m) [] =
    let e : suc (m + n) ≡ suc m + n = omega arith in
    drop-nil n ∙ sym (drop-nil (suc (m + n))) ∙ ap (λ k. drop k []) e
drop-drop n (suc m) (x ∷ xs) =
    let e : suc (m + n) ≡ suc m + n = omega arith in drop-drop n m xs ∙ ap (λ k. drop k (x ∷ xs)) e

pub length-drop : {A : Type 0} (n : ℕ) (xs : List A) → length (drop n xs) ≡ length xs - n
length-drop zero xs = omega arith
length-drop (suc n) [] = omega arith
length-drop (suc n) (x ∷ xs) = omega (arith, length-drop n xs)

pub index-nonempty : (v s : Text) (j : ℕ) → is_empty v ≡ false → index s v ≡ some j → 0 < length s
unfolding index
index-nonempty v [] j e h = ground arith
index-nonempty v (b ∷ s) j e h = omega arith

fits_span : (p j n : ℕ) → p + j ≤ p + j + n
fits_span p j n = omega arith

-- The matches of a value cover what it covers.
matches-covered :
    (fuel : ℕ) (s v : Text) (p i : ℕ) (spans : List Span)
    → is_empty v ≡ false
    → length (drop p s) < fuel
    → covered (matches fuel s v p spans) i ≡ (covers_from v p (drop p s) i || covered spans i)
unfolding matches
matches-covered zero s v p i spans e h = absurd (omega (arith, h))
matches-covered (suc fuel) s v p i spans e h = elim (Option-cases (index (drop p s) v)) [
  | inl n ↦ let quiet = index-none v (drop p s) p i n in ground arith
  | inr (j, q) ↦
      let found = index-some v (drop p s) p i j e q in
      let next = suc (p + j) in
      let sum : p + suc j ≡ next = omega arith in
      let left : drop (suc j) (drop p s) ≡ drop next s =
        drop-drop (suc j) p s ∙ ap (λ k. drop k s) sum in
      let span : Span = (p + j, p + j + length v) in
      let some_left = index-nonempty v (drop p s) j e q in
      let here = length-drop p s in
      let there = length-drop next s in
      let fits : length (drop next s) < fuel = omega (arith, h, some_left, here, there) in
      let rest = matches-covered fuel s v next i (add_span span spans) e fits in
      let added = add_span-covered span spans i (fits_span p j (length v)) in ground (arith, left)
]

unfoldable pub covers_any : List Text → Text → ℕ → Bool
covers_any values s i = any (λ v. not (is_empty v) && covers_from v 0 s i) values

pub all_matches-covered :
    (s : Text) (values : List Text) (i : ℕ) (spans : List Span)
    → covered (all_matches s values spans) i ≡ (covers_any values s i || covered spans i)
unfolding all_matches covers_any
all_matches-covered s [] i spans = refl
all_matches-covered s (v ∷ vs) i spans = elim (Bool-cases (is_empty v)) [
  | inl y ↦ rw y (all_matches-covered s vs i spans)
  | inr n ↦
      let mine = matches-covered (suc (length s)) s v 0 i spans n (omega arith) in
      let rest = all_matches-covered s vs i (matches (suc (length s)) s v 0 spans) in
      rw n (rest ∙ ground arith)
]
