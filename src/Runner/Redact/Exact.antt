-- ===== src/Runner/Redact/Exact.antt =====
-- What redaction leaves of a text.
use tend.Prelude.{
  ℕ, zero, suc, ◌+◌, ◌≤◌, ◌<◌, ◌≡◌, ◌↔◌, inl, inr, sym, ◌∙◌, subst, Bool, true, false, not, ◌&&◌,
  ◌||◌, some, List, [], ◌∷◌, arith, leb, Bool-cases, Option-cases, All, drop, length,
}
use tend.Core.Tail.{Text, is_empty}
use tend.Store.Table.{In}
use tend.Store.Deliveries.Claim.{In-any}
use tend.Store.Pings.Reported.{any-true}
use tend.Runner.Redact.{
  Span, has_prefix, index, add_span, matches, all_matches, insert_span, sort_spans, build, redact,
}
use tend.Runner.Redact.Cover.{
  covered, covers_from, covers_any, index-nonempty, length-drop, sort_spans-covered,
  all_matches-covered,
}
use tend.Runner.Redact.Build.{starred, starred-none, starred-ext, Within, Ordered, build-starred}

pub has_prefix-length : (s v : Text) → has_prefix s v ≡ true → length v ≤ length s
unfolding has_prefix
has_prefix-length s [] h = omega arith
has_prefix-length [] (c ∷ v) h = ground arith
has_prefix-length (b ∷ s) (c ∷ v) h = ground (arith, has_prefix-length s v)

index-fits : (s v : Text) (j : ℕ) → index s v ≡ some j → j + length v ≤ length s
unfolding index
index-fits [] v j h = ground (arith, has_prefix-length [] v)
index-fits (b ∷ s) v j h = elim (Option-cases (index s v)) [
  | inl n ↦ ground (arith, has_prefix-length (b ∷ s) v)
  | inr (k, q) ↦ ground (arith, has_prefix-length (b ∷ s) v, index-fits s v k q)
]

add_span-Within :
    (n : ℕ) (p : Span) (spans : List Span)
    → Within n p
    → All (Within n) spans
    → All (Within n) (add_span p spans)
unfolding add_span
add_span-Within n p [] w ws = (w, tt)
add_span-Within n p (q ∷ spans) w ws = elim (Bool-cases (leb p.0 q.1 && leb q.0 p.0)) [
  | inl y ↦
      let (a, b) = w in let (c, d) = ws.0 in rw y ((omega (arith, c), omega (arith, b, d)), ws.1)
  | inr m ↦ rw m (w, ws)
]

nonempty-length : (v : Text) → is_empty v ≡ false → 0 < length v
nonempty-length [] e = ground arith
nonempty-length (b ∷ v) e = omega arith

or-false : (b : Bool) → (b || false) ≡ b
or-false b = ground arith

iff-eq : (a b : Bool) → (a ≡ true → b ≡ true) → (b ≡ true → a ≡ true) → a ≡ b
iff-eq a b f g = ground arith

matches-Within :
    (fuel : ℕ) (s v : Text) (p : ℕ) (spans : List Span)
    → is_empty v ≡ false
    → All (Within (length s)) spans
    → All (Within (length s)) (matches fuel s v p spans)
unfolding matches
matches-Within zero s v p spans e ws = ws
matches-Within (suc fuel) s v p spans e ws = elim (Option-cases (index (drop p s) v)) [
  | inl n ↦
      let same : matches (suc fuel) s v p spans ≡ spans = ground arith in
      subst (All (Within (length s))) (sym same) ws
  | inr (j, q) ↦
      let span : Span = (p + j, p + j + length v) in
      let fits = index-fits (drop p s) v j q in
      let some_left = index-nonempty v (drop p s) j e q in
      let len = length-drop p s in
      let long = nonempty-length v e in
      let w : Within (length s) span = (omega (arith, long), omega (arith, fits, some_left, len)) in
      let next = matches fuel s v (suc (p + j)) (add_span span spans) in
      let same : matches (suc fuel) s v p spans ≡ next = ground arith in
      subst (All (Within (length s))) (sym same) (
        matches-Within fuel s v (suc (p + j)) (add_span span spans) e
          (add_span-Within (length s) span spans w ws))
]

all_matches-Within :
    (s : Text) (values : List Text) (spans : List Span)
    → All (Within (length s)) spans
    → All (Within (length s)) (all_matches s values spans)
unfolding all_matches
all_matches-Within s [] spans ws = ws
all_matches-Within s (v ∷ vs) spans ws = elim (Bool-cases (is_empty v)) [
  | inl y ↦ rw y (all_matches-Within s vs spans ws)
  | inr n ↦ rw n (
      all_matches-Within s vs (matches (suc (length s)) s v 0 spans)
        (matches-Within (suc (length s)) s v 0 spans n ws))
]

insert_span-All :
    (P : Span → Type 0) (p : Span) (spans : List Span)
    → P p
    → All P spans
    → All P (insert_span p spans)
unfolding insert_span
insert_span-All P p [] w ws = (w, tt)
insert_span-All P p (q ∷ spans) w ws = elim (Bool-cases (leb p.0 q.0)) [
  | inl y ↦ rw y (w, ws)
  | inr n ↦ rw n (ws.0, insert_span-All P p spans w ws.1)
]

sort_spans-All : (P : Span → Type 0) (spans : List Span) → All P spans → All P (sort_spans spans)
unfolding sort_spans
sort_spans-All P [] ws = tt
sort_spans-All P (p ∷ spans) ws =
    insert_span-All P p (sort_spans spans) ws.0 (sort_spans-All P spans ws.1)

later-All :
    (m n : ℕ) (spans : List Span)
    → m ≤ n
    → All (λ (q : Span). n ≤ q.0) spans
    → All (λ (q : Span). m ≤ q.0) spans
later-All m n [] l a = tt
later-All m n (q ∷ qs) l a = let h = a.0 in (omega (arith, l, h), later-All m n qs l a.1)

insert_span-Ordered : (p : Span) (spans : List Span) → Ordered spans → Ordered (insert_span p spans)
unfolding insert_span
insert_span-Ordered p [] o = (tt, tt)
insert_span-Ordered p (q ∷ spans) o = elim (Bool-cases (leb p.0 q.0)) [
  | inl y ↦ let le : p.0 ≤ q.0 = ground arith in rw y ((le, later-All p.0 q.0 spans le o.0), o)
  | inr n ↦
      let le : q.0 ≤ p.0 = ground arith in
      rw n
        (insert_span-All (λ (r : Span). q.0 ≤ r.0) p spans le o.0, insert_span-Ordered p spans o.1)
]

sort_spans-Ordered : (spans : List Span) → Ordered (sort_spans spans)
unfolding sort_spans
sort_spans-Ordered [] = tt
sort_spans-Ordered (p ∷ spans) = insert_span-Ordered p (sort_spans spans) (sort_spans-Ordered spans)

-- The bytes that the sorted matches cover are those that a value covers.
sorted-covered :
    (s : Text) (values : List Text) (i : ℕ)
    → covered (sort_spans (all_matches s values [])) i ≡ covers_any values s i
sorted-covered s values i =
    sort_spans-covered (all_matches s values []) i
    ∙ all_matches-covered s values i []
    ∙ or-false (covers_any values s i)

built :
    (s : Text) (c : ℕ → Bool) (spans : List Span)
    → All (Within (length s)) spans
    → Ordered spans
    → ((i : ℕ) → c i ≡ covered spans i)
    → (elim spans [ [] ↦ s | cur ∷ rest ↦ build s 0 cur rest ]) ≡ starred c 0 false s
built s c [] ws o h = sym (starred-none c 0 false s (λ i l. h i))
built s c (cur ∷ rest) ws o h = build-starred s 0 cur rest c (omega arith) ws.0 ws.1 o (λ i l. h i)

-- Redaction is what it looks like byte by byte: of the text, each run of bytes that some secret
-- value, not empty and standing anywhere in it, overlapping others or not, covers becomes "***",
-- and every other byte stays.
pub redact-starred :
    (s : Text) (values : List Text) → redact s values ≡ starred (covers_any values s) 0 false s
unfolding redact
redact-starred s values =
    let found = all_matches s values [] in
    built s (covers_any values s) (sort_spans found)
      (sort_spans-All (Within (length s)) found (all_matches-Within s values [] tt))
      (sort_spans-Ordered found) (λ i. sym (sorted-covered s values i))

covers_any-same :
    (s : Text) (values values' : List Text) (i : ℕ)
    → ((v : Text) → In v values → In v values')
    → covers_any values s i ≡ true
    → covers_any values' s i ≡ true
unfolding covers_any
covers_any-same s values values' i h t =
    let q = λ (v : Text). not (is_empty v) && covers_from v 0 s i in
    let (v, m, c) = any-true q values t in In-any q v values' (h v m) c

-- The order of the values, and how often each comes, makes no difference.
pub redact-order :
    (s : Text) (values values' : List Text)
    → ((v : Text) → In v values ↔ In v values')
    → redact s values ≡ redact s values'
redact-order s values values' h =
    let same = λ (i : ℕ).
      iff-eq (covers_any values s i) (covers_any values' s i)
        (covers_any-same s values values' i (λ v. (h v).0))
        (covers_any-same s values' values i (λ v. (h v).1)) in
    redact-starred s values
    ∙ starred-ext (covers_any values s) (covers_any values' s) 0 false s same
    ∙ sym (redact-starred s values')
