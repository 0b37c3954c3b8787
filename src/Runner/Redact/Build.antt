-- ===== src/Runner/Redact/Build.antt =====
-- Writing a text out with its spans starred, against doing so byte by byte.
use native.Mathlib.Nat.{add-zero}
use tend.Prelude.{
  ℕ, zero, suc, ◌+◌, ◌-◌, ◌≤◌, ◌<◌, ◌≡◌, inl, inr, refl, sym, ap, ◌∙◌, Bool, true, false, List, [],
  ◌∷◌, ◌++◌, arith, leb, if◌then◌else◌, Bool-cases, All, drop, take, length, max,
}
use tend.Core.Tail.{Text}
use tend.Runner.Redact.{Span, stars, build}
use tend.Runner.Redact.Cover.{covered, length-drop, drop-drop}

-- The text from the byte numbered `p` on, with each run of covered bytes starred; `inside` says
-- that the byte before is covered.
unfoldable pub starred : (ℕ → Bool) → ℕ → Bool → Text → Text
starred c p inside [] = []
starred c p inside (b ∷ s) =
    let in_run = starred c (suc p) true s in
    let outside = starred c (suc p) false s in
    if c p then (if inside then in_run else stars ++ in_run) else b ∷ outside

starred-plain :
    (c : ℕ → Bool) (n p : ℕ) (s : Text)
    → ((k : ℕ) → p ≤ k → k < p + n → c k ≡ false)
    → n ≤ length s
    → starred c p false s ≡ take n s ++ starred c (p + n) false (drop n s)
unfolding starred
starred-plain c zero p s h l = ap (λ k. starred c k false s) (sym (add-zero p))
starred-plain c (suc n) p [] h l = absurd (omega (arith, l))
starred-plain c (suc n) p (b ∷ s) h l =
    let here = h p (omega arith) (omega arith) in
    let at : suc p + n ≡ p + suc n = omega arith in
    let rest =
      starred-plain c n (suc p) s (λ k lo hi. h k (omega (arith, lo)) (omega (arith, hi)))
        (omega (arith, l)) in
    rw here (ap (λ t. b ∷ t) (rest ∙ ap (λ k. take n s ++ starred c k false (drop n s)) at))

starred-inside :
    (c : ℕ → Bool) (n p : ℕ) (s : Text)
    → ((k : ℕ) → p ≤ k → k < p + n → c k ≡ true)
    → n ≤ length s
    → starred c p true s ≡ starred c (p + n) true (drop n s)
unfolding starred
starred-inside c zero p s h l = ap (λ k. starred c k true s) (sym (add-zero p))
starred-inside c (suc n) p [] h l = absurd (omega (arith, l))
starred-inside c (suc n) p (b ∷ s) h l =
    let here = h p (omega arith) (omega arith) in
    let at : suc p + n ≡ p + suc n = omega arith in
    let rest =
      starred-inside c n (suc p) s (λ k lo hi. h k (omega (arith, lo)) (omega (arith, hi)))
        (omega (arith, l)) in
    rw here (rest ∙ ap (λ k. starred c k true (drop n s)) at)

starred-run :
    (c : ℕ → Bool) (n p : ℕ) (s : Text)
    → 0 < n
    → ((k : ℕ) → p ≤ k → k < p + n → c k ≡ true)
    → n ≤ length s
    → starred c p false s ≡ stars ++ starred c (p + n) true (drop n s)
unfolding starred
starred-run c zero p s z h l = absurd (omega (arith, z))
starred-run c (suc n) p [] z h l = absurd (omega (arith, l))
starred-run c (suc n) p (b ∷ s) z h l =
    let here = h p (omega arith) (omega arith) in
    let at : suc p + n ≡ p + suc n = omega arith in
    let rest =
      starred-inside c n (suc p) s (λ k lo hi. h k (omega (arith, lo)) (omega (arith, hi)))
        (omega (arith, l)) in
    rw here (ap (λ t. stars ++ t) (rest ∙ ap (λ k. starred c k true (drop n s)) at))

-- Past a run it does not matter that one came before.
starred-after :
    (c : ℕ → Bool) (p : ℕ) (s : Text) → c p ≡ false → starred c p true s ≡ starred c p false s
unfolding starred
starred-after c p [] h = refl
starred-after c p (b ∷ s) h = rw h refl

pub starred-ext :
    (c d : ℕ → Bool) (p : ℕ) (inside : Bool) (s : Text)
    → ((i : ℕ) → c i ≡ d i)
    → starred c p inside s ≡ starred d p inside s
unfolding starred
starred-ext c d p inside [] h = refl
starred-ext c d p inside (b ∷ s) h =
    rw (h p, starred-ext c d (suc p) true s h, starred-ext c d (suc p) false s h) refl

-- The bytes of a text with no covered byte are as they were.
pub starred-none :
    (c : ℕ → Bool) (p : ℕ) (inside : Bool) (s : Text)
    → ((i : ℕ) → p ≤ i → c i ≡ false)
    → starred c p inside s ≡ s
unfolding starred
starred-none c p inside [] h = refl
starred-none c p inside (b ∷ s) h =
    let here = h p (omega arith) in
    let rest = starred-none c (suc p) false s (λ i l. h i (omega (arith, l))) in
    rw (here, rest) refl

-- The spans are not empty, end within the text, and come in the order of their starts.
abbrev pub Within : ℕ → Span → Type 0
Within n p = (p.0 < p.1) × (p.1 ≤ n)

abbrev pub Ordered : List Span → Type 0
Ordered [] = Unit
Ordered (p ∷ ps) = All (λ (q : Span). p.0 ≤ q.0) ps × Ordered ps

-- The text up to a span, the span, and what comes after it.
starred-span :
    (c : ℕ → Bool) (s : Text) (last : ℕ) (cur : Span)
    → last ≤ cur.0
    → Within (length s) cur
    → ((i : ℕ) → last ≤ i → i < cur.0 → c i ≡ false)
    → ((i : ℕ) → cur.0 ≤ i → i < cur.1 → c i ≡ true)
    → starred c last false (drop last s)
      ≡ take (cur.0 - last) (drop last s) ++ (stars ++ starred c cur.1 true (drop cur.1 s))
starred-span c s last (a, b) l (ab, bn) before within =
    let n = a - last in
    let m = b - a in
    let len = length-drop last s in
    let len' = length-drop a s in
    let to_a : last + n ≡ a = omega (arith, l) in
    let to_b : a + m ≡ b = omega (arith, ab) in
    let plain =
      starred-plain c n last (drop last s) (λ k lo hi. before k lo (omega (arith, hi, l)))
        (omega (arith, len, l, ab, bn)) in
    let run =
      starred-run c m a (drop a s) (omega (arith, ab))
        (λ k lo hi. within k lo (omega (arith, hi, ab))) (omega (arith, len', ab, bn)) in
    let at_a : drop n (drop last s) ≡ drop a s = drop-drop n last s ∙ ap (λ k. drop k s) to_a in
    let at_b : drop m (drop a s) ≡ drop b s = drop-drop m a s ∙ ap (λ k. drop k s) to_b in
    let moved : starred c (last + n) false (drop n (drop last s)) ≡ starred c a false (drop a s) =
      rw (at_a, to_a) refl in
    let moved' : starred c (a + m) true (drop m (drop a s)) ≡ starred c b true (drop b s) =
      rw (at_b, to_b) refl in
    plain ∙ ap (λ t. take n (drop last s) ++ t) (moved ∙ run ∙ ap (λ t. stars ++ t) moved')

covered-before :
    (m i : ℕ) (spans : List Span)
    → All (λ (q : Span). m ≤ q.0) spans
    → i < m
    → covered spans i ≡ false
covered-before m i [] a l = refl
covered-before m i (q ∷ qs) a l =
    let h = a.0 in let rest = covered-before m i qs a.1 l in ground arith

-- Writing out from a span on, with the spans behind it, stars the bytes that they cover.
pub build-starred :
    (s : Text) (last : ℕ) (cur : Span) (spans : List Span) (c : ℕ → Bool)
    → last ≤ cur.0
    → Within (length s) cur
    → All (Within (length s)) spans
    → Ordered (cur ∷ spans)
    → ((i : ℕ) → last ≤ i → c i ≡ covered (cur ∷ spans) i)
    → build s last cur spans ≡ starred c last false (drop last s)
unfolding build
build-starred s last cur [] c l w ws o h =
    let (ab, bn) = w in
    let before = λ (i : ℕ) (lo : last ≤ i) (hi : i < cur.0). h i lo ∙ ground arith in
    let within =
      λ (i : ℕ) (lo : cur.0 ≤ i) (hi : i < cur.1). h i (omega (arith, lo, l)) ∙ ground arith in
    let rest =
      starred-none c cur.1 true (drop cur.1 s)
        (λ i lo. h i (omega (arith, lo, l, ab)) ∙ ground arith) in
    sym (
      starred-span c s last cur l w before within
      ∙ ap (λ t. take (cur.0 - last) (drop last s) ++ (stars ++ t)) rest)
build-starred s last cur (sp ∷ spans) c l w ws o h = elim (Bool-cases (leb sp.0 cur.1)) [
  | inl y ↦
      let (ab, bn) = w in
      let (cd, dn) = ws.0 in
      let first = o.0.0 in
      rw y (
        build-starred s last (cur.0, max cur.1 sp.1) spans c l
          (omega (arith, ab), omega (arith, bn, dn)) ws.1 (o.0.1, o.1.1)
          (λ i lo. h i lo ∙ ground arith))
  | inr n ↦
      let (ab, bn) = w in
      let (cd, dn) = ws.0 in
      let ahead = λ (i : ℕ) (hi : i < sp.0). covered-before sp.0 i spans o.1.0 hi in
      let before = λ (i : ℕ) (lo : last ≤ i) (hi : i < cur.0).
        let q = ahead i (ground arith) in h i lo ∙ ground arith in
      let within =
        λ (i : ℕ) (lo : cur.0 ≤ i) (hi : i < cur.1). h i (omega (arith, lo, l)) ∙ ground arith in
      let gap : c cur.1 ≡ false =
        let q = ahead cur.1 (ground arith) in h cur.1 (omega (arith, l, ab)) ∙ ground arith in
      let rest =
        build-starred s cur.1 sp spans c (ground arith) ws.0 ws.1 o.1
          (λ i lo. h i (omega (arith, l, ab, lo)) ∙ ground arith) in
      rw n (
        sym (
          starred-span c s last cur l w before within
          ∙ ap (λ t. take (cur.0 - last) (drop last s) ++ (stars ++ t))
              (starred-after c cur.1 (drop cur.1 s) gap ∙ sym rest)))
]
