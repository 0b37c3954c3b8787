-- ===== src/Jobs/Capture/Scan.antt =====
-- What the scan of one secret finds.
use tend.Prelude.{
  ℕ, zero, suc, ◌+◌, ◌-◌, ◌≤◌, ◌<◌, ◌≡◌, inl, inr, refl, sym, ap, ◌∙◌, subst, true, false, some, [],
  ◌∷◌, arith, ltb, leb, ◌==◌, min, Option-cases, Bool-cases, take, drop, length,
}
use tend.Core.Tail.{Text}
use tend.Runner.Redact.{index, has_prefix}
use tend.Runner.Redact.Cover.{drop-drop}
use tend.Runner.Redact.Exact.{has_prefix-length}
use tend.Jobs.Capture.{scan, scan_window}

has_prefix-take :
    (m : ℕ) (s v : Text) → length v ≤ m → has_prefix s v ≡ true → has_prefix (take m s) v ≡ true
unfolding has_prefix
has_prefix-take m s [] l h = refl
has_prefix-take zero s (c ∷ v) l h = absurd (omega (arith, l))
has_prefix-take (suc m) [] (c ∷ v) l h = ground arith
has_prefix-take (suc m) (b ∷ s) (c ∷ v) l h = ground (arith, has_prefix-take m s v)

-- A window that is long enough shows a value where it stands.
pub window_shows :
    (k m : ℕ) (s v : Text)
    → k + length v ≤ m
    → has_prefix (drop k s) v ≡ true
    → has_prefix (drop k (take m s)) v ≡ true
window_shows zero m s v l h = has_prefix-take m s v (omega (arith, l)) h
window_shows (suc k) zero s v l h = absurd (omega (arith, l))
window_shows (suc k) (suc m) [] v l h = h
window_shows (suc k) (suc m) (b ∷ s) v l h = window_shows k m s v (omega (arith, l)) h

index-first :
    (k : ℕ) (s v : Text)
    → 0 < length v
    → has_prefix (drop k s) v ≡ true
    → (j : ℕ) × (index s v ≡ some j) × (j ≤ k)
unfolding index
index-first zero [] v l h = (0, ground arith, omega arith)
index-first (suc k) [] v l h = absurd (omega (arith, l, has_prefix-length [] v h))
index-first zero (b ∷ s) v l h = (0, ground arith, omega arith)
index-first (suc k) (b ∷ s) v l h = elim (Bool-cases (has_prefix (b ∷ s) v)) [
  | inl t ↦ (0, ground arith, omega arith)
  | inr n ↦ let (j, q, le) = index-first k s v l h in (suc j, ground arith, omega (arith, le))
]

-- What is kept at each place of the secret before the point.
abbrev pub Keeps : (ℕ → Type 0) → (ℕ → ℕ → ℕ) → Text → Text → ℕ → Type 0
Keeps P found b v n = (a q : ℕ) → q < n → has_prefix (drop q b) v ≡ true → P a → P (found a q)

has_prefix-untake : (m : ℕ) (s v : Text) → has_prefix (take m s) v ≡ true → has_prefix s v ≡ true
unfolding has_prefix
has_prefix-untake m s [] h = refl
has_prefix-untake zero s (c ∷ v) h = ground arith
has_prefix-untake (suc m) [] (c ∷ v) h = h
has_prefix-untake (suc m) (b ∷ s) (c ∷ v) h = ground (arith, has_prefix-untake m s v)

index-found :
    (m : ℕ) (s v : Text) (j : ℕ) → index (take m s) v ≡ some j → has_prefix (drop j s) v ≡ true
unfolding index
index-found zero s [] j h = refl
index-found zero s (c ∷ v) j h = ground arith
index-found (suc m) [] v j h = ground arith
index-found (suc m) (b ∷ s) v j h = elim (Bool-cases (has_prefix (b ∷ take m s) v)) [
  | inl t ↦ let e : j ≡ 0 = ground arith in rw e (has_prefix-untake (suc m) (b ∷ s) v t)
  | inr n ↦ elim (Option-cases (index (take m s) v)) [
    | inl q ↦ absurd (ground arith)
    | inr (k, q) ↦ let e : j ≡ suc k = ground arith in rw e (index-found m s v k q)
  ]
]

pub scan-keeps :
    (P : ℕ → Type 0) (found : ℕ → ℕ → ℕ) (fuel : ℕ) (b v : Text) (hi n i acc : ℕ)
    → Keeps P found b v n
    → P acc
    → P (scan found fuel b v hi n i acc)
unfolding scan
scan-keeps P found zero b v hi n i acc k h = h
scan-keeps P found (suc fuel) b v hi n i acc k h = elim (Bool-cases (ltb i n)) [
  | inr out ↦ rw out h
  | inl go ↦ elim (Option-cases (index (take (hi - i) (drop i b)) v)) [
    | inl q ↦ rw (go, q) h
    | inr (at, q) ↦ elim (Bool-cases (leb n (i + at))) [
      | inl past ↦ rw (go, q, past) h
      | inr on ↦
          let shown = index-found (hi - i) (drop i b) v at q in
          let here = subst (λ s. has_prefix s v ≡ true) (drop-drop at i b) shown in
          rw (go, q, on)
            (scan-keeps P found fuel b v hi n (suc (i + at)) (found acc (i + at)) k
              (k acc (i + at) (ground arith) here h))
    ]
  ]
]

-- The scan meets every place of the secret before the point.
scan-meets :
    (P : ℕ → Type 0) (found : ℕ → ℕ → ℕ) (fuel : ℕ) (b v : Text) (hi n i acc p : ℕ)
    → Keeps P found b v n
    → ((a : ℕ) → P (found a p))
    → 0 < length v
    → n ≤ i + fuel
    → i ≤ p
    → p < n
    → p + length v ≤ hi
    → has_prefix (drop p b) v ≡ true
    → P (scan found fuel b v hi n i acc)
unfolding scan
scan-meets P found zero b v hi n i acc p k s l f lo up w h = absurd (omega (arith, f, lo, up))
scan-meets P found (suc fuel) b v hi n i acc p k s l f lo up w h =
    let m = hi - i in
    let split : p ≡ i + (p - i) = omega (arith, lo) in
    let there : has_prefix (drop (p - i) (drop i b)) v ≡ true =
      subst (λ s. has_prefix s v ≡ true) (ap (λ d. drop d b) split ∙ sym (drop-drop (p - i) i b))
        h in
    let shown = window_shows (p - i) m (drop i b) v (omega (arith, lo, w)) there in
    let (at, q, le) = index-first (p - i) (take m (drop i b)) v l shown in
    let go : ltb i n ≡ true = ground arith in
    let on : leb n (i + at) ≡ false = ground arith in
    elim (Bool-cases (i + at == p)) [
      | inl here ↦
          let e : i + at ≡ p = ground arith in
          let first : P (found acc (i + at)) = subst (λ x. P (found acc x)) (sym e) (s acc) in
          rw (go, q, on)
            (scan-keeps P found fuel b v hi n (suc (i + at)) (found acc (i + at)) k first)
      | inr later ↦
          let lo' : suc (i + at) ≤ p = ground arith in
          rw (go, q, on)
            (scan-meets P found fuel b v hi n (suc (i + at)) (found acc (i + at)) p k s l
              (omega (arith, f)) lo' up w h)
    ]

-- A secret of two bytes or more that starts before the point and ends after it lies in the window.
pub scan_window-meets :
    (P : ℕ → Type 0) (found : ℕ → ℕ → ℕ) (b v : Text) (n acc p : ℕ)
    → Keeps P found b v n
    → ((a : ℕ) → P (found a p))
    → 2 ≤ length v
    → p < n
    → n < p + length v
    → p + length v ≤ length b
    → has_prefix (drop p b) v ≡ true
    → P (scan_window found b v n acc)
unfolding scan_window
scan_window-meets P found b v n acc p k s l up over within h =
    let hi = min (length b) (n + length v - 1) in
    scan-meets P found n b v hi n (suc n - length v) acc p k s (omega (arith, l)) (omega arith)
      (omega (arith, over)) up (ground arith) h
