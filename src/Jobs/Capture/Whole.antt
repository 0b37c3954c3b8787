-- ===== src/Jobs/Capture/Whole.antt =====
-- No secret across the cut of a capture is cut.
use tend.Prelude.{
  ℕ, suc, ◌+◌, ◌-◌, ◌≤◌, ◌<◌, ◌≡◌, ◌⊎◌, inl, inr, refl, subst, Bool, true, false, List, [], ◌∷◌,
  arith, ltb, leb, ◌==◌, min, max, Bool-cases, take, drop, length,
}
use tend.Core.Tail.{Text}
use tend.Store.Table.{In}
use tend.Runner.Redact.{has_prefix}
use tend.Runner.Redact.Cover.{length-drop}
use tend.Runner.Redact.Exact.{has_prefix-length}
use tend.Jobs.Capture.{scan_window, head_end, tail_start, head_of, tail_of}
use tend.Jobs.Capture.Scan.{Keeps, scan-keeps, scan_window-meets}

-- A condition that every place found keeps holds after the windows of all secrets.
head_end-keeps :
    (P : ℕ → Type 0) (b : Text) (n : ℕ) (vs : List Text) (end : ℕ)
    → ((v : Text) → In v vs → Keeps P (λ e p. max e (p + length v)) b v n)
    → P end
    → P (head_end b n vs end)
unfolding head_end scan_window
head_end-keeps P b n [] end k h = h
head_end-keeps P b n (v ∷ vs) end k h = elim (Bool-cases (ltb (length v) 2)) [
  | inl y ↦ rw y (head_end-keeps P b n vs end (λ x i. k x (inr i)) h)
  | inr m ↦
      let found = λ (e p : ℕ). max e (p + length v) in
      let hi = min (length b) (n + length v - 1) in
      let next = scan-keeps P found n b v hi n (suc n - length v) end (k v (inl refl)) h in
      rw m (head_end-keeps P b n vs _ (λ x i. k x (inr i)) next)
]

tail_start-keeps :
    (P : ℕ → Type 0) (b : Text) (n : ℕ) (vs : List Text) (start : ℕ)
    → ((v : Text) → In v vs → Keeps P (λ s p. min s p) b v n)
    → P start
    → P (tail_start b n vs start)
unfolding tail_start scan_window
tail_start-keeps P b n [] start k h = h
tail_start-keeps P b n (v ∷ vs) start k h = elim (Bool-cases (ltb (length v) 2)) [
  | inl y ↦ rw y (tail_start-keeps P b n vs start (λ x i. k x (inr i)) h)
  | inr m ↦
      let found = λ (s p : ℕ). min s p in
      let hi = min (length b) (n + length v - 1) in
      let next = scan-keeps P found n b v hi n (suc n - length v) start (k v (inl refl)) h in
      rw m (tail_start-keeps P b n vs _ (λ x i. k x (inr i)) next)
]

-- A secret `v` that stands at `p`, across the point `n`.
pub record Across (b v : Text) (n p : ℕ) : Type 0 where
  pub long : 2 ≤ length v
  pub before : p < n
  pub past : n < p + length v
  pub stands : has_prefix (drop p b) v ≡ true

Across-within : {b v : Text} {n p : ℕ} → Across b v n p → p + length v ≤ length b
Across-within {b} {v} {n} {p} c =
    omega (arith, has_prefix-length (drop p b) v c.stands, length-drop p b, c.long)

max_grows : (m a e : ℕ) → m ≤ a → m ≤ max a e
max_grows m a e h = ground arith

min_shrinks : (m a s : ℕ) → a ≤ m → min a s ≤ m
min_shrinks m a s h = ground arith

head_end-covers :
    (b v : Text) (n p : ℕ) (vs : List Text) (end : ℕ)
    → In v vs
    → Across b v n p
    → p + length v ≤ head_end b n vs end
unfolding head_end
head_end-covers b v n p [] end i c = elim i [ ]
head_end-covers b v n p (x ∷ vs) end (inl e) c =
    let P = λ (a : ℕ). p + length v ≤ a in
    let found = λ (a q : ℕ). max a (q + length v) in
    let met =
      scan_window-meets P found b v n end p (λ a q l t. max_grows (p + length v) a (q + length v))
        (λ a. ground arith) c.long c.before c.past (Across-within c) c.stands in
    let two = c.long in
    let long : ltb (length v) 2 ≡ false = ground arith in
    let all =
      head_end-keeps P b n vs (scan_window found b v n end)
        (λ y j a q l t. max_grows (p + length v) a (q + length y)) met in
    subst (λ y. P (head_end b n (y ∷ vs) end)) e (rw long all)
head_end-covers b v n p (x ∷ vs) end (inr i) c = head_end-covers b v n p vs _ i c

tail_start-covers :
    (b v : Text) (n p : ℕ) (vs : List Text) (start : ℕ)
    → In v vs
    → Across b v n p
    → tail_start b n vs start ≤ p
unfolding tail_start
tail_start-covers b v n p [] start i c = elim i [ ]
tail_start-covers b v n p (x ∷ vs) start (inl e) c =
    let P = λ (a : ℕ). a ≤ p in
    let found = λ (a q : ℕ). min a q in
    let met =
      scan_window-meets P found b v n start p (λ a q l t. min_shrinks p a q) (λ a. ground arith)
        c.long c.before c.past (Across-within c) c.stands in
    let two = c.long in
    let long : ltb (length v) 2 ≡ false = ground arith in
    let all =
      tail_start-keeps P b n vs (scan_window found b v n start) (λ y j a q l t. min_shrinks p a q)
        met in
    subst (λ y. P (tail_start b n (y ∷ vs) start)) e (rw long all)
tail_start-covers b v n p (x ∷ vs) start (inr i) c = tail_start-covers b v n p vs _ i c

-- The end of a place of some secret that starts before the point.
abbrev pub EndsOne : Text → ℕ → List Text → ℕ → Type 0
EndsOne b n secrets m =
    (v : Text) × In v secrets
    × (q : ℕ) × (q < n)
    × (has_prefix (drop q b) v ≡ true)
    × (m ≡ q + length v)

head_end-EndsOne :
    (b : Text) (n : ℕ) (secrets : List Text)
    → (head_end b n secrets n ≡ n) ⊎ EndsOne b n secrets (head_end b n secrets n)
head_end-EndsOne b n secrets =
    head_end-keeps (λ e. (e ≡ n) ⊎ EndsOne b n secrets e) b n secrets n
      (λ v i a q l t h. elim (Bool-cases (leb (q + length v) a)) [
        | inl y ↦ let e : max a (q + length v) ≡ a = ground arith in rw e h
        | inr y ↦ inr (v, i, q, l, t, ground arith)
      ])
      (inl refl)

-- Where a secret of two bytes or more stands across the end of a head, what is shown is the text up
-- to the end of such a secret, of which this one is no part that is cut.
pub head_of-whole :
    (b v : Text) (n p : ℕ) (secrets : List Text) (lost : Bool)
    → In v secrets
    → Across b v n p
    → (m : ℕ) × (head_of b n secrets lost ≡ (take m b, true))
      × (p + length v ≤ m)
      × EndsOne b n secrets m
unfolding head_of
head_of-whole b v n p secrets lost i c =
    let end = head_end b n secrets n in
    let covers = head_end-covers b v n p secrets n i c in
    let within = Across-within c in
    let past = c.past in
    let more : leb (length b) n ≡ false = ground arith in
    let moved : (end == n) ≡ false = ground arith in
    (
      end,
      rw (more, moved) refl,
      covers,
      elim (head_end-EndsOne b n secrets) [
        | inl e ↦ absurd (omega (arith, e, covers, past))
        | inr one ↦ one
      ],
    )

-- Where a secret of two bytes or more stands across the start of a tail, what is shown is the text
-- from the start of some secret on, and this one is no part that is cut.
pub tail_of-whole :
    (b v : Text) (n p : ℕ) (secrets : List Text) (lost : Bool)
    → In v secrets
    → Across b v (length b - n) p
    → (m : ℕ) × (tail_of b n secrets lost ≡ (drop m b, true))
      × (m ≤ p)
      × ((w : Text) × In w secrets × (has_prefix (drop m b) w ≡ true))
unfolding tail_of
tail_of-whole b v n p secrets lost i c =
    let at = length b - n in
    let start = tail_start b at secrets at in
    let covers = tail_start-covers b v at p secrets at i c in
    let before = c.before in
    let more : leb (length b) n ≡ false = ground arith in
    let moved : (start == at) ≡ false = ground arith in
    (
      start,
      rw (more, moved) refl,
      covers,
      elim (tail_start-keeps
          (λ s. (s ≡ at) ⊎ ((w : Text) × In w secrets × (has_prefix (drop s b) w ≡ true))) b at
          secrets at
          (λ w j a q l t h. elim (Bool-cases (leb a q)) [
            | inl y ↦ let e : min a q ≡ a = ground arith in rw e h
            | inr y ↦ let e : min a q ≡ q = ground arith in inr (w, j, rw e t)
          ])
          (inl refl)) [ inl e ↦ absurd (omega (arith, e, covers, before)) | inr one ↦ one ],
    )
