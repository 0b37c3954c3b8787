-- ===== src/Jobs/Capture/Buffer.antt =====
-- cappedBuffer of internal/jobs/executor.go, and shellOutput of what it holds.
use tend.Prelude.{
  ℕ, zero, suc, ◌+◌, ◌-◌, ◌≤◌, ◌≡◌, inl, inr, refl, sym, ap, ◌∙◌, Bool, true, false, List, [], ◌∷◌,
  ◌++◌, arith, ltb, ◌==◌, if◌then◌else◌, max, Bool-cases, take, length, length-append,
}
use mathlib.Core.List.{append-nil, append_assoc}
use tend.Core.Tail.{Text}
use tend.Jobs.Capture.{head_of}
use tend.Jobs.Failure.{truncation_marker}

pub record CappedBuffer : Type 0 where
  pub buf : Text
  pub truncated : Bool

abbrev pub fresh : CappedBuffer
fresh = record { buf = []; truncated = false }

unfoldable pub without_nuls : Text → Text
without_nuls [] = []
without_nuls (c ∷ p) = let rest = without_nuls p in if c == 0 then rest else c ∷ rest

-- Write, to a buffer that keeps `size` bytes.
unfoldable pub write : ℕ → CappedBuffer → Text → CappedBuffer
unfolding without_nuls
write size c p =
    let kept = without_nuls p in
    let room = size - length c.buf in
    if ltb 0 room
    then (if ltb room (length kept)
        then record { buf = c.buf ++ take room kept; truncated = true }
        else record { buf = c.buf ++ kept; truncated = c.truncated })
    else record c { truncated = if ltb 0 (length kept) then true else c.truncated }

unfoldable pub write_all : ℕ → CappedBuffer → List Text → CappedBuffer
unfolding write
write_all size c [] = c
write_all size c (p ∷ ps) = write_all size (write size c p) ps

-- secretMargin: the length of the longest secret.
unfoldable pub secret_margin : List Text → ℕ
secret_margin [] = 0
secret_margin (v ∷ vs) = max (length v) (secret_margin vs)

-- shellOutput, with the bytes that are shown (maxOutputBytes) an argument.
unfoldable pub shell_output : ℕ → CappedBuffer → List Text → Text
shell_output shown c secrets =
    if c.truncated then (head_of c.buf shown secrets true).0 ++ truncation_marker else c.buf

unfoldable pub joined_output : List Text → Text
joined_output [] = []
joined_output (p ∷ ps) = p ++ joined_output ps

take-nil : (m : ℕ) → take {A = ℕ} m [] ≡ []
take-nil zero = refl
take-nil (suc m) = refl

take-append : (m : ℕ) (t p : Text) → take m (t ++ p) ≡ take m t ++ take (m - length t) p
take-append m [] p = let e : m - 0 ≡ m = omega arith in rw (e, take-nil m) refl
take-append zero (c ∷ t) p = let e : 0 - suc (length t) ≡ 0 = omega arith in rw e refl
take-append (suc m) (c ∷ t) p =
    let e : suc m - suc (length t) ≡ m - length t = omega arith in
    rw e (ap (λ s. c ∷ s) (take-append m t p))

length-take : (m : ℕ) (t : Text) → m - length (take m t) ≡ m - length t
length-take zero t = omega arith
length-take (suc m) [] = refl
length-take (suc m) (c ∷ t) = omega (arith, length-take m t)

take-short : (m : ℕ) (t : Text) → length t ≤ m → take m t ≡ t
take-short zero [] h = refl
take-short zero (c ∷ t) h = absurd (omega (arith, h))
take-short (suc m) [] h = refl
take-short (suc m) (c ∷ t) h = ap (λ s. c ∷ s) (take-short m t (omega (arith, h)))

-- The buffer when `t` was printed.
abbrev pub holding : ℕ → Text → CappedBuffer
holding size t = record { buf = take size t; truncated = ltb size (length t) }

write-holding :
    (size : ℕ) (t p : Text) → write size (holding size t) p ≡ holding size (t ++ without_nuls p)
unfolding write
write-holding size t p =
    let kept = without_nuls p in
    let room = length-take size t in
    let both = take-append size t kept in
    let long = length-append t kept in
    elim (Bool-cases (ltb 0 (size - length t))) [
      | inr full ↦
          let e : size - length t ≡ 0 = ground arith in
          let none_more : take (size - length t) kept ≡ [] = rw e refl in
          let cut : ltb size (length t + length kept)
              ≡ (if ltb 0 (length kept) then true else ltb size (length t)) =
            ground arith in
          rw (room, full, both, none_more, append-nil (take size t), long, cut) refl
      | inl free ↦ elim (Bool-cases (ltb (size - length t) (length kept))) [
        | inl more ↦
            let cut : ltb size (length t + length kept) ≡ true = ground arith in
            rw (room, free, more, both, long, cut) refl
        | inr fits ↦
            let all = take-short (size - length t) kept (ground arith) in
            let same : ltb size (length t) ≡ ltb size (length t + length kept) = ground arith in
            rw (room, free, fits, both, all, long, same) refl
      ]
    ]

without_nuls-append : (p q : Text) → without_nuls (p ++ q) ≡ without_nuls p ++ without_nuls q
unfolding without_nuls
without_nuls-append [] q = refl
without_nuls-append (c ∷ p) q = ground (arith, without_nuls-append p q)

write_all-from :
    (size : ℕ) (t : Text) (ps : List Text)
    → write_all size (holding size t) ps ≡ holding size (t ++ without_nuls (joined_output ps))
unfolding write_all joined_output without_nuls
write_all-from size t [] = sym (ap (holding size) (append-nil t))
write_all-from size t (p ∷ ps) = rw (write-holding size t p) (
    write_all-from size (t ++ without_nuls p) ps
    ∙ ap (holding size) (
        append_assoc t (without_nuls p) (without_nuls (joined_output ps))
        ∙ ap (λ s. t ++ s) (sym (without_nuls-append p (joined_output ps)))))

-- However what a process prints is split into writes, the buffer holds the first `size` bytes of it
-- without its NULs, and is truncated exactly if there were more.
pub write_all-holding :
    (size : ℕ) (ps : List Text)
    → write_all size fresh ps ≡ holding size (without_nuls (joined_output ps))
write_all-holding size ps =
    let empty_take = take-nil size in
    let fits : ltb size 0 ≡ false = ground arith in
    let start : fresh ≡ holding size [] = rw (empty_take, fits) refl in
    rw start (write_all-from size [] ps)
