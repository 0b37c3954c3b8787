-- ===== src/Jobs/Capture/Shell.antt =====
-- A shell job's output as its run keeps it before redaction.
use tend.Prelude.{
  ℕ, zero, suc, ◌+◌, ◌≤◌, ◌<◌, ◌≡◌, inl, inr, refl, ap, true, List, [], ◌∷◌, ◌++◌, arith, ltb, take,
  length,
}
use tend.Core.Tail.{Text}
use tend.Store.Table.{In}
use tend.Jobs.Failure.{truncation_marker}
use tend.Jobs.Capture.Scan.{window_shows}
use tend.Jobs.Capture.Buffer.{
  fresh, without_nuls, joined_output, write_all, write_all-holding, shell_output, secret_margin,
}
use tend.Jobs.Capture.Whole.{Across, head_of-whole}

secret_margin-longest :
    (v : Text) (secrets : List Text) → In v secrets → length v ≤ secret_margin secrets
unfolding secret_margin
secret_margin-longest v [] i = elim i [ ]
secret_margin-longest v (x ∷ xs) (inl e) = let l = ap length e in ground arith
secret_margin-longest v (x ∷ xs) (inr i) = ground (arith, secret_margin-longest v xs i)

take-take : (m n : ℕ) (s : Text) → m ≤ n → take m (take n s) ≡ take m s
take-take zero n s h = refl
take-take (suc m) zero s h = absurd (omega (arith, h))
take-take (suc m) (suc n) [] h = refl
take-take (suc m) (suc n) (c ∷ s) h = ap (λ t. c ∷ t) (take-take m n s (omega (arith, h)))

-- Where a secret of two bytes or more stands in what a shell job printed, without its NULs and however
-- it was split into writes, across the end of what is shown, and more was printed than is kept, what
-- is handed on to be redacted is the start of it with that secret whole, and the marker.
pub shell_output-whole :
    (shown p : ℕ) (v : Text) (secrets ps : List Text)
    → In v secrets
    → Across (without_nuls (joined_output ps)) v shown p
    → shown + secret_margin secrets < length (without_nuls (joined_output ps))
    → (m : ℕ) × (shell_output shown (write_all (shown + secret_margin secrets) fresh ps) secrets
        ≡ take m (without_nuls (joined_output ps)) ++ truncation_marker)
      × (p + length v ≤ m)
unfolding shell_output
shell_output-whole shown p v secrets ps i c more =
    let s = without_nuls (joined_output ps) in
    let size = shown + secret_margin secrets in
    let fits = secret_margin-longest v secrets i in
    let before = c.before in
    let kept : Across (take size s) v shown p = record {
      long = c.long;
      before = c.before;
      past = c.past;
      stands = window_shows p size s v (omega (arith, fits, before)) c.stands;
    } in
    let (m, shows, whole, one) = head_of-whole (take size s) v shown p secrets true i kept in
    let (w, j, q, l, t, e) = one in
    let short = secret_margin-longest w secrets j in
    let cut : ltb size (length s) ≡ true = ground arith in
    (
      m,
      rw (write_all-holding size ps, cut, shows)
          (ap (λ t. t ++ truncation_marker) (take-take m size s (omega (arith, l, e, short)))),
      whole,
    )
