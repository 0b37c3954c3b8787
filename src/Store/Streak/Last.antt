-- ===== src/Store/Streak/Last.antt =====
-- The outcome of a job until now: its run that ended last.
use tend.Prelude.{
  ◌≡◌, refl, ◌∙◌, subst, ap, none, some, Bool, true, false, List, [], ◌∷◌, arith, if◌then◌else◌,
  find, select, Bool-cases, Option-cases, ◌⊎◌, inl, inr,
}
use tend.Store.Pings.Keys.{Unique}
use tend.Jobs.{Run}
use tend.Store.Table.{In, In-select, find-In}
use tend.Store.Streak.{latest, ended_after, previous_run_status, is_run, finished_before}

latest-none : (ps : List Run) (q : Run) → latest ps ≡ none → ¬ In q ps
unfolding latest
latest-none [] q e i = elim i [ ]
latest-none (x ∷ xs) q e i = elim (Option-cases (latest xs)) [
  | inl n ↦ ground arith
  | inr (y, f) ↦ ground arith
]

ended_after_refl : (p : Run) → ended_after p p ≡ false
ended_after_refl p = ground arith

ended_after_trans :
    (q y x : Run) → ended_after q y ≡ false → ended_after x y ≡ true → ended_after q x ≡ false
ended_after_trans q y x h k = ground arith

-- The later of a run and the last of the others.
later-last :
    (x y : Run) (xs : List Run)
    → ((q : Run) → In q xs → ended_after q y ≡ false)
    → (q : Run) → (q ≡ x) ⊎ In q xs
    → ended_after q (if ended_after x y then x else y) ≡ false
later-last x y xs last q i = elim (Bool-cases (ended_after x y)) [
  | inl t ↦
      rw t (elim i [
        | inl e ↦ rw e (ended_after_refl x)
        | inr j ↦ ended_after_trans q y x (last q j) t
      ])
  | inr n ↦ rw n (elim i [ inl e ↦ rw e n | inr j ↦ last q j ])
]

later-In :
    (x y : Run) (xs : List Run)
    → In y xs
    → ((if ended_after x y then x else y) ≡ x) ⊎ In (if ended_after x y then x else y) xs
later-In x y xs i = elim (Bool-cases (ended_after x y)) [
  | inl t ↦ rw t (inl refl)
  | inr n ↦ rw n (inr i)
]

-- What `latest` finds is a row that no other ended after.
latest-last :
    (ps : List Run) (p : Run)
    → latest ps ≡ some p
    → In p ps × ((q : Run) → In q ps → ended_after q p ≡ false)
unfolding latest
latest-last [] p e = ground arith
latest-last (x ∷ xs) p e = elim (Option-cases (latest xs)) [
  | inl n ↦
      let same : p ≡ x = ground arith in
      (
        inl same,
        λ q i. elim i [
          | inl d ↦ rw (d, same) (ended_after_refl x)
          | inr j ↦ absurd (latest-none xs q n j)
        ],
      )
  | inr (y, f) ↦
      let (i, last) = latest-last xs y f in
      let same : (if ended_after x y then x else y) ≡ p = ground arith in
      subst (λ z. In z (x ∷ xs) × ((q : Run) → In q (x ∷ xs) → ended_after q z ≡ false)) same
        (later-In x y xs i, later-last x y xs last)
]

In-selected : (f : Run → Bool) (p : Run) (ps : List Run) → In p ps → f p ≡ true → In p (select f ps)
In-selected f p [] i t = elim i [ ]
In-selected f p (x ∷ xs) (inl e) t = let h = subst (λ z. f z ≡ true) e t in rw h (inl e)
In-selected f p (x ∷ xs) (inr i) t = elim (Bool-cases (f x)) [
  | inl y ↦ rw y (inr (In-selected f p xs i t))
  | inr n ↦ rw n (In-selected f p xs i t)
]

-- Two rows of which neither ended after the other are one, where ids are unique.
ended-same : (p q : Run) → ended_after p q ≡ false → ended_after q p ≡ false → p.id ≡ q.id
ended-same p q h k = ground arith

-- The row `p` is the last of those that `f` selects: none of them ended after it.
abbrev pub IsLast : (Run → Bool) → List Run → Run → Type 0
IsLast f runs p =
    In p runs × (f p ≡ true) × ((q : Run) → In q runs → f q ≡ true → ended_after q p ≡ false)

latest-IsLast :
    (f : Run → Bool) (runs : List Run) (p : Run)
    → Unique (λ (x y : Run). x.id ≡ y.id) runs
    → IsLast f runs p
    → latest (select f runs) ≡ some p
latest-IsLast f runs p u (i, t, last) = elim (Option-cases (latest (select f runs))) [
  | inl n ↦ absurd (latest-none (select f runs) p n (In-selected f p runs i t))
  | inr (q, e) ↦
      let (j, top) = latest-last (select f runs) q e in
      let (j', s) = In-select f q runs j in
      let same : q ≡ p =
        u q p j' i (ended-same q p (last q j' s) (top p (In-selected f p runs i t))) in
      e ∙ ap some same
]

latest-unselected :
    (f : Run → Bool) (runs : List Run)
    → ((q : Run) → In q runs → f q ≡ false)
    → latest (select f runs) ≡ none
latest-unselected f runs h = elim (Option-cases (latest (select f runs))) [
  | inl n ↦ n
  | inr (q, e) ↦
      let (j, top) = latest-last (select f runs) q e in
      let (j', s) = In-select f q runs j in absurd (let no = h q j' in ground arith)
]

find-absent :
    (f : Run → Bool) (runs : List Run) (r : Run) → find f runs ≡ none → In r runs → f r ≡ false
find-absent f [] r n i = elim i [ ]
find-absent f (x ∷ xs) r n (inl e) = ground arith
find-absent f (x ∷ xs) r n (inr i) = ground (arith, find-absent f xs r)

find-run :
    (runs : List Run) (r : Run)
    → Unique (λ (x y : Run). x.id ≡ y.id) runs
    → In r runs
    → find (is_run r.id) runs ≡ some r
find-run runs r u i = elim (Option-cases (find (is_run r.id) runs)) [
  | inl n ↦ absurd (let no = find-absent (is_run r.id) runs r n i in ground arith)
  | inr (q, e) ↦
      let (j, t) = find-In (is_run r.id) q runs e in e ∙ ap some (u q r j i (ground arith))
]

-- The status of a job's previous outcome is that of the finished run that ended last before a run
-- of the job, and there is none if no other run of the job has finished.
pub previous_run_status-last :
    (runs : List Run) (r p : Run)
    → Unique (λ (x y : Run). x.id ≡ y.id) runs
    → In r runs
    → IsLast (finished_before r) runs p
    → previous_run_status runs r.id ≡ some p.status
unfolding previous_run_status
previous_run_status-last runs r p u i last =
    let found = find-run runs r u i in
    let top = latest-IsLast (finished_before r) runs p u last in ground arith
