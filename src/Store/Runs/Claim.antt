-- ===== src/Store/Runs/Claim.antt =====
-- Which run a claim takes.
use tend.Prelude.{
  ◌<◌, ◌≤◌, ◌≡◌, ◌≢◌, inl, inr, sym, subst, Bool, true, some, List, [], ◌∷◌, arith, Option-cases,
  find, All,
}
use tend.Clock.{Time}
use tend.Jobs.{Run, Claimant, is_pending}
use tend.Store.Schema.{Db}
use tend.Store.Table.{update_where, In, In-update_where, find-In}
use tend.Store.Streak.{is_run}
use tend.Store.Runs.{claim_run, claimed}

-- The rows stand in the order of their ids.
abbrev pub Ascending : List Run → Type 0
Ascending [] = Unit
Ascending (r ∷ rs) = All (λ (s : Run). r.id < s.id) rs × Ascending rs

pub All-In : {A : Type 0} (P : A → Type 0) (xs : List A) → All P xs → (x : A) → In x xs → P x
All-In P [] a x i = elim i [ ]
All-In P (y ∷ ys) a x (inl e) = subst P (sym e) a.0
All-In P (y ∷ ys) a x (inr i) = All-In P ys a.1 x i

find-oldest :
    (p : Run → Bool) (runs : List Run) (r x : Run)
    → Ascending runs
    → find p runs ≡ some r
    → In x runs
    → p x ≡ true
    → r.id ≤ x.id
find-oldest p [] r x a f i t = elim i [ ]
find-oldest p (y ∷ ys) r x a f (inl e) t = let h = subst (λ z. p z ≡ true) e t in ground arith
find-oldest p (y ∷ ys) r x a f (inr i) t =
    let later = All-In (λ s. y.id < s.id) ys a.0 x i in ground (arith, find-oldest p ys r x a.1)

-- A claim takes the pending run with the least id, of a table in the order of its ids, and the run
-- that it returns is that run, now running, claimed by the worker and started at the time.
pub claim_run-oldest :
    (wall : Time) (worker : Claimant) (db : Db) (r : Db × Run)
    → Ascending db.runs
    → claim_run wall worker db ≡ some r
    → (q : Run) × In q db.runs
      × (is_pending q.status ≡ true)
      × (r.1 ≡ claimed wall worker q)
      × ((x : Run) → In x db.runs → is_pending x.status ≡ true → q.id ≤ x.id)
unfolding claim_run
claim_run-oldest wall worker db r a e =
    let p = λ (x : Run). is_pending x.status in
    elim (Option-cases (find p db.runs)) [
      | inl n ↦ absurd (ground arith)
      | inr (q, f) ↦
          let (i, t) = find-In p q db.runs f in
          (q, i, t, ground arith, λ x j u. find-oldest p db.runs q x a f j u)
    ]

-- Of two claims, one after the other, the second takes another run.
pub claim_run-distinct :
    (wall wall' : Time) (worker worker' : Claimant) (db : Db) (r r' : Db × Run)
    → claim_run wall worker db ≡ some r
    → claim_run wall' worker' r.0 ≡ some r'
    → r'.1.id ≢ r.1.id
unfolding claim_run
claim_run-distinct wall wall' worker worker' db r r' e e' same =
    let p = λ (x : Run). is_pending x.status in
    elim (Option-cases (find p db.runs)) [
      | inl n ↦ absurd (ground arith)
      | inr (q, f) ↦
          let rows : update_where (is_run q.id) (claimed wall worker) db.runs ≡ r.0.runs =
            ground arith in
          let qid : r.1.id ≡ q.id = ground arith in
          elim (Option-cases (find p r.0.runs)) [
            | inl n ↦ absurd (ground arith)
            | inr (q', f') ↦
                let (j, t) = find-In p q' r.0.runs f' in
                let qid' : r'.1.id ≡ q'.id = ground arith in
                let (x, i, d) =
                  In-update_where (is_run q.id) (claimed wall worker) q' db.runs
                    (subst (In q') (sym rows) j) in
                ground arith
          ]
    ]
