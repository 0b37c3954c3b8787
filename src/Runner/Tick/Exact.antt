-- ===== src/Runner/Tick/Exact.antt =====
-- What a tick does to every job.
use Prim.Native.String.{String}
use tend.Prelude.{
  ℕ, ◌<◌, ◌≡◌, ◌≢◌, ◌⊎◌, inl, inr, refl, sym, ap, ◌∙◌, subst, Bool, true, false, ◌&&◌, Option, none,
  List, [], ◌∷◌, arith, if◌then◌else◌, ◌==◌, Bool-cases, Option-cases, All, any, select,
}
use tend.Core.Tail.{Text}
use tend.Clock.{Time, zero_time}
use tend.Jobs.{Run, is_active}
use tend.Jobs.Schedule.{next_run, Later, Fits, next_run-later}
use tend.Store.Schema.{Db, JobRow}
use tend.Store.Table.{In, In-select, In-update_where}
use tend.Store.Streak.{is_job}
use tend.Store.Deliveries.Claim.{In-any, In-selected}
use tend.Store.Pings.Reported.{any-true}
use tend.Store.Runs.{is_due_job, due_jobs}
use tend.Store.Runs.Claim.{All-In}
use tend.Notify.Worker.Order.{not-true}
use tend.Runner.Tick.{tick, tick_jobs, is_readable}
use tend.Runner.Tick.Loop.{
  active_of, having, one_if, Apart, Current, is_one_of, scheduled, ticked, tick_jobs-active,
  tick_jobs-jobs,
}
use tend.Runner.Tick.Unreadable.{
  is_some, is_one_of_bad-same, is_one_of_bad, tick_unreadable-active, tick_unreadable-jobs,
}

All-select :
    {A : Type 0} (P : A → Type 0) (p : A → Bool) (xs : List A) → All P xs → All P (select p xs)
All-select P p [] a = tt
All-select P p (x ∷ xs) a = elim (Bool-cases (p x)) [
  | inl t ↦ rw t (a.0, All-select P p xs a.1)
  | inr n ↦ rw n (All-select P p xs a.1)
]

Apart-select : (p : JobRow → Bool) (js : List JobRow) → Apart js → Apart (select p js)
Apart-select p [] a = tt
Apart-select p (j ∷ js) a = elim (Bool-cases (p j)) [
  | inl t ↦ rw t (All-select (λ (i : JobRow). j.id ≢ i.id) p js a.0, Apart-select p js a.1)
  | inr n ↦ rw n (Apart-select p js a.1)
]

-- In such a table, rows of one id are one row.
Apart-same :
    (rows : List JobRow) (x y : JobRow) → Apart rows → In x rows → In y rows → x.id ≡ y.id → x ≡ y
Apart-same [] x y a i j e = elim i [ ]
Apart-same (r ∷ rs) x y a (inl p) (inl q) e = p ∙ sym q
Apart-same (r ∷ rs) x y a (inl p) (inr q) e =
    let n = All-In (λ (i : JobRow). r.id ≢ i.id) rs a.0 y q in
    absurd (n (ap (λ (z : JobRow). z.id) (sym p) ∙ e))
Apart-same (r ∷ rs) x y a (inr p) (inl q) e =
    let n = All-In (λ (i : JobRow). r.id ≢ i.id) rs a.0 x p in
    absurd (n (ap (λ (z : JobRow). z.id) (sym q) ∙ sym e))
Apart-same (r ∷ rs) x y a (inr p) (inr q) e = Apart-same rs x y a.1 p q e

having-none : (k : ℕ) (js : List JobRow) → All (λ (i : JobRow). k ≢ i.id) js → having k js ≡ 0
unfolding having
having-none k [] a = refl
having-none k (j ∷ js) a = let n = a.0 in ground (arith, having-none k js a.1)

having-select :
    (p : JobRow → Bool) (j : JobRow) (js : List JobRow)
    → Apart js
    → In j js
    → having j.id (select p js) ≡ one_if (p j)
unfolding having
having-select p j [] a i = elim i [ ]
having-select p j (x ∷ xs) a (inl e) =
    let k = subst (λ (z : JobRow). All (λ (i : JobRow). z.id ≢ i.id) xs) (sym e) a.0 in
    let rest = having-none j.id (select p xs) (All-select _ p xs k) in
    let same : p x ≡ p j = ap p (sym e) in
    let id : x.id ≡ j.id = ap (λ (z : JobRow). z.id) (sym e) in ground arith
having-select p j (x ∷ xs) a (inr i) =
    let n = All-In (λ (i : JobRow). x.id ≢ i.id) xs a.0 j i in
    ground (arith, having-select p j xs a.1 i)

select-select :
    (p q : JobRow → Bool) (js : List JobRow) → select q (select p js) ≡ select (λ j. p j && q j) js
select-select p q [] = refl
select-select p q (j ∷ js) = ground (arith, select-select p q js)

active_of-none :
    (k : ℕ) (rs : List Run)
    → any (λ r. (r.job_id == k) && is_active r.status) rs ≡ false
    → active_of k rs ≡ 0
unfolding active_of
active_of-none k [] h = refl
active_of-none k (r ∷ rs) h = ground (arith, active_of-none k rs)

false-not : (b : Bool) → b ≡ false → b ≢ true
false-not b h t = ground arith

module _ (cron_next : String → Time → Option Time) (unreadable : JobRow → Option Text) where
  -- A tick leaves a job that was due, and can be read, with exactly one run that is pending or
  -- running, and any other with as many as it had, where no two jobs have one id.
  pub tick-active :
      (wall now : Time) (db : Db) (j : JobRow)
      → Apart db.jobs
      → In j db.jobs
      → active_of j.id (tick cron_next unreadable wall now db).0.runs ≡ (
          if is_due_job db.runs now j && is_readable unreadable j
          then 1
          else active_of j.id db.runs)
  unfolding tick due_jobs
  tick-active wall now db j a i =
      let due = select (is_due_job db.runs now) db.jobs in
      let db' = (tick_jobs cron_next wall now (select (is_readable unreadable) due) db none).0 in
      let bad = tick_unreadable-active unreadable j.id wall due db' in
      let good =
        tick_jobs-active cron_next j.id wall now (select (is_readable unreadable) due) db none in
      let both = select-select (is_due_job db.runs now) (is_readable unreadable) db.jobs in
      let one =
        having-select (λ j. is_due_job db.runs now j && is_readable unreadable j) j db.jobs a i in
      let count : having j.id (select (is_readable unreadable) due)
          ≡ one_if (is_due_job db.runs now j && is_readable unreadable j) =
        ap (having j.id) both ∙ one in
      elim (Bool-cases (is_due_job db.runs now j)) [
        | inr n ↦ ground arith
        | inl t ↦ let idle = active_of-none j.id db.runs (ground arith) in ground arith
      ]

  next_of :
      (wall now : Time) (db : Db) (x x' y : JobRow)
      → Later cron_next
      → Fits x.job
      → is_readable unreadable x ≡ true
      → x' ≡ ticked cron_next wall now x
      → (b : Bool) → y.job ≡ (if b then record x'.job { next_run_at = zero_time } else x'.job)
      → (y.next_run_at ≡ zero_time) ⊎ (now < y.next_run_at)
  next_of wall now db x x' y later fits r e true h = inl (ground arith)
  next_of wall now db x x' y later fits r e false h =
      let same : y.next_run_at ≡ scheduled cron_next now x = ground arith in
      elim (Option-cases (next_run cron_next x.job now)) [
        | inl n ↦ inl (ground arith)
        | inr (t, q) ↦
            let known = next_run-later cron_next later x.job now t fits q in
            let is_t : y.next_run_at ≡ t = ground arith in
            subst (λ u. (u ≡ zero_time) ⊎ (now < u)) (sym is_t) known
      ]

  -- The rows that are looped over are rows of the table.
  Current-good :
      (now : Time) (db : Db)
      → Apart db.jobs
      → Current (select (is_readable unreadable) (select (is_due_job db.runs now) db.jobs)) db.jobs
  Current-good now db a j i =
      let due = select (is_due_job db.runs now) db.jobs in
      let (k, r) = In-select (is_readable unreadable) j due i in
      let (m, t) = In-select (is_due_job db.runs now) j db.jobs k in
      (m, λ x n s. Apart-same db.jobs x j a n m (ground arith))

  z_id :
      (wall now : Time) (x z : JobRow) (b : Bool)
      → z ≡ (if b then ticked cron_next wall now x else x)
      → (z.org_id ≡ x.org_id) × (z.id ≡ x.id)
  z_id wall now x z true f = ground arith
  z_id wall now x z false f = ground arith

  -- A row that is not due has the id of none that is.
  undue :
      (now : Time) (db : Db) (x j : JobRow)
      → Apart db.jobs
      → In x db.jobs
      → is_due_job db.runs now x ≡ false
      → In j (select (is_due_job db.runs now) db.jobs)
      → is_job j.org_id j.id x ≢ true
  undue now db x j a k n i s =
      let (m, t) = In-select (is_due_job db.runs now) j db.jobs i in
      let same = Apart-same db.jobs x j a k m (ground arith) in
      let due : is_due_job db.runs now x ≡ true =
        subst (λ z. is_due_job db.runs now z ≡ true) (sym same) t in
      false-not (is_due_job db.runs now x) n due

  not_good :
      (now : Time) (db : Db) (x : JobRow)
      → Apart db.jobs
      → In x db.jobs
      → is_due_job db.runs now x ≡ false
      → is_one_of (select (is_readable unreadable) (select (is_due_job db.runs now) db.jobs)) x
        ≡ false
  not_good now db x a k n =
      let due = select (is_due_job db.runs now) db.jobs in
      not-true _ λ t.
        let (j, i, s) = any-true (λ j. is_job j.org_id j.id x) _ t in
        undue now db x j a k n (In-select (is_readable unreadable) j due i).0 s

  not_bad :
      (now : Time) (db : Db) (x : JobRow)
      → Apart db.jobs
      → In x db.jobs
      → is_due_job db.runs now x ≡ false
      → is_one_of_bad unreadable (select (is_due_job db.runs now) db.jobs) x ≡ false
  not_bad now db x a k n = not-true _ λ t.
      let (j, i, s) = any-true (λ j. is_some (unreadable j) && is_job j.org_id j.id x) _ t in
      undue now db x j a k n i (ground arith)

  bad_one :
      (x : JobRow) (due : List JobRow)
      → In x due
      → is_readable unreadable x ≡ false
      → is_one_of_bad unreadable due x ≡ true
  bad_one x due i r =
      In-any (λ j. is_some (unreadable j) && is_job j.org_id j.id x) x due i (ground arith)

  -- After a tick each row of a job is one that was there before it, with its id: if the job was due
  -- its next time is now later than that of the tick, or it has none any more, and if it was not
  -- its next time is what it was; where no two jobs have one id, the cron library gives later times
  -- and the intervals fit a duration.
  pub tick-schedule :
      (wall now : Time) (db : Db) (y : JobRow)
      → Apart db.jobs
      → Later cron_next
      → ((x : JobRow) → In x db.jobs → Fits x.job)
      → In y (tick cron_next unreadable wall now db).0.jobs
      → (x : JobRow) × In x db.jobs
        × (y.id ≡ x.id)
        × (is_due_job db.runs now x ≡ false → y.next_run_at ≡ x.next_run_at)
        × (is_due_job db.runs now x ≡ true → (y.next_run_at ≡ zero_time) ⊎ (now < y.next_run_at))
  unfolding tick due_jobs
  tick-schedule wall now db y a later fits i =
      let due = select (is_due_job db.runs now) db.jobs in
      let good = select (is_readable unreadable) due in
      let (z, j, e) =
        tick_unreadable-jobs unreadable wall due (tick_jobs cron_next wall now good db none).0 y
          i in
      let rows =
        tick_jobs-jobs cron_next wall now good db none
          (Apart-select (is_readable unreadable) due
            (Apart-select (is_due_job db.runs now) db.jobs a))
          (Current-good now db a) in
      let (x, k, f) =
        In-update_where (is_one_of good) (ticked cron_next wall now) z db.jobs
          (subst (In z) rows j) in
      let (org, id) = z_id wall now x z (is_one_of good x) f in
      (
        x,
        k,
        ground arith,
        λ n.
            let out = not_good now db x a k n in
            let out' = is_one_of_bad-same unreadable due z x org id ∙ not_bad now db x a k n in
            ground arith,
        λ t. elim (Bool-cases (is_readable unreadable x)) [
          | inl r ↦
              let x_good =
                In-selected (is_readable unreadable) x due
                  (In-selected (is_due_job db.runs now) x db.jobs k t) r in
              let one = In-any (λ g. is_job g.org_id g.id x) x good x_good (ground arith) in
              next_of wall now db x z y later (fits x k) r (rw one at f) _ e
          | inr r ↦
              let x_due = In-selected (is_due_job db.runs now) x db.jobs k t in
              let bad = is_one_of_bad-same unreadable due z x org id ∙ bad_one x due x_due r in
              inl (ground arith)
        ],
      )
