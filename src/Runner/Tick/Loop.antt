-- ===== src/Runner/Tick/Loop.antt =====
-- What the loops of a tick do to the runs and to the rows of the jobs.
use Prim.Native.String.{String}
use tend.Prelude.{
  ℕ, ◌+◌, ◌≡◌, ◌≢◌, inl, inr, refl, sym, ap, ◌∙◌, subst, Bool, true, false, ◌&&◌, ◌||◌, Option,
  none, some, List, [], ◌∷◌, ◌++◌, arith, if◌then◌else◌, ◌==◌, Bool-cases, Option-cases, All, any,
}
use tend.Clock.{Time, zero_time}
use tend.Jobs.{Run, is_active}
use tend.Jobs.Schedule.{next_run}
use tend.Store.Schema.{Db, JobRow}
use tend.Store.Table.{update_where, In, In-update_where, In-updated}
use tend.Store.Deliveries.Claim.{In-any}
use tend.Store.Runs.Claim.{All-In}
use tend.Store.Streak.{is_job}
use tend.Store.JobRows.{update_job, set_job}
use tend.Store.Runs.{enqueue_run, insert_run}
use tend.Runner.Tick.{
  TickError, save_next, tick_job, tick_jobs, with_next, first, compute_next_run, clear_schedule,
  advance_schedule,
}

abbrev pub one_if : Bool → ℕ
one_if b = if b then 1 else 0

-- How many runs of a job are pending or running.
unfoldable pub active_of : ℕ → List Run → ℕ
active_of k [] = 0
active_of k (r ∷ rs) = one_if ((r.job_id == k) && is_active r.status) + active_of k rs

pub active_of-append :
    (k : ℕ) (rs : List Run) (r : Run)
    → active_of k (rs ++ r ∷ []) ≡ active_of k rs + one_if ((r.job_id == k) && is_active r.status)
unfolding active_of
active_of-append k [] r = omega arith
active_of-append k (x ∷ rs) r = omega (arith, active_of-append k rs r)

-- How many jobs of the list have the id.
unfoldable pub having : ℕ → List JobRow → ℕ
having k [] = 0
having k (j ∷ js) = one_if (j.id == k) + having k js

enqueue_run-active :
    (k : ℕ) (wall : Time) (db : Db) (org job : ℕ)
    → active_of k (enqueue_run wall db org job).0.runs ≡ active_of k db.runs + one_if (job == k)
unfolding enqueue_run insert_run
enqueue_run-active k wall db org job = active_of-append k db.runs _ ∙ ground arith

save_next-runs :
    (wall t : Time) (j : JobRow) (step : TickError) (db : Db) (err : Option TickError)
    → (save_next wall t j step db err).0.runs ≡ db.runs
unfolding save_next update_job
save_next-runs wall t j step db err = ground arith

-- The next time that a job gets: never, where it has none.
abbrev pub scheduled : (String → Time → Option Time) → Time → JobRow → Time
scheduled cron_next now j = elim (next_run cron_next j.job now) [ none ↦ zero_time | some t ↦ t ]

-- The row of a job that a tick found due.
abbrev pub ticked : (String → Time → Option Time) → Time → Time → JobRow → JobRow
ticked cron_next wall now j = set_job wall (with_next (scheduled cron_next now j) j) j

-- No two rows have one id.
abbrev pub Apart : List JobRow → Type 0
Apart [] = Unit
Apart (j ∷ js) = All (λ (i : JobRow). j.id ≢ i.id) js × Apart js

-- The rows of the jobs of the list, which are there, are as they are in the list.
abbrev pub Current : List JobRow → List JobRow → Type 0
Current js rows =
    (j : JobRow)
    → In j js
    → In j rows × ((x : JobRow) → In x rows → is_job j.org_id j.id x ≡ true → x ≡ j)

abbrev pub is_one_of : List JobRow → JobRow → Bool
is_one_of js x = any (λ j. is_job j.org_id j.id x) js

module _ {A : Type 0} where
  update_where-ext :
      (p : A → Bool) (f g : A → A) (xs : List A)
      → ((x : A) → In x xs → p x ≡ true → f x ≡ g x)
      → update_where p f xs ≡ update_where p g xs
  update_where-ext p f g [] h = refl
  update_where-ext p f g (x ∷ xs) h =
      let rest = update_where-ext p f g xs (λ y i. h y (inr i)) in
      elim (Bool-cases (p x)) [
        | inl t ↦ let e = h x (inl refl) t in rw (t, e, rest) refl
        | inr n ↦ rw (n, rest) refl
      ]

  -- Two updates with one function, of rows that the other leaves alone.
  update_where-twice :
      (p q : A → Bool) (f : A → A) (xs : List A)
      → ((x : A) → In x xs → p x ≡ true → q (f x) ≡ false)
      → update_where q f (update_where p f xs) ≡ update_where (λ x. p x || q x) f xs
  update_where-twice p q f [] h = refl
  update_where-twice p q f (x ∷ xs) h =
      let rest = update_where-twice p q f xs (λ y i. h y (inr i)) in
      elim (Bool-cases (p x)) [
        | inl t ↦ let e = h x (inl refl) t in rw (t, e, rest) refl
        | inr n ↦ rw (n, rest) refl
      ]

save_next-jobs :
    (wall t : Time) (j : JobRow) (step : TickError) (db : Db) (err : Option TickError)
    → In j db.jobs
    → (save_next wall t j step db err).0.jobs
      ≡ update_where (is_job j.org_id j.id) (set_job wall (with_next t j)) db.jobs
unfolding save_next update_job
save_next-jobs wall t j step db err i =
    let there = In-any (is_job j.org_id j.id) j db.jobs i (ground arith) in ground arith

update_where-never : {A : Type 0} (f : A → A) (xs : List A) → update_where (λ x. false) f xs ≡ xs
update_where-never f [] = refl
update_where-never f (x ∷ xs) = ap (λ ys. x ∷ ys) (update_where-never f xs)

not-one_of :
    (js : List JobRow) (x : JobRow)
    → ((k : JobRow) → In k js → is_job k.org_id k.id x ≡ false)
    → is_one_of js x ≡ false
not-one_of [] x h = refl
not-one_of (j ∷ js) x h = ground (arith, not-one_of js x (λ k i. h k (inr i)), h j (inl refl))

-- A row of the job `j` is one of no job with another id.
is_job-apart :
    (j : JobRow) (js : List JobRow) (x : JobRow)
    → All (λ (i : JobRow). j.id ≢ i.id) js
    → is_job j.org_id j.id x ≡ true
    → (k : JobRow) → In k js
    → is_job k.org_id k.id x ≡ false
is_job-apart j js x a t k m =
    let other = All-In (λ (i : JobRow). j.id ≢ i.id) js a k m in ground arith

module _ (cron_next : String → Time → Option Time) where
  tick_job-saves :
      (wall now : Time) (j : JobRow) (db : Db) (err : Option TickError)
      → (step : TickError) × (e : Option TickError) × (tick_job cron_next wall now j db err
          ≡ save_next wall
              (scheduled cron_next now j)
              j
              step
              (enqueue_run wall db j.org_id j.id).0
              e)
  unfolding tick_job
  tick_job-saves wall now j db err = elim (Option-cases (next_run cron_next j.job now)) [
    | inl n ↦ (clear_schedule, first err compute_next_run, ground arith)
    | inr (t, e) ↦ (advance_schedule, err, ground arith)
  ]

  tick_job-active :
      (k : ℕ) (wall now : Time) (j : JobRow) (db : Db) (err : Option TickError)
      → active_of k (tick_job cron_next wall now j db err).0.runs
        ≡ active_of k db.runs + one_if (j.id == k)
  tick_job-active k wall now j db err =
      let (step, e, saved) = tick_job-saves wall now j db err in
      let queued = (enqueue_run wall db j.org_id j.id).0 in
      rw (saved, save_next-runs wall (scheduled cron_next now j) j step queued e)
        (enqueue_run-active k wall db j.org_id j.id)

  pub tick_jobs-active :
      (k : ℕ) (wall now : Time) (js : List JobRow) (db : Db) (err : Option TickError)
      → active_of k (tick_jobs cron_next wall now js db err).0.runs
        ≡ active_of k db.runs + having k js
  unfolding tick_jobs having
  tick_jobs-active k wall now [] db err = omega arith
  tick_jobs-active k wall now (j ∷ js) db err =
      let (db', err') = tick_job cron_next wall now j db err in
      let one = tick_job-active k wall now j db err in
      omega (arith, one, tick_jobs-active k wall now js db' err')

  tick_job-jobs :
      (wall now : Time) (j : JobRow) (db : Db) (err : Option TickError)
      → In j db.jobs
      → ((x : JobRow) → In x db.jobs → is_job j.org_id j.id x ≡ true → x ≡ j)
      → (tick_job cron_next wall now j db err).0.jobs
        ≡ update_where (is_job j.org_id j.id) (ticked cron_next wall now) db.jobs
  unfolding enqueue_run insert_run
  tick_job-jobs wall now j db err i u =
      let (step, e, saved) = tick_job-saves wall now j db err in
      let queued = (enqueue_run wall db j.org_id j.id).0 in
      let t = scheduled cron_next now j in
      rw saved (
        save_next-jobs wall t j step queued e i
        ∙ update_where-ext (is_job j.org_id j.id) (set_job wall (with_next t j))
            (ticked cron_next wall now) db.jobs
            (λ x m s.
              ap (λ (y : JobRow). set_job wall (with_next (scheduled cron_next now y) y) x)
                (sym (u x m s))))

  Current-rest :
      (wall now : Time) (j : JobRow) (js rows : List JobRow)
      → Apart (j ∷ js)
      → Current (j ∷ js) rows
      → Current js (update_where (is_job j.org_id j.id) (ticked cron_next wall now) rows)
  Current-rest wall now j js rows a c k m =
      let p = is_job j.org_id j.id in
      let f = ticked cron_next wall now in
      let other = All-In (λ (i : JobRow). j.id ≢ i.id) js a.0 k m in
      let (i, u) = c k (inr m) in
      let passed : p k ≡ false = ground arith in
      (
        subst (λ z. In z (update_where p f rows)) (rw passed refl) (In-updated p f k rows i),
        λ x h t.
            let (y, n, e) = In-update_where p f x rows h in
            elim (Bool-cases (p y)) [
              | inl s ↦
                  let is_f : x ≡ f y = rw s at e in
                  let id = ap (λ (z : JobRow). z.id) is_f in absurd (ground arith)
              | inr s ↦
                  let is_y : x ≡ y = rw s at e in
                  is_y ∙ u y n (subst (λ z. is_job k.org_id k.id z ≡ true) is_y t)
            ],
      )

  pub tick_jobs-jobs :
      (wall now : Time) (js : List JobRow) (db : Db) (err : Option TickError)
      → Apart js
      → Current js db.jobs
      → (tick_jobs cron_next wall now js db err).0.jobs
        ≡ update_where (is_one_of js) (ticked cron_next wall now) db.jobs
  unfolding tick_jobs
  tick_jobs-jobs wall now [] db err a c =
      sym (update_where-never (ticked cron_next wall now) db.jobs)
  tick_jobs-jobs wall now (j ∷ js) db err a c =
      let p = is_job j.org_id j.id in
      let (db', err') = tick_job cron_next wall now j db err in
      let (i, u) = c j (inl refl) in
      let one = tick_job-jobs wall now j db err i u in
      let left : Current js db'.jobs =
        subst (Current js) (sym one) (Current-rest wall now j js db.jobs a c) in
      let rest = tick_jobs-jobs wall now js db' err' a.1 left in
      rest
      ∙ ap (update_where (is_one_of js) (ticked cron_next wall now)) one
      ∙ update_where-twice p (is_one_of js) (ticked cron_next wall now) db.jobs
          (λ x m t. not-one_of js (ticked cron_next wall now x) (is_job-apart j js x a.0 t))
