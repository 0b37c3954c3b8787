-- ===== src/Runner/Tick/Unreadable.antt =====
-- What recording the failed runs of unreadable jobs does to the runs and to the rows of the jobs.
use Prim.Native.String.{String}
use tend.Prelude.{
  ℕ, ◌≡◌, inl, inr, refl, ap, ◌∙◌, subst, Bool, true, false, ◌&&◌, Option, none, some, List, [],
  ◌∷◌, arith, if◌then◌else◌, Bool-cases, Option-cases, any,
}
use tend.Core.Tail.{Text}
use tend.Clock.{Time, zero_time}
use tend.Event.{Event, event_job_id}
use tend.Store.Schema.{Db, JobRow}
use tend.Store.Table.{update_where, In, In-update_where}
use tend.Store.Streak.{is_job, streak_of, begins_streak, extends_streak}
use tend.Store.Emit.{insert_event, as_recorded, stamped, record_event, emit_event}
use tend.Store.Emit.Definitions.{enqueue_deliveries-jobs, streak_of-cases}
use tend.Store.Emit.Laws.{emit_event-Recorded}
use tend.Store.Runs.{fail_unreadable_job, insert_run, unreadable_run, unreadable_event, unscheduled}
use tend.Runner.Tick.{tick_unreadable}
use tend.Runner.Tick.Loop.{active_of, active_of-append}

-- A row is one that was there, with its job.
abbrev From : List JobRow → JobRow → Type 0
From rows y = (x : JobRow) × In x rows × (y.job ≡ x.job)

update-From :
    (p : JobRow → Bool) (f : JobRow → JobRow) (rows : List JobRow) (y : JobRow)
    → ((x : JobRow) → (f x).job ≡ x.job)
    → In y (update_where p f rows)
    → From rows y
update-From p f rows y k i =
    let (x, j, e) = In-update_where p f y rows i in
    elim (Bool-cases (p x)) [
      | inl t ↦ let is_f : y ≡ f x = rw t at e in (x, j, ap (λ (z : JobRow). z.job) is_f ∙ k x)
      | inr n ↦ let is_x : y ≡ x = rw n at e in (x, j, ap (λ (z : JobRow). z.job) is_x)
    ]

streak_of-jobs :
    (db : Db) (e : Event) (at : Time) (y : JobRow)
    → In y (streak_of db e at).0.jobs
    → From db.jobs y
streak_of-jobs db e at y i =
    let here = is_job e.org_id (event_job_id e) in
    elim (streak_of-cases db e at) [
      | inl s ↦ (y, subst (In y) s i, refl)
      | inr (inl s) ↦ update-From here (begins_streak at) db.jobs y (λ x. refl) (subst (In y) s i)
      | inr (inr s) ↦ update-From here (extends_streak at) db.jobs y (λ x. refl) (subst (In y) s i)
    ]

record_event-jobs :
    (wall : Time) (db : Db) (e : Event) (y : JobRow)
    → In y (record_event wall db e).0.jobs
    → From db.jobs y
unfolding record_event insert_event
record_event-jobs wall db e y i =
    let e' = stamped wall e in
    let (db', (job, s)) = streak_of db e' e'.created_at in
    let r = as_recorded wall db e in
    streak_of-jobs db e' e'.created_at y
      (subst (In y) (enqueue_deliveries-jobs wall (insert_event db' r) r job s) i)

fail_unreadable_job-active :
    (k : ℕ) (wall : Time) (db : Db) (org job : ℕ) (name : String) (output : Text)
    → active_of k (fail_unreadable_job wall db org job name output).0.runs ≡ active_of k db.runs
unfolding fail_unreadable_job insert_run emit_event active_of
fail_unreadable_job-active k wall db org job name output =
    let id = db.next_run_id in
    let run = unreadable_run wall id org job output in
    let rows =
      emit_event-Recorded wall (insert_run db run) (unreadable_event id org job name output) in
    ap (active_of k) rows.runs ∙ active_of-append k db.runs run ∙ ground arith

-- A row after that is one before it, off the schedule if it is the job's and with its own job if not.
fail_unreadable_job-jobs :
    (wall : Time) (db : Db) (org job : ℕ) (name : String) (output : Text) (y : JobRow)
    → In y (fail_unreadable_job wall db org job name output).0.jobs
    → (x : JobRow) × In x db.jobs
      × (y.job ≡ (if is_job org job x then record x.job { next_run_at = zero_time } else x.job))
unfolding fail_unreadable_job insert_run
fail_unreadable_job-jobs wall db org job name output y i =
    let id = db.next_run_id in
    let a = insert_run db (unreadable_run wall id org job output) in
    let ev = unreadable_event id org job name output in
    let (z, j, e) =
      In-update_where (is_job org job) unscheduled y (record_event wall a ev).0.jobs i in
    let (x, k, f) = record_event-jobs wall a ev z j in (x, k, ground arith)

abbrev pub is_some : Option Text → Bool
is_some none = false
is_some (some o) = true

abbrev pub is_one_of_bad : (JobRow → Option Text) → List JobRow → JobRow → Bool
is_one_of_bad unreadable js x = any (λ j. is_some (unreadable j) && is_job j.org_id j.id x) js

pub is_one_of_bad-same :
    (unreadable : JobRow → Option Text) (js : List JobRow) (x z : JobRow)
    → x.org_id ≡ z.org_id
    → x.id ≡ z.id
    → is_one_of_bad unreadable js x ≡ is_one_of_bad unreadable js z
is_one_of_bad-same unreadable [] x z o i = refl
is_one_of_bad-same unreadable (j ∷ js) x z o i =
    rw (o, i, is_one_of_bad-same unreadable js x z o i) refl

module _ (unreadable : JobRow → Option Text) where
  pub tick_unreadable-active :
      (k : ℕ) (wall : Time) (js : List JobRow) (db : Db)
      → active_of k (tick_unreadable unreadable wall js db).runs ≡ active_of k db.runs
  unfolding tick_unreadable
  tick_unreadable-active k wall [] db = refl
  tick_unreadable-active k wall (j ∷ js) db = elim (Option-cases (unreadable j)) [
    | inl n ↦ rw (n, tick_unreadable) (tick_unreadable-active k wall js db)
    | inr (o, e) ↦
        let db' = (fail_unreadable_job wall db j.org_id j.id j.name o).0 in
        rw (e, tick_unreadable)
          (tick_unreadable-active k wall js db'
            ∙ fail_unreadable_job-active k wall db j.org_id j.id j.name o)
  ]

  -- After the loop a row is one before it, off the schedule if it is that of an unreadable job of
  -- the list, and with its own job if it is of none.
  pub tick_unreadable-jobs :
      (wall : Time) (js : List JobRow) (db : Db) (y : JobRow)
      → In y (tick_unreadable unreadable wall js db).jobs
      → (x : JobRow) × In x db.jobs
        × (y.job ≡ (
            if is_one_of_bad unreadable js x
            then record x.job { next_run_at = zero_time }
            else x.job))
  unfolding tick_unreadable
  tick_unreadable-jobs wall [] db y i = (y, i, refl)
  tick_unreadable-jobs wall (j ∷ js) db y i = elim (Option-cases (unreadable j)) [
    | inl n ↦
        let same : tick_unreadable unreadable wall (j ∷ js) db
            ≡ tick_unreadable unreadable wall js db =
          ground arith in
        let (x, k, e) =
          tick_unreadable-jobs wall js db y (subst (λ (d : Db). In y d.jobs) same i) in
        (x, k, ground arith)
    | inr (o, e) ↦
        let db' = (fail_unreadable_job wall db j.org_id j.id j.name o).0 in
        let same : tick_unreadable unreadable wall (j ∷ js) db
            ≡ tick_unreadable unreadable wall js db' =
          ground arith in
        let (x, k, q) =
          tick_unreadable-jobs wall js db' y (subst (λ (d : Db). In y d.jobs) same i) in
        let (z, l, r) = fail_unreadable_job-jobs wall db j.org_id j.id j.name o x k in
        let org : x.org_id ≡ z.org_id = ground arith in
        let id : x.id ≡ z.id = ground arith in
        let bad = is_one_of_bad-same unreadable js x z org id in (z, l, ground arith)
  ]
