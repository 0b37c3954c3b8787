-- ===== src/Store/Emit/Definitions.antt =====
-- What recording an event does to the rows of the jobs: their definitions stay.
use tend.Prelude.{
  ℕ, ◌≡◌, ◌⊎◌, inl, inr, refl, ap, ◌∙◌, Bool, Option, none, some, List, [], ◌∷◌, arith,
  if◌then◌else◌, ◌==◌, Bool-cases, find,
}
use tend.Clock.{Time}
use tend.Event.{Event, Streak, alertable, event_job_id}
use tend.Jobs.{Job}
use tend.Store.Schema.{Db, JobRow}
use tend.Store.Table.{update_where}
use tend.Store.Streak.{is_job, streak_of, begins_streak, extends_streak}
use tend.Store.Pacing.{paced}
use tend.Store.Pacing.Channels.{MatchedChannel, matched_channels}
use tend.Store.Emit.{
  deliver_to, deliver_all, enqueue_deliveries, insert_event, insert_delivery, as_recorded, stamped,
  record_event, emit_event,
}

deliver_to-jobs :
    (wall : Time) (e : Event) (job : ℕ) (s : Streak) (ch : MatchedChannel) (db : Db)
    → (deliver_to wall e job s ch db).jobs ≡ db.jobs
unfolding deliver_to paced insert_delivery
deliver_to-jobs wall e job s ch db = ground arith

deliver_all-jobs :
    (wall : Time) (e : Event) (job : ℕ) (s : Streak) (chs : List MatchedChannel) (db : Db)
    → (deliver_all wall e job s chs db).jobs ≡ db.jobs
unfolding deliver_all
deliver_all-jobs wall e job s [] db = refl
deliver_all-jobs wall e job s (ch ∷ chs) db =
    deliver_all-jobs wall e job s chs (deliver_to wall e job s ch db)
    ∙ deliver_to-jobs wall e job s ch db

pub enqueue_deliveries-jobs :
    (wall : Time) (db : Db) (e : Event) (job : ℕ) (s : Streak)
    → (enqueue_deliveries wall db e job s).jobs ≡ db.jobs
unfolding enqueue_deliveries
enqueue_deliveries-jobs wall db e job s = elim (Bool-cases (alertable e.event_type)) [
  | inl y ↦
      let scoped = if job == 0 then event_job_id e else job in
      rw y (deliver_all-jobs wall e scoped s (matched_channels db e.org_id e.event_type scoped) db)
  | inr n ↦ rw n refl
]

pub streak_of-cases :
    (db : Db) (e : Event) (at : Time)
    → let here = is_job e.org_id (event_job_id e) in
      ((streak_of db e at).0.jobs ≡ db.jobs)
      ⊎ (((streak_of db e at).0.jobs ≡ update_where here (begins_streak at) db.jobs)
          ⊎ ((streak_of db e at).0.jobs ≡ update_where here (extends_streak at) db.jobs))
unfolding streak_of
streak_of-cases db e at = ground arith

-- The definition of a job, in the rows.
abbrev pub definition_in : ℕ → ℕ → List JobRow → Option Job
definition_in org id rows = elim (find (is_job org id) rows) [ none ↦ none | some j ↦ some j.job ]

update-definition :
    (org id : ℕ) (p : JobRow → Bool) (f : JobRow → JobRow) (rows : List JobRow)
    → ((j : JobRow) → (f j).job ≡ j.job)
    → definition_in org id (update_where p f rows) ≡ definition_in org id rows
update-definition org id p f [] k = refl
update-definition org id p f (j ∷ rows) k = ground (arith, k j, update-definition org id p f rows k)

streak_of-definition :
    (org id : ℕ) (db : Db) (e : Event) (at : Time)
    → definition_in org id (streak_of db e at).0.jobs ≡ definition_in org id db.jobs
streak_of-definition org id db e at =
    let here = is_job e.org_id (event_job_id e) in
    elim (streak_of-cases db e at) [
      | inl s ↦ ap (definition_in org id) s
      | inr (inl s) ↦
          ap (definition_in org id) s
          ∙ update-definition org id here (begins_streak at) db.jobs (λ j. refl)
      | inr (inr s) ↦
          ap (definition_in org id) s
          ∙ update-definition org id here (extends_streak at) db.jobs (λ j. refl)
    ]

pub emit_event-definition :
    (org id : ℕ) (wall : Time) (db : Db) (e : Event)
    → definition_in org id (emit_event wall db e).jobs ≡ definition_in org id db.jobs
unfolding emit_event record_event insert_event
emit_event-definition org id wall db e =
    let e' = stamped wall e in
    let (db', (job, s)) = streak_of db e' e'.created_at in
    let r = as_recorded wall db e in
    ap (definition_in org id) (enqueue_deliveries-jobs wall (insert_event db' r) r job s)
    ∙ streak_of-definition org id db e' e'.created_at
