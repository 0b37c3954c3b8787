-- ===== src/Store/Runs/Terminal/Steps.antt =====
-- The operations on the queue, against the runs and their terminal events.
use tend.Prelude.{
  ℕ, suc, ◌≤◌, ◌≡◌, ◌≢◌, inl, inr, refl, ◌∙◌, subst, Bool, false, not, ◌&&◌, some, List, [], ◌∷◌,
  ◌++◌, arith, if◌then◌else◌, ◌==◌, Bool-cases, Option-cases, find,
}
use tend.Clock.{Time}
use tend.Event.{Event}
use tend.Jobs.{Run, Claimant, is_pending, removed_event}
use tend.Store.Schema.{Db}
use tend.Store.Table.{
  update_where, delete_where, In, In-append, In-update_where, In-select, find-In,
}
use tend.Store.Streak.{is_run, is_job}
use tend.Store.Emit.{emit_event}
use tend.Store.Emit.Laws.{emit_event-Recorded}
use tend.Store.Runs.{
  enqueue_run, claim_run, claimed, orphaned, requeued, requeue_orphaned_runs, delete_job,
}
use tend.Store.Pings.Keys.{Unique-update, Unique-delete, Unique-append}
use tend.Store.Runs.Terminal.{is_terminal, told, told-emit_event, due_of, SameRun, Settled, Inv}

-- An update of rows that keeps their ids, with events that agree with what it makes of them.
pub update-Settled :
    (p : Run → Bool) (f : Run → Run) (runs : List Run) (es es' : List Event) (next : ℕ)
    → ((r : Run) → (f r).id ≡ r.id)
    → ((r : Run) → In r runs → told r.id es' ≡ due_of (if p r then f r else r))
    → ((id : ℕ) → told id es' ≤ 1)
    → ((id : ℕ) → next ≤ id → told id es' ≡ 0)
    → Settled runs es next
    → Settled (update_where p f runs) es' next
update-Settled p f runs es es' next keep agree most ahead s = record {
  ids = Unique-update SameRun p f runs (λ x y e. ground (arith, keep x, keep y)) s.ids;
  below =
      λ x i. let (y, j, e) = In-update_where p f x runs i in ground (arith, s.below y j, keep y);
  agrees = λ x i. let (y, j, e) = In-update_where p f x runs i in ground (arith, agree y j, keep y);
  at_most = most;
  none_ahead = ahead;
}

-- A new row with the next id, with events that say what its status does, and nothing of others.
pub append-Settled :
    (r : Run) (runs : List Run) (es es' : List Event) (next : ℕ)
    → r.id ≡ next
    → told next es' ≡ due_of r
    → ((id : ℕ) → id ≢ next → told id es' ≡ told id es)
    → Settled runs es next
    → Settled (runs ++ r ∷ []) es' (suc next)
append-Settled r runs es es' next rid own others s = record {
  ids =
      Unique-append SameRun r runs (λ x i e. ground (arith, s.below x i))
        (λ x i e. ground (arith, s.below x i)) s.ids;
  below = λ x i. elim (In-append x r runs i) [
    | inl j ↦ omega (arith, s.below x j)
    | inr e ↦ ground arith
  ];
  agrees = λ x i. elim (In-append x r runs i) [
    | inl j ↦ ground (arith, s.below x j, others x.id, s.agrees x j)
    | inr e ↦ ground arith
  ];
  at_most = λ id. elim (Bool-cases (id == next)) [
    | inl y ↦ ground (arith, s.at_most id)
    | inr n ↦ ground (arith, s.at_most id, others id)
  ];
  none_ahead = λ id h. ground (arith, others id, s.none_ahead id);
}

pub delete-Settled :
    (p : Run → Bool) (runs : List Run) (es : List Event) (next : ℕ)
    → Settled runs es next
    → Settled (delete_where p runs) es next
delete-Settled p runs es next s = record {
  ids = Unique-delete SameRun p runs s.ids;
  below = λ x i. s.below x (In-select (λ z. not (p z)) x runs i).0;
  agrees = λ x i. s.agrees x (In-select (λ z. not (p z)) x runs i).0;
  at_most = s.at_most;
  none_ahead = s.none_ahead;
}

-- Events that say nothing of any run's end.
same-Settled :
    (runs : List Run) (es es' : List Event) (next : ℕ)
    → ((id : ℕ) → told id es' ≡ told id es)
    → Settled runs es next
    → Settled runs es' next
same-Settled runs es es' next same s = record {
  ids = s.ids;
  below = s.below;
  agrees = λ r i. same r.id ∙ s.agrees r i;
  at_most = λ id. omega (arith, same id, s.at_most id);
  none_ahead = λ id h. same id ∙ s.none_ahead id h;
}

pub emitted-Inv :
    (wall : Time) (db : Db) (e : Event)
    → is_terminal e.event_type ≡ false
    → Inv db
    → Inv (emit_event wall db e)
emitted-Inv wall db e h inv =
    let r = emit_event-Recorded wall db e in
    let s =
      same-Settled db.runs db.events (emit_event wall db e).events db.next_run_id
        (λ id. ground (arith, told-emit_event id wall db e)) inv in
    rw (r.runs, r.next_run_id) s

pub enqueue_run-Inv :
    (wall : Time) (db : Db) (org job : ℕ) → Inv db → Inv (enqueue_run wall db org job).0
unfolding enqueue_run
enqueue_run-Inv wall db org job inv =
    append-Settled _ db.runs db.events db.events db.next_run_id refl
      (inv.none_ahead db.next_run_id (omega arith)) (λ id n. refl) inv

pub requeue-Inv : (db : Db) → Inv db → Inv (requeue_orphaned_runs db).0
unfolding requeue_orphaned_runs
requeue-Inv db inv =
    update-Settled orphaned requeued db.runs db.events db.events db.next_run_id (λ r. refl)
      (λ r i. let a = inv.agrees r i in ground arith) inv.at_most inv.none_ahead inv

pub claim_run-Inv :
    (wall : Time) (worker : Claimant) (db : Db) (r : Db × Run)
    → claim_run wall worker db ≡ some r
    → Inv db
    → Inv r.0
unfolding claim_run
claim_run-Inv wall worker db r e inv =
    elim (Option-cases (find (λ x. is_pending x.status) db.runs)) [
      | inl n ↦ absurd (ground arith)
      | inr (x, f) ↦
          let (i, w) = find-In (λ z. is_pending z.status) x db.runs f in
          let live = inv.agrees x i in
          let runs = update_where (is_run x.id) (claimed wall worker) db.runs in
          let same : runs ≡ r.0.runs = ground arith in
          let ev : db.events ≡ r.0.events = ground arith in
          let next : db.next_run_id ≡ r.0.next_run_id = ground arith in
          let s =
            update-Settled (is_run x.id) (claimed wall worker) db.runs db.events db.events
              db.next_run_id (λ z. refl)
              (λ z j. let u = inv.ids z x j i in let a = inv.agrees z j in ground arith) inv.at_most
              inv.none_ahead inv in
          subst (λ n. Settled r.0.runs r.0.events n) next
            (subst (λ es. Settled r.0.runs es db.next_run_id) ev
              (subst (λ rs. Settled rs db.events db.next_run_id) same s))
    ]

pub delete_job-Inv :
    (wall : Time) (db db' : Db) (org id : ℕ)
    → delete_job wall db org id ≡ some db'
    → Inv db
    → Inv db'
unfolding delete_job removed_event
delete_job-Inv wall db db' org id e inv = elim (Option-cases (find (is_job org id) db.jobs)) [
  | inl n ↦ absurd (ground arith)
  | inr (j, f) ↦
      let told' = emit_event wall db (removed_event org id j.name) in
      let s = emitted-Inv wall db (removed_event org id j.name) refl inv in
      let d =
        delete-Settled (λ r. (r.org_id == org) && (r.job_id == id)) told'.runs told'.events
          told'.next_run_id s in
      let gone : Db = record told' {
        runs = delete_where (λ r. (r.org_id == org) && (r.job_id == id)) told'.runs;
        rules = delete_where (λ r. (r.org_id == org) && (r.job_id == id)) told'.rules;
        jobs = delete_where (is_job org id) told'.jobs;
        alerts = delete_where (λ a. (a.org_id == org) && (a.job_id == id)) told'.alerts;
      } in
      let same : gone ≡ db' = ground arith in subst Inv same d
]
