-- ===== src/Runner/Reap/Sweep.antt =====
-- Which runs a sweep of the reaper ends.
use tend.Prelude.{
  if◌then◌else◌, ℕ, ◌+◌, ◌≡◌, inl, inr, refl, sym, ap, ◌∙◌, subst, Bool, true, false, not, ◌&&◌,
  ◌||◌, Option, none, some, List, [], ◌∷◌, arith, ◌==◌, ltb, Bool-cases, Option-cases, find, any,
  select,
}
use tend.Prelude.Int.{ℤ, negsuc}
use tend.Core.Tail.{Text}
use tend.Clock.{Time, is_zero, since}
use tend.Event.{Event, failed}
use tend.Jobs.{Job, Run, is_running}
use tend.Jobs.Limits.{max_run_duration, within_window, reap_slack, within_window-exact}
use tend.Store.Schema.{Db, JobRow}
use tend.Store.Table.{update_where, In, In-select}
use tend.Store.Streak.{is_run, is_job}
use tend.Store.Pings.Keys.{Unique}
use tend.Store.Deliveries.Claim.{In-any, In-selected}
use tend.Store.JobRows.{get_job}
use tend.Store.Emit.Definitions.{definition_in, emit_event-definition}
use tend.Store.Emit.Laws.{emit_event-Recorded}
use tend.Store.Runs.{list_running_runs, reap_stale_run, is_running_run, finished}
use tend.Runner.Reap.{InFlight, limit_of, reap, reap_one, reap_each, reap_once}

abbrev pub SameRun : Run → Run → Type 0
SameRun x y = x.id ≡ y.id

-- The definition of the job of a run, as the store has it, if the job is there and can be read.
abbrev pub definition : (Job → Bool) → Run → Db → Option Job
definition decodes r db = elim (definition_in r.org_id r.job_id db.jobs) [
  | none ↦ none
  | some j ↦ if decodes j then some j else none
]

-- The most that a run may take: its limit from when it was claimed, or that of its job as it is now.
abbrev pub allowed : (ℕ → ℤ) → InFlight → Run → Job → ℕ
unfolding limit_of
allowed backoff flights r j = elim (limit_of r.id flights) [
  | some l ↦ l
  | none ↦ max_run_duration backoff j
]

finished-still :
    (id run : ℕ) (wall : Time) (output : Text) (runs : List Run)
    → any
        (is_running_run id)
        (update_where (is_running_run run) (finished wall failed (negsuc 0) output) runs)
      ≡ (any (is_running_run id) runs && not (run == id))
finished-still id run wall output [] = refl
finished-still id run wall output (r ∷ runs) =
    ground (arith, finished-still id run wall output runs)

reap_stale_run-still :
    (wall : Time) (db : Db) (run id : ℕ) (output : Text) (e : Event)
    → any (is_running_run id) (reap_stale_run wall db run output e).0.runs
      ≡ (any (is_running_run id) db.runs && not (run == id))
unfolding reap_stale_run
reap_stale_run-still wall db run id output e =
    elim (Bool-cases (any (is_running_run run) db.runs)) [
      | inl y ↦
          let db1 : Db = record db {
            runs =
                update_where (is_running_run run) (finished wall failed (negsuc 0) output) db.runs;
          } in
          rw y
            (rw (emit_event-Recorded wall db1 e).runs (finished-still id run wall output db.runs))
      | inr n ↦ elim (Bool-cases (run == id)) [
        | inl s ↦
            let gone : any (is_running_run id) db.runs ≡ false =
              subst (λ i. any (is_running_run i) db.runs ≡ false) (ground arith) n in
            rw n (ground arith)
        | inr m ↦ rw n (ground arith)
      ]
    ]

reap_stale_run-definition :
    (wall : Time) (db : Db) (run : ℕ) (output : Text) (e : Event) (r : Run)
    → definition_in r.org_id r.job_id (reap_stale_run wall db run output e).0.jobs
      ≡ definition_in r.org_id r.job_id db.jobs
unfolding reap_stale_run
reap_stale_run-definition wall db run output e r =
    elim (Bool-cases (any (is_running_run run) db.runs)) [
      | inl y ↦
          let f = finished wall failed (negsuc 0) output in
          let db1 : Db = record db { runs = update_where (is_running_run run) f db.runs } in
          rw y (emit_event-definition r.org_id r.job_id wall db1 e)
      | inr n ↦ rw n refl
    ]

round-bool :
    (live own rest a b : Bool)
    → (own ≡ true → a ≡ b)
    → (live' : Bool) → live' ≡ (live && (not own || a))
    → (out : Bool) → out ≡ (live' && (not rest || b))
    → out ≡ (live && (not (own || rest) || b))
round-bool live own rest a b h live' first out last = ground arith

exact-bool :
    (live listed a b : Bool)
    → live ≡ true
    → listed ≡ true
    → {c : Bool} → a ≡ c
    → c ≡ b
    → (live && (not listed || a)) ≡ b
exact-bool live listed a b h k {c} e f = ground arith

module _ (decodes : Job → Bool) (backoff : ℕ → ℤ) (reason : ℕ → Bool → Text) where
  -- A run is spared whose job is not there or cannot be read, that was not started, or that may take
  -- longer.
  abbrev spared : Time → InFlight → Run → Option Job → Bool
  spared now flights r none = true
  spared now flights r (some j) =
      is_zero r.started_at || within_window (since now r.started_at) (allowed backoff flights r j)

  spared-exact :
      (now : Time) (flights : InFlight) (r : Run) (d : Option Job)
      → spared now flights r d ≡ (elim d [
        | none ↦ true
        | some j ↦
            is_zero r.started_at
            || ltb (since now r.started_at) (allowed backoff flights r j + reap_slack)
      ])
  spared-exact now flights r none = refl
  spared-exact now flights r (some j) =
      ap (λ b. is_zero r.started_at || b)
        (within_window-exact (since now r.started_at) (allowed backoff flights r j))

  -- What a round does to the run with any id, and to the definition of any run's job.
  record Round (now : Time) (flights : InFlight) (r : Run) (db db' : Db) : Type 0 where
    running :
        (id : ℕ)
        → any (is_running_run id) db'.runs ≡ (
            any (is_running_run id) db.runs
            && (not (r.id == id) || spared now flights r (definition decodes r db)))
    same : (q : Run) → definition decodes q db' ≡ definition decodes q db

  spared-Round :
      (now : Time) (flights : InFlight) (r : Run) (db : Db)
      → spared now flights r (definition decodes r db) ≡ true
      → Round now flights r db db
  spared-Round now flights r db h = record { running = λ id. ground arith; same = λ q. refl }

  reaped-Round :
      (wall now : Time) (flights : InFlight) (r : Run) (db : Db) (output : Text) (e : Event)
      → spared now flights r (definition decodes r db) ≡ false
      → Round now flights r db (reap_stale_run wall db r.id output e).0
  reaped-Round wall now flights r db output e h = record {
    running = λ id. let k = reap_stale_run-still wall db r.id id output e in ground arith;
    same =
        λ q. let k = reap_stale_run-definition wall db r.id output e q in rw (definition, k) refl;
  }

  reap-Round :
      (wall now : Time) (flights : InFlight) (r : Run) (db : Db) (limit : ℕ) (ours : Bool)
      (j : JobRow)
      → spared now flights r (definition decodes r db) ≡ false
      → Round now flights r db (reap decodes backoff reason wall limit ours r j db)
  unfolding reap
  reap-Round wall now flights r db limit ours j h = reaped-Round wall now flights r db _ _ h

  reap_one-Round :
      (wall now : Time) (flights : InFlight) (r : Run) (db : Db) (err : Bool)
      → Round now flights r db (reap_one decodes backoff reason wall now flights r db err).0
  unfolding reap_one get_job
  reap_one-Round wall now flights r db err =
      let spare = spared-Round now flights r db in
      let R = λ (d : Db). Round now flights r db d in
      let elapsed = since now r.started_at in
      elim (Option-cases (find (is_job r.org_id r.job_id) db.jobs)) [
        | inl n ↦
            let s : (reap_one decodes backoff reason wall now flights r db err).0 ≡ db =
              ground arith in
            subst R (sym s) (spare (ground arith))
        | inr (j, q) ↦ elim (Bool-cases (decodes j.job)) [
          | inr bad ↦
              let s : (reap_one decodes backoff reason wall now flights r db err).0 ≡ db =
                ground arith in
              subst R (sym s) (spare (ground arith))
          | inl good ↦ elim (Bool-cases (spared now flights r (some j.job))) [
            | inl y ↦
                let s : (reap_one decodes backoff reason wall now flights r db err).0 ≡ db =
                  ground arith in
                subst R (sym s) (spare (ground arith))
            | inr n ↦
                let out : spared now flights r (definition decodes r db) ≡ false = ground arith in
                elim (Option-cases (limit_of r.id flights)) [
                  | inl l ↦
                      let s : (reap_one decodes backoff reason wall now flights r db err).0
                          ≡ reap decodes backoff reason wall (max_run_duration backoff j.job) false
                              r j db =
                        ground arith in
                      subst R (sym s) (reap-Round wall now flights r db _ false j out)
                  | inr (m, l) ↦
                      let s : (reap_one decodes backoff reason wall now flights r db err).0
                          ≡ reap decodes backoff reason wall m true r j db =
                        ground arith in
                      subst R (sym s) (reap-Round wall now flights r db m true j out)
                ]
          ]
        ]
      ]

  -- The rounds, for a run with which no other of the list shares its id.
  reap_each-still :
      (wall now : Time) (flights : InFlight) (rs : List Run) (r : Run) (db : Db) (err : Bool)
      → ((q : Run) → In q rs → q.id ≡ r.id → q ≡ r)
      → any
          (is_running_run r.id)
          (reap_each decodes backoff reason wall now flights rs db err).0.runs
        ≡ (any (is_running_run r.id) db.runs
            && (not (any (is_run r.id) rs) || spared now flights r (definition decodes r db)))
  unfolding reap_each
  reap_each-still wall now flights [] r db err u = ground arith
  reap_each-still wall now flights (q ∷ rs) r db err u =
      let (db', err') = reap_one decodes backoff reason wall now flights q db err in
      let one = reap_one-Round wall now flights q db err in
      let first = one.running r.id in
      let rest = reap_each-still wall now flights rs r db' err' (λ x i. u x (inr i)) in
      let def = ap (spared now flights r) (one.same r) in
      let own = λ (y : (q.id == r.id) ≡ true).
        ap (λ (x : Run). spared now flights x (definition decodes x db))
          (u q (inl refl) (ground arith)) in
      round-bool (any (is_running_run r.id) db.runs) (q.id == r.id) (any (is_run r.id) rs)
        (spared now flights q (definition decodes q db))
        (spared now flights r (definition decodes r db)) own (any (is_running_run r.id) db'.runs)
        first _
        (rest
          ∙ ap (λ b. any (is_running_run r.id) db'.runs && (not (any (is_run r.id) rs) || b)) def)

  -- A run that was running is still running after a sweep exactly if its job is not there or cannot
  -- be read, or it was not started, or less than what it may take and the slack of two minutes has
  -- passed since its start: what it may take is the limit from its claim if this process is executing
  -- it, whatever its job has become, and otherwise the longest run of its job as it is now. No other
  -- run of the sweep, and no event that it records, changes that; where the runs have ids of their
  -- own.
  pub reap_once-exact :
      (wall now : Time) (flights : InFlight) (db : Db) (r : Run)
      → Unique SameRun db.runs
      → In r db.runs
      → is_running r.status ≡ true
      → any (is_running_run r.id) (reap_once decodes backoff reason wall now flights db).0.runs
        ≡ (elim (definition decodes r db) [
          | none ↦ true
          | some j ↦
              is_zero r.started_at
              || ltb (since now r.started_at) (allowed backoff flights r j + reap_slack)
        ])
  unfolding reap_once list_running_runs
  reap_once-exact wall now flights db r u i live =
      let rs = select (λ x. is_running x.status) db.runs in
      let each =
        reap_each-still wall now flights rs r db false
          (λ q k e. u q r (In-select (λ x. is_running x.status) q db.runs k).0 i e) in
      let there = In-any (is_running_run r.id) r db.runs i (ground arith) in
      let listed =
        In-any (is_run r.id) r rs (In-selected (λ x. is_running x.status) r db.runs i live)
          (ground arith) in
      each
      ∙ exact-bool _ _ _ _ there listed refl (spared-exact now flights r (definition decodes r db))
