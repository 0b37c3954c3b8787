-- ===== src/Store/Runs/Lifecycle/Refines.antt =====
-- Each operation on the queue moves every run as its state machine allows.
use Prim.Native.String.{String}
use tend.Prelude.{
  ◌≢◌, List, ◌∷◌, ℕ, ◌≡◌, inl, inr, refl, sym, ap, ◌∙◌, subst, true, false, ◌&&◌, some, [], arith,
  ◌==◌, Bool-cases, Option-cases, find, any,
}
use tend.Prelude.Int.{ℤ, negsuc}
use tend.Core.Tail.{Text}
use tend.Clock.{Time}
use tend.Event.{Event, RunStatus, failed}
use tend.Jobs.{Run, Claimant, is_active, is_pending, is_running, recovered_event, removed_event}
use tend.Store.Schema.{Db}
use tend.Store.Table.{update_where, delete_where, find-In}
use tend.Store.Streak.{is_run, is_job}
use tend.Store.Emit.{emit_event}
use tend.Store.Emit.Laws.{emit_event-Recorded}
use tend.Store.Runs.{
  enqueue_run, insert_run, claim_run, claimed, finish_run_and_emit, finish_run, finished, attempted,
  after_finish, end_streak, is_running_run, reap_stale_run, requeue_orphaned_runs, orphaned,
  requeued, fail_unreadable_job, unreadable_run, unreadable_event, delete_job, terminal_event,
}
use tend.Store.Runs.Final.{after_finish-runs}
use tend.Store.Runs.Terminal.{Inv}
use tend.Store.Runs.Terminal.Reach.{Step, Reach, here, then_step, Reach-Inv, empty-Inv}
use tend.Store.Pings.Reported.{any-true, any-false}
use tend.Store.Runs.Lifecycle.{
  Life, unborn, waiting, live, ended, Op, enqueue, claim, finish, reap, requeue, delete, emit,
  fail_unreadable, Move, others, not_reaped, not_requeued, life_of, life_of_status, update-Move,
  append-Move, delete-Move, update-life, find-some,
}

same-life :
    (id : ℕ) (a b : Db)
    → b.runs ≡ a.runs
    → b.next_run_id ≡ a.next_run_id
    → life_of id b ≡ life_of id a
unfolding life_of
same-life id a b r n = rw (r, n) refl

emit-life :
    (id : ℕ) (wall : Time) (db : Db) (e : Event) → life_of id (emit_event wall db e) ≡ life_of id db
emit-life id wall db e =
    let k = emit_event-Recorded wall db e in
    same-life id db (emit_event wall db e) k.runs k.next_run_id

ended-status : (s : RunStatus) → is_active s ≡ false → life_of_status s ≡ ended
ended-status s h = ground arith

live-status : (s : RunStatus) → is_running s ≡ true → life_of_status s ≡ live
live-status s h = ground arith

waiting-status : (s : RunStatus) → is_pending s ≡ true → life_of_status s ≡ waiting
waiting-status s h = ground arith

-- The run that ends, if it is running; the others stay.
ended-Move :
    (R : Life → Life → Type 0) (a : Db) (run id : ℕ) (wall : Time) (s : RunStatus) (code : ℤ)
    (output : Text)
    → Inv a
    → is_active s ≡ false
    → any (is_running_run run) a.runs ≡ true
    → ((run == id) ≡ true → R live ended)
    → ((run == id) ≡ false → (l : Life) → R l l)
    → R (life_of id a) (
        life_of id (record a {
          runs = update_where (is_running_run run) (finished wall s code output) a.runs;
        }))
ended-Move R a run id wall s code output inv h y ends still =
    let p = is_running_run run in
    let f = finished wall s code output in
    elim (Bool-cases (run == id)) [
      | inr m ↦
          update-Move R a _ p f id refl refl (λ r. refl) (λ q. still m _)
            (λ r i t. let other : p r ≡ false = ground arith in rw other (still m _))
      | inl same ↦
          let (x, j, u) = any-true p a.runs y in
          update-Move R a _ p f id refl refl (λ r. refl)
            (λ q. absurd (find-some id a x j (ground arith) q))
            (λ r i t.
              let e : r ≡ x = inv.ids r x i j (ground arith) in
              let own : p r ≡ true = subst (λ (z : Run). p z ≡ true) (sym e) u in
              let was = live-status r.status (ground arith) in
              rw (own, was, ended-status s h) (ends same))
    ]

after_finish-next :
    (wall : Time) (id : ℕ) (s : RunStatus) (e : Event) (db : Db)
    → (after_finish wall id s e db).next_run_id ≡ db.next_run_id
unfolding after_finish end_streak
after_finish-next wall id s e db =
    let k = emit_event-Recorded wall db (recovered_event e id) in ground (arith, k.next_run_id)

-- A move of the run that the operation is about.
at_id : (op : Op) (run id : ℕ) (l m : Life) → (run == id) ≡ true → Move op run l m → Move op id l m
at_id op run id l m same v = let e : run ≡ id = ground arith in subst (λ i. Move op i l m) e v

finish-Move :
    (a b : Db) (wall : Time) (run : ℕ) (s : RunStatus) (code : ℤ) (attempt : ℕ) (output : Text)
    (e : Event) (id : ℕ)
    → Inv a
    → is_active s ≡ false
    → finish_run_and_emit wall a run s code attempt output e ≡ inr b
    → Move (finish run) id (life_of id a) (life_of id b)
unfolding finish_run_and_emit finish_run
finish-Move a b wall run s code attempt output e id inv h q =
    elim (Bool-cases (any (is_running_run run) a.runs)) [
      | inr n ↦ absurd (ground arith)
      | inl y ↦
          let ran = update_where (is_running_run run) (finished wall s code output) a.runs in
          let db1 : Db = record a { runs = ran } in
          let db2 : Db = record a { runs = update_where (is_run run) (attempted attempt) ran } in
          let db3 = emit_event wall db2 e in
          let is_b : after_finish wall run s e db3 ≡ b = ground arith in
          let last : life_of id b ≡ life_of id db1 =
            ap (life_of id) (sym is_b)
            ∙ same-life id db3 (after_finish wall run s e db3) (after_finish-runs wall run s e db3)
                (after_finish-next wall run s e db3)
            ∙ emit-life id wall db2 e
            ∙ update-life db1 (is_run run) (attempted attempt) id (λ r. refl) (λ r. refl) in
          subst (Move (finish run) id (life_of id a)) (sym last) (
            ended-Move (Move (finish run) id) a run id wall s code output inv h y
              (λ same. at_id (finish run) run id live ended same (Move.finished run))
              (λ m l. others (finish run) id l m))
    ]

not_reaped-at : (run id : ℕ) (l : Life) → run ≡ id → l ≢ live → Move (reap run) id l l
not_reaped-at run id l e h = subst (λ i. Move (reap run) i l l) e (not_reaped run l h)

claim-Move :
    (a : Db) (wall : Time) (worker : Claimant) (r : Db × Run) (id : ℕ)
    → Inv a
    → claim_run wall worker a ≡ some r
    → Move (claim r.1.id) id (life_of id a) (life_of id r.0)
unfolding claim_run
claim-Move a wall worker r id inv h = elim (Option-cases (find (λ x. is_pending x.status) a.runs)) [
  | inl n ↦ absurd (ground arith)
  | inr (x, f) ↦
      let (i, t) = find-In (λ y. is_pending y.status) x a.runs f in
      let n = r.1.id in
      let own : n ≡ x.id = ground arith in
      let R = Move (claim n) id in
      let g = claimed wall worker in
      let rows : r.0.runs ≡ update_where (is_run x.id) g a.runs = ground arith in
      elim (Bool-cases (n == id)) [
        | inr m ↦
            update-Move R a r.0 (is_run x.id) g id rows (ground arith) (λ y. refl)
              (λ q. others (claim n) id _ m)
              (λ y j v.
                let other : is_run x.id y ≡ false = ground arith in
                rw other (others (claim n) id _ m))
        | inl same ↦
            update-Move R a r.0 (is_run x.id) g id rows (ground arith) (λ y. refl)
              (λ q. absurd (find-some id a x i (ground arith) q))
              (λ y j v.
                let e : y ≡ x = inv.ids y x j i (ground arith) in
                let mine : is_run x.id y ≡ true = ground arith in
                let was : life_of_status y.status ≡ waiting =
                  ap (λ (z : Run). life_of_status z.status) e ∙ waiting-status x.status t in
                rw (mine, was) (at_id (claim n) n id waiting live same (Move.claimed n)))
      ]
]

not_live : (a : Db) (run : ℕ) → any (is_running_run run) a.runs ≡ false → life_of run a ≢ live
unfolding life_of
not_live a run n e = elim (Option-cases (find (is_run run) a.runs)) [
  | inl q ↦ ground arith
  | inr (r, q) ↦
      let (i, t) = find-In (is_run run) r a.runs q in
      let quiet = any-false (is_running_run run) r a.runs n i in ground arith
]

reap-Move :
    (a : Db) (wall : Time) (run : ℕ) (output : Text) (e : Event) (id : ℕ)
    → Inv a
    → Move (reap run) id (life_of id a) (life_of id (reap_stale_run wall a run output e).0)
unfolding reap_stale_run
reap-Move a wall run output e id inv =
    let R = Move (reap run) id in
    let still = λ (m : (run == id) ≡ false) (l : Life). others (reap run) id l m in
    elim (Bool-cases (any (is_running_run run) a.runs)) [
      | inr n ↦ elim (Bool-cases (run == id)) [
        | inr m ↦ rw n (still m _)
        | inl same ↦
            let own : run ≡ id = ground arith in
            rw n (
              not_reaped-at run id (life_of id a) own
                (subst (λ i. life_of i a ≢ live) own (not_live a run n)))
      ]
      | inl y ↦
          let ran =
            update_where (is_running_run run) (finished wall failed (negsuc 0) output) a.runs in
          let db1 : Db = record a { runs = ran } in
          rw y (
            subst (R (life_of id a)) (sym (emit-life id wall db1 e)) (
              ended-Move R a run id wall failed (negsuc 0) output inv refl y
                (λ same. at_id (reap run) run id live ended same (Move.reaped run)) still))
    ]

unreadable-Move :
    (a : Db) (wall : Time) (org job : ℕ) (name : String) (output : Text) (id : ℕ)
    → Inv a
    → Move
        (fail_unreadable a.next_run_id)
        id
        (life_of id a)
        (life_of id (fail_unreadable_job wall a org job name output).0)
unfolding fail_unreadable_job insert_run emit_event
unreadable-Move a wall org job name output id inv =
    let n = a.next_run_id in
    let run = unreadable_run wall n org job output in
    let k = emit_event-Recorded wall (insert_run a run) (unreadable_event n org job name output) in
    append-Move (Move (fail_unreadable n) id) a _ run id k.runs k.next_run_id refl inv.below
      (λ same. at_id (fail_unreadable n) n id unborn ended same (Move.unreadable n))
      (λ m l. others (fail_unreadable n) id l m)

delete-job-Move :
    (a b : Db) (wall : Time) (org job id : ℕ)
    → Inv a
    → delete_job wall a org job ≡ some b
    → Move delete id (life_of id a) (life_of id b)
unfolding delete_job
delete-job-Move a b wall org job id inv h = elim (Option-cases (find (is_job org job) a.jobs)) [
  | inl n ↦ absurd (ground arith)
  | inr (j, f) ↦
      let k = emit_event-Recorded wall a (removed_event org job j.name) in
      let rows : b.runs ≡ delete_where (λ r. (r.org_id == org) && (r.job_id == job)) a.runs =
        ground arith in
      delete-Move a b (λ r. (r.org_id == org) && (r.job_id == job)) id rows (ground arith) inv.ids
        inv.below
]

requeue-Move :
    (a : Db) (id : ℕ) → Move requeue id (life_of id a) (life_of id (requeue_orphaned_runs a).0)
unfolding requeue_orphaned_runs
requeue-Move a id =
    update-Move (Move requeue id) a _ orphaned requeued id refl refl (λ r. refl)
      (λ q. not_requeued id _)
      (λ r i t. elim (Bool-cases (orphaned r)) [
        | inl y ↦ let was = live-status r.status (ground arith) in rw (y, was) (Move.requeued id)
        | inr m ↦ rw m (not_requeued id _)
      ])

-- What operation a step is.
unfoldable pub op_of : {a b : Db} → Step a b → Op
op_of (Step.enqueued db wall org job) = enqueue db.next_run_id
op_of (Step.claimed db wall worker r h) = claim r.1.id
op_of (Step.ended db db' wall r name s code attempt output d h q) = finish r.id
op_of (Step.reaped db wall r name output d) = reap r.id
op_of (Step.requeued db) = requeue
op_of (Step.unreadable db wall org job name output) = fail_unreadable db.next_run_id
op_of (Step.deleted db db' wall org job h) = delete
op_of (Step.emitted db wall e h) = emit

-- The operations of a history, the last one first.
unfoldable pub ops : {a b : Db} → Reach a b → List Op
unfolding op_of
ops here = []
ops (then_step r s) = op_of s ∷ ops r

-- The moves of each step, for the run with any id.
Step-Move :
    {a b : Db} → Inv a → (s : Step a b) → (id : ℕ) → Move (op_of s) id (life_of id a) (life_of id b)
unfolding op_of enqueue_run insert_run
Step-Move inv (Step.enqueued db wall org job) id =
    let n = db.next_run_id in
    append-Move (Move (enqueue n) id) db _ _ id refl refl refl inv.below
      (λ same. at_id (enqueue n) n id unborn waiting same (Move.enqueued n))
      (λ m l. others (enqueue n) id l m)
Step-Move inv (Step.claimed db wall worker r h) id = claim-Move db wall worker r id inv h
Step-Move inv (Step.ended db db' wall r name s code attempt output d h q) id =
    finish-Move db db' wall r.id s code attempt output (terminal_event r name s code d) id inv h q
Step-Move inv (Step.reaped db wall r name output d) id =
    reap-Move db wall r.id output (terminal_event r name failed (negsuc 0) d) id inv
Step-Move inv (Step.requeued db) id = requeue-Move db id
Step-Move inv (Step.unreadable db wall org job name output) id =
    unreadable-Move db wall org job name output id inv
Step-Move inv (Step.deleted db db' wall org job h) id = delete-job-Move db db' wall org job id inv h
Step-Move inv (Step.emitted db wall e h) id =
    subst (Move emit id (life_of id db)) (sym (emit-life id wall db e)) (others emit id _ refl)

-- The moves of one run by a sequence of operations, the last one first.
pub data Moves (id : ℕ) (l : Life) : List Op → Life → Type 0 where
  at_rest : Moves id l [] l
  then_move :
      {os : List Op} {op : Op} {m n : Life}
      → Moves id l os m
      → Move op id m n
      → Moves id l (op ∷ os) n

-- The table of runs refines the state machine of each run, operation by operation: in any history of
-- enqueues, claims, ends, reaps, requeues, unreadable jobs, deletions of jobs and other events, from
-- a store with no runs and no events, each operation moves the run with any id as the machine does
-- for that operation. So a claim takes a run that waits, an end that the store accepts is of a run
-- that is live, a reap of any other leaves it as it is, a run that ended changes by nothing but its
-- deletion, and the id of one that is gone is not used again.
pub Reach-refines :
    {a b : Db}
    → a.runs ≡ []
    → a.events ≡ []
    → (r : Reach a b) → (id : ℕ) → Moves id (life_of id a) (ops r) (life_of id b)
unfolding ops
Reach-refines h e here id = at_rest
Reach-refines {a} h e (then_step r s) id =
    then_move (Reach-refines h e r id) (Step-Move (Reach-Inv (empty-Inv a h e) r) s id)
