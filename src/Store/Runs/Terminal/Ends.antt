-- ===== src/Store/Runs/Terminal/Ends.antt =====
-- The ends of runs: finished by a worker, reaped, or failed because their job cannot be read.
use Prim.Native.String.{String}
use tend.Prelude.{
  ℕ, ◌+◌, ◌≡◌, inl, inr, refl, ap, sym, ◌∙◌, subst, true, false, List, arith, if◌then◌else◌, ◌==◌,
  Bool-cases, any,
}
use tend.Prelude.Int.{ℤ, negsuc}
use tend.Core.Tail.{Text}
use tend.Clock.{Time}
use tend.Event.{Event, Detail, RunStatus, failed}
use tend.Jobs.{Run, is_active, is_succeeded, run_event, recovered_event}
use tend.Store.Schema.{Db}
use tend.Store.Table.{update_where}
use tend.Store.Streak.{is_run}
use tend.Store.Emit.{emit_event}
use tend.Store.Emit.Laws.{emit_event-Recorded}
use tend.Store.Runs.{
  insert_run, is_running_run, finished, finish_run, finish_run_and_emit, attempted, after_finish,
  end_streak, failed_before, reap_stale_run, fail_unreadable_job, terminal_event, terminal_type,
  unreadable_run, unreadable_event,
}
use tend.Store.Pings.Reported.{any-true}
use tend.Store.Runs.Terminal.{is_terminal, terminal_of, told, told-emit_event, Settled, Inv}
use tend.Store.Runs.Terminal.Steps.{update-Settled, append-Settled, emitted-Inv}

terminal_type-is_terminal : (s : RunStatus) → is_terminal (terminal_type s) ≡ true
terminal_type-is_terminal RunStatus.pending = refl
terminal_type-is_terminal RunStatus.running = refl
terminal_type-is_terminal RunStatus.succeeded = refl
terminal_type-is_terminal RunStatus.failed = refl
terminal_type-is_terminal RunStatus.timed_out = refl

-- The terminal event of a run is one of that run, and of no other.
terminal_of-terminal_event :
    (id : ℕ) (r : Run) (name : String) (s : RunStatus) (code : ℤ) (d : Detail)
    → terminal_of id (terminal_event r name s code d) ≡ (if r.id == id then 1 else 0)
unfolding terminal_event
terminal_of-terminal_event id r name s code d = rw (terminal_type-is_terminal s)

-- A running run leaves that state as one more of its terminal events is recorded.
ended-Settled :
    (f : Run → Run) (id : ℕ) (runs : List Run) (es es' : List Event) (next : ℕ)
    → ((r : Run) → ((f r).id ≡ r.id) × (is_active (f r).status ≡ false))
    → any (is_running_run id) runs ≡ true
    → ((i : ℕ) → told i es' ≡ told i es + (if id == i then 1 else 0))
    → Settled runs es next
    → Settled (update_where (is_running_run id) f runs) es' next
ended-Settled f id runs es es' next ends found more s =
    let (h, i, t) = any-true (is_running_run id) runs found in
    let hid : h.id ≡ id = ground arith in
    let live : told id es ≡ 0 = (let a = s.agrees h i in ground arith) in
    update-Settled (is_running_run id) f runs es es' next (λ r. (ends r).0)
      (λ r j.
        let u = s.ids r h j i in
        let (k, e) = ends r in
        let a = s.agrees r j in
        let m = more r.id in
        elim (Bool-cases (r.id == id)) [
          | inl y ↦
              let rh : r ≡ h = u (ground arith) in
              let run : is_running_run id r ≡ true =
                subst (λ z. is_running_run id z ≡ true) (sym rh) t in
              rw run (ground arith)
          | inr n ↦ ground arith
        ])
      (λ i'. ground (arith, more i', s.at_most i', live))
      (λ i' le. ground (arith, more i', s.none_ahead i' le, s.below h i)) s

-- The same of a store, with the event recorded, for any rows that agree with its events.
ended-Inv :
    (runs : List Run) (wall : Time) (db : Db) (r : Run) (name : String) (s : RunStatus) (code : ℤ)
    (d : Detail)
    → ((es : List Event)
        → ((i : ℕ) → told i es ≡ told i db.events + (if r.id == i then 1 else 0))
        → Settled runs es db.next_run_id)
    → Inv (emit_event wall (record db { runs = runs }) (terminal_event r name s code d))
ended-Inv runs wall db r name s code d settled =
    let e = terminal_event r name s code d in
    let db' : Db = record db { runs = runs } in
    let k = emit_event-Recorded wall db' e in
    let one =
      λ (i : ℕ). ap (λ n. told i db.events + n) (terminal_of-terminal_event i r name s code d) in
    rw (k.runs, k.next_run_id)
      (settled (emit_event wall db' e).events (λ i. told-emit_event i wall db' e ∙ one i))

pub reap_stale_run-Inv :
    (wall : Time) (db : Db) (r : Run) (name : String) (output : Text) (d : Detail)
    → Inv db
    → Inv (reap_stale_run wall db r.id output (terminal_event r name failed (negsuc 0) d)).0
unfolding reap_stale_run
reap_stale_run-Inv wall db r name output d inv =
    let f = finished wall failed (negsuc 0) output in
    elim (Bool-cases (any (is_running_run r.id) db.runs)) [
      | inl y ↦ rw y (
          ended-Inv (update_where (is_running_run r.id) f db.runs) wall db r name failed (negsuc 0)
            d
            (λ es more.
              ended-Settled f r.id db.runs db.events es db.next_run_id (λ x. (refl, refl)) y more
                inv))
      | inr n ↦ rw n inv
    ]

end_streak-Inv : (id : ℕ) (db : Db) → Inv db → Inv (end_streak id db)
unfolding end_streak
end_streak-Inv id db inv = inv

after_finish-Inv :
    (wall : Time) (id : ℕ) (s : RunStatus) (e : Event) (db : Db)
    → Inv db
    → Inv (after_finish wall id s e db)
unfolding after_finish recovered_event
after_finish-Inv wall id s e db inv =
    let told' = emitted-Inv wall db (recovered_event e id) refl inv in
    elim (Bool-cases (is_succeeded s)) [
      | inl y ↦ elim (Bool-cases (failed_before db.runs id)) [
        | inl p ↦ rw (y, p) (end_streak-Inv id (emit_event wall db (recovered_event e id)) told')
        | inr n ↦ rw (y, n) (end_streak-Inv id db inv)
      ]
      | inr n ↦ rw n inv
    ]

attempted-Settled :
    (id n : ℕ) (runs : List Run) (es : List Event) (next : ℕ)
    → Settled runs es next
    → Settled (update_where (is_run id) (attempted n) runs) es next
attempted-Settled id n runs es next s =
    update-Settled (is_run id) (attempted n) runs es es next (λ r. refl)
      (λ r i. let a = s.agrees r i in ground arith) s.at_most s.none_ahead s

pub finish_run_and_emit-Inv :
    (wall : Time) (db db' : Db) (r : Run) (name : String) (s : RunStatus) (code : ℤ) (attempt : ℕ)
    (output : Text) (d : Detail)
    → is_active s ≡ false
    → finish_run_and_emit wall db r.id s code attempt output (terminal_event r name s code d)
      ≡ inr db'
    → Inv db
    → Inv db'
unfolding finish_run_and_emit finish_run
finish_run_and_emit-Inv wall db db' r name s code attempt output d ends e inv =
    let f = finished wall s code output in
    let ran = update_where (is_running_run r.id) f db.runs in
    let ran' = update_where (is_run r.id) (attempted attempt) ran in
    let t = terminal_event r name s code d in
    elim (Bool-cases (any (is_running_run r.id) db.runs)) [
      | inl y ↦
          let told' = ended-Inv ran' wall db r name s code d (λ es more.
            attempted-Settled r.id attempt ran es db.next_run_id (
              ended-Settled f r.id db.runs db.events es db.next_run_id (λ x. (refl, ends)) y more
                inv)) in
          let db1 : Db = record db { runs = ran' } in
          let same : after_finish wall r.id s t (emit_event wall db1 t) ≡ db' = ground arith in
          subst Inv same (after_finish-Inv wall r.id s t (emit_event wall db1 t) told')
      | inr n ↦ absurd (ground arith)
    ]

-- A run that is recorded with its end.
inserted-Inv :
    (wall : Time) (db : Db) (r : Run) (e : Event)
    → r.id ≡ db.next_run_id
    → is_active r.status ≡ false
    → ((i : ℕ) → terminal_of i e ≡ (if db.next_run_id == i then 1 else 0))
    → Inv db
    → Inv (emit_event wall (insert_run db r) e)
unfolding insert_run
inserted-Inv wall db r e own ends of inv =
    let db1 = insert_run db r in
    let k = emit_event-Recorded wall db1 e in
    let es = (emit_event wall db1 e).events in
    let more = λ (i : ℕ). told-emit_event i wall db1 e in
    rw (k.runs, k.next_run_id)
      (append-Settled r db.runs db.events es db.next_run_id own
        (ground (arith, more db.next_run_id, of db.next_run_id, inv.none_ahead db.next_run_id))
        (λ id n. ground (arith, more id, of id)) inv)

pub fail_unreadable_job-Inv :
    (wall : Time) (db : Db) (org job : ℕ) (name : String) (output : Text)
    → Inv db
    → Inv (fail_unreadable_job wall db org job name output).0
unfolding fail_unreadable_job emit_event run_event
fail_unreadable_job-Inv wall db org job name output inv =
    inserted-Inv wall db (unreadable_run wall db.next_run_id org job output)
      (unreadable_event db.next_run_id org job name output) refl refl (λ i. refl) inv
