-- ===== src/Store/Runs/Recovery.antt =====
-- A success, and the run.recovered that FinishRunAndEmit records with it.
use Prim.Native.String.{String}
use tend.Prelude.{
  ℕ, ◌+◌, ◌≡◌, refl, sym, ◌∙◌, subst, ap, inl, inr, some, Bool, true, false, not, ◌&&◌, List, [],
  ◌∷◌, ◌++◌, ◌==◌, arith, if◌then◌else◌, any, Bool-cases,
}
use tend.Prelude.Int.{ℤ}
use tend.Core.Tail.{Text}
use tend.Clock.{Time}
use tend.Event.{Event, EventType, run_recovered, Detail, RunStatus, succeeded}
use tend.Jobs.{Run, is_succeeded, recovered_event}
use tend.Store.Schema.{Db}
use tend.Store.Table.{update_where, In, In-update_where, In-updated}
use tend.Store.Streak.{is_run, finished_before, payload_run_id, previous_run_status, ended_after}
use tend.Store.Streak.Last.{IsLast, previous_run_status-last}
use tend.Store.Emit.{emit_event, as_recorded}
use tend.Store.Emit.Laws.{emit_event-Recorded, as_recorded-same}
use tend.Store.Runs.{
  is_running_run, finished, finish_run, finish_run_and_emit, attempted, after_finish, end_streak,
  failed_before, terminal_event,
}
use tend.Store.Pings.Keys.{Unique, Unique-update}

abbrev is_recovery : EventType → Bool
is_recovery run_recovered = true
is_recovery _ = false

abbrev recovery_of : ℕ → Event → ℕ
recovery_of id e = if is_recovery e.event_type && (payload_run_id e.payload == id) then 1 else 0

-- How many run.recovered events of the run there are.
unfoldable pub recoveries : ℕ → List Event → ℕ
recoveries id [] = 0
recoveries id (e ∷ es) = recovery_of id e + recoveries id es

recoveries-append :
    (id : ℕ) (es : List Event) (e : Event)
    → recoveries id (es ++ e ∷ []) ≡ recoveries id es + recovery_of id e
unfolding recoveries
recoveries-append id [] e = omega arith
recoveries-append id (d ∷ es) e = omega (arith, recoveries-append id es e)

recoveries-emit_event :
    (id : ℕ) (wall : Time) (db : Db) (e : Event)
    → recoveries id (emit_event wall db e).events ≡ recoveries id db.events + recovery_of id e
recoveries-emit_event id wall db e =
    let s = as_recorded-same wall db e in
    rw
      (
        (emit_event-Recorded wall db e).events,
        recoveries-append id db.events (as_recorded wall db e),
      )
      (rw (s.0, s.2))

abbrev SameRun : Run → Run → Type 0
SameRun x y = x.id ≡ y.id

-- Writing a run leaves the last outcome before it what it was.
IsLast-update :
    (c : Run → Bool) (f : Run → Run) (runs : List Run) (r r' p : Run)
    → ((x : Run) → c x ≡ true → x.id ≡ r.id)
    → ((x : Run) → (f x).id ≡ x.id)
    → r'.id ≡ r.id
    → r'.org_id ≡ r.org_id
    → r'.job_id ≡ r.job_id
    → IsLast (finished_before r) runs p
    → IsLast (finished_before r') (update_where c f runs) p
IsLast-update c f runs r r' p own keep i o j (at, t, last) =
    let other : c p ≡ false = elim (Bool-cases (c p)) [
      | inl y ↦ absurd (let k = own p y in ground arith)
      | inr n ↦ n
    ] in
    (
      subst (λ z. In z (update_where c f runs)) (rw other refl) (In-updated c f p runs at),
      ground arith,
      λ q k s.
          let (x, m, e) = In-update_where c f q runs k in
          elim (Bool-cases (c x)) [
            | inl y ↦
                let set : q ≡ f x = ground arith in
                let id : q.id ≡ r'.id = ap (λ (z : Run). z.id) set ∙ keep x ∙ own x y ∙ sym i in
                absurd (ground arith)
            | inr n ↦
                let same : q ≡ x = ground arith in
                let h = last x m in
                subst (λ z. ended_after z p ≡ false) (sym same) (h (ground arith))
          ],
    )

-- With its outcome and its attempts written, the job's outcome before a run is what it was.
failed_before-ran :
    (wall : Time) (s : RunStatus) (code : ℤ) (output : Text) (attempt : ℕ) (runs : List Run)
    (r p : Run)
    → Unique SameRun runs
    → In r runs
    → IsLast (finished_before r) runs p
    → failed_before
        (update_where
          (is_run r.id)
          (attempted attempt)
          (update_where (is_running_run r.id) (finished wall s code output) runs))
        r.id
      ≡ not (is_succeeded p.status)
failed_before-ran wall s code output attempt runs r p u i last =
    let f = finished wall s code output in
    let ran = update_where (is_running_run r.id) f runs in
    let ran' = update_where (is_run r.id) (attempted attempt) ran in
    let r1 = if is_running_run r.id r then f r else r in
    let r2 = if is_run r.id r1 then attempted attempt r1 else r1 in
    let id1 : r1.id ≡ r.id = ground arith in
    let id2 : r2.id ≡ r.id = ground arith in
    let org1 : r1.org_id ≡ r.org_id = ground arith in
    let job1 : r1.job_id ≡ r.job_id = ground arith in
    let org2 : r2.org_id ≡ r1.org_id = ground arith in
    let job2 : r2.job_id ≡ r1.job_id = ground arith in
    let unique1 = Unique-update SameRun (is_running_run r.id) f runs (λ x y e. ground arith) u in
    let unique2 =
      Unique-update SameRun (is_run r.id) (attempted attempt) ran (λ x y e. ground arith) unique1 in
    let in1 = In-updated (is_running_run r.id) f r runs i in
    let in2 = In-updated (is_run r.id) (attempted attempt) r1 ran in1 in
    let last1 =
      IsLast-update (is_running_run r.id) f runs r r1 p (λ x h. ground arith) (λ x. refl) id1 org1
        job1 last in
    let last2 =
      IsLast-update (is_run r.id) (attempted attempt) ran r1 r2 p (λ x h. ground arith) (λ x. refl)
        (id2 ∙ sym id1) org2 job2 last1 in
    let status = previous_run_status-last ran' r2 p unique2 in2 last2 in
    let status' : previous_run_status ran' r.id ≡ some p.status =
      subst (λ n. previous_run_status ran' n ≡ some p.status) id2 status in
    ground arith

after_finish-events :
    (wall : Time) (id : ℕ) (e : Event) (db : Db) (b : Bool)
    → failed_before db.runs id ≡ b
    → recovery_of id (recovered_event e id) ≡ 1
    → recoveries id (after_finish wall id succeeded e db).events
      ≡ recoveries id db.events + (if b then 1 else 0)
unfolding after_finish end_streak
after_finish-events wall id e db true h one =
    let more = recoveries-emit_event id wall db (recovered_event e id) in
    rw h (more ∙ ap (λ n. recoveries id db.events + n) one)
after_finish-events wall id e db false h one = rw h (omega arith)

recovery_of-recovered_event :
    (r : Run) (name : String) (s : RunStatus) (code : ℤ) (d : Detail)
    → recovery_of r.id (recovered_event (terminal_event r name s code d) r.id) ≡ 1
unfolding recovered_event terminal_event
recovery_of-recovered_event r name s code d = ground arith

recovery_of-terminal_event :
    (id : ℕ) (r : Run) (name : String) (code : ℤ) (d : Detail)
    → recovery_of id (terminal_event r name succeeded code d) ≡ 0
unfolding terminal_event
recovery_of-terminal_event id r name code d = refl

-- A finish with success of a run whose job has other finished runs records one run.recovered of
-- that run if the one of them that ended last did not succeed, and none if it did, where the runs
-- have ids of their own.
pub finish_run_and_emit-recovers :
    (wall : Time) (db db' : Db) (r p : Run) (name : String) (code : ℤ) (attempt : ℕ) (output : Text)
    (d : Detail)
    → Unique SameRun db.runs
    → In r db.runs
    → IsLast (finished_before r) db.runs p
    → finish_run_and_emit wall db r.id succeeded code attempt output
        (terminal_event r name succeeded code d)
      ≡ inr db'
    → recoveries r.id db'.events
      ≡ recoveries r.id db.events + (if is_succeeded p.status then 0 else 1)
unfolding finish_run_and_emit finish_run
finish_run_and_emit-recovers wall db db' r p name code attempt output d u i last eq =
    let t = terminal_event r name succeeded code d in
    let ran' =
      update_where (is_run r.id) (attempted attempt)
        (update_where (is_running_run r.id) (finished wall succeeded code output) db.runs) in
    let db1 : Db = record db { runs = ran' } in
    elim (Bool-cases (any (is_running_run r.id) db.runs)) [
      | inl y ↦
          let same : after_finish wall r.id succeeded t (emit_event wall db1 t) ≡ db' =
            ground arith in
          let runs = (emit_event-Recorded wall db1 t).runs in
          let failed = failed_before-ran wall succeeded code output attempt db.runs r p u i last in
          let failed' =
            subst (λ rs. failed_before rs r.id ≡ not (is_succeeded p.status)) (sym runs) failed in
          let more = recoveries-emit_event r.id wall db1 t in
          let events =
            after_finish-events wall r.id t (emit_event wall db1 t) (not (is_succeeded p.status))
              failed' (recovery_of-recovered_event r name succeeded code d) in
          let none = recovery_of-terminal_event r.id r name code d in
          let events' =
            subst
              (λ (z : Db).
                recoveries r.id z.events
                ≡ recoveries r.id (emit_event wall db1 t).events
                  + (if not (is_succeeded p.status) then 1 else 0))
              same events in
          ground arith
      | inr n ↦ absurd (ground arith)
    ]
