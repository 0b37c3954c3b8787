-- ===== src/Store/Runs/Final.antt =====
-- What becomes of a finish or a reap that comes after the end of its run.
use tend.Prelude.{
  ℕ, ◌≡◌, inl, inr, refl, ap, sym, ◌∙◌, subst, Bool, true, false, List, [], ◌∷◌, arith, Bool-cases,
  any,
}
use tend.Prelude.Int.{ℤ, negsuc}
use tend.Core.Tail.{Text}
use tend.Clock.{Time}
use tend.Event.{Event, RunStatus, failed}
use tend.Jobs.{Run, is_running, is_active, recovered_event}
use tend.Store.Schema.{Db}
use tend.Store.Table.{update_where}
use tend.Store.Streak.{is_run}
use tend.Store.Emit.{emit_event}
use tend.Store.Emit.Laws.{emit_event-Recorded}
use tend.Store.Runs.{
  is_running_run, finished, finish_run, finish_run_and_emit, attempted, after_finish, end_streak,
  reap_stale_run, run_not_running,
}

-- No row of the id is running, and there is one.
abbrev pub Ended : ℕ → List Run → Type 0
Ended id runs = (any (is_running_run id) runs ≡ false) × (any (is_run id) runs ≡ true)

module _ (id : ℕ) (f : Run → Run)
    (ends : (r : Run) → ((f r).id ≡ r.id) × (is_running (f r).status ≡ false)) where
  ended-stopped :
      (xs : List Run) → any (is_running_run id) (update_where (is_running_run id) f xs) ≡ false
  ended-stopped [] = refl
  ended-stopped (x ∷ xs) = ground (arith, ended-stopped xs, ends x)

  ended-kept :
      (xs : List Run)
      → any (is_running_run id) xs ≡ true
      → any (is_run id) (update_where (is_running_run id) f xs) ≡ true
  ended-kept [] h = ground arith
  ended-kept (x ∷ xs) h = ground (arith, ended-kept xs, ends x)

  -- An update that ends every running row of an id leaves none, and the row of that id.
  update-Ended :
      (xs : List Run)
      → any (is_running_run id) xs ≡ true
      → Ended id (update_where (is_running_run id) f xs)
  update-Ended xs h = (ended-stopped xs, ended-kept xs h)

attempted-stopped :
    (id n : ℕ) (xs : List Run)
    → any (is_running_run id) xs ≡ false
    → any (is_running_run id) (update_where (is_run id) (attempted n) xs) ≡ false
attempted-stopped id n [] h = refl
attempted-stopped id n (x ∷ xs) h = ground (arith, attempted-stopped id n xs)

attempted-kept :
    (id n : ℕ) (xs : List Run)
    → any (is_run id) xs ≡ true
    → any (is_run id) (update_where (is_run id) (attempted n) xs) ≡ true
attempted-kept id n [] h = ground arith
attempted-kept id n (x ∷ xs) h = ground (arith, attempted-kept id n xs)

attempted-Ended :
    (id n : ℕ) (runs : List Run)
    → Ended id runs
    → Ended id (update_where (is_run id) (attempted n) runs)
attempted-Ended id n runs h = (attempted-stopped id n runs h.0, attempted-kept id n runs h.1)

pub after_finish-runs :
    (wall : Time) (id : ℕ) (s : RunStatus) (e : Event) (db : Db)
    → (after_finish wall id s e db).runs ≡ db.runs
unfolding after_finish end_streak
after_finish-runs wall id s e db =
    let k = emit_event-Recorded wall db (recovered_event e id) in ground (arith, k.runs)

-- The rows after a run was finished.
pub finish_run_and_emit-Ended :
    (wall : Time) (db db' : Db) (id : ℕ) (s : RunStatus) (code : ℤ) (attempt : ℕ) (output : Text)
    (e : Event)
    → is_active s ≡ false
    → finish_run_and_emit wall db id s code attempt output e ≡ inr db'
    → Ended id db'.runs
unfolding finish_run_and_emit finish_run
finish_run_and_emit-Ended wall db db' id s code attempt output e ends eq =
    let f = finished wall s code output in
    let ran = update_where (is_running_run id) f db.runs in
    let ran' = update_where (is_run id) (attempted attempt) ran in
    let db1 : Db = record db { runs = ran' } in
    elim (Bool-cases (any (is_running_run id) db.runs)) [
      | inl y ↦
          let over =
            attempted-Ended id attempt ran
              (update-Ended id f (λ r. (refl, ground arith)) db.runs y) in
          let same : after_finish wall id s e (emit_event wall db1 e) ≡ db' = ground arith in
          let runs : ran' ≡ db'.runs =
            sym (emit_event-Recorded wall db1 e).runs
            ∙ sym (after_finish-runs wall id s e (emit_event wall db1 e))
            ∙ ap (λ (d : Db). d.runs) same in
          subst (Ended id) runs over
      | inr n ↦ absurd (ground arith)
    ]

reap_stale_run-Ended :
    (wall : Time) (db : Db) (id : ℕ) (output : Text) (e : Event)
    → any (is_running_run id) db.runs ≡ true
    → Ended id (reap_stale_run wall db id output e).0.runs
unfolding reap_stale_run
reap_stale_run-Ended wall db id output e y =
    let f = finished wall failed (negsuc 0) output in
    let db1 : Db = record db { runs = update_where (is_running_run id) f db.runs } in
    rw y
      (rw (emit_event-Recorded wall db1 e).runs (update-Ended id f (λ r. (refl, refl)) db.runs y))

Ended-late :
    (wall : Time) (db : Db) (id : ℕ) (s : RunStatus) (code : ℤ) (attempt : ℕ) (output : Text)
    (e : Event)
    → Ended id db.runs
    → (finish_run_and_emit wall db id s code attempt output e ≡ inl run_not_running)
      × (reap_stale_run wall db id output e ≡ (db, false))
unfolding finish_run_and_emit finish_run reap_stale_run
Ended-late wall db id s code attempt output e h =
    let h0 = h.0 in let h1 = h.1 in (ground arith, rw h0)

-- Once a run was finished with an outcome that is not pending or running, a later finish of it is
-- refused as not running, and a later reap of it changes nothing and says so, whatever they report.
pub finish_run_and_emit-once :
    (wall wall' : Time) (db db' : Db) (id : ℕ) (s s' : RunStatus) (code code' : ℤ)
    (attempt attempt' : ℕ) (output output' : Text) (e e' : Event)
    → is_active s ≡ false
    → finish_run_and_emit wall db id s code attempt output e ≡ inr db'
    → (finish_run_and_emit wall' db' id s' code' attempt' output' e' ≡ inl run_not_running)
      × (reap_stale_run wall' db' id output' e' ≡ (db', false))
finish_run_and_emit-once wall wall' db db' id s s' code code' attempt attempt' output output' e e'
      ends eq =
    Ended-late wall' db' id s' code' attempt' output' e'
      (finish_run_and_emit-Ended wall db db' id s code attempt output e ends eq)

-- Once a run was reaped, a later finish of it is refused as not running, and a second reap changes
-- nothing and says so.
pub reap_stale_run-once :
    (wall wall' : Time) (db db' : Db) (id : ℕ) (s' : RunStatus) (code' : ℤ) (attempt' : ℕ)
    (output output' : Text) (e e' : Event)
    → reap_stale_run wall db id output e ≡ (db', true)
    → (finish_run_and_emit wall' db' id s' code' attempt' output' e' ≡ inl run_not_running)
      × (reap_stale_run wall' db' id output' e' ≡ (db', false))
unfolding reap_stale_run
reap_stale_run-once wall wall' db db' id s' code' attempt' output output' e e' eq =
    elim (Bool-cases (any (is_running_run id) db.runs)) [
      | inl y ↦
          let same : (reap_stale_run wall db id output e).0 ≡ db' =
            ap (λ (p : Db × Bool). p.0) eq in
          Ended-late wall' db' id s' code' attempt' output' e'
            (subst (λ (d : Db). Ended id d.runs) same (reap_stale_run-Ended wall db id output e y))
      | inr n ↦ absurd (ground arith)
    ]
