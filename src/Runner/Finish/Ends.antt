-- ===== src/Runner/Finish/Ends.antt =====
-- How recording a result ends.
use tend.Prelude.{
  ℕ, zero, suc, ◌+◌, ◌≤◌, ◌<◌, ◌≡◌, ◌≢◌, inl, inr, refl, sym, subst, Bool, true, false, none, some,
  arith, ltb, ◌==◌, any, Bool-cases, Option-cases,
}
use tend.Clock.{Time}
use tend.Jobs.{is_active}
use tend.Store.Schema.{Db}
use tend.Store.Runs.{
  FinishError, run_gone, run_not_running, finish_run_and_emit, finish_run, is_running_run,
}
use tend.Store.Runs.Final.{Ended, finish_run_and_emit-Ended}
use tend.Runner.Finish.{
  Call, answers, lost, committed, World, Ending, recorded, discarded, gone, shutdown, gave_up,
  RunResult, record_result, try_result, finish_from, finish,
}

-- What an attempt left of the run, for an ending that it reports.
abbrev Says : Time → RunResult → Db → Db → Ending → Type 0
Says wall r db db' recorded = record_result wall r db ≡ inr db'
Says wall r db db' discarded = (record_result wall r db ≡ inl run_not_running) × (db' ≡ db)
Says wall r db db' gone = (record_result wall r db ≡ inl run_gone) × (db' ≡ db)
Says wall r db db' shutdown = Unit
Says wall r db db' gave_up = Unit

try_result-Says :
    (wall : Time) (r : RunResult) (c : Call) (db : Db) (e : Ending)
    → (try_result wall r c db).1 ≡ some e
    → Says wall r db (try_result wall r c db).0 e
unfolding try_result
try_result-Says wall r answers db recorded h = ground arith
try_result-Says wall r answers db discarded h = ground arith
try_result-Says wall r answers db gone h = ground arith
try_result-Says wall r answers db shutdown h = tt
try_result-Says wall r answers db gave_up h = tt
try_result-Says wall r lost db e h = absurd (ground arith)
try_result-Says wall r committed db e h = absurd (ground arith)

try_result-fails :
    (wall : Time) (r : RunResult) (c : Call) (db : Db)
    → (try_result wall r c db).1 ≡ none
    → c ≢ answers
unfolding try_result
try_result-fails wall r c db h e = ground arith

-- The endings that an attempt reports itself.
abbrev pub of_attempt : Ending → Bool
of_attempt recorded = true
of_attempt discarded = true
of_attempt gone = true
of_attempt shutdown = false
of_attempt gave_up = false

try_result-own :
    (wall : Time) (r : RunResult) (c : Call) (db : Db) (e : Ending)
    → (try_result wall r c db).1 ≡ some e
    → of_attempt e ≡ true
unfolding try_result
try_result-own wall r c db e h = ground arith

own-gave_up : (e : Ending) → of_attempt e ≡ true → e ≢ gave_up
own-gave_up e t g = ground arith

-- How the attempts from number `n` to the fourth end.
record Ends (n : ℕ) (wall : Time) (r : RunResult) (w : World) (out : Db × Ending) : Type 0 where
  reported : of_attempt out.1 ≡ true → (db : Db) × Says wall r db out.0 out.1
  kept_failing : out.1 ≡ gave_up → (m : ℕ) → n ≤ m → m ≤ 4 → w.call m ≢ answers

shutdown-Ends :
    (n : ℕ) (wall : Time) (r : RunResult) (w : World) (db : Db) → Ends n wall r w (db, shutdown)
shutdown-Ends n wall r w db = record {
  reported = λ t. absurd (ground arith);
  kept_failing = λ g. absurd (ground arith);
}

Says-recorded :
    (wall : Time) (r : RunResult) (db : Db) (out : Db × Ending)
    → out.1 ≡ recorded
    → Says wall r db out.0 out.1
    → record_result wall r db ≡ inr out.0
Says-recorded wall r db out e s = subst (Says wall r db out.0) e s

finish_from-Ends :
    (fuel n : ℕ) (wall : Time) (r : RunResult) (w : World) (db : Db)
    → fuel + n ≡ 5
    → 0 < fuel
    → (out : Db × Ending) × (finish_from fuel n wall r w db ≡ some out) × Ends n wall r w out
unfolding finish_from
finish_from-Ends zero n wall r w db f p = absurd (omega (arith, p))
finish_from-Ends (suc fuel) n wall r w db f p =
    let (db', answer) = try_result wall r (w.call n) db in
    elim (Option-cases (try_result wall r (w.call n) db).1) [
      | inr (e, h) ↦
          let says = try_result-Says wall r (w.call n) db e h in
          let own = try_result-own wall r (w.call n) db e h in
          (
            (db', e),
            ground arith,
            record { reported = λ t. (db, says); kept_failing = λ g. absurd (own-gave_up e own g) },
          )
      | inl h ↦
          let failed = try_result-fails wall r (w.call n) db h in
          elim (Bool-cases (w.cancelled n)) [
            | inl c ↦ ((db', shutdown), ground arith, shutdown-Ends n wall r w db')
            | inr c ↦ elim (Bool-cases (ltb 3 n)) [
              | inl last ↦ (
                (db', gave_up),
                ground arith,
                record {
                  reported = λ t. absurd (ground arith);
                  kept_failing = λ g m lo hi.
                      let same : n ≡ m = ground arith in
                      subst (λ k. w.call k ≢ answers) same failed;
                },
              )
              | inr more ↦ elim (Bool-cases (w.cancelled_in_pause n)) [
                | inl s ↦ ((db', shutdown), ground arith, shutdown-Ends n wall r w db')
                | inr s ↦
                    let (out, q, ends) =
                      finish_from-Ends fuel (suc n) wall r w (w.others n db') (omega (arith, f))
                        (ground arith) in
                    (
                      out,
                      ground arith,
                      record {
                        reported = ends.reported;
                        kept_failing = λ g m lo hi. elim (Bool-cases (m == n)) [
                          | inl y ↦
                              let same : n ≡ m = ground arith in
                              subst (λ k. w.call k ≢ answers) same failed
                          | inr y ↦ ends.kept_failing g m (ground arith) hi
                        ];
                      },
                    )
              ]
            ]
          ]
    ]

recorded-Ended :
    (wall : Time) (r : RunResult) (db db' : Db)
    → is_active r.status ≡ false
    → record_result wall r db ≡ inr db'
    → Ended r.run_id db'.runs
unfolding record_result
recorded-Ended wall r db db' a s =
    finish_run_and_emit-Ended wall db db' r.run_id r.status r.exit_code r.attempt r.output r.event a
      s

refused :
    (wall : Time) (r : RunResult) (db : Db) (err : FinishError)
    → record_result wall r db ≡ inl err
    → any (is_running_run r.run_id) db.runs ≡ false
unfolding record_result finish_run_and_emit finish_run
refused wall r db err h = ground arith

-- No row of the run is running.
ended :
    (wall : Time) (r : RunResult) (db db' : Db) (e : Ending)
    → is_active r.status ≡ false
    → Says wall r db db' e
    → of_attempt e ≡ true
    → any (is_running_run r.run_id) db'.runs ≡ false
ended wall r db db' recorded a s t = (recorded-Ended wall r db db' a s).0
ended wall r db db' discarded a s t =
    subst (λ (d : Db). any (is_running_run r.run_id) d.runs ≡ false) (sym s.1)
      (refused wall r db run_not_running s.0)
ended wall r db db' gone a s t =
    subst (λ (d : Db). any (is_running_run r.run_id) d.runs ≡ false) (sym s.1)
      (refused wall r db run_gone s.0)
ended wall r db db' shutdown a s t = absurd (ground arith)
ended wall r db db' gave_up a s t = absurd (ground arith)

-- Recording a result ends after at most four attempts, whatever the store, the context and other
-- processes do. It gives up only if all four met a failing store; where it fires the sink an attempt
-- committed the result; and where it ends with the sink fired, with nil, or with the run gone, the
-- run is no longer running.
pub finish-ends :
    (wall : Time) (r : RunResult) (w : World) (db : Db)
    → is_active r.status ≡ false
    → (out : Db × Ending) × (finish wall r w db ≡ some out)
      × (out.1 ≡ gave_up → (n : ℕ) → 1 ≤ n → n ≤ 4 → w.call n ≢ answers)
      × (out.1 ≡ recorded → (before : Db) × (record_result wall r before ≡ inr out.0))
      × (of_attempt out.1 ≡ true → any (is_running_run r.run_id) out.0.runs ≡ false)
unfolding finish
finish-ends wall r w db a =
    let (out, q, ends) = finish_from-Ends 4 1 wall r w db (omega arith) (omega arith) in
    (
      out,
      q,
      ends.kept_failing,
      λ e.
          let (before, s) = ends.reported (rw e refl) in
          (before, Says-recorded wall r before out e s),
      λ t. let (before, s) = ends.reported t in ended wall r before out.0 out.1 a s t,
    )
