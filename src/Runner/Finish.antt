-- ===== src/Runner/Finish.antt =====
-- finish of internal/jobs/runner.go: recording the result of a run, with retries. What a call of the
-- store, the context and the other processes do is a parameter; the event's Detail (failureDetail)
-- is set by the caller here.
pub mod Ends
use tend.Prelude.{
  ℕ, zero, suc, ◌+◌, ◌-◌, ◌*◌, ◌≤◌, ◌<◌, ◌≡◌, ◌≢◌, ◌⊎◌, inl, inr, refl, sym, ap, ◌∙◌, subst, Bool,
  true, false, Option, none, some, List, [], ◌∷◌, arith, if◌then◌else◌, ltb, any, Bool-cases,
  length,
}
use tend.Prelude.Int.{ℤ}
use tend.Core.Tail.{Text}
use tend.Clock.{Time, millisecond, second}
use tend.Event.{Event, RunStatus}
use tend.Jobs.{Run, is_running}
use tend.Store.Schema.{Db}
use tend.Store.Table.{update_where}
use tend.Store.Runs.{FinishError, run_gone, run_not_running, finish_run_and_emit, is_running_run}

abbrev pub finish_retry_pauses : List ℕ
finish_retry_pauses = (250 * millisecond) ∷ second ∷ (4 * second) ∷ []

-- A call of the store answers, or it fails with another error, with or without having committed.
pub data Call : Type 0 where
  answers lost committed : Call

-- What attempt `n` meets: the call, whether the context was cancelled by its end or in the pause
-- after it, and what others have done to the store by the next one.
pub record World : Type 0 where
  pub call : ℕ → Call
  pub cancelled : ℕ → Bool
  pub cancelled_in_pause : ℕ → Bool
  pub others : ℕ → Db → Db

-- How finish ends: with the sink fired, with nil and no sink call, or with an error.
pub data Ending : Type 0 where
  recorded discarded gone shutdown gave_up : Ending

-- The result of a run.
pub record RunResult : Type 0 where
  pub run_id : ℕ
  pub status : RunStatus
  pub exit_code : ℤ
  pub attempt : ℕ
  pub output : Text
  pub event : Event

unfoldable pub record_result : Time → RunResult → Db → FinishError ⊎ Db
record_result wall r db =
    finish_run_and_emit wall db r.run_id r.status r.exit_code r.attempt r.output r.event

-- The store after a call, and what the call reports: none for another error.
unfoldable pub try_result : Time → RunResult → Call → Db → Db × Option Ending
unfolding record_result
try_result wall r answers db = elim (record_result wall r db) [
  | inl run_not_running ↦ (db, some discarded)
  | inl run_gone ↦ (db, some gone)
  | inr db' ↦ (db', some recorded)
]
try_result wall r lost db = (db, none)
try_result wall r committed db = elim (record_result wall r db) [
  | inl err ↦ (db, none)
  | inr db' ↦ (db', none)
]

-- The attempts from the one numbered `n` on; none where the fuel runs out.
unfoldable pub finish_from : ℕ → ℕ → Time → RunResult → World → Db → Option (Db × Ending)
unfolding try_result
finish_from zero n wall r w db = none
finish_from (suc fuel) n wall r w db =
    let (db', answer) = try_result wall r (w.call n) db in
    let rest = finish_from fuel (suc n) wall r w (w.others n db') in
    elim answer [
      | some ending ↦ some (db', ending)
      | none ↦
          if w.cancelled n
          then some (db', shutdown)
          else if ltb (length finish_retry_pauses) n
          then some (db', gave_up)
          else if w.cancelled_in_pause n
          then some (db', shutdown)
          else rest
    ]

unfoldable pub finish : Time → RunResult → World → Db → Option (Db × Ending)
unfolding finish_from
finish wall r w db = finish_from 4 1 wall r w db
