-- ===== src/Store/Runs/Terminal.antt =====
-- The terminal events of runs: how many of them the events hold for a run, and what each operation
-- on the queue does to that number.
pub mod Steps
pub mod Ends
pub mod Reach
use Prim.Native.String.{String}
use tend.Prelude.{
  ℕ, suc, ◌+◌, ◌<◌, ◌≤◌, ◌≡◌, ◌≢◌, ◌⊎◌, inl, inr, refl, ap, sym, ◌∙◌, subst, Bool, true, false, not,
  ◌&&◌, List, [], ◌∷◌, ◌++◌, arith, if◌then◌else◌, ◌==◌, Bool-cases, any,
}
use tend.Clock.{Time}
use tend.Event.{
  Event, EventType, run_started, run_succeeded, run_failed, run_recovered, job_removed,
  heartbeat_missed, heartbeat_recovered, heartbeat_removed, notification_failed, RunStatus,
}
use tend.Jobs.{Run, is_active, is_succeeded, recovered_event}
use tend.Store.Schema.{Db}
use tend.Store.Table.{update_where, delete_where, In, In-append, In-update_where, In-select}
use tend.Store.Streak.{payload_run_id}
use tend.Store.Emit.{emit_event, as_recorded}
use tend.Store.Emit.Laws.{Recorded, emit_event-Recorded, as_recorded-same}
use tend.Store.Runs.{after_finish, end_streak, failed_before}
use tend.Store.Pings.Keys.{Unique, Unique-update, Unique-delete, Unique-append}

abbrev pub is_terminal : EventType → Bool
is_terminal run_succeeded = true
is_terminal run_failed = true
is_terminal _ = false

-- The event is a terminal one of the run `id`: 1, and 0 for any other.
abbrev pub terminal_of : ℕ → Event → ℕ
terminal_of id e = if is_terminal e.event_type && (payload_run_id e.payload == id) then 1 else 0

-- How many terminal events of the run there are.
unfoldable pub told : ℕ → List Event → ℕ
told id [] = 0
told id (e ∷ es) = terminal_of id e + told id es

told-append :
    (id : ℕ) (es : List Event) (e : Event) → told id (es ++ e ∷ []) ≡ told id es + terminal_of id e
unfolding told
told-append id [] e = omega arith
told-append id (d ∷ es) e = omega (arith, told-append id es e)

pub told-emit_event :
    (id : ℕ) (wall : Time) (db : Db) (e : Event)
    → told id (emit_event wall db e).events ≡ told id db.events + terminal_of id e
told-emit_event id wall db e =
    let s = as_recorded-same wall db e in
    rw ((emit_event-Recorded wall db e).events, told-append id db.events (as_recorded wall db e))
      (rw (s.0, s.2))

-- A run that is pending or running has no terminal event, a finished one has one.
abbrev pub due_of : Run → ℕ
due_of r = if is_active r.status then 0 else 1

abbrev pub SameRun : Run → Run → Type 0
SameRun x y = x.id ≡ y.id

-- The rows have ids of their own, below the next one; each has the terminal events that its status
-- says, and no run, deleted ones and those to come included, has two.
pub record Settled (runs : List Run) (events : List Event) (next : ℕ) : Type 0 where
  pub ids : Unique SameRun runs
  pub below : (r : Run) → In r runs → r.id < next
  pub agrees : (r : Run) → In r runs → told r.id events ≡ due_of r
  pub at_most : (id : ℕ) → told id events ≤ 1
  pub none_ahead : (id : ℕ) → next ≤ id → told id events ≡ 0

abbrev pub Inv : Db → Type 0
Inv db = Settled db.runs db.events db.next_run_id
