-- ===== src/Store/Prune.antt =====
-- internal/store/sqlite.go: what the retention deletes.
use tend.Prelude.{ℕ, none, some, Bool, false, not, ◌&&◌, ◌==◌, ltb, any, length, select}
use tend.Clock.{Time}
use tend.Event.{Event}
use tend.Jobs.{Run, is_active}
use tend.Store.Schema.{Db, Delivery, AlertRow}
use tend.Store.Table.{delete_where}
use tend.Store.Deliveries.{is_waiting}

abbrev pub awaits : ℕ → Delivery → Bool
awaits event d = is_waiting d.state && (d.event_id == event)

abbrev pub holds_event : ℕ → AlertRow → Bool
holds_event event a = elim a.held_event_id [ none ↦ false | some id ↦ id == event ]

abbrev pub is_old_event : Time → Db → Event → Bool
is_old_event cutoff db e =
    ltb e.created_at cutoff
    && not (any (awaits e.id) db.deliveries)
    && not (any (holds_event e.id) db.alerts)

-- PruneEvents, with the number of the rows deleted, as for the others.
unfoldable pub prune_events : Time → Db → Db × ℕ
prune_events cutoff db = (
  record db { events = delete_where (is_old_event cutoff db) db.events },
  length (select (is_old_event cutoff db) db.events),
)

abbrev pub is_old_run : Time → Run → Bool
is_old_run cutoff r = ltb r.created_at cutoff && not (is_active r.status)

unfoldable pub prune_job_runs : Time → Db → Db × ℕ
prune_job_runs cutoff db = (
  record db { runs = delete_where (is_old_run cutoff) db.runs },
  length (select (is_old_run cutoff) db.runs),
)

abbrev pub is_old_delivery : Time → Delivery → Bool
is_old_delivery cutoff d = ltb d.created_at cutoff && not (is_waiting d.state)

unfoldable pub prune_deliveries : Time → Db → Db × ℕ
prune_deliveries cutoff db = (
  record db { deliveries = delete_where (is_old_delivery cutoff) db.deliveries },
  length (select (is_old_delivery cutoff) db.deliveries),
)
