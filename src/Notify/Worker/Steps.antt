-- ===== src/Notify/Worker/Steps.antt =====
-- The queue of deliveries over time: what the worker does to it, and the operations of the store
-- that add to it or delete from it, in any order and from any number of workers.
use tend.Prelude.{
  ℕ, ◌≡◌, ◌⊎◌, inl, inr, refl, true, false, some, List, map, select, arith, Bool-cases,
  Option-cases, any,
}
use tend.Prelude.Int.{ℤ}
use tend.Clock.{Time, Duration}
use tend.Event.{Event, notification_failed, same_type}
use tend.Store.Schema.{Db, Delivery, DeliveryState, failed}
use tend.Store.Table.{update_where}
use tend.Store.Emit.{emit_event}
use tend.Store.Prune.{prune_events, prune_job_runs, prune_deliveries}
use tend.Store.Channels.{delete_channel}
use tend.Store.Deliveries.{
  claim_due_deliveries, fail_delivery, fail_delivery_and_emit, is_waiting, is_delivery,
  is_waiting_delivery, settled, attempted, is_among, due_deliveries, join_events,
}
use tend.Store.Deliveries.Rows.{Comes, Follows, update-Follows}
use tend.Store.Pacing.Release.{release_held}
use tend.Notify.Worker.{mark_sent, retry, give_up, given_up}

-- A worker's Claim is a release and a claim, between which other steps may come. A worker settles a delivery as it claimed it, any time before, with the event it was joined with.
-- Any other operation on the store is one that leaves the deliveries and the events alone, beside
-- the events that it emits.
pub data Step : Db → Db → Type 0 where
  emitted : (db : Db) (wall : Time) (e : Event) → Step db (emit_event wall db e)
  released : (db : Db) (wall now : Time) → Step db (release_held wall now db).0
  claimed :
      (db : Db) (now : Time) (lease hold : Duration) (limit : ℤ) (r : Db × List (Delivery × Event))
      → claim_due_deliveries now lease hold limit db ≡ some r
      → Step db r.0
  sent : (db : Db) (d : Delivery) → Step db (mark_sent d db)
  retried : (db : Db) (d : Delivery) (at : Time) → Step db (retry d at db)
  gave_up : (db : Db) (wall : Time) (d : Delivery) (e : Event) → Step db (give_up wall d e db)
  pruned_events : (db : Db) (cutoff : Time) → Step db (prune_events cutoff db).0
  pruned_runs : (db : Db) (cutoff : Time) → Step db (prune_job_runs cutoff db).0
  pruned_deliveries : (db : Db) (cutoff : Time) → Step db (prune_deliveries cutoff db).0
  deleted_channel : (db : Db) (org id : ℕ) → Step db (delete_channel org id db)
  other :
      (a b : Db)
      → b.events ≡ a.events
      → b.next_event_id ≡ a.next_event_id
      → b.deliveries ≡ a.deliveries
      → b.next_delivery_id ≡ a.next_delivery_id
      → Step a b

pub data Reach (a : Db) : Db → Type 0 where
  here : Reach a a
  then_step : {b c : Db} → Reach a b → Step b c → Reach a c

pub settled-Comes :
    (s : DeliveryState) → is_waiting s ≡ false → (x : Delivery) → Comes x (settled s x)
settled-Comes s h x = record {
  id = refl;
  channel_id = refl;
  event_id = refl;
  waits = λ w. absurd (ground arith);
}

pub claim_due_deliveries-Follows :
    (P : ℕ → Type 0) (now : Time) (lease hold : Duration) (limit : ℤ) (db : Db)
    (r : Db × List (Delivery × Event))
    → claim_due_deliveries now lease hold limit db ≡ some r
    → Follows P db r.0
unfolding claim_due_deliveries
claim_due_deliveries-Follows P now lease hold limit db r h =
    let taken = is_among (due_deliveries now hold limit db.deliveries) in
    let rows = map (attempted now lease) (select taken db.deliveries) in
    elim (Option-cases (join_events db.events rows)) [
      | inl n ↦ absurd (ground arith)
      | inr (out, g) ↦
          update-Follows P db r.0 taken (attempted now lease) (ground arith) (ground arith)
            (λ x. record { id = refl; channel_id = refl; event_id = refl; waits = λ w. w })
    ]

-- The store with a delivery that waited failed, before the notification.failed of it.
abbrev pub given : Delivery → Db → Db
given d db = record db {
  deliveries = update_where (is_waiting_delivery d.id) (settled failed) db.deliveries;
}

-- Giving up fails the delivery of a notification.failed, and of any other delivery that waits it
-- records a notification.failed.
pub give_up-cases :
    (wall : Time) (d : Delivery) (e : Event) (db : Db)
    → ((give_up wall d e db ≡ emit_event wall (given d db) (given_up d e.event_type))
        × (same_type e.event_type notification_failed ≡ false)
        × (any (is_waiting_delivery d.id) db.deliveries ≡ true))
      ⊎ (((give_up wall d e db ≡ fail_delivery d.id db)
            × (same_type e.event_type notification_failed ≡ true))
          ⊎ ((give_up wall d e db ≡ db) × (any (is_waiting_delivery d.id) db.deliveries ≡ false)))
unfolding give_up fail_delivery_and_emit
give_up-cases wall d e db = elim (Bool-cases (same_type e.event_type notification_failed)) [
  | inl y ↦ inr (inl (rw y refl, y))
  | inr n ↦ elim (Bool-cases (any (is_waiting_delivery d.id) db.deliveries)) [
    | inl w ↦ inl (rw (n, w) refl, n, w)
    | inr w ↦ inr (inr (rw (n, w) refl, w))
  ]
]

pub given-Follows : (P : ℕ → Type 0) (d : Delivery) (db : Db) → Follows P db (given d db)
given-Follows P d db =
    update-Follows P db (given d db) (is_waiting_delivery d.id) (settled failed) refl refl
      (settled-Comes failed refl)

pub fail_delivery-Follows : (P : ℕ → Type 0) (id : ℕ) (db : Db) → Follows P db (fail_delivery id db)
unfolding fail_delivery
fail_delivery-Follows P id db =
    update-Follows P db (fail_delivery id db) (is_delivery id) (settled failed) refl refl
      (settled-Comes failed refl)
