-- ===== src/Notify/Worker/GiveUp.antt =====
-- What giving a delivery up records, and that it does so once.
use tend.Prelude.{
  ℕ, ◌<◌, ◌≡◌, inl, inr, refl, sym, ◌∙◌, subst, false, not, ◌&&◌, List, [], ◌∷◌, ◌++◌, arith,
  Bool-cases, any, if◌then◌else◌,
}
use mathlib.Core.List.{append-nil}
use tend.Clock.{Time}
use tend.Event.{Event, notification_failed, same_type, failed_type}
use tend.Store.Schema.{Db, Delivery, failed}
use tend.Store.Table.{In, In-update_where}
use tend.Store.Emit.{as_recorded}
use tend.Store.Emit.Laws.{emit_event-Recorded, as_recorded-same}
use tend.Store.Pings.Reported.{any-false}
use tend.Store.Deliveries.{is_waiting, is_delivery, is_waiting_delivery, settled, fail_delivery}
use tend.Notify.Worker.{give_up, given_up}
use tend.Notify.Worker.Steps.{emitted, give_up-cases, given}
use tend.Notify.Worker.Order.{Settled, Step-Settled}

given-Settled : (d : Delivery) (db : Db) → d.id < db.next_delivery_id → Settled d.id (given d db)
given-Settled d db l = (
  l,
  λ x j e.
      let (y, i, q) =
        In-update_where (is_waiting_delivery d.id) (settled failed) x db.deliveries j in
      elim (Bool-cases (is_waiting_delivery d.id y)) [
        | inl t ↦
            let s = rw t at q in subst (λ (z : Delivery). is_waiting z.state ≡ false) (sym s) refl
        | inr n ↦ let s : x ≡ y = rw n at q in ground arith
      ],
)

fail_delivery-Settled :
    (d : Delivery) (db : Db) → d.id < db.next_delivery_id → Settled d.id (fail_delivery d.id db)
unfolding fail_delivery
fail_delivery-Settled d db l = (
  l,
  λ x j e.
      let (y, i, q) = In-update_where (is_delivery d.id) (settled failed) x db.deliveries j in
      elim (Bool-cases (is_delivery d.id y)) [
        | inl t ↦
            let s = rw t at q in subst (λ (z : Delivery). is_waiting z.state ≡ false) (sym s) refl
        | inr n ↦ let s : x ≡ y = rw n at q in absurd (ground arith)
      ],
)

give_up-Settled :
    (wall : Time) (d : Delivery) (e : Event) (db : Db)
    → d.id < db.next_delivery_id
    → Settled d.id (give_up wall d e db)
give_up-Settled wall d e db l = elim (give_up-cases wall d e db) [
  | inl (g, n, w) ↦ rw g (
      Step-Settled (emitted (given d db) wall (given_up d e.event_type)) d.id
        (given-Settled d db l))
  | inr (inl (g, y)) ↦ rw g (fail_delivery-Settled d db l)
  | inr (inr (g, w)) ↦ rw g (
    l,
    λ x j same.
        let quiet = any-false (is_waiting_delivery d.id) x db.deliveries w j in ground arith,
  )
]

any-none-waits :
    (id : ℕ) (ds : List Delivery)
    → ((d : Delivery) → In d ds → d.id ≡ id → is_waiting d.state ≡ false)
    → any (is_waiting_delivery id) ds ≡ false
any-none-waits id [] h = refl
any-none-waits id (d ∷ ds) h =
    ground (arith, any-none-waits id ds (λ x i. h x (inr i)), h d (inl refl))

fail_delivery-events : (id : ℕ) (db : Db) → (fail_delivery id db).events ≡ db.events
unfolding fail_delivery
fail_delivery-events id db = refl

-- The events that giving up a delivery adds.
abbrev pub told_by : Delivery → Event → Event → Db → List Event
told_by d e x db =
    if any (is_waiting_delivery d.id) db.deliveries
      && not (same_type e.event_type notification_failed)
    then x ∷ []
    else []

give_up-events :
    (wall : Time) (d : Delivery) (e : Event) (db : Db)
    → (x : Event) × ((give_up wall d e db).events ≡ db.events ++ told_by d e x db)
      × (x.event_type ≡ notification_failed)
      × (x.payload ≡ failed_type e.event_type)
unfolding given_up
give_up-events wall d e db =
    let ev = given_up d e.event_type in
    let x = as_recorded wall (given d db) ev in
    let (t, o, p) = as_recorded-same wall (given d db) ev in
    let all = append-nil db.events in
    (
      x,
      elim (give_up-cases wall d e db) [
        | inl (g, n, w) ↦ rw (g, n, w) (emit_event-Recorded wall (given d db) ev).events
        | inr (inl (g, y)) ↦ rw g (fail_delivery-events d.id db ∙ ground arith)
        | inr (inr (g, w)) ↦ rw (g, w) (sym all)
      ],
      t,
      p,
    )

give_up-twice :
    (wall : Time) (d : Delivery) (e : Event) (db : Db)
    → Settled d.id db
    → (give_up wall d e db).events ≡ db.events
give_up-twice wall d e db (l, h) =
    let none_waits = any-none-waits d.id db.deliveries h in
    elim (give_up-cases wall d e db) [
      | inl (g, n, w) ↦ absurd (ground arith)
      | inr (inl (g, y)) ↦ rw g (fail_delivery-events d.id db)
      | inr (inr (g, w)) ↦ rw g refl
    ]

-- Giving up a delivery records one event, a notification.failed that names the type of the event
-- not delivered, if the delivery waits and that type is not itself notification.failed, and none
-- otherwise; and giving the same delivery up again, by any worker and with any event, records none.
pub give_up-once :
    (wall wall' : Time) (d d' : Delivery) (e e' : Event) (db : Db)
    → d.id < db.next_delivery_id
    → d'.id ≡ d.id
    → let given = give_up wall d e db in
      ((x : Event) × (given.events ≡ db.events ++ told_by d e x db)
        × (x.event_type ≡ notification_failed)
        × (x.payload ≡ failed_type e.event_type))
      × ((give_up wall' d' e' given).events ≡ given.events)
give_up-once wall wall' d d' e e' db l same =
    let given = give_up wall d e db in
    let once = give_up-Settled wall d e db l in
    let again : Settled d'.id given = subst (λ id. Settled id given) (sym same) once in
    (give_up-events wall d e db, give_up-twice wall' d' e' given again)
