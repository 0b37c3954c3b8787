-- ===== src/Store/Deliveries.antt =====
-- internal/store/sqlite.go: the queue of deliveries. A claim that fails leaves the store as it was.
-- The rows that an UPDATE returns come in the order of the table here.
pub mod Claim
pub mod Rows
pub mod Release
use tend.Prelude.{
  suc, Option, none, some, Bool, true, false, not, ◌&&◌, ◌||◌, ℕ, List, [], ◌∷◌, map, ◌==◌, leb,
  ltb, if◌then◌else◌, find, select, any, take,
}
use tend.Prelude.Int.{ℤ, pos, leb_ℤ, pos_part}
use tend.Clock.{Time, Duration, add, add_neg, after, is_zero}
use tend.Event.{Event}
use tend.Store.Schema.{Db, Delivery, DeliveryState, pending, delivered, failed}
use tend.Store.Table.{update_where}
use tend.Store.Emit.{emit_event}

abbrev pub is_waiting : DeliveryState → Bool
is_waiting pending = true
is_waiting delivered = false
is_waiting failed = false

abbrev pub default_list_limit : ℕ
default_list_limit = 50

abbrev pub batch : ℤ → ℕ
batch limit = if leb_ℤ limit (pos 0) then default_list_limit else pos_part limit

-- `held`: an older pending delivery `o` on the channel of `d`, not attempted yet or first attempted
-- within the hold.
abbrev pub holds_back : Time → Duration → Delivery → Delivery → Bool
holds_back now hold d o =
    (o.channel_id == d.channel_id)
    && is_waiting o.state
    && ltb o.id d.id
    && (is_zero o.first_attempt_at || after o.first_attempt_at (add_neg now hold))

abbrev pub is_held_back : Time → Duration → List Delivery → Delivery → Bool
is_held_back now hold ds d = if leb_ℤ hold (pos 0) then false else any (holds_back now hold d) ds

abbrev pub is_due : Time → Duration → List Delivery → Delivery → Bool
is_due now hold ds d =
    is_waiting d.state && leb d.next_attempt_at now && not (is_held_back now hold ds d)

-- The deliveries that a claim takes.
unfoldable pub due_deliveries : Time → Duration → ℤ → List Delivery → List Delivery
due_deliveries now hold limit ds = take (batch limit) (select (is_due now hold ds) ds)

abbrev pub is_delivery : ℕ → Delivery → Bool
is_delivery id d = d.id == id

abbrev pub is_among : List Delivery → Delivery → Bool
is_among due d = any (λ c. c.id == d.id) due

abbrev pub attempted : Time → Duration → Delivery → Delivery
attempted now lease d = record d {
  attempts = suc d.attempts;
  next_attempt_at = add now lease;
  first_attempt_at = if is_zero d.first_attempt_at then now else d.first_attempt_at;
}

-- The event of each delivery, or none if one is missing.
unfoldable pub join_events : List Event → List Delivery → Option (List (Delivery × Event))
join_events events [] = some []
join_events events (d ∷ ds) = elim (find (λ e. e.id == d.event_id) events) [
  | none ↦ none
  | some e ↦ elim (join_events events ds) [ none ↦ none | some rest ↦ some ((d, e) ∷ rest) ]
]

unfoldable pub claim_due_deliveries :
    Time → Duration → Duration → ℤ → Db → Option (Db × List (Delivery × Event))
unfolding due_deliveries join_events
claim_due_deliveries now lease hold limit db =
    let due = due_deliveries now hold limit db.deliveries in
    let taken = is_among due in
    elim (join_events db.events (map (attempted now lease) (select taken db.deliveries))) [
      | none ↦ none
      | some out ↦
          some
            (record db { deliveries = update_where taken (attempted now lease) db.deliveries }, out)
    ]

abbrev pub settled : DeliveryState → Delivery → Delivery
settled s d = record d { state = s }

unfoldable pub mark_delivery_delivered : ℕ → Db → Db
mark_delivery_delivered id db = record db {
  deliveries = update_where (is_delivery id) (settled delivered) db.deliveries;
}

-- `WHERE id = ? AND state = 'pending'`.
abbrev pub is_waiting_delivery : ℕ → Delivery → Bool
is_waiting_delivery id d = is_delivery id d && is_waiting d.state

abbrev pub rescheduled : Time → Delivery → Delivery
rescheduled at d = record d { next_attempt_at = at }

unfoldable pub reschedule_delivery : ℕ → Time → Db → Db
reschedule_delivery id at db = record db {
  deliveries = update_where (is_waiting_delivery id) (rescheduled at) db.deliveries;
}

unfoldable pub fail_delivery : ℕ → Db → Db
fail_delivery id db = record db {
  deliveries = update_where (is_delivery id) (settled failed) db.deliveries;
}

unfoldable pub fail_delivery_and_emit : Time → ℕ → Event → Db → Db
fail_delivery_and_emit wall id e db =
    if any (is_waiting_delivery id) db.deliveries
    then emit_event wall
        (record db {
          deliveries = update_where (is_waiting_delivery id) (settled failed) db.deliveries;
        })
        e
    else db
