-- ===== src/Notify/Worker.antt =====
-- internal/notify/worker.go: the queue that the delivery worker (the kit's, not in this repository)
-- claims from, and settles its deliveries with. A delivery and its event are as they were claimed.
pub mod Steps
pub mod Reach
pub mod Order
pub mod GiveUp
use tend.Prelude.{Option, List, if◌then◌else◌}
use tend.Prelude.Int.{ℤ}
use tend.Clock.{Time, Duration, zero_time}
use tend.Event.{
  Event, EventType, notification_failed, same_type, notify, failed_type, no_key, no_detail,
}
use tend.Store.Schema.{Db, Delivery}
use tend.Store.Deliveries.{
  claim_due_deliveries, mark_delivery_delivered, reschedule_delivery, fail_delivery,
  fail_delivery_and_emit,
}
use tend.Store.Pacing.Release.{release_held}

-- Claim, where the release of the held alerts succeeds.
unfoldable pub claim :
    Time → Time → Duration → Duration → ℤ → Db → Option (Db × List (Delivery × Event))
claim wall now lease hold limit db =
    claim_due_deliveries now lease hold limit (release_held wall now db).0

unfoldable pub mark_sent : Delivery → Db → Db
mark_sent d db = mark_delivery_delivered d.id db

unfoldable pub retry : Delivery → Time → Db → Db
retry d at db = reschedule_delivery d.id at db

-- The notification.failed of a delivery that is given up.
unfoldable pub given_up : Delivery → EventType → Event
given_up d t = record {
  id = 0;
  org_id = d.org_id;
  event_type = notification_failed;
  source = notify;
  payload = failed_type t;
  dedup_key = no_key;
  created_at = zero_time;
  detail = no_detail;
}

unfoldable pub give_up : Time → Delivery → Event → Db → Db
unfolding same_type given_up
give_up wall d e db =
    if same_type e.event_type notification_failed
    then fail_delivery d.id db
    else fail_delivery_and_emit wall d.id (given_up d e.event_type) db
