-- ===== src/Tests/Sends.antt =====
-- The queue of deliveries on concrete inputs.
use tend.Prelude.{
  ◌≤◌, ◌≡◌, ◌≢◌, inl, refl, true, false, Option, none, some, [], ◌∷◌, ◌++◌, List, arith,
}
use tend.Prelude.Int.{pos}
use tend.Event.{
  same_type, Event, heartbeat_missed, heartbeat_recovered, notification_failed, heartbeat_name,
  heartbeat, no_key, no_detail, failed_type, alertable,
}
use tend.Store.Schema.{Db, Rule, Delivery, delivered}
use tend.Store.Table.{In}
use tend.Store.Emit.{emit_event}
use tend.Store.Emit.Deliveries.{queued}
use tend.Store.Streak.{with_streak, streak_of}
use tend.Store.Pacing.{paced}
use tend.Store.Pacing.Channels.{matched_channels}
use tend.Store.Channels.{delete_channel}
use tend.Store.Channels.Silence.{delete_channel-silent}
use tend.Store.Deliveries.{claim_due_deliveries, mark_delivery_delivered, attempted, is_waiting}
use tend.Notify.Pacing.{ChannelType}
use tend.Notify.Worker.{claim, mark_sent, give_up}
use tend.Notify.Worker.Steps.{Step, Reach, here, then_step}
use tend.Notify.Worker.Order.{
  claims-ordered, settled-never_claimed, claim_due_deliveries-heads, claim-total,
}
use tend.Notify.Worker.GiveUp.{told_by, give_up-once}
use tend.Tests.Data.{empty_db, get}

-- A channel that hears of missed and of recovered heartbeats.
abbrev to_phone : Rule
to_phone = record {
  id = 1;
  org_id = 1;
  channel_id = 3;
  event_type = heartbeat_missed;
  enabled = true;
  job_id = 0;
  repeat_seconds = none;
}

abbrev phone : Db
phone = record empty_db {
  rules = to_phone ∷ record to_phone { id = 2; event_type = heartbeat_recovered } ∷ [];
  channels =
      record { id = 3; org_id = 1; name = "phone"; kind = ChannelType.discord; config = "" } ∷ [];
}

abbrev missed : Event
missed = record {
  id = 0;
  org_id = 1;
  event_type = heartbeat_missed;
  source = heartbeat;
  payload = heartbeat_name "backup";
  dedup_key = no_key;
  created_at = 400;
  detail = no_detail;
}

abbrev no_delivery : Delivery × Event
no_delivery = (
  record {
    id = 0;
    org_id = 0;
    event_id = 0;
    channel_id = 0;
    attempts = 0;
    state = delivered;
    next_attempt_at = 0;
    first_attempt_at = 0;
    created_at = 0;
  },
  missed,
)

abbrev head {ℓ} : {A : Type ℓ} → List A → Option A
head [] = none
head (x ∷ xs) = some x

-- It is missed, and comes back.
abbrev both : Db
unfolding emit_event
both =
    emit_event 600 (emit_event 500 phone missed)
      (record missed { event_type = heartbeat_recovered })

both-Reach : Reach phone both
unfolding emit_event both
both-Reach = then_step (then_step here (Step.emitted phone 500 missed)) (
    Step.emitted (emit_event 500 phone missed) 600
      (record missed { event_type = heartbeat_recovered }))

abbrev first_claim : Db × List (Delivery × Event)
unfolding claim_due_deliveries emit_event
first_claim = get (empty_db, []) (claim_due_deliveries 700 (pos 60) (pos 1000) (pos 10) both)

first_claim-claimed : claim_due_deliveries 700 (pos 60) (pos 1000) (pos 10) both ≡ some first_claim
unfolding claim_due_deliveries emit_event alertable with_streak streak_of matched_channels same_type
    paced
first_claim-claimed = refl

-- The second is claimed once the first was sent.
abbrev sent_first : Db
unfolding mark_sent
sent_first = mark_sent (get no_delivery (head first_claim.1)).0 first_claim.0

abbrev second_claim : Db × List (Delivery × Event)
unfolding claim_due_deliveries emit_event mark_sent
second_claim = get (empty_db, []) (claim_due_deliveries 800 (pos 60) (pos 1000) (pos 10) sent_first)

second_claim-claimed :
    claim_due_deliveries 800 (pos 60) (pos 1000) (pos 10) sent_first ≡ some second_claim
unfolding claim_due_deliveries emit_event alertable with_streak streak_of matched_channels same_type
    paced mark_sent mark_delivery_delivered
second_claim-claimed = refl

abbrev first_delivery : Delivery
unfolding claim_due_deliveries emit_event
first_delivery = (get no_delivery (head first_claim.1)).0

abbrev second_delivery : Delivery
unfolding claim_due_deliveries emit_event mark_sent
second_delivery = (get no_delivery (head second_claim.1)).0

claims-ordered_example : first_delivery.id ≤ second_delivery.id
unfolding claim_due_deliveries emit_event alertable with_streak streak_of matched_channels same_type
    paced mark_sent mark_delivery_delivered
claims-ordered_example =
    claims-ordered first_delivery second_delivery (get no_delivery (head first_claim.1)).1
      (get no_delivery (head second_claim.1)).1 refl both-Reach 700 800 (pos 60) (pos 60) (pos 1000)
      1000 (pos 10) (pos 10) (omega arith) (λ o i w c z. ground arith) first_claim-claimed
      (inl refl) (then_step here (Step.sent first_claim.0 first_delivery)) second_claim-claimed
      (inl refl) refl

-- The first is never claimed again.
sent_first-Reach : Reach phone sent_first
unfolding claim_due_deliveries emit_event alertable with_streak streak_of matched_channels same_type
    paced mark_sent mark_delivery_delivered both
sent_first-Reach =
    then_step
      (then_step both-Reach
        (Step.claimed both 700 (pos 60) (pos 1000) (pos 10) first_claim first_claim-claimed))
      (Step.sent first_claim.0 first_delivery)

settled-never_claimed_example : second_delivery.id ≢ first_delivery.id
unfolding claim_due_deliveries emit_event alertable with_streak streak_of matched_channels same_type
    paced mark_sent mark_delivery_delivered
settled-never_claimed_example =
    settled-never_claimed (record first_delivery { state = delivered }) second_delivery
      (get no_delivery (head second_claim.1)).1 refl sent_first-Reach (inl refl) refl here 800
      (pos 60) (pos 1000) (pos 10) second_claim-claimed (inl refl)

-- As both were queued, the first is the first that waits on the channel.
abbrev queued_first : Delivery
unfolding emit_event
queued_first = get no_delivery.0 (head both.deliveries)

claim_due_deliveries-heads_example :
    (e : Event) × In (attempted 700 (pos 60) queued_first, e) first_claim.1
unfolding claim_due_deliveries emit_event alertable with_streak streak_of matched_channels same_type
    paced
claim_due_deliveries-heads_example =
    claim_due_deliveries-heads 700 (pos 60) (pos 1000) (pos 10) both first_claim queued_first
      (omega arith) first_claim-claimed (inl refl) refl (omega arith) (λ d i w c. ground arith)

claim-total_example :
    (r : Db × List (Delivery × Event)) × (claim 650 700 (pos 60) (pos 1000) (pos 10) both ≡ some r)
claim-total_example = claim-total refl both-Reach 650 700 (pos 60) (pos 1000) (pos 10)

give_up-once_example :
    ((x : Event) × ((give_up 900 queued_first missed both).events
        ≡ both.events ++ told_by queued_first missed x both)
      × (x.event_type ≡ notification_failed)
      × (x.payload ≡ failed_type heartbeat_missed))
    × ((give_up 950 first_delivery missed (give_up 900 queued_first missed both)).events
        ≡ (give_up 900 queued_first missed both).events)
unfolding claim_due_deliveries emit_event alertable with_streak streak_of matched_channels same_type
    paced
give_up-once_example =
    give_up-once 900 950 queued_first first_delivery missed missed both (omega arith) refl

delete_channel-silent_example :
    ((d : Delivery)
      → In d (delete_channel 1 3 both).deliveries
      → d.org_id ≡ 1
      → d.channel_id ≡ 3
      → is_waiting d.state ≡ false)
    × (queued
          (delete_channel 1 3 both).next_event_id
          3
          (emit_event 900 (delete_channel 1 3 both) missed).deliveries
        ≤ queued (delete_channel 1 3 both).next_event_id 3 (delete_channel 1 3 both).deliveries)
delete_channel-silent_example = delete_channel-silent 900 1 3 both missed refl
