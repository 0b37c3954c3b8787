-- ===== src/Store/Channels/Silence.antt =====
-- What deleting a channel leaves of it.
use tend.Prelude.{ℕ, ◌≤◌, ◌≡◌, inl, inr, refl, sym, subst, false, arith, Bool-cases, any}
use tend.Clock.{Time}
use tend.Event.{Event, EventType, event_job_id}
use tend.Store.Schema.{Db, Delivery, failed}
use tend.Store.Table.{In, In-update_where}
use tend.Store.Pings.Reported.{any-delete_none}
use tend.Store.Pacing.Matched.{routed_to}
use tend.Store.Emit.{emit_event}
use tend.Store.Emit.Deliveries.{queued, emit_event-queued}
use tend.Store.Deliveries.{is_waiting, settled}
use tend.Store.Channels.{delete_channel, is_rule_of_channel, waits_for_channel}

unrouted :
    (org id : ℕ) (t : EventType) (job : ℕ) (db : Db)
    → any
        (routed_to id (delete_channel org id db).channels org t job)
        (delete_channel org id db).rules
      ≡ false
unfolding delete_channel
unrouted org id t job db =
    any-delete_none (routed_to id (delete_channel org id db).channels org t job)
      (is_rule_of_channel org id) db.rules (λ r i n. ground arith)

nothing_waits :
    (org id : ℕ) (db : Db) (d : Delivery)
    → In d (delete_channel org id db).deliveries
    → d.org_id ≡ org
    → d.channel_id ≡ id
    → is_waiting d.state ≡ false
unfolding delete_channel
nothing_waits org id db d i o c =
    let (x, j, q) = In-update_where (waits_for_channel org id) (settled failed) d db.deliveries i in
    elim (Bool-cases (waits_for_channel org id x)) [
      | inl t ↦
          let s = rw t at q in subst (λ (z : Delivery). is_waiting z.state ≡ false) (sym s) refl
      | inr n ↦ let s : d ≡ x = rw n at q in ground arith
    ]

-- After a channel of an org was deleted no delivery of the org waits for it, and no event of the
-- org, of whatever type and job, queues one to it.
pub delete_channel-silent :
    (wall : Time) (org id : ℕ) (db : Db) (e : Event)
    → e.org_id ≡ org
    → let gone = delete_channel org id db in
      ((d : Delivery)
        → In d gone.deliveries
        → d.org_id ≡ org
        → d.channel_id ≡ id
        → is_waiting d.state ≡ false)
      × (queued gone.next_event_id id (emit_event wall gone e).deliveries
          ≤ queued gone.next_event_id id gone.deliveries)
delete_channel-silent wall org id db e o =
    let gone = delete_channel org id db in
    let all = emit_event-queued wall gone e id in
    let out = unrouted org id e.event_type (event_job_id e) db in
    (nothing_waits org id db, ground arith)
