-- ===== src/Notify/Worker/Reach.antt =====
-- What every state of the queue of deliveries has: ids of its own for each delivery, and the event
-- of each delivery that waits.
use tend.Prelude.{
  ℕ, ◌≡◌, inl, inr, refl, sym, ap, ◌∙◌, subst, true, some, ◌||◌, List, [], arith, any, ◌==◌,
}
use tend.Prelude.Int.{ℤ}
use tend.Clock.{Time, Duration}
use tend.Event.{Event}
use tend.Store.Schema.{Db, Delivery, delivered, failed}
use tend.Store.Table.{In}
use tend.Store.Pings.Reported.{any-append_one, any-delete_same}
use tend.Store.Emit.{emit_event, as_recorded}
use tend.Store.Emit.Laws.{emit_event-Recorded}
use tend.Store.Channels.{delete_channel, waits_for_channel}
use tend.Store.Prune.{
  prune_events, prune_job_runs, prune_deliveries, is_old_event, is_old_delivery, awaits,
}
use tend.Store.Deliveries.{
  is_waiting, is_delivery, is_waiting_delivery, settled, rescheduled, mark_delivery_delivered,
  reschedule_delivery, fail_delivery, claim_due_deliveries,
}
use tend.Store.Deliveries.Claim.{In-any}
use tend.Store.Deliveries.Rows.{
  Ids, Follows, Follows-same, Follows-trans, Follows-weaken, update-Follows, delete-Follows,
  emit_event-Follows,
}
use tend.Store.Deliveries.Release.{has_event, release_held-Released}
use tend.Store.Pacing.Release.{release_held}
use tend.Notify.Worker.{mark_sent, retry, given_up}
use tend.Notify.Worker.Steps.{
  Step, emitted, released, claimed, sent, retried, gave_up, pruned_events, pruned_runs,
  pruned_deliveries, deleted_channel, other, Reach, here, then_step, claim_due_deliveries-Follows,
  give_up-cases, given, given-Follows, fail_delivery-Follows, settled-Comes,
}

as_recorded-id : (wall : Time) (db : Db) (e : Event) → (as_recorded wall db e).id ≡ db.next_event_id
unfolding as_recorded
as_recorded-id wall db e = refl

emit_event-has :
    (id : ℕ) (wall : Time) (db : Db) (e : Event)
    → has_event id (emit_event wall db e) ≡ (has_event id db || (db.next_event_id == id))
emit_event-has id wall db e =
    let r = emit_event-Recorded wall db e in
    rw r.events (
      any-append_one (λ (x : Event). x.id == id) (as_recorded wall db e) db.events
      ∙ ap (λ n. has_event id db || (n == id)) (as_recorded-id wall db e))

has-after_emit :
    (id : ℕ) (wall : Time) (db : Db) (e : Event)
    → has_event id db ≡ true
    → has_event id (emit_event wall db e) ≡ true
has-after_emit id wall db e h = emit_event-has id wall db e ∙ ground arith

has-emitted :
    (wall : Time) (db : Db) (e : Event) → has_event db.next_event_id (emit_event wall db e) ≡ true
has-emitted wall db e = emit_event-has db.next_event_id wall db e ∙ ground arith

has-same : (id : ℕ) (a b : Db) → b.events ≡ a.events → has_event id b ≡ has_event id a
has-same id a b e = ap (λ (es : List Event). any (λ x. x.id == id) es) e

claim_due_deliveries-events :
    (now : Time) (lease hold : Duration) (limit : ℤ) (db : Db) (r : Db × List (Delivery × Event))
    → claim_due_deliveries now lease hold limit db ≡ some r
    → r.0.events ≡ db.events
unfolding claim_due_deliveries
claim_due_deliveries-events now lease hold limit db r h = ground arith

-- No step but a prune takes an event away, and a prune takes none that a waiting delivery is of.
Step-has :
    {a b : Db}
    → Step a b
    → (x : Delivery) → In x a.deliveries
    → is_waiting x.state ≡ true
    → has_event x.event_id a ≡ true
    → has_event x.event_id b ≡ true
unfolding mark_sent retry mark_delivery_delivered reschedule_delivery prune_events prune_job_runs
    prune_deliveries delete_channel fail_delivery
Step-has (emitted db wall e) x i w h = has-after_emit x.event_id wall db e h
Step-has (released db wall now) x i w h =
    has-same x.event_id db (release_held wall now db).0 (release_held-Released wall now db).events
    ∙ h
Step-has (claimed db now lease hold limit r c) x i w h =
    has-same x.event_id db r.0 (claim_due_deliveries-events now lease hold limit db r c) ∙ h
Step-has (sent db d) x i w h = h
Step-has (retried db d at) x i w h = h
Step-has (gave_up db wall d e) x i w h = elim (give_up-cases wall d e db) [
  | inl (g, n, w') ↦ rw g (has-after_emit x.event_id wall (given d db) (given_up d e.event_type) h)
  | inr (inl (g, y)) ↦ rw g h
  | inr (inr (g, w')) ↦ rw g h
]
Step-has (pruned_events db cutoff) x i w h =
    let q = λ (e : Event). e.id == x.event_id in
    any-delete_same q (is_old_event cutoff db) db.events
      (λ e j old. let awaited = In-any (awaits e.id) x db.deliveries i in ground (arith, awaited))
    ∙ h
Step-has (pruned_runs db cutoff) x i w h = h
Step-has (pruned_deliveries db cutoff) x i w h = h
Step-has (deleted_channel db org id) x i w h = h
Step-has (other a b e n d m) x i w h = has-same x.event_id a b e ∙ h

pub Step-Follows : {a b : Db} → Step a b → Follows (λ id. has_event id b ≡ true) a b
unfolding mark_sent retry mark_delivery_delivered reschedule_delivery prune_events prune_job_runs
    prune_deliveries delete_channel
Step-Follows (emitted db wall e) = emit_event-Follows _ wall db e (has-emitted wall db e)
Step-Follows (released db wall now) =
    let f = release_held-Released wall now db in
    Follows-weaken _ _ db _ (λ id h. has-same id db (release_held wall now db).0 f.events ∙ h)
      f.follows
Step-Follows (claimed db now lease hold limit r c) =
    claim_due_deliveries-Follows _ now lease hold limit db r c
Step-Follows (sent db d) =
    update-Follows _ db _ (is_delivery d.id) (settled delivered) refl refl
      (settled-Comes delivered refl)
Step-Follows (retried db d at) =
    update-Follows _ db _ (is_waiting_delivery d.id) (rescheduled at) refl refl
      (λ x. record { id = refl; channel_id = refl; event_id = refl; waits = λ w. w })
Step-Follows (gave_up db wall d e) = elim (give_up-cases wall d e db) [
  | inl (g, n, w') ↦
      let ev = given_up d e.event_type in
      rw g (
        Follows-trans _ db (given d db) _ (given-Follows _ d db)
          (emit_event-Follows _ wall (given d db) ev (has-emitted wall (given d db) ev)))
  | inr (inl (g, y)) ↦ rw g (fail_delivery-Follows _ d.id db)
  | inr (inr (g, w')) ↦ rw g (Follows-same _ db db refl refl)
]
Step-Follows (pruned_events db cutoff) = Follows-same _ db _ refl refl
Step-Follows (pruned_runs db cutoff) = Follows-same _ db _ refl refl
Step-Follows (pruned_deliveries db cutoff) =
    delete-Follows _ db _ (is_old_delivery cutoff) refl refl
Step-Follows (deleted_channel db org id) =
    update-Follows _ db _ (waits_for_channel org id) (settled failed) refl refl
      (settled-Comes failed refl)
Step-Follows (other a b e n d m) = Follows-same _ a b d m

-- Every delivery has an id of its own, and every one that waits its event.
pub record Inv (db : Db) : Type 0 where
  pub ids : Ids db
  pub joined :
      (d : Delivery)
      → In d db.deliveries
      → is_waiting d.state ≡ true
      → has_event d.event_id db ≡ true

Step-Inv : {a b : Db} → Step a b → Inv a → Inv b
Step-Inv {a} {b} s i =
    let f = Step-Follows s in
    record {
      ids = f.ids i.ids;
      joined = λ d j w. elim (f.rows d j) [
        | inl (x, k, c) ↦
            let kept = Step-has s x k (c.waits w) (i.joined x k (c.waits w)) in
            subst (λ id. has_event id b ≡ true) (sym c.event_id) kept
        | inr (l, p) ↦ p
      ];
    }

pub Reach-Inv : {a b : Db} → Inv a → Reach a b → Inv b
Reach-Inv i here = i
Reach-Inv i (then_step r s) = Step-Inv s (Reach-Inv i r)

pub empty-Inv : (db : Db) → db.deliveries ≡ [] → Inv db
empty-Inv db e =
    let none_in = λ (d : Delivery) (i : In d db.deliveries). subst (In d) e i in
    record {
      ids = record { unique = λ x y i. absurd (none_in x i); below = λ d i. absurd (none_in d i) };
      joined = λ d i w. absurd (none_in d i);
    }

-- A run of steps, then a step, then another run.
pub then-Reach : {a b c d : Db} → Reach a b → Step b c → Reach c d → Reach a d
then-Reach ab s here = then_step ab s
then-Reach ab s (then_step cd t) = then_step (then-Reach ab s cd) t
