-- ===== src/Store/Deliveries/Release.antt =====
-- What releasing the held failure alerts does to the deliveries and to the events.
use tend.Event.{Event}
use tend.Prelude.{
  ℕ, suc, ◌≡◌, sym, ◌∙◌, none, refl, ap, inl, inr, Bool, true, false, not, List, [], ◌∷◌, ◌==◌,
  arith, any, if◌then◌else◌, Bool-cases,
}
use tend.Clock.{Time}
use tend.Notify.Pacing.{released}
use tend.Store.Schema.{Db}
use tend.Store.Pacing.{save_alert_state}
use tend.Store.Pacing.Release.{
  HeldCandidate, drop_alert, release_one, release_each, release_held, candidates,
}
use tend.Store.Emit.{insert_delivery}
use tend.Store.Deliveries.Rows.{
  Follows, Follows-same, Follows-trans, Follows-weaken, insert_delivery-Follows,
}

-- The event is in the table.
abbrev pub has_event : ℕ → Db → Bool
has_event id db = any (λ e. e.id == id) db.events

-- The release of one: the store is as it was but for the alerts, or the delivery of an event that
-- is in the table is queued.
pub record Released (a b : Db) : Type 0 where
  pub events : b.events ≡ a.events
  pub next_event_id : b.next_event_id ≡ a.next_event_id
  pub follows : Follows (λ id. has_event id a ≡ true) a b

same-Released :
    (a b : Db)
    → b.events ≡ a.events
    → b.next_event_id ≡ a.next_event_id
    → b.deliveries ≡ a.deliveries
    → b.next_delivery_id ≡ a.next_delivery_id
    → Released a b
same-Released a b e n d m = record {
  events = e;
  next_event_id = n;
  follows = Follows-same _ a b d m;
}

Released-trans : (a b c : Db) → Released a b → Released b c → Released a c
Released-trans a b c f g = record {
  events = g.events ∙ f.events;
  next_event_id = g.next_event_id ∙ f.next_event_id;
  follows = Follows-trans _ a b c f.follows (
      Follows-weaken _ _ b c
        (λ id h. ap (λ (es : List Event). any (λ e. e.id == id) es) (sym f.events) ∙ h) g.follows);
}

drop_alert-Released : (c : HeldCandidate) (db : Db) → Released db (drop_alert c db)
unfolding drop_alert
drop_alert-Released c db = same-Released db (drop_alert c db) refl refl refl refl

queue-Released :
    (wall now : Time) (c : HeldCandidate) (db : Db)
    → has_event c.event_id db ≡ true
    → Released db (
        insert_delivery wall
          (save_alert_state db c.org_id c.channel_id c.job_id (released now) none)
          c.org_id
          c.event_id
          c.channel_id)
unfolding save_alert_state insert_delivery
queue-Released wall now c db t =
    let db' = save_alert_state db c.org_id c.channel_id c.job_id (released now) none in
    record {
      events = refl;
      next_event_id = refl;
      follows =
          Follows-trans _ db db' _ (Follows-same _ db db' refl refl)
            (insert_delivery-Follows _ wall db' c.org_id c.event_id c.channel_id t);
    }

record Leads (db : Db) (r : Db × Bool) : Type 0 where
  after : Released db r.0

if-Leads :
    {db : Db} {b : Bool} {x y : Db × Bool}
    → Leads db x
    → (b ≡ false → Leads db y)
    → Leads db (if b then x else y)
if-Leads {db} {b} {x} {y} f g = elim (Bool-cases b) [ inl t ↦ rw t f | inr n ↦ rw n (g n) ]

not-false : (b : Bool) → not b ≡ false → b ≡ true
not-false b h = ground arith

drop_alert-Leads : (c : HeldCandidate) (db : Db) → Leads db (drop_alert c db, false)
drop_alert-Leads c db = record { after = drop_alert-Released c db }

same-Leads : (db : Db) → Leads db (db, false)
same-Leads db = record { after = same-Released db db refl refl refl refl }

queue-Leads :
    (wall now : Time) (c : HeldCandidate) (db : Db)
    → not (has_event c.event_id db) ≡ false
    → Leads db (
      insert_delivery wall
          (save_alert_state db c.org_id c.channel_id c.job_id (released now) none)
          c.org_id
          c.event_id
          c.channel_id,
      true,
    )
queue-Leads wall now c db h = record {
  after = queue-Released wall now c db (not-false (has_event c.event_id db) h);
}

release_one-Leads :
    (wall now : Time) (c : HeldCandidate) (db : Db) → Leads db (release_one wall now c db)
unfolding release_one
release_one-Leads wall now c db =
    search (if-Leads, drop_alert-Leads c db, same-Leads db, queue-Leads wall now c db) depth 14

release_each-Released :
    (wall now : Time) (cs : List HeldCandidate) (db : Db) (n : ℕ)
    → Released db (release_each wall now cs db n).0
unfolding release_each
release_each-Released wall now [] db n = same-Released db db refl refl refl refl
release_each-Released wall now (c ∷ cs) db n =
    let db' = (release_one wall now c db).0 in
    Released-trans db db' _ (release_one-Leads wall now c db).after
      (release_each-Released wall now cs db' (if (release_one wall now c db).1 then suc n else n))

-- Releasing leaves the events alone, and queues deliveries of events in the table only.
pub release_held-Released : (wall now : Time) (db : Db) → Released db (release_held wall now db).0
unfolding release_held
release_held-Released wall now db =
    release_each-Released wall now (candidates db.channels db.alerts) db 0
