-- ===== src/Store/Deliveries/Rows.antt =====
-- How the operations change the table of deliveries: rows are added, waiting, with ids of their
-- own, and rows that are there keep what they are of and never wait again.
use tend.Prelude.{
  ℕ, ◌≤◌, ◌<◌, ◌≡◌, ◌⊎◌, inl, inr, refl, sym, ap, ◌∙◌, subst, Bool, true, not, List, [], ◌∷◌, arith,
  Bool-cases, if◌then◌else◌, ◌==◌,
}
use tend.Clock.{Time}
use tend.Event.{Event, Streak, alertable, event_job_id}
use tend.Store.Schema.{Db, Delivery, pending}
use tend.Store.Table.{update_where, delete_where, In, In-append, In-update_where, In-select}
use tend.Store.Pings.Keys.{Unique, Unique-update, Unique-delete, Unique-append}
use tend.Store.Streak.{streak_of}
use tend.Store.Pacing.{paced}
use tend.Store.Pacing.Channels.{MatchedChannel, matched_channels}
use tend.Store.Emit.{
  insert_delivery, deliver_to, deliver_all, enqueue_deliveries, insert_event, as_recorded, stamped,
  record_event, emit_event,
}
use tend.Store.Deliveries.{is_waiting}
use tend.Store.Deliveries.Claim.{SameId}

-- The deliveries have ids of their own, below the one that the next row gets.
pub record Ids (db : Db) : Type 0 where
  pub unique : Unique SameId db.deliveries
  pub below : (d : Delivery) → In d db.deliveries → d.id < db.next_delivery_id

-- `d` is what became of the row `x`: of the same id, channel and event, and waiting only if it was.
pub record Comes (x d : Delivery) : Type 0 where
  pub id : d.id ≡ x.id
  pub channel_id : d.channel_id ≡ x.channel_id
  pub event_id : d.event_id ≡ x.event_id
  pub waits : is_waiting d.state ≡ true → is_waiting x.state ≡ true

pub Comes-refl : (x : Delivery) → Comes x x
Comes-refl x = record { id = refl; channel_id = refl; event_id = refl; waits = λ w. w }

Comes-trans : (x y z : Delivery) → Comes x y → Comes y z → Comes x z
Comes-trans x y z f g = record {
  id = g.id ∙ f.id;
  channel_id = g.channel_id ∙ f.channel_id;
  event_id = g.event_id ∙ f.event_id;
  waits = λ w. f.waits (g.waits w);
}

-- A delivery of `b` comes from one of `a`, or it is new and of an event for which `P` holds.
pub record Follows (P : ℕ → Type 0) (a b : Db) : Type 0 where
  pub next : a.next_delivery_id ≤ b.next_delivery_id
  pub ids : Ids a → Ids b
  pub rows :
      (d : Delivery)
      → In d b.deliveries
      → ((x : Delivery) × In x a.deliveries × Comes x d)
        ⊎ ((a.next_delivery_id ≤ d.id) × P d.event_id)

pub Follows-weaken :
    (P Q : ℕ → Type 0) (a b : Db) → ((id : ℕ) → P id → Q id) → Follows P a b → Follows Q a b
Follows-weaken P Q a b h f = record {
  next = f.next;
  ids = f.ids;
  rows = λ d j. elim (f.rows d j) [ inl k ↦ inl k | inr (l, p) ↦ inr (l, h d.event_id p) ];
}

updated-Comes :
    (p : Delivery → Bool) (f : Delivery → Delivery)
    → ((x : Delivery) → Comes x (f x))
    → (x : Delivery) → Comes x (if p x then f x else x)
updated-Comes p f k x = elim (Bool-cases (p x)) [ inl y ↦ rw y (k x) | inr n ↦ rw n (Comes-refl x) ]

module _ (P : ℕ → Type 0) where
  pub Follows-same :
      (a b : Db)
      → b.deliveries ≡ a.deliveries
      → b.next_delivery_id ≡ a.next_delivery_id
      → Follows P a b
  Follows-same a b e n = record {
    next = omega (arith, n);
    ids = λ i. record {
      unique = subst (Unique SameId) (sym e) i.unique;
      below = λ d j. let l = i.below d (subst (In d) e j) in omega (arith, l, n);
    };
    rows = λ d j. inl (d, subst (In d) e j, Comes-refl d);
  }

  pub Follows-trans : (a b c : Db) → Follows P a b → Follows P b c → Follows P a c
  Follows-trans a b c f g = record {
    next = omega (arith, f.next, g.next);
    ids = λ i. g.ids (f.ids i);
    rows = λ d j. elim (g.rows d j) [
      | inr (l, p) ↦ let n = f.next in inr (omega (arith, l, n), p)
      | inl (x, i, k) ↦ elim (f.rows x i) [
        | inr (l, p) ↦ let id = k.id in inr (omega (arith, l, id), subst P (sym k.event_id) p)
        | inl (y, m, h) ↦ inl (y, m, Comes-trans y x d h k)
      ]
    ];
  }

  pub insert_delivery-Follows :
      (wall : Time) (db : Db) (org event channel : ℕ)
      → P event
      → Follows P db (insert_delivery wall db org event channel)
  unfolding insert_delivery
  insert_delivery-Follows wall db org event channel p =
      let row : Delivery = record {
        id = db.next_delivery_id;
        org_id = org;
        event_id = event;
        channel_id = channel;
        attempts = 0;
        state = pending;
        next_attempt_at = wall;
        first_attempt_at = 0;
        created_at = wall;
      } in
      record {
        next = omega arith;
        ids = λ i. record {
          unique =
              Unique-append SameId row db.deliveries
                (λ x j e. let l = i.below x j in omega (arith, l, e))
                (λ x j e. let l = i.below x j in omega (arith, l, e)) i.unique;
          below = λ d j. elim (In-append d row db.deliveries j) [
            | inl k ↦ let l = i.below d k in omega (arith, l)
            | inr e ↦ let s = ap (λ (z : Delivery). z.id) e in omega (arith, s)
          ];
        };
        rows = λ d j. elim (In-append d row db.deliveries j) [
          | inl k ↦ inl (d, k, Comes-refl d)
          | inr e ↦
              let s = ap (λ (z : Delivery). z.id) e in
              inr (omega (arith, s), subst P (sym (ap (λ (z : Delivery). z.event_id) e)) p)
        ];
      }

  -- An update that leaves ids, channels and events alone, and sets nothing waiting.
  pub update-Follows :
      (a b : Db) (p : Delivery → Bool) (f : Delivery → Delivery)
      → b.deliveries ≡ update_where p f a.deliveries
      → b.next_delivery_id ≡ a.next_delivery_id
      → ((x : Delivery) → Comes x (f x))
      → Follows P a b
  update-Follows a b p f e n k =
      let old = λ (d : Delivery) (j : In d b.deliveries).
        In-update_where p f d a.deliveries (subst (In d) e j) in
      record {
        next = omega (arith, n);
        ids = λ i. record {
          unique = subst (Unique SameId) (sym e) (
              Unique-update SameId p f a.deliveries (λ x y h. ground (arith, (k x).id, (k y).id))
                i.unique);
          below = λ d j.
              let (x, m, q) = old d j in let l = i.below x m in ground (arith, l, n, q, (k x).id);
        };
        rows = λ d j.
            let (x, m, q) = old d j in inl (x, m, subst (Comes x) (sym q) (updated-Comes p f k x));
      }

  pub delete-Follows :
      (a b : Db) (p : Delivery → Bool)
      → b.deliveries ≡ delete_where p a.deliveries
      → b.next_delivery_id ≡ a.next_delivery_id
      → Follows P a b
  delete-Follows a b p e n =
      let old = λ (d : Delivery) (j : In d b.deliveries).
        (In-select (λ z. not (p z)) d a.deliveries (subst (In d) e j)).0 in
      record {
        next = omega (arith, n);
        ids = λ i. record {
          unique = subst (Unique SameId) (sym e) (Unique-delete SameId p a.deliveries i.unique);
          below = λ d j. let l = i.below d (old d j) in omega (arith, l, n);
        };
        rows = λ d j. inl (d, old d j, Comes-refl d);
      }

  paced-Follows :
      (db : Db) (e : Event) (job : ℕ) (s : Streak) (ch : MatchedChannel)
      → Follows P db (paced db e job s ch).1
  unfolding paced
  paced-Follows db e job s ch =
      Follows-same db (paced db e job s ch).1 (ground arith) (ground arith)

  deliver_to-Follows :
      (wall : Time) (e : Event) (job : ℕ) (s : Streak) (ch : MatchedChannel) (db : Db)
      → P e.id
      → Follows P db (deliver_to wall e job s ch db)
  unfolding deliver_to
  deliver_to-Follows wall e job s ch db p =
      let db' = (paced db e job s ch).1 in
      let f = paced-Follows db e job s ch in
      elim (Bool-cases (paced db e job s ch).0) [
        | inl y ↦ rw y (
            Follows-trans db db' (insert_delivery wall db' e.org_id e.id ch.id) f
              (insert_delivery-Follows wall db' e.org_id e.id ch.id p))
        | inr n ↦ rw n f
      ]

  deliver_all-Follows :
      (wall : Time) (e : Event) (job : ℕ) (s : Streak) (chs : List MatchedChannel) (db : Db)
      → P e.id
      → Follows P db (deliver_all wall e job s chs db)
  unfolding deliver_all
  deliver_all-Follows wall e job s [] db p = Follows-same db db refl refl
  deliver_all-Follows wall e job s (ch ∷ chs) db p =
      let db' = deliver_to wall e job s ch db in
      Follows-trans db db' _ (deliver_to-Follows wall e job s ch db p)
        (deliver_all-Follows wall e job s chs db' p)

  enqueue_deliveries-Follows :
      (wall : Time) (db : Db) (e : Event) (job : ℕ) (s : Streak)
      → P e.id
      → Follows P db (enqueue_deliveries wall db e job s)
  unfolding enqueue_deliveries
  enqueue_deliveries-Follows wall db e job s p = elim (Bool-cases (alertable e.event_type)) [
    | inl y ↦
        let scoped = if job == 0 then event_job_id e else job in
        rw y (
          deliver_all-Follows wall e scoped s (matched_channels db e.org_id e.event_type scoped) db
            p)
    | inr n ↦ rw n (Follows-same db db refl refl)
  ]

  pub emit_event-Follows :
      (wall : Time) (db : Db) (e : Event) → P db.next_event_id → Follows P db (emit_event wall db e)
  unfolding emit_event record_event as_recorded insert_event streak_of
  emit_event-Follows wall db e p =
      let e' = stamped wall e in
      let (db', (job, s)) = streak_of db e' e'.created_at in
      let r = as_recorded wall db e in
      Follows-trans db (insert_event db' r) _
        (Follows-same db (insert_event db' r) (ground arith) (ground arith))
        (enqueue_deliveries-Follows wall (insert_event db' r) r job s p)
