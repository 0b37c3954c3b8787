-- ===== src/Store/Emit/Deliveries.antt =====
-- Which deliveries recording an event queues.
use tend.Prelude.{
  ℕ, ◌+◌, ◌≤◌, ◌<◌, ◌≡◌, inl, inr, refl, ap, ◌∙◌, subst, Bool, true, false, ◌&&◌, List, [], ◌∷◌,
  ◌++◌, arith, Bool-cases, if◌then◌else◌, ◌==◌, any, All,
}
use tend.Clock.{Time}
use tend.Event.{Event, Streak, alertable, event_job_id}
use tend.Store.Schema.{Db, Delivery}
use tend.Store.Streak.{streak_of}
use tend.Store.Pacing.{paced}
use tend.Store.Pacing.Channels.{MatchedChannel, matched_channels}
use tend.Store.Pacing.Matched.{Distinct, has, routed_to, matched_channels-exact}
use tend.Store.Emit.{
  insert_delivery, deliver_to, deliver_all, enqueue_deliveries, insert_event, as_recorded, stamped,
  record_event, emit_event,
}
use tend.Store.Emit.Laws.{streak_of-Frame, as_recorded-same}

-- How many deliveries of an event to a channel there are.
abbrev one_if : Bool → ℕ
one_if b = if b then 1 else 0

unfoldable pub queued : ℕ → ℕ → List Delivery → ℕ
queued event k [] = 0
queued event k (d ∷ ds) = one_if ((d.event_id == event) && (d.channel_id == k)) + queued event k ds

queued-append :
    (event k : ℕ) (ds : List Delivery) (d : Delivery)
    → queued event k (ds ++ d ∷ [])
      ≡ queued event k ds + one_if ((d.event_id == event) && (d.channel_id == k))
unfolding queued
queued-append event k [] d = omega arith
queued-append event k (x ∷ ds) d = omega (arith, queued-append event k ds d)

paced-deliveries :
    (db : Db) (e : Event) (job : ℕ) (s : Streak) (ch : MatchedChannel)
    → (paced db e job s ch).1.deliveries ≡ db.deliveries
unfolding paced
paced-deliveries db e job s ch = ground arith

insert_delivery-queued :
    (wall : Time) (db : Db) (org event channel k : ℕ)
    → queued event k (insert_delivery wall db org event channel).deliveries
      ≡ queued event k db.deliveries + one_if (channel == k)
unfolding insert_delivery
insert_delivery-queued wall db org event channel k =
    queued-append event k db.deliveries _ ∙ ground arith

paced-unscoped :
    (db : Db) (e : Event) (s : Streak) (ch : MatchedChannel) → paced db e 0 s ch ≡ (true, db)
unfolding paced
paced-unscoped db e s ch = refl

-- One channel gets one delivery, or none where its pacing keeps the event from it.
deliver_to-queued :
    (wall : Time) (e : Event) (job k : ℕ) (s : Streak) (ch : MatchedChannel) (db : Db)
    → queued e.id k (deliver_to wall e job s ch db).deliveries
      ≤ queued e.id k db.deliveries + one_if (ch.id == k)
unfolding deliver_to
deliver_to-queued wall e job k s ch db =
    let same = paced-deliveries db e job s ch in
    let db' = (paced db e job s ch).1 in
    let kept : queued e.id k db'.deliveries ≡ queued e.id k db.deliveries =
      ap (queued e.id k) same in
    let sent = insert_delivery-queued wall db' e.org_id e.id ch.id k in
    elim (Bool-cases (paced db e job s ch).0) [
      | inl y ↦ rw y (omega (arith, kept, sent))
      | inr n ↦ rw n (omega (arith, kept))
    ]

deliver_to-unscoped :
    (wall : Time) (e : Event) (k : ℕ) (s : Streak) (ch : MatchedChannel) (db : Db)
    → queued e.id k (deliver_to wall e 0 s ch db).deliveries
      ≡ queued e.id k db.deliveries + one_if (ch.id == k)
unfolding deliver_to
deliver_to-unscoped wall e k s ch db =
    rw (paced-unscoped db e s ch) (insert_delivery-queued wall db e.org_id e.id ch.id k)

has-later :
    (n k : ℕ) (cs : List MatchedChannel)
    → All (λ (d : MatchedChannel). n < d.id) cs
    → n ≡ k
    → has k cs ≡ false
has-later n k [] a e = refl
has-later n k (c ∷ cs) a e = ground (arith, a.0, has-later n k cs a.1 e)

-- Of distinct channels, one at most is `k`.
has-once :
    (k : ℕ) (c : MatchedChannel) (cs : List MatchedChannel)
    → Distinct (c ∷ cs)
    → one_if (c.id == k) + one_if (has k cs) ≡ one_if (has k (c ∷ cs))
has-once k c cs d = elim (Bool-cases (c.id == k)) [
  | inl y ↦ let later = has-later c.id k cs d.0 (ground arith) in rw (y, later)
  | inr n ↦ rw n (omega arith)
]

deliver_all-queued :
    (wall : Time) (e : Event) (job k : ℕ) (s : Streak) (chs : List MatchedChannel) (db : Db)
    → Distinct chs
    → queued e.id k (deliver_all wall e job s chs db).deliveries
      ≤ queued e.id k db.deliveries + one_if (has k chs)
unfolding deliver_all
deliver_all-queued wall e job k s [] db d = omega arith
deliver_all-queued wall e job k s (ch ∷ chs) db d =
    let first = deliver_to-queued wall e job k s ch db in
    let rest = deliver_all-queued wall e job k s chs (deliver_to wall e job s ch db) d.1 in
    let once = has-once k ch chs d in omega (arith, first, rest, once)

deliver_all-unscoped :
    (wall : Time) (e : Event) (k : ℕ) (s : Streak) (chs : List MatchedChannel) (db : Db)
    → Distinct chs
    → queued e.id k (deliver_all wall e 0 s chs db).deliveries
      ≡ queued e.id k db.deliveries + one_if (has k chs)
unfolding deliver_all
deliver_all-unscoped wall e k s [] db d = omega arith
deliver_all-unscoped wall e k s (ch ∷ chs) db d =
    let first = deliver_to-unscoped wall e k s ch db in
    let rest = deliver_all-unscoped wall e k s chs (deliver_to wall e 0 s ch db) d.1 in
    let once = has-once k ch chs d in omega (arith, first, rest, once)

-- The job whose rules an event is matched against.
abbrev scope : Event → ℕ → ℕ
scope e job = if job == 0 then event_job_id e else job

abbrev goes_to : ℕ → Db → Event → ℕ → Bool
goes_to k db e job =
    alertable e.event_type && any (routed_to k db.channels e.org_id e.event_type job) db.rules

enqueue_deliveries-queued :
    (wall : Time) (db : Db) (e : Event) (job k : ℕ) (s : Streak)
    → queued e.id k (enqueue_deliveries wall db e job s).deliveries
      ≤ queued e.id k db.deliveries + one_if (goes_to k db e (scope e job))
unfolding enqueue_deliveries
enqueue_deliveries-queued wall db e job k s =
    let chs = matched_channels db e.org_id e.event_type (scope e job) in
    let (distinct, exact) = matched_channels-exact db e.org_id e.event_type (scope e job) in
    let all = deliver_all-queued wall e (scope e job) k s chs db distinct in
    let b = ap one_if (exact k) in
    elim (Bool-cases (alertable e.event_type)) [
      | inl y ↦ rw y (omega (arith, all, b))
      | inr n ↦ rw n (omega arith)
    ]

enqueue_deliveries-unscoped :
    (wall : Time) (db : Db) (e : Event) (job k : ℕ) (s : Streak)
    → scope e job ≡ 0
    → queued e.id k (enqueue_deliveries wall db e job s).deliveries
      ≡ queued e.id k db.deliveries + one_if (goes_to k db e 0)
unfolding enqueue_deliveries
enqueue_deliveries-unscoped wall db e job k s z =
    let chs = matched_channels db e.org_id e.event_type 0 in
    let (distinct, exact) = matched_channels-exact db e.org_id e.event_type 0 in
    let all = deliver_all-unscoped wall e k s chs db distinct in
    let b = ap one_if (exact k) in
    elim (Bool-cases (alertable e.event_type)) [
      | inl y ↦ rw (y, z) (omega (arith, all, b))
      | inr n ↦ rw n (omega arith)
    ]

streak_of-deliveries :
    (db : Db) (e : Event) (at : Time) → (streak_of db e at).0.deliveries ≡ db.deliveries
unfolding streak_of
streak_of-deliveries db e at = ground arith

-- The streak is of the event's own job, or of none.
streak_of-scope :
    (db : Db) (e : Event) (at : Time) → scope e (streak_of db e at).1.0 ≡ event_job_id e
unfolding streak_of
streak_of-scope db e at = ground arith

-- The event as recorded is matched against the rules that the given one is.
recorded-goes_to :
    (wall : Time) (db : Db) (e : Event) (k : ℕ)
    → let at = (stamped wall e).created_at in
      let (db', (job, s)) = streak_of db (stamped wall e) at in
      let r = as_recorded wall db e in
      (scope r job ≡ event_job_id e)
      × (goes_to k (insert_event db' r) r (event_job_id e) ≡ goes_to k db e (event_job_id e))
unfolding stamped insert_event event_job_id
recorded-goes_to wall db e k =
    let at = (stamped wall e).created_at in
    let (t, o, p) = as_recorded-same wall db e in
    let f = streak_of-Frame db (stamped wall e) at in
    let own = streak_of-scope db (stamped wall e) at in (rw p own, rw (t, o, f.rules, f.channels))

-- Recording an event queues at most one delivery of it to each channel, and none to a channel that
-- no enabled rule of the org, org-wide or for the event's job, routes events of its type to, nor
-- any of an event that is not alertable.
pub emit_event-queued :
    (wall : Time) (db : Db) (e : Event) (k : ℕ)
    → queued db.next_event_id k (emit_event wall db e).deliveries
      ≤ queued db.next_event_id k db.deliveries
        + (if alertable e.event_type
              && any (routed_to k db.channels e.org_id e.event_type (event_job_id e)) db.rules
            then 1
            else 0)
unfolding emit_event record_event as_recorded insert_event
emit_event-queued wall db e k =
    let at = (stamped wall e).created_at in
    let (db', (job, s)) = streak_of db (stamped wall e) at in
    let r = as_recorded wall db e in
    let same = streak_of-deliveries db (stamped wall e) at in
    let all = enqueue_deliveries-queued wall (insert_event db' r) r job k s in
    let (own, goes) = recorded-goes_to wall db e k in
    let before = ap (queued db.next_event_id k) same in
    let scoped = ap (λ j. one_if (goes_to k (insert_event db' r) r j)) own in
    let exact = ap one_if goes in omega (arith, all, before, scoped, exact)

-- Recording an event of no job queues exactly one delivery of it to each channel that it is routed
-- to, and none to any other.
pub emit_event-unscoped :
    (wall : Time) (db : Db) (e : Event) (k : ℕ)
    → event_job_id e ≡ 0
    → queued db.next_event_id k (emit_event wall db e).deliveries
      ≡ queued db.next_event_id k db.deliveries
        + (if alertable e.event_type
              && any (routed_to k db.channels e.org_id e.event_type 0) db.rules
            then 1
            else 0)
unfolding emit_event record_event as_recorded insert_event
emit_event-unscoped wall db e k z =
    let at = (stamped wall e).created_at in
    let (db', (job, s)) = streak_of db (stamped wall e) at in
    let r = as_recorded wall db e in
    let same = streak_of-deliveries db (stamped wall e) at in
    let (own, goes) = recorded-goes_to wall db e k in
    let all = enqueue_deliveries-unscoped wall (insert_event db' r) r job k s (own ∙ z) in
    let before = ap (queued db.next_event_id k) same in
    let exact : goes_to k (insert_event db' r) r 0 ≡ goes_to k db e 0 =
      subst (λ j. goes_to k (insert_event db' r) r j ≡ goes_to k db e j) z goes in
    let sent = ap one_if exact in omega (arith, all, before, sent)
