-- ===== src/Notify/Worker/Order.antt =====
-- What the worker can rely on when it claims, over the life of the queue.
use tend.Prelude.{
  ℕ, zero, suc, ◌+◌, length-select, Option-cases, ◌≤◌, ◌<◌, ◌≡◌, ◌≢◌, inl, inr, refl, sym, ap, ◌∙◌,
  subst, Bool, true, false, some, List, [], ◌∷◌, map, arith, Bool-cases, any, select, ◌==◌, ltb,
  length, take,
}
use tend.Prelude.Int.{ℤ, pos}
use tend.Clock.{Time, Duration, is_zero}
use tend.Event.{Event}
use tend.Store.Schema.{Db, Delivery}
use tend.Store.Table.{update_where, In, In-select}
use tend.Store.Pings.Reported.{any-false}
use tend.Store.Deliveries.{
  claim_due_deliveries, due_deliveries, join_events, is_due, is_held_back, holds_back, is_among,
  attempted, is_waiting, batch,
}
use tend.Store.Deliveries.Claim.{
  In-any, In-map, is_among-due, In-selected, join_events-total, join_events-some,
  claim_due_deliveries-taken,
}
use tend.Store.Deliveries.Release.{has_event}
use tend.Store.Pacing.Release.{release_held}
use tend.Notify.Worker.{claim}
use tend.Notify.Worker.Steps.{Step, released, claimed, Reach, here, then_step}
use tend.Notify.Worker.Reach.{Inv, Reach-Inv, empty-Inv, Step-Follows, then-Reach}

claim_due_deliveries-total :
    (now : Time) (lease hold : Duration) (limit : ℤ) (db : Db)
    → Inv db
    → (r : Db × List (Delivery × Event)) × (claim_due_deliveries now lease hold limit db ≡ some r)
unfolding claim_due_deliveries due_deliveries
claim_due_deliveries-total now lease hold limit db i =
    let due = due_deliveries now hold limit db.deliveries in
    let rows = map (attempted now lease) (select (is_among due) db.deliveries) in
    let each : (d : Delivery) → In d rows → any (λ e. e.id == d.event_id) db.events ≡ true = λ d j.
      let (x, k, e) = In-map (attempted now lease) d _ j in
      let (m, t) = In-select (is_among due) x db.deliveries k in
      let w = is_among-due now hold limit db.deliveries i.ids.unique x m t in
      let own : d.event_id ≡ x.event_id = ap (λ (z : Delivery). z.event_id) e in
      subst (λ id. has_event id db ≡ true) (sym own) (i.joined x m (ground arith)) in
    let (out, g) = join_events-total db.events rows each in
    let moved = update_where (is_among due) (attempted now lease) db.deliveries in
    ((record db { deliveries = moved }, out), ground arith)

-- From a store with no deliveries, whatever was emitted, released, claimed, settled, given up, pruned
-- and deleted: a claim by the worker never fails for want of the event of a delivery.
pub claim-total :
    {a b : Db}
    → a.deliveries ≡ []
    → Reach a b
    → (wall now : Time) (lease hold : Duration) (limit : ℤ)
    → (r : Db × List (Delivery × Event)) × (claim wall now lease hold limit b ≡ some r)
unfolding claim
claim-total {a} {b} e r wall now lease hold limit =
    let i = Reach-Inv (empty-Inv a e) (then_step r (released b wall now)) in
    claim_due_deliveries-total now lease hold limit (release_held wall now b).0 i

-- All that waits on a channel is `id` or was queued after it.
abbrev pub From : ℕ → ℕ → Db → Type 0
From id channel db =
    (d : Delivery)
    → In d db.deliveries
    → is_waiting d.state ≡ true
    → d.channel_id ≡ channel
    → id ≤ d.id

Step-From : {a b : Db} → Step a b → (id k : ℕ) → id ≤ a.next_delivery_id → From id k a → From id k b
Step-From {a} {b} s id k n h d j w c =
    let f = Step-Follows s in
    elim (f.rows d j) [
      | inl (x, i, o) ↦
          let l = h x i (o.waits w) (sym o.channel_id ∙ c) in
          let same = o.id in omega (arith, l, same)
      | inr (l, p) ↦ omega (arith, l, n)
    ]

Reach-next : {a b : Db} → Reach a b → a.next_delivery_id ≤ b.next_delivery_id
Reach-next here = omega arith
Reach-next (then_step r s) = let n = (Step-Follows s).next in omega (arith, Reach-next r, n)

Reach-From :
    {a b : Db} → Reach a b → (id k : ℕ) → id ≤ a.next_delivery_id → From id k a → From id k b
Reach-From here id k n h = h
Reach-From {a} {b} (then_step r s) id k n h =
    Step-From s id k (let m = Reach-next r in omega (arith, m, n)) (Reach-From r id k n h)

-- Of the deliveries that wait on a channel, those attempted before were first attempted within the
-- hold before `now`.
abbrev pub InHold : Time → ℕ → ℕ → Db → Type 0
InHold now hold channel db =
    (o : Delivery)
    → In o db.deliveries
    → is_waiting o.state ≡ true
    → o.channel_id ≡ channel
    → o.first_attempt_at ≢ 0
    → now < o.first_attempt_at + hold

-- What is claimed from a channel within its hold is the first that waits on it.
claimed-From :
    (now : Time) (hold : ℕ) (db : Db) (x : Delivery)
    → 0 < hold
    → In x db.deliveries
    → is_due now (pos hold) db.deliveries x ≡ true
    → InHold now hold x.channel_id db
    → From x.id x.channel_id db
claimed-From now hold db x p i t h d j w c = elim (Bool-cases (ltb d.id x.id)) [
  | inr later ↦ ground arith
  | inl older ↦
      let held : any (holds_back now (pos hold) x) db.deliveries ≡ false = ground arith in
      let this = any-false (holds_back now (pos hold) x) d db.deliveries held j in
      elim (Bool-cases (is_zero d.first_attempt_at)) [
        | inl z ↦ absurd (ground arith)
        | inr n ↦ let inside = h d j w c (ground arith) in absurd (ground arith)
      ]
]

-- What is claimed from a channel while nothing that waits on it was first attempted more than the
-- hold ago is the first in the queue of that channel, then and ever after: whatever is emitted,
-- released, claimed (by any worker, with any hold), settled, given up, pruned and deleted in between,
-- a delivery that is claimed from the channel later is the same or was queued after it.
pub claims-ordered :
    {a b c : Db} {r r' : Db × List (Delivery × Event)} (d d' : Delivery) (e e' : Event)
    → a.deliveries ≡ []
    → Reach a b
    → (now now' : Time) (lease lease' hold' : Duration) (hold : ℕ) (limit limit' : ℤ) → 0 < hold
    → InHold now hold d.channel_id b
    → claim_due_deliveries now lease (pos hold) limit b ≡ some r
    → In (d, e) r.1
    → Reach r.0 c
    → claim_due_deliveries now' lease' hold' limit' c ≡ some r'
    → In (d', e') r'.1
    → d'.channel_id ≡ d.channel_id
    → d.id ≤ d'.id
claims-ordered {a} {b} {c} {r} {r'} d d' e e' z ab now now' lease lease' hold' hold limit limit' p h
      q i bc q' i' same =
    let inv = Reach-Inv (empty-Inv a z) ab in
    let step = claimed b now lease (pos hold) limit r q in
    let inv' = Reach-Inv inv (then-Reach here step bc) in
    let (x, m, t, o, ev, eid) =
      claim_due_deliveries-taken now lease (pos hold) limit b r d e inv.ids.unique q i in
    let (x', m', t', o', ev', eid') =
      claim_due_deliveries-taken now' lease' hold' limit' c r' d' e' inv'.ids.unique q' i' in
    let id = ap (λ (y : Delivery). y.id) o in
    let id' = ap (λ (y : Delivery). y.id) o' in
    let ch = ap (λ (y : Delivery). y.channel_id) o in
    let ch' = ap (λ (y : Delivery). y.channel_id) o' in
    let first = claimed-From now hold b x p m t (subst (λ k. InHold now hold k b) ch h) in
    let l = inv.ids.below x m in
    let n : x.id ≤ b.next_delivery_id = omega (arith, l) in
    let after' = Step-From step x.id x.channel_id n first in
    let n' = (Step-Follows step).next in
    let ever = Reach-From bc x.id x.channel_id (omega (arith, n, n')) after' in
    let le = ever x' m' (ground arith) (sym ch' ∙ same ∙ ch) in omega (arith, le, id, id')

-- No delivery with the id waits, nor will one come.
abbrev pub Settled : ℕ → Db → Type 0
Settled id db =
    (id < db.next_delivery_id)
    × ((d : Delivery) → In d db.deliveries → d.id ≡ id → is_waiting d.state ≡ false)

pub not-true : (b : Bool) → (b ≡ true → ⊥) → b ≡ false
not-true b h = ground arith

pub Step-Settled : {a b : Db} → Step a b → (id : ℕ) → Settled id a → Settled id b
Step-Settled {a} {b} s id (l, h) =
    let f = Step-Follows s in
    let n = f.next in
    (
      omega (arith, l, n),
      λ d j e. not-true (is_waiting d.state) λ w. elim (f.rows d j) [
        | inl (x, i, o) ↦ let still = h x i (sym o.id ∙ e) in let waited = o.waits w in ground arith
        | inr (m, p) ↦ omega (arith, m, l, e)
      ],
    )

Reach-Settled : {a b : Db} → Reach a b → (id : ℕ) → Settled id a → Settled id b
Reach-Settled here id h = h
Reach-Settled (then_step r s) id h = Step-Settled s id (Reach-Settled r id h)

-- A delivery that was sent or given up is never claimed again.
pub settled-never_claimed :
    {a b c : Db} {r : Db × List (Delivery × Event)} (x d : Delivery) (e : Event)
    → a.deliveries ≡ []
    → Reach a b
    → In x b.deliveries
    → is_waiting x.state ≡ false
    → Reach b c
    → (now : Time) (lease hold : Duration) (limit : ℤ)
    → claim_due_deliveries now lease hold limit c ≡ some r
    → In (d, e) r.1
    → d.id ≢ x.id
settled-never_claimed {a} {b} {c} {r} x d e z ab i w bc now lease hold limit q j same =
    let inv = Reach-Inv (empty-Inv a z) ab in
    let inv' = Reach-Inv inv bc in
    let now_settled = λ (y : Delivery) (k : In y b.deliveries) (o : y.id ≡ x.id).
      subst (λ (s : Delivery). is_waiting s.state ≡ false) (sym (inv.ids.unique y x k i o)) w in
    let (l, ever) = Reach-Settled bc x.id (inv.ids.below x i, now_settled) in
    let (y, m, t, o, ev, eid) =
      claim_due_deliveries-taken now lease hold limit c r d e inv'.ids.unique q j in
    let id = ap (λ (s : Delivery). s.id) o in let settled = ever y m (sym id ∙ same) in ground arith

take-all : {A : Type 0} (n : ℕ) (xs : List A) → length xs ≤ n → take n xs ≡ xs
take-all zero [] h = refl
take-all zero (x ∷ xs) h = absurd (omega (arith, h))
take-all (suc n) [] h = refl
take-all (suc n) (x ∷ xs) h = ap (λ ys. x ∷ ys) (take-all n xs (omega (arith, h)))

In-mapped : {A B : Type 0} (f : A → B) (x : A) (xs : List A) → In x xs → In (f x) (map f xs)
In-mapped f x [] i = elim i [ ]
In-mapped f x (y ∷ ys) (inl e) = inl (ap f e)
In-mapped f x (y ∷ ys) (inr i) = inr (In-mapped f x ys i)

any-none :
    {A : Type 0} (q : A → Bool) (xs : List A) → ((x : A) → In x xs → q x ≡ false) → any q xs ≡ false
any-none q [] h = refl
any-none q (x ∷ xs) h = ground (arith, any-none q xs (λ y i. h y (inr i)), h x (inl refl))

-- Nothing holds back the first that waits on its channel.
From-unheld :
    (now : Time) (hold : Duration) (x : Delivery) (ds : List Delivery)
    → ((d : Delivery)
        → In d ds
        → is_waiting d.state ≡ true
        → d.channel_id ≡ x.channel_id
        → x.id ≤ d.id)
    → is_held_back now hold ds x ≡ false
From-unheld now hold x ds h =
    let quiet = any-none (holds_back now hold x) ds λ d i.
      not-true (holds_back now hold x d)
        λ t. let le = h d i (ground arith) (ground arith) in ground arith in
    ground arith

-- With room for all in the batch, a claim takes every delivery that is due and the first that waits
-- on its channel: no other channel holds it up.
pub claim_due_deliveries-heads :
    (now : Time) (lease hold : Duration) (limit : ℤ) (db : Db) (r : Db × List (Delivery × Event))
    (x : Delivery)
    → length db.deliveries ≤ batch limit
    → claim_due_deliveries now lease hold limit db ≡ some r
    → In x db.deliveries
    → is_waiting x.state ≡ true
    → x.next_attempt_at ≤ now
    → From x.id x.channel_id db
    → (e : Event) × In (attempted now lease x, e) r.1
unfolding claim_due_deliveries due_deliveries
claim_due_deliveries-heads now lease hold limit db r x n q i w t h =
    let ds = db.deliveries in
    let due = due_deliveries now hold limit ds in
    let rows = map (attempted now lease) (select (is_among due) ds) in
    let unheld = From-unheld now hold x ds h in
    let chosen : is_due now hold ds x ≡ true = ground arith in
    let fits = length-select (is_due now hold ds) ds in
    let all = take-all (batch limit) (select (is_due now hold ds) ds) (omega (arith, n, fits)) in
    let in_due : In x due =
      subst (In x) (sym all) (In-selected (is_due now hold ds) x ds i chosen) in
    let among = In-any (λ c. c.id == x.id) x due in_due (ground arith) in
    let row =
      In-mapped (attempted now lease) x (select (is_among due) ds)
        (In-selected (is_among due) x ds i among) in
    elim (Option-cases (join_events db.events rows)) [
      | inl none ↦ absurd (ground arith)
      | inr (out, g) ↦
          let (e, j) = join_events-some db.events rows out (attempted now lease x) g row in
          let same : out ≡ r.1 = ground arith in (e, subst (In (attempted now lease x, e)) same j)
    ]
