-- ===== src/Store/Deliveries/Claim.antt =====
-- Which deliveries a claim takes.
use tend.Prelude.{
  ℕ, zero, suc, ◌≡◌, ◌≢◌, inl, inr, refl, sym, ap, subst, Bool, true, none, some, List, [], ◌∷◌,
  map, ◌==◌, arith, Option-cases, find, select, any, take,
}
use tend.Prelude.Int.{ℤ}
use tend.Clock.{Time, Duration}
use tend.Event.{Event}
use tend.Store.Schema.{Db, Delivery}
use tend.Store.Table.{In, In-select, find-In}
use tend.Store.Pings.Keys.{Unique}
use tend.Store.Pings.Reported.{any-true}
use tend.Store.Deliveries.{
  claim_due_deliveries, due_deliveries, join_events, is_due, is_among, attempted, batch,
}

abbrev pub SameId : Delivery → Delivery → Type 0
SameId x y = x.id ≡ y.id

module _ {A : Type 0} where
  pub In-any : (q : A → Bool) (x : A) (xs : List A) → In x xs → q x ≡ true → any q xs ≡ true
  In-any q x [] i h = elim i [ ]
  In-any q x (y ∷ ys) (inl e) h = ground arith
  In-any q x (y ∷ ys) (inr i) h = ground (arith, In-any q x ys i h)

  In-take : (n : ℕ) (y : A) (xs : List A) → In y (take n xs) → In y xs
  In-take zero y xs i = elim i [ ]
  In-take (suc n) y [] i = elim i [ ]
  In-take (suc n) y (x ∷ xs) (inl e) = inl e
  In-take (suc n) y (x ∷ xs) (inr i) = inr (In-take n y xs i)

  pub In-selected : (p : A → Bool) (x : A) (xs : List A) → In x xs → p x ≡ true → In x (select p xs)
  In-selected p x [] i h = elim i [ ]
  In-selected p x (y ∷ ys) (inl e) h =
      let t : p y ≡ true = subst (λ z. p z ≡ true) e h in rw t (inl e)
  In-selected p x (y ∷ ys) (inr i) h = ground (arith, In-selected p x ys i h)

  find-none : (p : A → Bool) (xs : List A) → find p xs ≡ none → any p xs ≢ true
  find-none p [] h t = ground arith
  find-none p (x ∷ xs) h t = ground (arith, find-none p xs)

module _ {A B : Type 0} where
  pub In-map : (f : A → B) (y : B) (xs : List A) → In y (map f xs) → (x : A) × In x xs × (y ≡ f x)
  In-map f y [] i = elim i [ ]
  In-map f y (x ∷ xs) (inl e) = (x, inl refl, e)
  In-map f y (x ∷ xs) (inr i) = let (z, j, e) = In-map f y xs i in (z, inr j, e)

-- A joined delivery is one of those given, with the event that it is of.
join_events-In :
    (events : List Event) (ds : List Delivery) (out : List (Delivery × Event)) (d : Delivery)
    (e : Event)
    → join_events events ds ≡ some out
    → In (d, e) out
    → In d ds × (find (λ x. x.id == d.event_id) events ≡ some e)
unfolding join_events
join_events-In events [] out d e h i =
    let none_left : [] ≡ out = ground arith in
    let j : ⊥ = subst (In (d, e)) (sym none_left) i in elim j [ ]
join_events-In events (x ∷ ds) out d e h i =
    elim (Option-cases (find (λ y. y.id == x.event_id) events)) [
      | inl n ↦ absurd (ground arith)
      | inr (y, f) ↦ elim (Option-cases (join_events events ds)) [
        | inl n ↦ absurd (ground arith)
        | inr (rest, g) ↦
            let all : (x, y) ∷ rest ≡ out = ground arith in
            elim (subst (In (d, e)) (sym all) i) [
              | inl same ↦ (inl (ap (λ p. p.0) same), ground arith)
              | inr later ↦ let (j, k) = join_events-In events ds rest d e g later in (inr j, k)
            ]
      ]
    ]

-- And every delivery given is joined, where each has its event.
pub join_events-total :
    (events : List Event) (ds : List Delivery)
    → ((d : Delivery) → In d ds → any (λ e. e.id == d.event_id) events ≡ true)
    → (out : List (Delivery × Event)) × (join_events events ds ≡ some out)
unfolding join_events
join_events-total events [] h = ([], refl)
join_events-total events (x ∷ ds) h =
    let (out, g) = join_events-total events ds (λ d i. h d (inr i)) in
    elim (Option-cases (find (λ y. y.id == x.event_id) events)) [
      | inl n ↦ absurd (find-none (λ y. y.id == x.event_id) events n (h x (inl refl)))
      | inr (y, f) ↦ ((x, y) ∷ out, ground arith)
    ]

pub join_events-some :
    (events : List Event) (ds : List Delivery) (out : List (Delivery × Event)) (d : Delivery)
    → join_events events ds ≡ some out
    → In d ds
    → (e : Event) × In (d, e) out
unfolding join_events
join_events-some events [] out d h i = elim i [ ]
join_events-some events (x ∷ ds) out d h i =
    elim (Option-cases (find (λ y. y.id == x.event_id) events)) [
      | inl n ↦ absurd (ground arith)
      | inr (y, f) ↦ elim (Option-cases (join_events events ds)) [
        | inl n ↦ absurd (ground arith)
        | inr (rest, g) ↦
            let all : (x, y) ∷ rest ≡ out = ground arith in
            elim i [
              | inl same ↦ (y, subst (In (d, y)) all (inl (ap (λ z. (z, y)) same)))
              | inr later ↦
                  let (e, j) = join_events-some events ds rest d g later in
                  (e, subst (In (d, e)) all (inr j))
            ]
      ]
    ]

-- A row with the id of one that is taken is due, where the rows have ids of their own.
pub is_among-due :
    (now : Time) (hold : Duration) (limit : ℤ) (ds : List Delivery)
    → Unique SameId ds
    → (x : Delivery) → In x ds
    → is_among (due_deliveries now hold limit ds) x ≡ true
    → is_due now hold ds x ≡ true
unfolding due_deliveries
is_among-due now hold limit ds u x m a =
    let (c, n, q) = any-true (λ c. c.id == x.id) (due_deliveries now hold limit ds) a in
    let (o, p) = In-select (is_due now hold ds) c ds (In-take (batch limit) c _ n) in
    let is_x : c ≡ x = u c x o m (ground arith) in subst (λ z. is_due now hold ds z ≡ true) is_x p

-- Each delivery that a claim returns is one that was due and not held back, with its attempt
-- counted and put off, beside the event that it is of, where the deliveries have ids of their own.
pub claim_due_deliveries-taken :
    (now : Time) (lease hold : Duration) (limit : ℤ) (db : Db) (r : Db × List (Delivery × Event))
    (d : Delivery) (e : Event)
    → Unique SameId db.deliveries
    → claim_due_deliveries now lease hold limit db ≡ some r
    → In (d, e) r.1
    → (x : Delivery) × In x db.deliveries
      × (is_due now hold db.deliveries x ≡ true)
      × (d ≡ attempted now lease x)
      × In e db.events
      × (e.id ≡ x.event_id)
unfolding claim_due_deliveries due_deliveries
claim_due_deliveries-taken now lease hold limit db r d e u h i =
    let due = due_deliveries now hold limit db.deliveries in
    let rows = map (attempted now lease) (select (is_among due) db.deliveries) in
    elim (Option-cases (join_events db.events rows)) [
      | inl n ↦ absurd (ground arith)
      | inr (out, g) ↦
          let same : out ≡ r.1 = ground arith in
          let (j, f) = join_events-In db.events rows out d e g (subst (In (d, e)) (sym same) i) in
          let (x, k, t) = In-map (attempted now lease) d _ j in
          let (m, a) = In-select (is_among due) x db.deliveries k in
          let p = is_among-due now hold limit db.deliveries u x m a in
          let (ev, w) = find-In (λ y. y.id == d.event_id) e db.events f in
          (x, m, p, t, ev, ground arith)
    ]
