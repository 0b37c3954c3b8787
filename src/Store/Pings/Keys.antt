-- ===== src/Store/Pings/Keys.antt =====
-- The unique indexes of the heartbeats table: on the id, on (org_id, name) and on the token.
use tend.Prelude.{
  ◌≡◌, ◌≢◌, inl, inr, ap, subst, sym, ◌∙◌, Bool, not, List, [], ◌∷◌, ◌++◌, arith, if◌then◌else◌,
}
use tend.Heartbeat.{Heartbeat}
use tend.Store.Table.{update_where, delete_where, In, In-append, In-update_where, In-select}

-- Rows that agree on a key are one row.
abbrev pub Unique : {A : Type 0} → (A → A → Type 0) → List A → Type 0
Unique {A} K xs = (x y : A) → In x xs → In y xs → K x y → x ≡ y

module _ {A : Type 0} (K : A → A → Type 0) where
  pub Unique-update :
      (p : A → Bool) (f : A → A) (xs : List A)
      → ((x y : A) → K (if p x then f x else x) (if p y then f y else y) → K x y)
      → Unique K xs
      → Unique K (update_where p f xs)
  Unique-update p f xs keep u x y i j k =
      let (x', i', e) = In-update_where p f x xs i in
      let (y', j', d) = In-update_where p f y xs j in
      let g = λ (z : A). if p z then f z else z in
      let k' : K (g x') (g y') = subst (λ z. K z (g y')) e (subst (λ z. K x z) d k) in
      e ∙ ap g (u x' y' i' j' (keep x' y' k')) ∙ sym d

  pub Unique-delete : (p : A → Bool) (xs : List A) → Unique K xs → Unique K (delete_where p xs)
  Unique-delete p xs u x y i j k =
      u x y (In-select (λ z. not (p z)) x xs i).0 (In-select (λ z. not (p z)) y xs j).0 k

  pub Unique-append :
      (z : A) (xs : List A)
      → ((x : A) → In x xs → ¬ K x z)
      → ((x : A) → In x xs → ¬ K z x)
      → Unique K xs
      → Unique K (xs ++ z ∷ [])
  Unique-append z xs f g u x y i j k = elim (In-append x z xs i) [
    | inl i' ↦ elim (In-append y z xs j) [
      | inl j' ↦ u x y i' j' k
      | inr e ↦ absurd (f x i' (subst (λ w. K x w) e k))
    ]
    | inr d ↦ elim (In-append y z xs j) [
      | inl j' ↦ absurd (g y j' (subst (λ w. K w y) d k))
      | inr e ↦ d ∙ sym e
    ]
  ]

abbrev pub SameId : Heartbeat → Heartbeat → Type 0
SameId x y = x.id ≡ y.id

abbrev pub SameName : Heartbeat → Heartbeat → Type 0
SameName x y = (x.org_id ≡ y.org_id) × (x.name ≡ y.name)

abbrev pub SameToken : Heartbeat → Heartbeat → Type 0
SameToken x y = x.token ≡ y.token

pub record Keys (rows : List Heartbeat) : Type 0 where
  pub ids : Unique SameId rows
  pub names : Unique SameName rows
  pub tokens : Unique SameToken rows

-- An update that writes none of the keys.
pub record KeepsKeys (f : Heartbeat → Heartbeat) : Type 0 where
  pub id : (h : Heartbeat) → (f h).id ≡ h.id
  pub org_id : (h : Heartbeat) → (f h).org_id ≡ h.org_id
  pub name : (h : Heartbeat) → (f h).name ≡ h.name
  pub token : (h : Heartbeat) → (f h).token ≡ h.token

pub update-Keys :
    (p : Heartbeat → Bool) (f : Heartbeat → Heartbeat) (rows : List Heartbeat)
    → KeepsKeys f
    → Keys rows
    → Keys (update_where p f rows)
update-Keys p f rows k u = record {
  ids = Unique-update SameId p f rows (λ x y e. ground (arith, k.id x, k.id y)) u.ids;
  names =
      Unique-update SameName p f rows
        (λ x y e. ground (arith, k.org_id x, k.org_id y, k.name x, k.name y)) u.names;
  tokens =
      Unique-update SameToken p f rows (λ x y e. ground (arith, k.token x, k.token y)) u.tokens;
}

pub delete-Keys :
    (p : Heartbeat → Bool) (rows : List Heartbeat) → Keys rows → Keys (delete_where p rows)
delete-Keys p rows u = record {
  ids = Unique-delete SameId p rows u.ids;
  names = Unique-delete SameName p rows u.names;
  tokens = Unique-delete SameToken p rows u.tokens;
}

pub append-Keys :
    (h : Heartbeat) (rows : List Heartbeat)
    → ((x : Heartbeat) → In x rows → x.id ≢ h.id)
    → ((x : Heartbeat) → In x rows → ¬ SameName x h)
    → ((x : Heartbeat) → In x rows → x.token ≢ h.token)
    → Keys rows
    → Keys (rows ++ h ∷ [])
append-Keys h rows i n t u = record {
  ids = Unique-append SameId h rows i (λ x j e. i x j (sym e)) u.ids;
  names = Unique-append SameName h rows n (λ x j e. n x j (sym e.0, sym e.1)) u.names;
  tokens = Unique-append SameToken h rows t (λ x j e. t x j (sym e)) u.tokens;
}
