-- ===== src/Store/Table.antt =====
-- SQL on a table, a list of rows in the order of their ids.
use tend.Prelude.{
  ◌≡◌, ◌⊎◌, inl, inr, refl, ap, Bool, true, not, Option, none, some, List, [], ◌∷◌, ◌++◌, arith,
  if◌then◌else◌, find, select,
}

module _ {ℓ} {A : Type ℓ} where
  -- UPDATE ... SET f WHERE p.
  abbrev pub update_where : (A → Bool) → (A → A) → List A → List A
  update_where p f [] = []
  update_where p f (x ∷ xs) = (if p x then f x else x) ∷ update_where p f xs

  -- DELETE ... WHERE p.
  abbrev pub delete_where : (A → Bool) → List A → List A
  delete_where p xs = select (λ x. not (p x)) xs

  -- The first row as an UPDATE ... WHERE p RETURNING leaves it, or none if it matched no row.
  abbrev pub returning : (A → Bool) → (A → A) → List A → Option A
  returning p f xs = elim (find p xs) [ none ↦ none | some x ↦ some (f x) ]

-- The rows of a table are data, at level 0.
module _ {A : Type 0} where
  abbrev pub In : A → List A → Type 0
  In x [] = ⊥
  In x (y ∷ ys) = (x ≡ y) ⊎ In x ys

  pub In-append : (x y : A) (xs : List A) → In x (xs ++ y ∷ []) → In x xs ⊎ (x ≡ y)
  In-append x y [] (inl e) = inr e
  In-append x y [] (inr h) = elim h [ ]
  In-append x y (z ∷ zs) (inl e) = inl (inl e)
  In-append x y (z ∷ zs) (inr r) = elim (In-append x y zs r) [ inl h ↦ inl (inr h) | inr h ↦ inr h ]

  -- A row after an update is a row before it, with the update made if the condition held.
  pub In-update_where :
      (p : A → Bool) (f : A → A) (y : A) (xs : List A)
      → In y (update_where p f xs)
      → (x : A) × In x xs × (y ≡ (if p x then f x else x))
  In-update_where p f y [] h = elim h [ ]
  In-update_where p f y (x ∷ xs) (inl e) = (x, inl refl, e)
  In-update_where p f y (x ∷ xs) (inr h) =
      let (z, i, e) = In-update_where p f y xs h in (z, inr i, e)

  -- And every row before it is there after it, updated or not.
  pub In-updated :
      (p : A → Bool) (f : A → A) (x : A) (xs : List A)
      → In x xs
      → In (if p x then f x else x) (update_where p f xs)
  In-updated p f x [] i = elim i [ ]
  In-updated p f x (y ∷ ys) (inl e) = inl (ap (λ z. if p z then f z else z) e)
  In-updated p f x (y ∷ ys) (inr i) = inr (In-updated p f x ys i)

  pub In-select : (p : A → Bool) (y : A) (xs : List A) → In y (select p xs) → In y xs × (p y ≡ true)
  In-select p y [] h = elim h [ ]
  In-select p y (x ∷ xs) h = ground (arith, In-select p y xs)

  -- What a search finds is a row that meets the condition.
  pub find-In : (p : A → Bool) (y : A) (xs : List A) → find p xs ≡ some y → In y xs × (p y ≡ true)
  find-In p y [] h = ground arith
  find-In p y (x ∷ xs) h = ground (arith, find-In p y xs)
