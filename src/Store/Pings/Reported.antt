-- ===== src/Store/Pings/Reported.antt =====
-- What the events say of a heartbeat, an independent reading of its status, and how the reading of
-- the rows answers to an update of the table.
use Prim.Native.String.{String}
use text.Mathlib.Text.{◌==◌ as str_eq}
use text.Mathlib.TextEquality.{eq_iff}
use tend.Prelude.{
  ℕ, ◌≡◌, inl, inr, refl, Bool, true, false, ◌&&◌, ◌||◌, List, [], ◌∷◌, ◌++◌, arith, ◌==◌,
  if◌then◌else◌, any, Bool-cases,
}
use tend.Event.{
  Event, EventType, heartbeat_missed, heartbeat_recovered, heartbeat_removed, Payload, run,
  removed_job, heartbeat_name, failed_type,
}
use tend.Heartbeat.{Heartbeat, is_down}
use tend.Store.Table.{update_where, delete_where, In}
use tend.Store.Pings.{is_named}

abbrev pub is_lifecycle : EventType → Bool
is_lifecycle heartbeat_missed = true
is_lifecycle heartbeat_recovered = true
is_lifecycle heartbeat_removed = true
is_lifecycle _ = false

abbrev pub is_missed : EventType → Bool
is_missed heartbeat_missed = true
is_missed _ = false

abbrev pub names : String → Payload → Bool
names n (heartbeat_name m) = str_eq m n
names n (run p) = false
names n (removed_job id m) = false
names n (failed_type t) = false

-- The event is one of the lifecycle of the heartbeat named `n` of the org.
abbrev pub concerns : ℕ → String → Event → Bool
concerns org n e = is_lifecycle e.event_type && ((e.org_id == org) && names n e.payload)

-- The last lifecycle event of the heartbeat is a heartbeat.missed.
abbrev reported_from : Bool → ℕ → String → List Event → Bool
reported_from b org n [] = b
reported_from b org n (e ∷ es) =
    reported_from (if concerns org n e then is_missed e.event_type else b) org n es

unfoldable pub reported_down : ℕ → String → List Event → Bool
reported_down org n es = reported_from false org n es

reported_from-append :
    (b : Bool) (org : ℕ) (n : String) (es : List Event) (e : Event)
    → reported_from b org n (es ++ e ∷ [])
      ≡ (if concerns org n e then is_missed e.event_type else reported_from b org n es)
reported_from-append b org n [] e = refl
reported_from-append b org n (d ∷ es) e =
    reported_from-append (if concerns org n d then is_missed d.event_type else b) org n es e

pub reported_down-append :
    (org : ℕ) (n : String) (es : List Event) (e : Event)
    → reported_down org n (es ++ e ∷ [])
      ≡ (if concerns org n e then is_missed e.event_type else reported_down org n es)
unfolding reported_down
reported_down-append org n es e = reported_from-append false org n es e

-- A row of that name is down.
abbrev pub down_named : ℕ → String → Heartbeat → Bool
down_named org n h = is_named org n h && is_down h.status

unfoldable pub is_down_now : ℕ → String → List Heartbeat → Bool
is_down_now org n rows = any (down_named org n) rows

module _ {A : Type 0} (q p : A → Bool) (f : A → A) where
  pub any-update_same :
      (xs : List A)
      → ((x : A) → In x xs → p x ≡ true → q (f x) ≡ q x)
      → any q (update_where p f xs) ≡ any q xs
  any-update_same [] h = refl
  any-update_same (x ∷ xs) h =
      ground (arith, any-update_same xs (λ y i. h y (inr i)), h x (inl refl))

  pub any-update_none :
      (xs : List A)
      → ((x : A) → In x xs → q (if p x then f x else x) ≡ false)
      → any q (update_where p f xs) ≡ false
  any-update_none [] h = refl
  any-update_none (x ∷ xs) h =
      ground (arith, any-update_none xs (λ y i. h y (inr i)), h x (inl refl))

  pub any-update_some :
      (x : A) (xs : List A)
      → In x xs
      → p x ≡ true
      → q (f x) ≡ true
      → any q (update_where p f xs) ≡ true
  any-update_some x [] i h k = elim i [ ]
  any-update_some x (y ∷ ys) (inl e) h k = ground arith
  any-update_some x (y ∷ ys) (inr i) h k = ground (arith, any-update_some x ys i h k)

module _ {A : Type 0} (q p : A → Bool) where
  pub any-delete_same :
      (xs : List A)
      → ((x : A) → In x xs → p x ≡ true → q x ≡ false)
      → any q (delete_where p xs) ≡ any q xs
  any-delete_same [] h = refl
  any-delete_same (x ∷ xs) h =
      ground (arith, any-delete_same xs (λ y i. h y (inr i)), h x (inl refl))

  pub any-delete_none :
      (xs : List A)
      → ((x : A) → In x xs → p x ≡ false → q x ≡ false)
      → any q (delete_where p xs) ≡ false
  any-delete_none [] h = refl
  any-delete_none (x ∷ xs) h =
      ground (arith, any-delete_none xs (λ y i. h y (inr i)), h x (inl refl))

module _ {A : Type 0} (q : A → Bool) where
  pub any-append_one : (x : A) (xs : List A) → any q (xs ++ x ∷ []) ≡ (any q xs || q x)
  any-append_one x [] = ground arith
  any-append_one x (y ∷ ys) = ground (arith, any-append_one x ys)

  pub any-false : (x : A) (xs : List A) → any q xs ≡ false → In x xs → q x ≡ false
  any-false x [] h i = elim i [ ]
  any-false x (y ∷ ys) h (inl e) = ground arith
  any-false x (y ∷ ys) h (inr i) = any-false x ys (ground arith) i

  pub any-true : (xs : List A) → any q xs ≡ true → (x : A) × In x xs × (q x ≡ true)
  any-true [] h = absurd (ground arith)
  any-true (y ∷ ys) h = elim (Bool-cases (q y)) [
    | inl t ↦ (y, inl refl, t)
    | inr f ↦ let (x, i, t) = any-true ys (ground arith) in (x, inr i, t)
  ]

-- Two rows found by one name have one name.
pub is_named-same :
    (org : ℕ) (n : String) (x y : Heartbeat)
    → is_named org n x ≡ true
    → is_named org n y ≡ true
    → (x.org_id ≡ y.org_id) × (x.name ≡ y.name)
is_named-same org n x y h k = ground (arith, eq_iff x.name n, eq_iff y.name n)
