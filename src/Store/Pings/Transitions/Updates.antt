-- ===== src/Store/Pings/Transitions/Updates.antt =====
-- What the UPDATEs of a ping do to which heartbeats are down.
use Prim.Native.String.{String}
use text.Mathlib.TextEquality.{eq_iff}
use tend.Prelude.{
  ℕ, ◌≡◌, ◌⊎◌, inl, inr, ap, Bool, true, false, not, ◌&&◌, Option, none, some, List, [], ◌∷◌, arith,
  if◌then◌else◌, find, Bool-cases, Option-cases,
}
use tend.Clock.{Time}
use tend.Event.{Event}
use tend.Heartbeat.{Heartbeat, is_down}
use tend.Store.Table.{update_where, In}
use tend.Store.PingState.{owns, Updated, update, succeed, fail}
use tend.Store.Pings.{is_named}
use tend.Store.Pings.Keys.{Keys}
use tend.Store.Pings.Reported.{
  concerns, is_missed, is_down_now, down_named, any-update_same, any-update_none, any-update_some,
  is_named-same,
}

-- What a heartbeat's being down becomes with an event, or with none.
abbrev pub outcome : ℕ → String → Option Event → Bool → Bool
outcome org n none b = b
outcome org n (some e) b = if concerns org n e then is_missed e.event_type else b

abbrev pub guarded : (Heartbeat → Bool) → String → Heartbeat → Bool
guarded guard token h = owns token h && guard h

-- The guarded UPDATE fires on the row that it returns, or it matches no row and the unguarded one
-- is made.
pub update-cases :
    (set : Heartbeat → Heartbeat) (guard : Heartbeat → Bool) (token : String)
    (rows : List Heartbeat) (u : Updated)
    → update set guard token rows ≡ some u
    → ((h : Heartbeat) × (find (guarded guard token) rows ≡ some h)
        × (u.row ≡ set h)
        × (u.rows ≡ update_where (guarded guard token) set rows)
        × (u.transitioned ≡ true))
      ⊎ ((find (guarded guard token) rows ≡ none)
          × (u.rows ≡ update_where (owns token) set rows)
          × (u.transitioned ≡ false))
unfolding update
update-cases set guard token rows u e = elim (Option-cases (find (guarded guard token) rows)) [
  | inl n ↦ inr (n, ground arith, ground arith)
  | inr (h, s) ↦ inl (h, s, ground arith, ground arith, ground arith)
]

pub find-none :
    (p : Heartbeat → Bool) (x : Heartbeat) (rows : List Heartbeat)
    → find p rows ≡ none
    → In x rows
    → p x ≡ false
find-none p x [] e i = elim i [ ]
find-none p x (y ∷ ys) e (inl d) = ground arith
find-none p x (y ∷ ys) e (inr i) = find-none p x ys (ground arith) i

pub owns-same :
    (token : String) (x y : Heartbeat)
    → owns token x ≡ true
    → owns token y ≡ true
    → x.token ≡ y.token
owns-same token x y h k = ground (arith, eq_iff x.token token, eq_iff y.token token)

-- An update that leaves the name alone and whether the row is down.
pub quiet :
    (org : ℕ) (n : String) (p : Heartbeat → Bool) (f : Heartbeat → Heartbeat)
    (rows : List Heartbeat)
    → ((x : Heartbeat) → In x rows → p x ≡ true → down_named org n (f x) ≡ down_named org n x)
    → is_down_now org n (update_where p f rows) ≡ is_down_now org n rows
unfolding is_down_now
quiet org n p f rows h = any-update_same (down_named org n) p f rows h

pub fail-fired :
    (org : ℕ) (n : String) (now : Time) (p : Heartbeat → Bool) (h : Heartbeat)
    (rows : List Heartbeat)
    → In h rows
    → p h ≡ true
    → ((x : Heartbeat) → In x rows → p x ≡ true → x ≡ h)
    → is_down_now org n (update_where p (fail now) rows)
      ≡ (if is_named org n h then true else is_down_now org n rows)
unfolding is_down_now
fail-fired org n now p h rows i t same = elim (Bool-cases (is_named org n h)) [
  | inl y ↦ rw y (any-update_some (down_named org n) p (fail now) h rows i t (ground arith))
  | inr z ↦ rw z (
      any-update_same (down_named org n) p (fail now) rows
        (λ x j k. let e = same x j k in ground arith))
]

-- A row of the name of the one that a success updates is that one.
pub cleared :
    (org : ℕ) (n : String) (now : Time) (rid : String) (p : Heartbeat → Bool) (h : Heartbeat)
    (rows : List Heartbeat)
    → Keys rows
    → In h rows
    → p h ≡ true
    → is_named org n h ≡ true
    → (x : Heartbeat) → In x rows
    → down_named org n (if p x then succeed now rid x else x) ≡ false
cleared org n now rid p h rows keys i t y x j = elim (Bool-cases (p x)) [
  | inl hit ↦ rw hit (ground arith)
  | inr miss ↦ elim (Bool-cases (is_named org n x)) [
    | inl z ↦
        let e = keys.names x h j i (is_named-same org n x h z y) in absurd (cc (ap p e, miss, t))
    | inr z ↦ rw (miss, z)
  ]
]

pub succeed-fired :
    (org : ℕ) (n : String) (now : Time) (rid : String) (p : Heartbeat → Bool) (h : Heartbeat)
    (rows : List Heartbeat)
    → Keys rows
    → In h rows
    → p h ≡ true
    → ((x : Heartbeat) → In x rows → p x ≡ true → x ≡ h)
    → is_down_now org n (update_where p (succeed now rid) rows)
      ≡ (if is_named org n h then false else is_down_now org n rows)
unfolding is_down_now
succeed-fired org n now rid p h rows keys i t same = elim (Bool-cases (is_named org n h)) [
  | inl y ↦ rw y (
      any-update_none (down_named org n) p (succeed now rid) rows
        (λ x j. cleared org n now rid p h rows keys i t y x j))
  | inr z ↦ rw z (
      any-update_same (down_named org n) p (succeed now rid) rows
        (λ x j k. let e = same x j k in ground arith))
]

-- The unguarded success or failure after a guard that matched no row changes no status.
pub fail-quiet :
    (org : ℕ) (n token : String) (now : Time) (rows : List Heartbeat)
    → find (guarded (λ h. not (is_down h.status)) token) rows ≡ none
    → is_down_now org n (update_where (owns token) (fail now) rows) ≡ is_down_now org n rows
fail-quiet org n token now rows e = quiet org n (owns token) (fail now) rows (λ x i k.
    let g = find-none (guarded (λ h. not (is_down h.status)) token) x rows e i in ground arith)

pub succeed-quiet :
    (org : ℕ) (n token : String) (now : Time) (rid : String) (rows : List Heartbeat)
    → find (guarded (λ h. is_down h.status) token) rows ≡ none
    → is_down_now org n (update_where (owns token) (succeed now rid) rows) ≡ is_down_now org n rows
succeed-quiet org n token now rid rows e =
    quiet org n (owns token) (succeed now rid) rows (λ x i k.
      let g = find-none (guarded (λ h. is_down h.status) token) x rows e i in ground arith)

pub owned-same :
    (guard : Heartbeat → Bool) (token : String) (h : Heartbeat) (rows : List Heartbeat)
    → Keys rows
    → In h rows
    → guarded guard token h ≡ true
    → (x : Heartbeat) → In x rows
    → guarded guard token x ≡ true
    → x ≡ h
owned-same guard token h rows keys i t x j k =
    keys.tokens x h j i (owns-same token x h (ground arith) (ground arith))
