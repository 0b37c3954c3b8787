-- ===== src/Store/Pings/Transitions/Rows.antt =====
-- Creating and deleting heartbeats.
use Prim.Native.String.{String}
use text.Mathlib.Text.{◌==◌ as str_eq}
use text.Mathlib.TextEquality.{eq_iff}
use tend.Prelude.{
  ℕ, suc, ◌≡◌, inl, inr, refl, ap, sym, ◌∙◌, subst, Bool, true, false, not, ◌&&◌, none, some, List,
  [], ◌∷◌, ◌++◌, arith, if◌then◌else◌, any, find, Bool-cases, Option-cases, ◌==◌,
}
use tend.Clock.{Time}
use tend.Heartbeat.{Heartbeat, removed_event}
use tend.Store.Schema.{Db}
use tend.Store.Table.{update_where, delete_where, In, In-append, In-select, find-In}
use tend.Store.Emit.{emit_event}
use tend.Store.Pings.{
  is_named, create_heartbeat, inserted, reschedule, delete_heartbeat, is_heartbeat,
}
use tend.Store.Pings.Keys.{Keys, KeepsKeys, SameName, delete-Keys, append-Keys}
use tend.Store.Pings.Reported.{
  is_down_now, down_named, any-update_same, any-delete_same, any-delete_none, any-append_one,
  any-false, is_named-same,
}
use tend.Store.Pings.Transitions.{Inv, change-Inv, settle-Inv}
use tend.Store.Pings.Transitions.Updates.{outcome}

reschedule-keeps : (given : Heartbeat) → KeepsKeys (reschedule given)
reschedule-keeps given = record {
  id = λ h. refl;
  org_id = λ h. refl;
  name = λ h. refl;
  token = λ h. refl;
}

rescheduled-Inv :
    (wall : Time) (db : Db) (given : Heartbeat) (p : Heartbeat → Bool)
    → Inv db
    → Inv (record db { heartbeats = update_where p (reschedule given) db.heartbeats })
unfolding is_down_now
rescheduled-Inv wall db given p inv =
    change-Inv wall db (record db { heartbeats = update_where p (reschedule given) db.heartbeats })
      none inv refl refl (inr (p, reschedule given, reschedule-keeps given, refl))
      (λ org n.
        any-update_same (down_named org n) p (reschedule given) db.heartbeats (λ x i k. refl))

named_by_key : (x given : Heartbeat) → SameName x given → is_named given.org_id given.name x ≡ true
named_by_key x given s = ground (arith, eq_iff x.name given.name)

inserted-Inv :
    (wall : Time) (db : Db) (given : Heartbeat)
    → any (is_named given.org_id given.name) db.heartbeats ≡ false
    → any (λ h. str_eq h.token given.token) db.heartbeats ≡ false
    → Inv db
    → Inv (record db {
      heartbeats = db.heartbeats ++ inserted wall db.next_heartbeat_id given ∷ [];
      next_heartbeat_id = suc db.next_heartbeat_id;
    })
unfolding inserted is_down_now
inserted-Inv wall db given free unused inv =
    let h = inserted wall db.next_heartbeat_id given in
    record {
      keys =
          append-Keys h db.heartbeats (λ x i e. let b = inv.below x i in ground arith)
            (λ x i e.
              let f = any-false (is_named given.org_id given.name) x db.heartbeats free i in
              ground (arith, named_by_key x given e))
            (λ x i e.
              let f = any-false (λ h. str_eq h.token given.token) x db.heartbeats unused i in
              ground (arith, eq_iff x.token given.token))
            inv.keys;
      below = λ x i. elim (In-append x h db.heartbeats i) [
        | inl j ↦ let b = inv.below x j in omega arith
        | inr e ↦ ground arith
      ];
      agrees = λ org n.
          inv.agrees org n ∙ sym (any-append_one (down_named org n) h db.heartbeats ∙ ground arith);
    }

-- A heartbeat created, or given another schedule where its name is taken.
pub create_heartbeat-Inv :
    (wall : Time) (db : Db) (given : Heartbeat) (r : Db)
    → create_heartbeat wall db given ≡ some r
    → Inv db
    → Inv r
unfolding create_heartbeat
create_heartbeat-Inv wall db given r e inv =
    elim (Bool-cases (any (is_named given.org_id given.name) db.heartbeats)) [
      | inl taken ↦
          subst Inv (ground arith)
            (rescheduled-Inv wall db given (is_named given.org_id given.name) inv)
      | inr free ↦ elim (Bool-cases (any (λ h. str_eq h.token given.token) db.heartbeats)) [
        | inl used ↦ absurd (ground arith)
        | inr unused ↦ subst Inv (ground arith) (inserted-Inv wall db given free unused inv)
      ]
    ]

-- Without the one row of its name, no row of the name is down; of another name nothing changes.
deleted :
    (org : ℕ) (n : String) (h : Heartbeat) (o id : ℕ) (rows : List Heartbeat)
    → Keys rows
    → In h rows
    → is_heartbeat o id h ≡ true
    → is_down_now org n (delete_where (is_heartbeat o id) rows)
      ≡ (if is_named org n h then false else is_down_now org n rows)
unfolding is_down_now
deleted org n h o id rows keys i t = elim (Bool-cases (is_named org n h)) [
  | inl y ↦ rw y (
      any-delete_none (down_named org n) (is_heartbeat o id) rows (λ x j miss.
        elim (Bool-cases (is_named org n x)) [
          | inl z ↦
              let e = keys.names x h j i (is_named-same org n x h z y) in
              absurd (cc (ap (is_heartbeat o id) e, miss, t))
          | inr z ↦ rw z
        ]))
  | inr z ↦ rw z (
      any-delete_same (down_named org n) (is_heartbeat o id) rows
        (λ x j hit. let e = keys.ids x h j i (ground arith) in ground arith))
]

outcome-removed :
    (org : ℕ) (n : String) (o : ℕ) (h : Heartbeat) (b : Bool)
    → h.org_id ≡ o
    → outcome org n (some (removed_event o h.name)) b ≡ (if is_named org n h then false else b)
unfolding removed_event
outcome-removed org n o h b e = ground arith

removed-Inv :
    (wall : Time) (a b : Db) (o id : ℕ) (h : Heartbeat)
    → find (is_heartbeat o id) a.heartbeats ≡ some h
    → b.heartbeats ≡ delete_where (is_heartbeat o id) a.heartbeats
    → b.events ≡ a.events
    → b.next_heartbeat_id ≡ a.next_heartbeat_id
    → Inv a
    → Inv (emit_event wall b (removed_event o h.name))
removed-Inv wall a b o id h f rows ev next inv =
    let (i, t) = find-In (is_heartbeat o id) h a.heartbeats f in
    settle-Inv wall a b (some (removed_event o h.name)) inv ev
      (rw rows (delete-Keys (is_heartbeat o id) a.heartbeats inv.keys))
      (rw (rows, next)
        (λ x j. inv.below x (In-select (λ z. not (is_heartbeat o id z)) x a.heartbeats j).0))
      (λ org n.
        ap (is_down_now org n) rows
        ∙ deleted org n h o id a.heartbeats inv.keys i t
        ∙ sym (outcome-removed org n o h (is_down_now org n a.heartbeats) (ground arith)))

-- A heartbeat deleted, with its ping log.
pub delete_heartbeat-Inv :
    (wall : Time) (db : Db) (org id : ℕ) (r : Db)
    → delete_heartbeat wall db org id ≡ some r
    → Inv db
    → Inv r
unfolding delete_heartbeat
delete_heartbeat-Inv wall db org id r e inv =
    elim (Option-cases (find (is_heartbeat org id) db.heartbeats)) [
      | inl f ↦ absurd (ground arith)
      | inr (h, f) ↦
          let b : Db = record db {
            heartbeats = delete_where (is_heartbeat org id) db.heartbeats;
            pings = delete_where (λ p. (p.org_id == org) && (p.heartbeat_id == id)) db.pings;
          } in
          let same : emit_event wall b (removed_event org h.name) ≡ r = ground arith in
          subst Inv same (removed-Inv wall db b org id h f refl refl refl inv)
    ]
