-- ===== src/Store/Pings/Transitions.antt =====
-- The invariant between the status of the heartbeats and the events of their lifecycle.
pub mod Updates
pub mod Answers
pub mod KeptKeys
pub mod Rows
pub mod Reach
use Prim.Native.String.{String}
use text.Mathlib.Text.{◌==◌ as str_eq}
use text.Mathlib.TextEquality.{eq_iff}
use tend.Prelude.{
  ℕ, suc, ◌<◌, ◌≤◌, ◌≡◌, ◌≢◌, ◌⊎◌, inl, inr, refl, ap, sym, ◌∙◌, subst, Bool, true, false, not,
  ◌&&◌, ◌||◌, Option, none, some, List, [], ◌∷◌, ◌++◌, arith, if◌then◌else◌, any, find, Bool-cases,
  Option-cases, ◌==◌,
}
use tend.Clock.{Time, zero_time}
use tend.Event.{Event, heartbeat_missed}
use tend.Heartbeat.{
  Heartbeat, Status, new, up, down, is_down, overdue_event, overran_event, removed_event,
}
use tend.Heartbeat.Ping.{PingInput, PingResult}
use tend.Store.Schema.{Db}
use tend.Store.Table.{
  update_where, delete_where, In, In-append, In-update_where, In-select, find-In,
}
use tend.Store.Emit.{emit_event, as_recorded}
use tend.Store.Emit.Laws.{Recorded, emit_event-Recorded, as_recorded-same}
use tend.Store.PingState.{Answer, answer}
use tend.Store.Pings.{
  emit_if, write_answer, record_heartbeat_ping, mark_heartbeat_down, unchanged, put_down,
  miss_event, is_named, create_heartbeat, inserted, reschedule, delete_heartbeat, is_heartbeat,
}
use tend.Store.Pings.Keys.{Keys, KeepsKeys, SameName, update-Keys, delete-Keys, append-Keys}
use tend.Store.Pings.Reported.{
  concerns, is_missed, is_lifecycle, names, reported_down, reported_down-append, is_down_now,
  down_named, any-update_same, any-update_none, any-update_some, any-delete_same, any-delete_none,
  any-append_one, any-false, any-true, is_named-same,
}
use Updates.{outcome}
use Answers.{outcome-missed, answer-outcome}
use KeptKeys.{Keyed, answer-Keyed}

-- The rows of the heartbeats have their keys, and ids below the next one; and of every name, a
-- heartbeat is down exactly if the last of its lifecycle events is a heartbeat.missed.
pub record Inv (db : Db) : Type 0 where
  pub keys : Keys db.heartbeats
  pub below : (x : Heartbeat) → In x db.heartbeats → x.id < db.next_heartbeat_id
  pub agrees :
      (org : ℕ) (n : String) → reported_down org n db.events ≡ is_down_now org n db.heartbeats

pub reported-emit :
    (org : ℕ) (n : String) (wall : Time) (db : Db) (e : Event)
    → reported_down org n (emit_event wall db e).events
      ≡ (if concerns org n e then is_missed e.event_type else reported_down org n db.events)
reported-emit org n wall db e =
    let r = as_recorded wall db e in
    let s = as_recorded-same wall db e in
    rw ((emit_event-Recorded wall db e).events, reported_down-append org n db.events r)
      (rw (s.0, s.1, s.2))

reported-emit_if :
    (org : ℕ) (n : String) (wall : Time) (db : Db) (e : Option Event)
    → reported_down org n (emit_if wall e db).events
      ≡ outcome org n e (reported_down org n db.events)
reported-emit_if org n wall db none = refl
reported-emit_if org n wall db (some e) = reported-emit org n wall db e

pub emit_if-heartbeats :
    (wall : Time) (db : Db) (e : Option Event)
    → ((emit_if wall e db).heartbeats ≡ db.heartbeats)
      × ((emit_if wall e db).next_heartbeat_id ≡ db.next_heartbeat_id)
emit_if-heartbeats wall db none = (refl, refl)
emit_if-heartbeats wall db (some e) =
    let r = emit_event-Recorded wall db e in (r.heartbeats, r.next_heartbeat_id)

Keyed-Keys : (rows rows' : List Heartbeat) → Keyed rows rows' → Keys rows → Keys rows'
Keyed-Keys rows rows' (inl e) k = rw e k
Keyed-Keys rows rows' (inr (p, f, keep, e)) k = rw e (update-Keys p f rows keep k)

Keyed-below :
    (m : ℕ) (rows rows' : List Heartbeat)
    → Keyed rows rows'
    → ((x : Heartbeat) → In x rows → x.id < m)
    → (x : Heartbeat) → In x rows'
    → x.id < m
Keyed-below m rows rows' (inl e) b x i = b x (subst (In x) e i)
Keyed-below m rows rows' (inr (p, f, keep, e)) b x i =
    let (y, j, d) = In-update_where p f x rows (subst (In x) e i) in
    ground (arith, b y j, keep.id y)

-- A change of the rows, with an event or none that says what it does.
pub settle-Inv :
    (wall : Time) (a b : Db) (e : Option Event)
    → Inv a
    → b.events ≡ a.events
    → Keys b.heartbeats
    → ((x : Heartbeat) → In x b.heartbeats → x.id < b.next_heartbeat_id)
    → ((org : ℕ) (n : String)
        → is_down_now org n b.heartbeats ≡ outcome org n e (is_down_now org n a.heartbeats))
    → Inv (emit_if wall e b)
settle-Inv wall a b e inv ev keys below out =
    let f = emit_if-heartbeats wall b e in
    record {
      keys = rw f.0 keys;
      below = rw (f.0, f.1) below;
      agrees = λ org n.
          reported-emit_if org n wall b e
          ∙ ap (λ es. outcome org n e (reported_down org n es)) ev
          ∙ ap (outcome org n e) (inv.agrees org n)
          ∙ sym (out org n)
          ∙ ap (is_down_now org n) (sym f.0);
    }

-- One that keeps the keys of the rows.
pub change-Inv :
    (wall : Time) (a b : Db) (e : Option Event)
    → Inv a
    → b.events ≡ a.events
    → b.next_heartbeat_id ≡ a.next_heartbeat_id
    → Keyed a.heartbeats b.heartbeats
    → ((org : ℕ) (n : String)
        → is_down_now org n b.heartbeats ≡ outcome org n e (is_down_now org n a.heartbeats))
    → Inv (emit_if wall e b)
change-Inv wall a b e inv ev next keyed out =
    settle-Inv wall a b e inv ev (Keyed-Keys a.heartbeats b.heartbeats keyed inv.keys)
      (rw next (Keyed-below a.next_heartbeat_id a.heartbeats b.heartbeats keyed inv.below)) out

write_answer-Inv :
    (wall : Time) (ping : PingInput) (now : Time) (db : Db) (token : String) (a : Answer)
    → answer token ping now db.heartbeats ≡ some a
    → Inv db
    → Inv (write_answer wall ping now db a)
unfolding write_answer
write_answer-Inv wall ping now db token a e inv =
    change-Inv wall db _ a.event inv refl refl (answer-Keyed token ping now db.heartbeats a e)
      (λ org n. answer-outcome org n token ping now db.heartbeats a inv.keys e)

-- A ping of any kind.
pub record_heartbeat_ping-Inv :
    (wall : Time) (db : Db) (token : String) (ping : PingInput) (now : Time) (r : Db × PingResult)
    → record_heartbeat_ping wall db token ping now ≡ some r
    → Inv db
    → Inv r.0
unfolding record_heartbeat_ping
record_heartbeat_ping-Inv wall db token ping now r e inv =
    elim (Option-cases (answer token ping now db.heartbeats)) [
      | inl f ↦ absurd (ground arith)
      | inr (a, f) ↦
          let same : write_answer wall ping now db a ≡ r.0 = ground arith in
          subst Inv same (write_answer-Inv wall ping now db token a f inv)
    ]

put_down-keeps : KeepsKeys put_down
put_down-keeps = record { id = λ h. refl; org_id = λ h. refl; name = λ h. refl; token = λ h. refl }

-- A row that is still as it was read is marked down.
marked :
    (org : ℕ) (n : String) (seen : Heartbeat) (rows : List Heartbeat)
    → any (unchanged seen) rows ≡ true
    → ((x : Heartbeat) → In x rows → x.id ≡ seen.id → SameName x seen)
    → is_down_now org n (update_where (unchanged seen) put_down rows)
      ≡ (if is_named org n seen then true else is_down_now org n rows)
unfolding is_down_now
marked org n seen rows found same =
    let (h, i, t) = any-true (unchanged seen) rows found in
    elim (Bool-cases (is_named org n seen)) [
      | inl y ↦ rw y (
          any-update_some (down_named org n) (unchanged seen) put_down h rows i t
            (let k = same h i (ground arith) in ground arith))
      | inr z ↦ rw z (
          any-update_same (down_named org n) (unchanged seen) put_down rows
            (λ x j u. let k = same x j (ground arith) in ground arith))
    ]

-- The watcher's mark, with the event that it records, of a heartbeat that kept its name since it
-- was read.
pub mark_heartbeat_down-Inv :
    (wall : Time) (db : Db) (seen : Heartbeat)
    → ((x : Heartbeat) → In x db.heartbeats → x.id ≡ seen.id → SameName x seen)
    → Inv db
    → Inv (mark_heartbeat_down wall db seen (miss_event seen)).0
unfolding mark_heartbeat_down
mark_heartbeat_down-Inv wall db seen same inv =
    elim (Bool-cases (any (unchanged seen) db.heartbeats)) [
      | inl y ↦ rw y (
          change-Inv wall db _ (some (miss_event seen)) inv refl refl
            (inr (unchanged seen, put_down, put_down-keeps, refl))
            (λ org n.
              marked org n seen db.heartbeats y same
              ∙ sym (outcome-missed org n seen (is_down_now org n db.heartbeats))))
      | inr z ↦ rw z inv
    ]
