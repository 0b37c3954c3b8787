-- ===== src/Store/Pings/Transitions/Reach.antt =====
-- The heartbeats over time: pings, the watcher's marks, creations and deletions, and events of jobs
-- and deliveries, in any order.
use Prim.Native.String.{String}
use tend.Prelude.{ℕ, ◌≡◌, refl, false, some, []}
use tend.Clock.{Time}
use tend.Event.{Event}
use tend.Heartbeat.{Heartbeat}
use tend.Heartbeat.Ping.{PingInput, PingResult}
use tend.Store.Schema.{Db}
use tend.Store.Table.{In}
use tend.Store.Emit.{emit_event}
use tend.Store.Pings.{
  record_heartbeat_ping, mark_heartbeat_down, miss_event, create_heartbeat, delete_heartbeat,
}
use tend.Store.Pings.Keys.{SameName}
use tend.Store.Pings.Reported.{is_lifecycle, reported_down, is_down_now}
use tend.Store.Pings.Transitions.{
  Inv, settle-Inv, record_heartbeat_ping-Inv, mark_heartbeat_down-Inv,
}
use tend.Store.Pings.Transitions.Rows.{create_heartbeat-Inv, delete_heartbeat-Inv}

-- A mark may come any time after its heartbeat was read (`seen`), with other steps in between; its
-- id still names the heartbeat that it named then, since ids are not used twice and names do not
-- change.
pub data Step : Db → Db → Type 0 where
  pinged :
      (db : Db) (wall : Time) (token : String) (ping : PingInput) (now : Time) (r : Db × PingResult)
      → record_heartbeat_ping wall db token ping now ≡ some r
      → Step db r.0
  marked :
      (db : Db) (wall : Time) (seen : Heartbeat)
      → ((x : Heartbeat) → In x db.heartbeats → x.id ≡ seen.id → SameName x seen)
      → Step db (mark_heartbeat_down wall db seen (miss_event seen)).0
  created :
      (db r : Db) (wall : Time) (given : Heartbeat)
      → create_heartbeat wall db given ≡ some r
      → Step db r
  deleted :
      (db r : Db) (wall : Time) (org id : ℕ) → delete_heartbeat wall db org id ≡ some r → Step db r
  emitted :
      (db : Db) (wall : Time) (e : Event)
      → is_lifecycle e.event_type ≡ false
      → Step db (emit_event wall db e)

pub data Reach (a : Db) : Db → Type 0 where
  here : Reach a a
  then_step : {b c : Db} → Reach a b → Step b c → Reach a c

emitted-Inv :
    (wall : Time) (db : Db) (e : Event)
    → is_lifecycle e.event_type ≡ false
    → Inv db
    → Inv (emit_event wall db e)
emitted-Inv wall db e h inv =
    settle-Inv wall db db (some e) inv refl inv.keys inv.below (λ org n. rw h)

Step-Inv : {a b : Db} → Step a b → Inv a → Inv b
Step-Inv (pinged db wall token ping now r e) i =
    record_heartbeat_ping-Inv wall db token ping now r e i
Step-Inv (marked db wall seen same) i = mark_heartbeat_down-Inv wall db seen same i
Step-Inv (created db r wall given e) i = create_heartbeat-Inv wall db given r e i
Step-Inv (deleted db r wall org id e) i = delete_heartbeat-Inv wall db org id r e i
Step-Inv (emitted db wall e h) i = emitted-Inv wall db e h i

Reach-Inv : {a b : Db} → Inv a → Reach a b → Inv b
Reach-Inv i here = i
Reach-Inv i (then_step r s) = Step-Inv s (Reach-Inv i r)

empty-Inv : (db : Db) → db.heartbeats ≡ [] → db.events ≡ [] → Inv db
unfolding reported_down is_down_now
empty-Inv db h e = record {
  keys = rw h (record {
    ids = λ x y i j k. elim i [ ];
    names = λ x y i j k. elim i [ ];
    tokens = λ x y i j k. elim i [ ];
  });
  below = rw h (λ x i. elim i [ ]);
  agrees = λ org n. rw (h, e);
}

-- A heartbeat is down exactly when the last event of its lifecycle (missed, recovered, removed) is a
-- heartbeat.missed, for every org and name, whatever pings, watcher's marks (of heartbeats whose id
-- still names what it named when they were read), creations, deletions and events of other kinds
-- came before, from a store with no heartbeats and no events.
pub reported-iff_down :
    {a b : Db} (org : ℕ) (n : String)
    → a.heartbeats ≡ []
    → a.events ≡ []
    → Reach a b
    → reported_down org n b.events ≡ is_down_now org n b.heartbeats
reported-iff_down {a} org n h e r = (Reach-Inv (empty-Inv a h e) r).agrees org n
