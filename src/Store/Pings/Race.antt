-- ===== src/Store/Pings/Race.antt =====
-- The watcher against a ping: a heartbeat that was read before a ping and is marked after it.
use text.Mathlib.TextEquality.{eq_iff}
use tend.Prelude.{
  ◌≡◌, ◌≢◌, inl, inr, refl, sym, subst, ap, ◌∙◌, Bool, true, false, not, some, List, arith,
  Bool-cases, Option-cases, any, if◌then◌else◌,
}
use tend.Clock.{Time}
use tend.Event.{Event}
use tend.Heartbeat.{Heartbeat, is_down}
use tend.Heartbeat.Ping.{PingKind, success, start, failure, log, PingInput, PingResult}
use tend.Store.Schema.{Db}
use tend.Store.Table.{update_where, In, find-In}
use tend.Store.PingState.{
  owns, Updated, update, succeed, fail, begin, Answer, answer, answer_by_kind,
}
use tend.Store.PingLog.{is_log}
use tend.Store.Pings.{unchanged, mark_heartbeat_down, record_heartbeat_ping, write_answer}
use tend.Store.Pings.Keys.{Keys, KeepsKeys}
use tend.Store.Pings.Reported.{any-update_none}
use tend.Store.Pings.Transitions.{emit_if-heartbeats}
use tend.Store.Pings.Transitions.Updates.{update-cases, guarded, owns-same}
use tend.Store.Pings.Transitions.KeptKeys.{succeed-keeps, fail-keeps, begin-keeps}

owns-own : (h : Heartbeat) → owns h.token h ≡ true
owns-own h = ground (arith, eq_iff h.token h.token)

-- An update that writes the row of `h` leaves none that is as `h` was.
updated-changed :
    (p : Heartbeat → Bool) (set : Heartbeat → Heartbeat) (h : Heartbeat) (rows : List Heartbeat)
    → Keys rows
    → KeepsKeys set
    → In h rows
    → p h ≡ true
    → unchanged h (set h) ≡ false
    → any (unchanged h) (update_where p set rows) ≡ false
updated-changed p set h rows keys keep i t c = any-update_none (unchanged h) p set rows (λ x j.
    elim (Bool-cases (unchanged h (if p x then set x else x))) [
      | inr n ↦ n
      | inl y ↦
          let id : x.id ≡ h.id = (let k = keep.id x in ground arith) in
          let same : x ≡ h = keys.ids x h j i id in
          let there : unchanged h (if p h then set h else h) ≡ true =
            subst (λ z. unchanged h (if p z then set z else z) ≡ true) same y in
          absurd (ground arith)
    ])

-- The same of the guarded update or the one without the guard.
update-changed :
    (set : Heartbeat → Heartbeat) (guard : Heartbeat → Bool) (h : Heartbeat) (rows : List Heartbeat)
    (u : Updated)
    → Keys rows
    → KeepsKeys set
    → In h rows
    → unchanged h (set h) ≡ false
    → update set guard h.token rows ≡ some u
    → any (unchanged h) u.rows ≡ false
update-changed set guard h rows u keys keep i c e = elim (update-cases set guard h.token rows u e) [
  | inl (y, f, row, us, t) ↦
      let (j, g) = find-In (guarded guard h.token) y rows f in
      let same : y ≡ h = keys.tokens y h j i (owns-same h.token y h (ground arith) (owns-own h)) in
      let g' = subst (λ z. guarded guard h.token z ≡ true) same g in
      rw us (updated-changed (guarded guard h.token) set h rows keys keep i g' c)
  | inr (f, us, t) ↦ rw us (updated-changed (owns h.token) set h rows keys keep i (owns-own h) c)
]

kind-changed :
    (k : PingKind) (h : Heartbeat) (ping : PingInput) (now : Time) (rows : List Heartbeat)
    (a : Answer)
    → Keys rows
    → In h rows
    → is_log k ≡ false
    → h.last_seen_at ≢ now
    → h.started_at ≢ now
    → answer_by_kind k h.token ping now rows ≡ some a
    → any (unchanged h) a.rows ≡ false
unfolding answer_by_kind
kind-changed log h ping now rows a keys i l s b e = absurd (ground arith)
kind-changed start h ping now rows a keys i l s b e =
    let same : a.rows ≡ update_where (owns h.token) (begin now ping.rid) rows = ground arith in
    rw same (
      updated-changed (owns h.token) (begin now ping.rid) h rows keys (begin-keeps now ping.rid) i
        (owns-own h) (ground arith))
kind-changed success h ping now rows a keys i l s b e =
    elim (Option-cases (update (succeed now ping.rid) (λ x. is_down x.status) h.token rows)) [
      | inl f ↦ absurd (ground arith)
      | inr (u, f) ↦
          let same : a.rows ≡ u.rows = ground arith in
          rw same (
            update-changed (succeed now ping.rid) (λ x. is_down x.status) h rows u keys
              (succeed-keeps now ping.rid) i (ground arith) f)
    ]
kind-changed failure h ping now rows a keys i l s b e =
    elim (Option-cases (update (fail now) (λ x. not (is_down x.status)) h.token rows)) [
      | inl f ↦ absurd (ground arith)
      | inr (u, f) ↦
          let same : a.rows ≡ u.rows = ground arith in
          rw same (
            update-changed (fail now) (λ x. not (is_down x.status)) h rows u keys (fail-keeps now) i
              (ground arith) f)
    ]

-- A heartbeat that was read before a ping of it other than a log entry, at a time that is neither
-- that of its last ping nor that of its start, is not marked down after that ping: the mark changes
-- nothing and says so, whatever its event. The rows have keys of their own.
pub mark_heartbeat_down-race :
    (wall wall' : Time) (db : Db) (h : Heartbeat) (ping : PingInput) (now : Time)
    (r : Db × PingResult) (e : Event)
    → Keys db.heartbeats
    → In h db.heartbeats
    → is_log ping.kind ≡ false
    → h.last_seen_at ≢ now
    → h.started_at ≢ now
    → record_heartbeat_ping wall db h.token ping now ≡ some r
    → mark_heartbeat_down wall' r.0 h e ≡ (r.0, false)
unfolding record_heartbeat_ping mark_heartbeat_down answer write_answer
mark_heartbeat_down-race wall wall' db h ping now r e keys i l s b eq =
    elim (Option-cases (answer h.token ping now db.heartbeats)) [
      | inl f ↦ absurd (ground arith)
      | inr (a, f) ↦
          let same : write_answer wall ping now db a ≡ r.0 = ground arith in
          let rows : r.0.heartbeats ≡ a.rows =
            ap (λ (d : Db). d.heartbeats) (sym same) ∙ (emit_if-heartbeats wall _ a.event).0 in
          let none = kind-changed ping.kind h ping now db.heartbeats a keys i l s b f in
          let none' = subst (λ hs. any (unchanged h) hs ≡ false) (sym rows) none in rw none' refl
    ]
