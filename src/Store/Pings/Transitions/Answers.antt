-- ===== src/Store/Pings/Transitions/Answers.antt =====
-- What the switch of recordHeartbeatPing does to the status of each heartbeat, against the event
-- that it gives.
use Prim.Native.String.{String}
use tend.Prelude.{
  ℕ, ◌≡◌, inl, inr, refl, Bool, true, false, not, none, some, List, arith, if◌then◌else◌,
  Bool-cases, Option-cases,
}
use tend.Clock.{Time}
use tend.Heartbeat.{
  Heartbeat, is_down, recovered_event, failed_event, overdue_event, overran_event, deadline,
}
use tend.Heartbeat.Ping.{PingKind, success, start, failure, log, PingInput}
use tend.Store.Table.{update_where, find-In}
use tend.Store.PingState.{owns, update, succeed, fail, begin, Answer, answer, answer_by_kind}
use tend.Store.Pings.{is_named, miss_event}
use tend.Store.Pings.Keys.{Keys}
use tend.Store.Pings.Reported.{is_down_now}
use tend.Store.Pings.Transitions.Updates.{
  outcome, owned-same, succeed-quiet, fail-quiet, succeed-fired, fail-fired, quiet, update-cases,
  guarded,
}

outcome-recovered :
    (org : ℕ) (n : String) (h : Heartbeat) (b : Bool)
    → outcome org n (some (recovered_event h.org_id h.id h.name)) b
      ≡ (if is_named org n h then false else b)
unfolding recovered_event
outcome-recovered org n h b = refl

outcome-failed :
    (org : ℕ) (n : String) (h : Heartbeat) (ping : PingInput) (b : Bool)
    → outcome org n (some (failed_event h.org_id h.id h.name ping.exit_status ping.body)) b
      ≡ (if is_named org n h then true else b)
unfolding failed_event
outcome-failed org n h ping b = refl

pub outcome-missed :
    (org : ℕ) (n : String) (h : Heartbeat) (b : Bool)
    → outcome org n (some (miss_event h)) b ≡ (if is_named org n h then true else b)
unfolding miss_event overdue_event overran_event
outcome-missed org n h b = elim (Bool-cases (deadline h).overran) [ inl y ↦ rw y | inr z ↦ rw z ]

success-outcome :
    (org : ℕ) (n token : String) (ping : PingInput) (now : Time) (rows : List Heartbeat)
    (a : Answer)
    → Keys rows
    → answer_by_kind success token ping now rows ≡ some a
    → is_down_now org n a.rows ≡ outcome org n a.event (is_down_now org n rows)
unfolding answer_by_kind
success-outcome org n token ping now rows a keys e =
    let set = succeed now ping.rid in
    let guard = λ (h : Heartbeat). is_down h.status in
    elim (Option-cases (update set guard token rows)) [
      | inl f ↦ absurd (ground arith)
      | inr (u, f) ↦ elim (update-cases set guard token rows u f) [
        | inl (h, s, row, us, t) ↦
            let i = find-In (guarded guard token) h rows s in
            let event : a.event ≡ some (recovered_event h.org_id h.id h.name) = ground arith in
            let rows' : a.rows ≡ update_where (guarded guard token) set rows = ground arith in
            rw (event, rows', outcome-recovered org n h (is_down_now org n rows))
              (succeed-fired org n now ping.rid (guarded guard token) h rows keys i.0 i.1
                (owned-same guard token h rows keys i.0 i.1))
        | inr (s, us, t) ↦
            let event : a.event ≡ none = ground arith in
            let rows' : a.rows ≡ update_where (owns token) set rows = ground arith in
            rw (event, rows') (succeed-quiet org n token now ping.rid rows s)
      ]
    ]

failure-outcome :
    (org : ℕ) (n token : String) (ping : PingInput) (now : Time) (rows : List Heartbeat)
    (a : Answer)
    → Keys rows
    → answer_by_kind failure token ping now rows ≡ some a
    → is_down_now org n a.rows ≡ outcome org n a.event (is_down_now org n rows)
unfolding answer_by_kind
failure-outcome org n token ping now rows a keys e =
    let set = fail now in
    let guard = λ (h : Heartbeat). not (is_down h.status) in
    elim (Option-cases (update set guard token rows)) [
      | inl f ↦ absurd (ground arith)
      | inr (u, f) ↦ elim (update-cases set guard token rows u f) [
        | inl (h, s, row, us, t) ↦
            let i = find-In (guarded guard token) h rows s in
            let event : a.event
                ≡ some (failed_event h.org_id h.id h.name ping.exit_status ping.body) =
              ground arith in
            let rows' : a.rows ≡ update_where (guarded guard token) set rows = ground arith in
            rw (event, rows', outcome-failed org n h ping (is_down_now org n rows))
              (fail-fired org n now (guarded guard token) h rows i.0 i.1
                (owned-same guard token h rows keys i.0 i.1))
        | inr (s, us, t) ↦
            let event : a.event ≡ none = ground arith in
            let rows' : a.rows ≡ update_where (owns token) set rows = ground arith in
            rw (event, rows') (fail-quiet org n token now rows s)
      ]
    ]

start-outcome :
    (org : ℕ) (n token : String) (ping : PingInput) (now : Time) (rows : List Heartbeat)
    (a : Answer)
    → answer_by_kind start token ping now rows ≡ some a
    → is_down_now org n a.rows ≡ outcome org n a.event (is_down_now org n rows)
unfolding answer_by_kind
start-outcome org n token ping now rows a e =
    let event : a.event ≡ none = ground arith in
    let rows' : a.rows ≡ update_where (owns token) (begin now ping.rid) rows = ground arith in
    rw (event, rows') (quiet org n (owns token) (begin now ping.rid) rows (λ x i k. refl))

log-outcome :
    (org : ℕ) (n token : String) (ping : PingInput) (now : Time) (rows : List Heartbeat)
    (a : Answer)
    → answer_by_kind log token ping now rows ≡ some a
    → is_down_now org n a.rows ≡ outcome org n a.event (is_down_now org n rows)
unfolding answer_by_kind
log-outcome org n token ping now rows a e = ground arith

by_kind :
    (k : PingKind) (org : ℕ) (n token : String) (ping : PingInput) (now : Time)
    (rows : List Heartbeat) (a : Answer)
    → Keys rows
    → answer_by_kind k token ping now rows ≡ some a
    → is_down_now org n a.rows ≡ outcome org n a.event (is_down_now org n rows)
by_kind log org n token ping now rows a keys e = log-outcome org n token ping now rows a e
by_kind start org n token ping now rows a keys e = start-outcome org n token ping now rows a e
by_kind success org n token ping now rows a keys e =
    success-outcome org n token ping now rows a keys e
by_kind failure org n token ping now rows a keys e =
    failure-outcome org n token ping now rows a keys e

-- Of every heartbeat, the answer to a ping leaves it down or not as the event of the answer says.
pub answer-outcome :
    (org : ℕ) (n token : String) (ping : PingInput) (now : Time) (rows : List Heartbeat)
    (a : Answer)
    → Keys rows
    → answer token ping now rows ≡ some a
    → is_down_now org n a.rows ≡ outcome org n a.event (is_down_now org n rows)
unfolding answer
answer-outcome org n token ping now rows a keys e =
    by_kind ping.kind org n token ping now rows a keys e
