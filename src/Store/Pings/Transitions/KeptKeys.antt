-- ===== src/Store/Pings/Transitions/KeptKeys.antt =====
-- The answer to a ping, and the keys of the heartbeats.
use Prim.Native.String.{String}
use tend.Prelude.{◌≡◌, ◌⊎◌, inl, inr, refl, Bool, not, some, List, arith, Option-cases}
use tend.Clock.{Time}
use tend.Heartbeat.{Heartbeat, is_down}
use tend.Heartbeat.Ping.{PingKind, success, start, failure, log, PingInput}
use tend.Store.Table.{update_where}
use tend.Store.PingState.{
  owns, Updated, update, succeed, fail, begin, Answer, answer, answer_by_kind,
}
use tend.Store.Pings.Keys.{KeepsKeys}
use tend.Store.Pings.Transitions.Updates.{update-cases, guarded}

-- An answer updates rows without their keys, or leaves them.
abbrev pub Keyed : List Heartbeat → List Heartbeat → Type 0
Keyed rows rows' =
    (rows' ≡ rows)
    ⊎ ((p : Heartbeat → Bool) × (f : Heartbeat → Heartbeat) × KeepsKeys f
        × (rows' ≡ update_where p f rows))

update-Keyed :
    (set : Heartbeat → Heartbeat) (guard : Heartbeat → Bool) (token : String)
    (rows : List Heartbeat) (u : Updated)
    → KeepsKeys set
    → update set guard token rows ≡ some u
    → Keyed rows u.rows
update-Keyed set guard token rows u k e = elim (update-cases set guard token rows u e) [
  | inl (h, s, row, us, t) ↦ inr (guarded guard token, set, k, us)
  | inr (s, us, t) ↦ inr (owns token, set, k, us)
]

pub succeed-keeps : (now : Time) (rid : String) → KeepsKeys (succeed now rid)
succeed-keeps now rid = record {
  id = λ h. refl;
  org_id = λ h. refl;
  name = λ h. refl;
  token = λ h. refl;
}

pub fail-keeps : (now : Time) → KeepsKeys (fail now)
fail-keeps now = record { id = λ h. refl; org_id = λ h. refl; name = λ h. refl; token = λ h. refl }

pub begin-keeps : (now : Time) (rid : String) → KeepsKeys (begin now rid)
begin-keeps now rid = record {
  id = λ h. refl;
  org_id = λ h. refl;
  name = λ h. refl;
  token = λ h. refl;
}

kind-Keyed :
    (k : PingKind) (token : String) (ping : PingInput) (now : Time) (rows : List Heartbeat)
    (a : Answer)
    → answer_by_kind k token ping now rows ≡ some a
    → Keyed rows a.rows
unfolding answer_by_kind
kind-Keyed log token ping now rows a e = inl (ground arith)
kind-Keyed start token ping now rows a e =
    inr (owns token, begin now ping.rid, begin-keeps now ping.rid, ground arith)
kind-Keyed success token ping now rows a e =
    elim (Option-cases (update (succeed now ping.rid) (λ h. is_down h.status) token rows)) [
      | inl f ↦ absurd (ground arith)
      | inr (u, f) ↦
          let same : a.rows ≡ u.rows = ground arith in
          rw same (
            update-Keyed (succeed now ping.rid) (λ h. is_down h.status) token rows u
              (succeed-keeps now ping.rid) f)
    ]
kind-Keyed failure token ping now rows a e =
    elim (Option-cases (update (fail now) (λ h. not (is_down h.status)) token rows)) [
      | inl f ↦ absurd (ground arith)
      | inr (u, f) ↦
          let same : a.rows ≡ u.rows = ground arith in
          rw same
            (update-Keyed (fail now) (λ h. not (is_down h.status)) token rows u (fail-keeps now) f)
    ]

pub answer-Keyed :
    (token : String) (ping : PingInput) (now : Time) (rows : List Heartbeat) (a : Answer)
    → answer token ping now rows ≡ some a
    → Keyed rows a.rows
unfolding answer
answer-Keyed token ping now rows a e = kind-Keyed ping.kind token ping now rows a e
