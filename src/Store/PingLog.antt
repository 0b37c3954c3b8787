-- ===== src/Store/PingLog.antt =====
-- internal/store/pings.go: the ping log of the heartbeats, its newest entry last: the duration of
-- the run that a ping completes (runDuration), and the two statements of recordHeartbeatPing that
-- hold the log to its size.
pub mod Bounds
use Prim.Native.String.{String}
use text.Mathlib.Text.{◌==◌ as str_eq}
use tend.Prelude.{
  ℕ, zero, suc, ◌+◌, ◌-◌, ◌/◌, ◌*◌, max, Option, none, some, Bool, true, false, not, ◌&&◌, ◌||◌,
  List, [], ◌∷◌, ◌++◌, ◌==◌, leb, ltb, if◌then◌else◌, find, select, length,
}
use tend.Clock.{Time, before, millisecond}
use tend.Heartbeat.Ping.{PingKind, success, start, failure, log, PingInput, Ping, max_run_duration}
use tend.Store.Table.{delete_where}

-- runDuration, over the ping log with its newest entry last.
abbrev is_completion : PingKind → Bool
is_completion success = true
is_completion failure = true
is_completion _ = false

abbrev is_start : PingKind → Bool
is_start start = true
is_start _ = false

abbrev pub is_log : PingKind → Bool
is_log log = true
is_log _ = false

abbrev pairs_with : ℕ → String → Time → Ping → Bool
pairs_with heartbeat rid from p =
    (p.heartbeat_id == heartbeat)
    && str_eq p.rid rid
    && not (is_log p.kind)
    && leb from p.created_at

unfoldable pub last_ping : (Ping → Bool) → List Ping → Option Ping
last_ping p [] = none
last_ping p (x ∷ xs) = elim (last_ping p xs) [
  | none ↦ if p x then some x else none
  | some y ↦ some y
]

unfoldable pub run_duration : List Ping → ℕ → PingInput → Time → Option ℕ
unfolding last_ping
run_duration pings heartbeat ping now =
    if not (is_completion ping.kind)
    then none
    else elim (last_ping (pairs_with heartbeat ping.rid (now - max_run_duration)) pings) [
      | none ↦ none
      | some p ↦
          if not (is_start p.kind) || before now p.created_at
          then none
          else some ((now - p.created_at) / millisecond)
    ]

abbrev pub max_pings_per_heartbeat : ℕ
max_pings_per_heartbeat = 1000

abbrev pub max_ping_log_bytes : ℕ
max_ping_log_bytes = 10000000

abbrev pub is_of : ℕ → Ping → Bool
is_of heartbeat p = p.heartbeat_id == heartbeat

-- SELECT id ... ORDER BY id DESC LIMIT 1 OFFSET n: the entry with n newer ones.
unfoldable pub id_at_offset : ℕ → List Ping → Option ℕ
id_at_offset n [] = none
id_at_offset n (x ∷ xs) = if length xs == n then some x.id else id_at_offset n xs

unfoldable pub bytes : List Ping → ℕ
bytes [] = 0
bytes (x ∷ xs) = length x.body + bytes xs

-- SELECT MAX(id) ... WHERE SUM(body_bytes) OVER (ORDER BY id DESC) > n.
abbrev greatest : ℕ → Option ℕ → Option ℕ
greatest i none = some i
greatest i (some j) = some (max i j)

unfoldable pub id_over_budget : ℕ → List Ping → Option ℕ
unfolding bytes
id_over_budget n [] = none
id_over_budget n (x ∷ xs) =
    let rest = id_over_budget n xs in if ltb n (bytes (x ∷ xs)) then greatest x.id rest else rest

abbrev pub up_to : Option ℕ → Ping → Bool
up_to none p = false
up_to (some i) p = leb p.id i

-- DELETE ... WHERE heartbeat_id = h AND id <= ...
unfoldable pub trim_count : ℕ → ℕ → List Ping → List Ping
unfolding id_at_offset
trim_count heartbeat n rows =
    let cut = id_at_offset n (select (is_of heartbeat) rows) in
    delete_where (λ p. is_of heartbeat p && up_to cut p) rows

unfoldable pub trim_bytes : ℕ → ℕ → List Ping → List Ping
unfolding id_over_budget
trim_bytes heartbeat n rows =
    let cut = id_over_budget n (select (is_of heartbeat) rows) in
    delete_where (λ p. is_of heartbeat p && up_to cut p) rows

-- The log with a new entry, held to its size.
unfoldable pub log_ping : Ping → List Ping → List Ping
unfolding trim_count trim_bytes
log_ping p rows =
    trim_bytes p.heartbeat_id max_ping_log_bytes
      (trim_count p.heartbeat_id max_pings_per_heartbeat (rows ++ p ∷ []))
