-- ===== src/Store/PingLog/Bounds.antt =====
-- The size of the ping log: the number of a heartbeat's entries, and their bytes.
use tend.Prelude.{
  ℕ, ◌<◌, ◌≤◌, ◌≡◌, ◌≢◌, ◌⊎◌, inl, inr, refl, sym, ◌∙◌, subst, max, Bool, not, ◌&&◌, Option, none,
  some, List, [], ◌∷◌, ◌++◌, arith, ◌==◌, leb, ltb, select, length, length-select, All, Bool-cases,
  Option-cases,
}
use tend.Heartbeat.Ping.{Ping}
use tend.Store.Table.{delete_where}
use tend.Store.PingLog.{
  is_of, id_at_offset, bytes, id_over_budget, up_to, trim_count, trim_bytes, log_ping,
  max_pings_per_heartbeat, max_ping_log_bytes,
}

-- The entries of a heartbeat in a log.
abbrev pub entries : ℕ → List Ping → List Ping
entries h rows = select (is_of h) rows

-- Entries in the order of their ids.
abbrev pub Ascending : List Ping → Type 0
Ascending [] = Unit
Ascending (x ∷ xs) = All (λ (y : Ping). x.id < y.id) xs × Ascending xs

-- What is left of a heartbeat's entries.
entries-delete :
    (h : ℕ) (c : Ping → Bool) (rows : List Ping)
    → entries h (delete_where (λ p. is_of h p && c p) rows) ≡ delete_where c (entries h rows)
entries-delete h c [] = refl
entries-delete h c (x ∷ xs) = ground (arith, entries-delete h c xs)

entries-other :
    (h k : ℕ) (c : Ping → Bool) (rows : List Ping)
    → k ≢ h
    → entries k (delete_where (λ p. is_of h p && c p) rows) ≡ entries k rows
entries-other h k c [] n = refl
entries-other h k c (x ∷ xs) n = ground (arith, entries-other h k c xs n)

-- The id at an offset is one of the log's, or the log is not that long.
offset-above :
    (i n : ℕ) (xs : List Ping)
    → All (λ (y : Ping). i < y.id) xs
    → ((id_at_offset n xs ≡ none) × (length xs ≤ n))
      ⊎ ((j : ℕ) × (id_at_offset n xs ≡ some j) × (i < j))
unfolding id_at_offset
offset-above i n [] a = inl (refl, omega arith)
offset-above i n (x ∷ xs) a = elim (Bool-cases (length xs == n)) [
  | inl y ↦ inr (x.id, ground arith, a.0)
  | inr z ↦ elim (offset-above i n xs a.1) [
    | inl (e, l) ↦ inl (ground arith, ground arith)
    | inr (j, e, lt) ↦ inr (j, ground arith, lt)
  ]
]

recut :
    (size : List Ping → ℕ) (n : ℕ) (rows : List Ping) {c c' : Option ℕ}
    → c ≡ c'
    → size (delete_where (up_to c) rows) ≤ n
    → size (delete_where (up_to c') rows) ≤ n
recut size n rows e h = subst (λ c. size (delete_where (up_to c) rows) ≤ n) e h

count_bound :
    (n : ℕ) (xs : List Ping)
    → Ascending xs
    → length (delete_where (up_to (id_at_offset n xs)) xs) ≤ n
unfolding id_at_offset
count_bound n [] a = omega arith
count_bound n (x ∷ xs) a = elim (Bool-cases (length xs == n)) [
  | inl y ↦ let l = length-select (λ p. not (leb p.id x.id)) xs in ground arith
  | inr z ↦
      let same : id_at_offset n (x ∷ xs) ≡ id_at_offset n xs = ground arith in
      elim (offset-above x.id n xs a.0) [
        | inl (e, l) ↦
            let k = length-select (λ p. not (up_to none p)) (x ∷ xs) in
            recut length n (x ∷ xs) (sym (same ∙ e)) (ground arith)
        | inr (j, e, lt) ↦
            let k : length (delete_where (up_to (some j)) xs) ≤ n =
              recut length n xs e (count_bound n xs a.1) in
            recut length n (x ∷ xs) (sym (same ∙ e)) (ground arith)
      ]
]

bytes-select : (p : Ping → Bool) (xs : List Ping) → bytes (select p xs) ≤ bytes xs
unfolding bytes
bytes-select p [] = omega arith
bytes-select p (x ∷ xs) = ground (arith, bytes-select p xs)

-- What a later cut leaves, an earlier one leaves as well.
bytes-greater :
    (i j : ℕ) (xs : List Ping)
    → bytes (delete_where (up_to (some (max i j))) xs) ≤ bytes (delete_where (up_to (some j)) xs)
unfolding bytes
bytes-greater i j [] = omega arith
bytes-greater i j (x ∷ xs) = ground (arith, bytes-greater i j xs)

within_budget : (n : ℕ) (xs : List Ping) → id_over_budget n xs ≡ none → bytes xs ≤ n
unfolding id_over_budget bytes
within_budget n [] e = omega arith
within_budget n (x ∷ xs) e = elim (Option-cases (id_over_budget n xs)) [
  | inl f ↦ ground arith
  | inr (j, f) ↦ absurd (ground arith)
]

bytes_bound : (n : ℕ) (xs : List Ping) → bytes (delete_where (up_to (id_over_budget n xs)) xs) ≤ n
unfolding id_over_budget
bytes_bound n [] = omega arith
bytes_bound n (x ∷ xs) =
    let all = λ (c : Option ℕ). bytes-select (λ p. not (up_to c p)) (x ∷ xs) in
    elim (Bool-cases (ltb n (bytes (x ∷ xs)))) [
      | inl y ↦ elim (Option-cases (id_over_budget n xs)) [
        | inl f ↦
            let rest = within_budget n xs f in
            let less = bytes-select (λ p. not (up_to (some x.id) p)) xs in
            let same : some x.id ≡ id_over_budget n (x ∷ xs) = ground arith in
            recut bytes n (x ∷ xs) same (ground arith)
        | inr (j, f) ↦
            let rest = recut bytes n xs f (bytes_bound n xs) in
            let less = bytes-greater x.id j xs in
            let same : some (max x.id j) ≡ id_over_budget n (x ∷ xs) = ground arith in
            recut bytes n (x ∷ xs) same (ground arith)
      ]
      | inr z ↦ let less = all (id_over_budget n (x ∷ xs)) in ground arith
    ]

-- After a ping was logged its heartbeat has at most 1000 entries, of at most 10,000,000 bytes in
-- all, if its entries stand in the order of their ids; and the entries of every other heartbeat are
-- what they were.
pub log_ping-bounded :
    (p : Ping) (rows : List Ping)
    → Ascending (entries p.heartbeat_id (rows ++ p ∷ []))
    → (length (entries p.heartbeat_id (log_ping p rows)) ≤ 1000)
      × (bytes (entries p.heartbeat_id (log_ping p rows)) ≤ 10000000)
      × ((k : ℕ) → k ≢ p.heartbeat_id → entries k (log_ping p rows) ≡ entries k (rows ++ p ∷ []))
unfolding log_ping trim_count trim_bytes
log_ping-bounded p rows a =
    let h = p.heartbeat_id in
    let logged = rows ++ p ∷ [] in
    let c = up_to (id_at_offset max_pings_per_heartbeat (entries h logged)) in
    let kept = trim_count h max_pings_per_heartbeat logged in
    let d = up_to (id_over_budget max_ping_log_bytes (entries h kept)) in
    let counted = entries-delete h c logged in
    let cut = entries-delete h d kept in
    let count : length (entries h kept) ≤ 1000 =
      rw counted (count_bound max_pings_per_heartbeat (entries h logged) a) in
    let fewer = length-select (λ x. not (d x)) (entries h kept) in
    (
      rw cut (omega (arith, count, fewer)),
      rw cut (bytes_bound max_ping_log_bytes (entries h kept)),
      λ k n. entries-other h k d kept n ∙ entries-other h k c logged n,
    )
