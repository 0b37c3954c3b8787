-- ===== src/Store/Runs/Lifecycle.antt =====
-- The life of one run, as a state machine of its own, and how a table of runs follows it.
pub mod Refines
use tend.Prelude.{
  ℕ, suc, ◌+◌, ◌<◌, ◌≤◌, ◌≡◌, ◌≢◌, inl, inr, refl, sym, ap, ◌∙◌, subst, Bool, true, false, not,
  ◌&&◌, Option, none, some, List, [], ◌∷◌, ◌++◌, arith, if◌then◌else◌, ◌==◌, ltb, Bool-cases,
  Option-cases, find,
}
use tend.Event.{RunStatus, pending, running, succeeded, failed, timed_out}
use tend.Jobs.{Run}
use tend.Store.Schema.{Db}
use tend.Store.Table.{update_where, delete_where, In, In-select, find-In}
use tend.Store.Pings.Keys.{Unique}
use tend.Store.Streak.{is_run}
use tend.Store.Runs.Terminal.{SameRun}

pub data Life : Type 0 where
  unborn waiting live ended gone : Life

-- The operations on the queue, with the id of the run that each is about, where it is about one.
pub data Op : Type 0 where
  enqueue claim finish reap fail_unreadable : ℕ → Op
  requeue delete emit : Op

-- Whether an operation may change the run with an id.
abbrev pub concerns : Op → ℕ → Bool
concerns (enqueue n) id = n == id
concerns (claim n) id = n == id
concerns (finish n) id = n == id
concerns (reap n) id = n == id
concerns (fail_unreadable n) id = n == id
concerns requeue id = true
concerns delete id = true
concerns emit id = false

-- What an operation does to the run with an id: the run it is about is born by an enqueue, is claimed
-- only while it waits, and is finished only while it is live; a reap ends it if it is live and
-- leaves it alone otherwise; it goes back to waiting only from being live.
pub data Move : Op → ℕ → Life → Life → Type 0 where
  others : (op : Op) (id : ℕ) (l : Life) → concerns op id ≡ false → Move op id l l
  enqueued : (n : ℕ) → Move (enqueue n) n unborn waiting
  unreadable : (n : ℕ) → Move (fail_unreadable n) n unborn ended
  claimed : (n : ℕ) → Move (claim n) n waiting live
  finished : (n : ℕ) → Move (finish n) n live ended
  reaped : (n : ℕ) → Move (reap n) n live ended
  not_reaped : (n : ℕ) (l : Life) → l ≢ live → Move (reap n) n l l
  requeued : (n : ℕ) → Move requeue n live waiting
  not_requeued : (n : ℕ) (l : Life) → Move requeue n l l
  deleted : (n : ℕ) (l : Life) → l ≢ unborn → Move delete n l gone
  not_deleted : (n : ℕ) (l : Life) → Move delete n l l

abbrev pub life_of_status : RunStatus → Life
life_of_status pending = waiting
life_of_status running = live
life_of_status succeeded = ended
life_of_status failed = ended
life_of_status timed_out = ended

abbrev pub life_of_row : ℕ → ℕ → Option Run → Life
life_of_row next id (some r) = life_of_status r.status
life_of_row next id none = if ltb id next then gone else unborn

-- Where the run with an id is in its life, as the store has it.
unfoldable pub life_of : ℕ → Db → Life
life_of id db = life_of_row db.next_run_id id (find (is_run id) db.runs)

pub status-born : (s : RunStatus) → life_of_status s ≢ unborn
status-born s e = ground arith

-- The row with an id, after an update that keeps the ids.
find-update :
    (id : ℕ) (p : Run → Bool) (f : Run → Run) (runs : List Run)
    → ((r : Run) → (f r).id ≡ r.id)
    → find (is_run id) (update_where p f runs)
      ≡ (elim (find (is_run id) runs) [ none ↦ none | some r ↦ some (if p r then f r else r) ])
find-update id p f [] k = refl
find-update id p f (r ∷ runs) k = ground (arith, k r, find-update id p f runs k)

find-append :
    (id : ℕ) (r : Run) (runs : List Run)
    → find (is_run id) (runs ++ r ∷ []) ≡ (elim (find (is_run id) runs) [
      | none ↦ if is_run id r then some r else none
      | some x ↦ some x
    ])
find-append id r [] = ground arith
find-append id r (x ∷ runs) = ground (arith, find-append id r runs)

-- No row with an id.
find-none :
    (id : ℕ) (runs : List Run) (r : Run)
    → find (is_run id) runs ≡ none
    → In r runs
    → is_run id r ≡ false
find-none id [] r h i = elim i [ ]
find-none id (x ∷ runs) r h (inl e) = ground arith
find-none id (x ∷ runs) r h (inr i) = ground (arith, find-none id runs r)

pub find-some :
    (id : ℕ) (a : Db) (r : Run) → In r a.runs → is_run id r ≡ true → find (is_run id) a.runs ≢ none
find-some id a r i t h = let no = find-none id a.runs r h i in ground arith

-- An update moves each run as it moves its row, and a run with no row stays.
pub update-Move :
    (R : Life → Life → Type 0) (a b : Db) (p : Run → Bool) (f : Run → Run) (id : ℕ)
    → b.runs ≡ update_where p f a.runs
    → b.next_run_id ≡ a.next_run_id
    → ((r : Run) → (f r).id ≡ r.id)
    → (find (is_run id) a.runs ≡ none → R (life_of id a) (life_of id a))
    → ((r : Run)
        → In r a.runs
        → is_run id r ≡ true
        → R (life_of_status r.status) (life_of_status (if p r then f r else r).status))
    → R (life_of id a) (life_of id b)
unfolding life_of
update-Move R a b p f id e n k quiet h =
    let found = find-update id p f a.runs k in
    elim (Option-cases (find (is_run id) a.runs)) [
      | inl q ↦
          let q' : find (is_run id) b.runs ≡ none = ground arith in
          let s : life_of id b ≡ life_of id a = rw (q, q', n) refl in
          subst (R (life_of id a)) (sym s) (quiet q)
      | inr (r, q) ↦
          let (i, t) = find-In (is_run id) r a.runs q in
          let q' : find (is_run id) b.runs ≡ some (if p r then f r else r) = ground arith in
          rw (q, q') (h r i t)
    ]

-- An update that keeps the ids and where the rows are in their lives.
pub update-life :
    (a : Db) (p : Run → Bool) (f : Run → Run) (id : ℕ)
    → ((r : Run) → (f r).id ≡ r.id)
    → ((r : Run) → life_of_status (f r).status ≡ life_of_status r.status)
    → life_of id (record a { runs = update_where p f a.runs }) ≡ life_of id a
unfolding life_of
update-life a p f id k h =
    let found = find-update id p f a.runs k in
    elim (Option-cases (find (is_run id) a.runs)) [
      | inl q ↦ ground arith
      | inr (r, q) ↦ ground (arith, h r)
    ]

-- A new row is born, with the next id; the others stay.
pub append-Move :
    (R : Life → Life → Type 0) (a b : Db) (r : Run) (id : ℕ)
    → b.runs ≡ a.runs ++ r ∷ []
    → b.next_run_id ≡ suc a.next_run_id
    → r.id ≡ a.next_run_id
    → ((x : Run) → In x a.runs → x.id < a.next_run_id)
    → ((a.next_run_id == id) ≡ true → R unborn (life_of_status r.status))
    → ((a.next_run_id == id) ≡ false → (l : Life) → R l l)
    → R (life_of id a) (life_of id b)
unfolding life_of
append-Move R a b r id e n own below born still =
    let found = find-append id r a.runs in
    elim (Option-cases (find (is_run id) a.runs)) [
      | inr (x, q) ↦
          let q' : find (is_run id) b.runs ≡ some x = ground arith in
          let (i, t) = find-In (is_run id) x a.runs q in
          let l = below x i in
          let old : (a.next_run_id == id) ≡ false = ground arith in rw (q, q') (still old _)
      | inl q ↦ elim (Bool-cases (a.next_run_id == id)) [
        | inl y ↦
            let q' : find (is_run id) b.runs ≡ some r = ground arith in
            let new : ltb id a.next_run_id ≡ false = ground arith in rw (q, q', new) (born y)
        | inr m ↦
            let q' : find (is_run id) b.runs ≡ none = ground arith in
            let same : ltb id (suc a.next_run_id) ≡ ltb id a.next_run_id = ground arith in
            rw (q, q', n, same) (still m _)
      ]
    ]

find-deleted :
    (id : ℕ) (p : Run → Bool) (runs : List Run)
    → ((r : Run) → In r runs → is_run id r ≡ true → p r ≡ true)
    → find (is_run id) (delete_where p runs) ≡ none
find-deleted id p [] h = refl
find-deleted id p (x ∷ runs) h =
    ground (arith, find-deleted id p runs (λ r i. h r (inr i)), h x (inl refl))

find-delete :
    (id : ℕ) (p : Run → Bool) (runs : List Run)
    → Unique SameRun runs
    → find (is_run id) (delete_where p runs)
      ≡ (elim (find (is_run id) runs) [ none ↦ none | some r ↦ if p r then none else some r ])
find-delete id p [] u = refl
find-delete id p (x ∷ runs) u = elim (Bool-cases (is_run id x)) [
  | inr n ↦
      let rest = find-delete id p runs (λ r s i j e. u r s (inr i) (inr j) e) in
      elim (Bool-cases (p x)) [ inl y ↦ ground arith | inr m ↦ ground arith ]
  | inl t ↦ elim (Bool-cases (p x)) [
    | inr m ↦ rw (t, m) (ground arith)
    | inl y ↦
        let none_left = find-deleted id p runs λ r i own.
          let same = u r x (inr i) (inl refl) (ground arith) in
          subst (λ z. p z ≡ true) (sym same) y in
        rw (t, y) none_left
  ]
]

-- A deletion takes rows away; the others stay.
pub delete-Move :
    (a b : Db) (p : Run → Bool) (id : ℕ)
    → b.runs ≡ delete_where p a.runs
    → b.next_run_id ≡ a.next_run_id
    → Unique SameRun a.runs
    → ((r : Run) → In r a.runs → r.id < a.next_run_id)
    → Move delete id (life_of id a) (life_of id b)
unfolding life_of
delete-Move a b p id e n u below =
    let found = find-delete id p a.runs u in
    elim (Option-cases (find (is_run id) a.runs)) [
      | inl q ↦
          let q' : find (is_run id) b.runs ≡ none = ground arith in rw (q, q', n) (not_deleted id _)
      | inr (r, q) ↦
          let (i, t) = find-In (is_run id) r a.runs q in
          elim (Bool-cases (p r)) [
            | inl y ↦
                let q' : find (is_run id) b.runs ≡ none = ground arith in
                let l = below r i in
                let born : ltb id a.next_run_id ≡ true = ground arith in
                rw (q, q', n, born) (deleted id _ (status-born r.status))
            | inr m ↦
                let q' : find (is_run id) b.runs ≡ some r = ground arith in
                rw (q, q') (not_deleted id _)
          ]
    ]
