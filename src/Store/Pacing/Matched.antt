-- ===== src/Store/Pacing/Matched.antt =====
-- The channels that an event is matched to, against the rules.
use tend.Prelude.{
  ℕ, ◌≤◌, ◌<◌, ◌≡◌, refl, ap, ◌∙◌, Option, none, some, Bool, true, false, ◌&&◌, ◌||◌, List, [], ◌∷◌,
  ◌==◌, leb, find, select, any, All, arith, Bool-cases, Option-cases, inl, inr,
}
use tend.Prelude.Int.{min_ℤ}
use tend.Event.{EventType}
use tend.Store.Schema.{Db, Rule, Channel}
use tend.Store.Pacing.Channels.{
  MatchedChannel, routes, is_channel, joined, insert_by_id, sort_by_id, merge_into, merge,
  matched_channels,
}

-- In the order of the ids, with and without repetition.
abbrev Sorted : List MatchedChannel → Type 0
Sorted [] = Unit
Sorted (c ∷ cs) = All (λ (d : MatchedChannel). c.id ≤ d.id) cs × Sorted cs

abbrev pub Distinct : List MatchedChannel → Type 0
Distinct [] = Unit
Distinct (c ∷ cs) = All (λ (d : MatchedChannel). c.id < d.id) cs × Distinct cs

-- The channel `k` is among them.
abbrev pub has : ℕ → List MatchedChannel → Bool
has k cs = any (λ (c : MatchedChannel). c.id == k) cs

insert-All :
    (n : ℕ) (c : MatchedChannel) (cs : List MatchedChannel)
    → n ≤ c.id
    → All (λ (d : MatchedChannel). n ≤ d.id) cs
    → All (λ (d : MatchedChannel). n ≤ d.id) (insert_by_id c cs)
unfolding insert_by_id
insert-All n c [] h a = (h, tt)
insert-All n c (d ∷ ds) h a = ground (arith, insert-All n c ds h)

All-le :
    (m n : ℕ) (cs : List MatchedChannel)
    → m ≤ n
    → All (λ (d : MatchedChannel). n ≤ d.id) cs
    → All (λ (d : MatchedChannel). m ≤ d.id) cs
All-le m n [] h a = tt
All-le m n (c ∷ cs) h a = (omega (arith, h, a.0), All-le m n cs h a.1)

insert-Sorted :
    (c : MatchedChannel) (cs : List MatchedChannel) → Sorted cs → Sorted (insert_by_id c cs)
unfolding insert_by_id
insert-Sorted c [] s = (tt, tt)
insert-Sorted c (d ∷ ds) s = elim (Bool-cases (leb c.id d.id)) [
  | inl y ↦ rw y ((ground arith, All-le c.id d.id ds (ground arith) s.0), s)
  | inr n ↦ rw n (insert-All d.id c ds (ground arith) s.0, insert-Sorted c ds s.1)
]

sort-Sorted : (cs : List MatchedChannel) → Sorted (sort_by_id cs)
unfolding sort_by_id
sort-Sorted [] = tt
sort-Sorted (c ∷ cs) = insert-Sorted c (sort_by_id cs) (sort-Sorted cs)

merge_into-All :
    (n : ℕ) (c : MatchedChannel) (ds : List MatchedChannel)
    → n < c.id
    → All (λ (d : MatchedChannel). n < d.id) ds
    → All (λ (d : MatchedChannel). n < d.id) (merge_into c ds)
unfolding merge_into
merge_into-All n c [] h a = (h, tt)
merge_into-All n c (d ∷ ds) h a = elim (Bool-cases (c.id == d.id)) [
  | inl y ↦ rw y (merge_into-All n (record c { repeat = min_ℤ c.repeat d.repeat }) ds h a.1)
  | inr z ↦ rw z (h, merge_into-All n d ds a.0 a.1)
]

All-lt :
    (m n : ℕ) (cs : List MatchedChannel)
    → m < n
    → All (λ (d : MatchedChannel). n ≤ d.id) cs
    → All (λ (d : MatchedChannel). m < d.id) cs
All-lt m n [] h a = tt
All-lt m n (c ∷ cs) h a = (omega (arith, h, a.0), All-lt m n cs h a.1)

merge_into-Distinct :
    (c : MatchedChannel) (ds : List MatchedChannel)
    → All (λ (d : MatchedChannel). c.id ≤ d.id) ds
    → Sorted ds
    → Distinct (merge_into c ds)
unfolding merge_into
merge_into-Distinct c [] a s = (tt, tt)
merge_into-Distinct c (d ∷ ds) a s = elim (Bool-cases (c.id == d.id)) [
  | inl y ↦ rw y (merge_into-Distinct (record c { repeat = min_ℤ c.repeat d.repeat }) ds a.1 s.1)
  | inr z ↦
      let lt : c.id < d.id = (let le = a.0 in ground arith) in
      rw z
        (merge_into-All c.id d ds lt (All-lt c.id d.id ds lt s.0), merge_into-Distinct d ds s.0 s.1)
]

merge-Distinct : (cs : List MatchedChannel) → Sorted cs → Distinct (merge cs)
unfolding merge
merge-Distinct [] s = tt
merge-Distinct (c ∷ cs) s = merge_into-Distinct c cs s.0 s.1

has-insert :
    (k : ℕ) (c : MatchedChannel) (cs : List MatchedChannel)
    → has k (insert_by_id c cs) ≡ ((c.id == k) || has k cs)
unfolding insert_by_id
has-insert k c [] = refl
has-insert k c (d ∷ ds) = ground (arith, has-insert k c ds)

has-sort : (k : ℕ) (cs : List MatchedChannel) → has k (sort_by_id cs) ≡ has k cs
unfolding sort_by_id
has-sort k [] = refl
has-sort k (c ∷ cs) = has-insert k c (sort_by_id cs) ∙ ap (λ b. (c.id == k) || b) (has-sort k cs)

has-merge_into :
    (k : ℕ) (c : MatchedChannel) (ds : List MatchedChannel)
    → has k (merge_into c ds) ≡ ((c.id == k) || has k ds)
unfolding merge_into
has-merge_into k c [] = refl
has-merge_into k c (d ∷ ds) = elim (Bool-cases (c.id == d.id)) [
  | inl y ↦
      let m = has-merge_into k (record c { repeat = min_ℤ c.repeat d.repeat }) ds in
      rw y (m ∙ ground arith)
  | inr z ↦ rw z (ap (λ b. (c.id == k) || b) (has-merge_into k d ds))
]

has-merge : (k : ℕ) (cs : List MatchedChannel) → has k (merge cs) ≡ has k cs
unfolding merge
has-merge k [] = refl
has-merge k (c ∷ cs) = has-merge_into k c cs

is_some : Option Channel → Bool
is_some none = false
is_some (some c) = true

-- A rule that routes the event to the channel `k`, which exists in the rule's org.
abbrev pub routed_to : ℕ → List Channel → ℕ → EventType → ℕ → Rule → Bool
routed_to k channels org t job r =
    routes org t job r && ((r.channel_id == k) && any (is_channel r.channel_id r.org_id) channels)

find-any : (p : Channel → Bool) (cs : List Channel) → find p cs ≡ none → any p cs ≡ false
find-any p [] e = refl
find-any p (c ∷ cs) e = ground (arith, find-any p cs)

find-some :
    (p : Channel → Bool) (cs : List Channel) (c : Channel) → find p cs ≡ some c → any p cs ≡ true
find-some p [] c e = ground arith
find-some p (d ∷ cs) c e = ground (arith, find-some p cs c)

has-joined_cons :
    (k : ℕ) (channels : List Channel) (r : Rule) (rs : List Rule)
    → has k (joined channels (r ∷ rs)) ≡ (
        ((r.channel_id == k) && any (is_channel r.channel_id r.org_id) channels)
        || has k (joined channels rs))
unfolding joined
has-joined_cons k channels r rs =
    elim (Option-cases (find (is_channel r.channel_id r.org_id) channels)) [
      | inl n ↦ let gone = find-any (is_channel r.channel_id r.org_id) channels n in ground arith
      | inr (c, f) ↦
          let there = find-some (is_channel r.channel_id r.org_id) channels c f in ground arith
    ]

has-joined :
    (k : ℕ) (channels : List Channel) (org : ℕ) (t : EventType) (job : ℕ) (rules : List Rule)
    → has k (joined channels (select (routes org t job) rules))
      ≡ any (routed_to k channels org t job) rules
unfolding joined
has-joined k channels org t job [] = refl
has-joined k channels org t job (r ∷ rs) =
    let rest = has-joined k channels org t job rs in
    elim (Bool-cases (routes org t job r)) [
      | inl y ↦ rw y (
          has-joined_cons k channels r (select (routes org t job) rs)
          ∙ ap (λ b. ((r.channel_id == k) && any (is_channel r.channel_id r.org_id) channels) || b)
              rest)
      | inr z ↦ rw z rest
    ]

-- The channels that an event goes to stand in the order of their ids, none twice; and a channel is
-- among them exactly if an enabled rule of the org, org-wide or for the job, routes events of that
-- type to it and it is one of the rule's org.
pub matched_channels-exact :
    (db : Db) (org : ℕ) (t : EventType) (job : ℕ)
    → Distinct (matched_channels db org t job)
      × ((k : ℕ)
          → has k (matched_channels db org t job)
            ≡ any (routed_to k db.channels org t job) db.rules)
unfolding matched_channels
matched_channels-exact db org t job =
    let cs = joined db.channels (select (routes org t job) db.rules) in
    (
      merge-Distinct (sort_by_id cs) (sort-Sorted cs),
      λ k.
          has-merge k (sort_by_id cs) ∙ has-sort k cs ∙ has-joined k db.channels org t job db.rules,
    )
