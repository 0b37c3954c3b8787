-- ===== src/Store/Pacing/Channels.antt =====
-- The channels that an event goes to, and the intervals of their rules (matchedChannels and
-- failedRepeat of internal/store/pacing.go).
use tend.Prelude.{
  ℕ, Option, none, some, Bool, true, false, not, ◌&&◌, ◌||◌, List, [], ◌∷◌, ◌==◌, leb,
  if◌then◌else◌, find, select,
}
use tend.Prelude.Int.{ℤ, pos, min_ℤ, ltb_ℤ}
use tend.Clock.{Duration, seconds}
use tend.Event.{EventType, same_type, run_failed}
use tend.Notify.Pacing.{ChannelType, effective_repeat}
use tend.Store.Schema.{Db, Rule, Channel}

pub record MatchedChannel : Type 0 where
  pub id : ℕ
  pub kind : ChannelType
  pub repeat : Duration

-- repeatOf.
abbrev pub repeat_of : Option ℤ → Option Duration
repeat_of none = none
repeat_of (some n) = some (seconds n)

-- The rules of an org for an event type, org-wide or scoped to the job.
abbrev pub routes : ℕ → EventType → ℕ → Rule → Bool
routes org t job r =
    (r.org_id == org) && r.enabled && same_type r.event_type t && (r.job_id == 0 || r.job_id == job)

abbrev pub is_channel : ℕ → ℕ → Channel → Bool
is_channel id org c = (c.id == id) && (c.org_id == org)

-- JOIN notification_channels: a rule with its channel, if that exists in the rule's org.
unfoldable pub joined : List Channel → List Rule → List MatchedChannel
joined channels [] = []
joined channels (r ∷ rs) =
    let rest = joined channels rs in
    elim (find (is_channel r.channel_id r.org_id) channels) [
      | none ↦ rest
      | some c ↦
          record {
            id = r.channel_id;
            kind = c.kind;
            repeat = effective_repeat c.kind (repeat_of r.repeat_seconds);
          }
          ∷ rest
    ]

-- ORDER BY r.channel_id, r.id, of rules that already stand in the order of their ids.
unfoldable pub insert_by_id : MatchedChannel → List MatchedChannel → List MatchedChannel
insert_by_id c [] = c ∷ []
insert_by_id c (d ∷ ds) = if leb c.id d.id then c ∷ d ∷ ds else d ∷ insert_by_id c ds

unfoldable pub sort_by_id : List MatchedChannel → List MatchedChannel
unfolding insert_by_id
sort_by_id [] = []
sort_by_id (c ∷ cs) = insert_by_id c (sort_by_id cs)

-- The loop over the rows: one that has the id of the last channel put out lowers that channel's
-- interval, any other is a channel of its own.
unfoldable pub merge_into : MatchedChannel → List MatchedChannel → List MatchedChannel
merge_into c [] = c ∷ []
merge_into c (d ∷ ds) =
    let same = merge_into (record c { repeat = min_ℤ c.repeat d.repeat }) ds in
    let other = c ∷ merge_into d ds in if c.id == d.id then same else other

unfoldable pub merge : List MatchedChannel → List MatchedChannel
unfolding merge_into
merge [] = []
merge (c ∷ cs) = merge_into c cs

unfoldable pub matched_channels : Db → ℕ → EventType → ℕ → List MatchedChannel
unfolding joined sort_by_id merge
matched_channels db org t job =
    merge (sort_by_id (joined db.channels (select (routes org t job) db.rules)))

-- The most frequent interval of a channel's rules for a job's failures, and whether it has any.
unfoldable pub least_repeat : ChannelType → List Rule → Duration → Bool → Duration × Bool
least_repeat kind [] repeat routed = (repeat, routed)
least_repeat kind (r ∷ rs) repeat routed =
    let mine = effective_repeat kind (repeat_of r.repeat_seconds) in
    least_repeat kind rs (if not routed || ltb_ℤ mine repeat then mine else repeat) true

unfoldable pub failed_repeat : Db → ℕ → ℕ → ℕ → ChannelType → Duration × Bool
unfolding least_repeat
failed_repeat db org channel job kind =
    least_repeat kind
      (select (λ r. (r.channel_id == channel) && routes org run_failed job r) db.rules) (pos 0)
      false
