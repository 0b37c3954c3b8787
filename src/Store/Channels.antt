-- ===== src/Store/Channels.antt =====
-- internal/store/sqlite.go: notification channels and rules.
pub mod Silence
use Prim.Native.String.{String}
use text.Mathlib.Text.{◌==◌ as str_eq}
use tend.Prelude.{
  ℕ, suc, Option, none, some, Bool, not, ◌&&◌, List, [], ◌∷◌, ◌++◌, ◌==◌, find, select,
}
use tend.Prelude.Int.{ℤ, ◌/ℤ◌}
use tend.Clock.{Duration, second}
use tend.Event.{EventType, same_type}
use tend.Notify.Pacing.{ChannelType}
use tend.Store.Schema.{Db, Rule, Channel, Delivery, AlertRow, failed}
use tend.Store.Table.{update_where, delete_where}
use tend.Store.Pacing.Channels.{routes, is_channel}
use tend.Store.Deliveries.{is_waiting, settled}

abbrev pub is_channel_named : ℕ → String → Channel → Bool
is_channel_named org name c = (c.org_id == org) && str_eq c.name name

-- CreateChannel: INSERT ... ON CONFLICT (org_id, name) DO UPDATE.
unfoldable pub create_channel : ℕ → String → ChannelType → String → Db → Db × ℕ
create_channel org name kind config db = elim (find (is_channel_named org name) db.channels) [
  | some c ↦ (
    record db {
      channels =
          update_where (is_channel_named org name) (λ x. record x { kind = kind; config = config })
            db.channels;
    },
    c.id,
  )
  | none ↦ (
    record db {
      channels =
          db.channels
          ++ record {
            id = db.next_channel_id;
            org_id = org;
            name = name;
            kind = kind;
            config = config;
          }
            ∷ [];
      next_channel_id = suc db.next_channel_id;
    },
    db.next_channel_id,
  )
]

-- GetChannel.
unfoldable pub get_channel : ℕ → ℕ → Db → Option Channel
get_channel org id db = find (is_channel id org) db.channels

unfoldable pub list_channels : ℕ → Db → List Channel
list_channels org db = select (λ c. c.org_id == org) db.channels

abbrev pub is_rule_of_channel : ℕ → ℕ → Rule → Bool
is_rule_of_channel org channel r = (r.org_id == org) && (r.channel_id == channel)

-- deleteAlertStates by the channel.
abbrev pub is_alert_of_channel : ℕ → ℕ → AlertRow → Bool
is_alert_of_channel org channel a = (a.org_id == org) && (a.channel_id == channel)

abbrev pub waits_for_channel : ℕ → ℕ → Delivery → Bool
waits_for_channel org channel d =
    (d.org_id == org) && (d.channel_id == channel) && is_waiting d.state

unfoldable pub delete_channel : ℕ → ℕ → Db → Db
delete_channel org id db = record db {
  rules = delete_where (is_rule_of_channel org id) db.rules;
  alerts = delete_where (is_alert_of_channel org id) db.alerts;
  deliveries = update_where (waits_for_channel org id) (settled failed) db.deliveries;
  channels = delete_where (is_channel id org) db.channels;
}

-- repeatSeconds.
abbrev pub stored_repeat : Option Duration → Option ℤ
unfolding ◌/ℤ◌
stored_repeat none = none
stored_repeat (some d) = some (d /ℤ second)

-- The unique index on (org_id, channel_id, event_type, job_id).
abbrev pub is_same_rule : ℕ → ℕ → EventType → ℕ → Rule → Bool
is_same_rule org channel t job r =
    (r.org_id == org) && (r.channel_id == channel) && same_type r.event_type t && (r.job_id == job)

-- CreateRule.
unfoldable pub create_rule : ℕ → ℕ → EventType → ℕ → Bool → Option Duration → Db → Db × ℕ
create_rule org channel t job enabled repeat db =
    elim (find (is_same_rule org channel t job) db.rules) [
      | some r ↦ (
        record db {
          rules =
              update_where (is_same_rule org channel t job)
                (λ x. record x { enabled = enabled; repeat_seconds = stored_repeat repeat })
                db.rules;
        },
        r.id,
      )
      | none ↦ (
        record db {
          rules =
              db.rules
              ++ record {
                id = db.next_rule_id;
                org_id = org;
                channel_id = channel;
                event_type = t;
                enabled = enabled;
                job_id = job;
                repeat_seconds = stored_repeat repeat;
              }
                ∷ [];
          next_rule_id = suc db.next_rule_id;
        },
        db.next_rule_id,
      )
    ]

unfoldable pub list_rules : ℕ → Db → List Rule
list_rules org db = select (λ r. r.org_id == org) db.rules

unfoldable pub delete_rule : ℕ → ℕ → Db → Db
delete_rule org id db = record db {
  rules = delete_where (λ r. (r.org_id == org) && (r.id == id)) db.rules;
}

unfoldable pub matching_rules : ℕ → EventType → ℕ → Db → List Rule
matching_rules org t job db = select (routes org t job) db.rules
