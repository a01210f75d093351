-- ===== src/AlertRules.antt =====
-- src/alerts/alerts.service.ts: the alert rules of an organization and their logs.
use servers_manager.Base.{
  ℕ, suc, Bool, true, ◌&&◌, Option, none, some, List, [], ◌∷◌, ◌++◌, Text, ◌==◌, find?, filter, any,
  take, Throws, ok, throw, not_found,
}
use servers_manager.Db.{Db, AlertRule, AlertLog, AlertEntityType, AlertChannel}
use servers_manager.Db.Table.{update_where}
use servers_manager.Db.Query.{newest_first}
use servers_manager.Db.Cascade.{remove_alert_rule}
use servers_manager.Alerts.{same_entity_type}
use servers_manager.Alerts.Channels.{ChannelConfig}

-- An omitted cooldown or mark is the column's default: 30 minutes, enabled.
pub record CreateAlertRuleDto : Type 0 where
  pub name : Text
  pub entity_type : AlertEntityType
  pub condition : Text
  pub channel : AlertChannel
  pub channel_config : ChannelConfig
  pub cooldown_minutes : Option ℕ
  pub enabled : Option Bool

pub record UpdateAlertRuleDto : Type 0 where
  pub name : Option Text
  pub entity_type : Option AlertEntityType
  pub condition : Option Text
  pub channel : Option AlertChannel
  pub channel_config : Option ChannelConfig
  pub cooldown_minutes : Option ℕ
  pub enabled : Option Bool

-- `if (dto.x !== undefined) rule.x = dto.x`.
abbrev pub or_kept {ℓ} : {A : Type ℓ} → Option A → A → A
or_kept none old = old
or_kept (some new) old = new

abbrev pub is_rule_of : ℕ → ℕ → AlertRule → Bool
is_rule_of org_id id row = row.id == id && row.org_id == org_id

unfoldable pub find_all_for_org : Db → ℕ → List AlertRule
unfolding newest_first
find_all_for_org db org_id =
    newest_first (λ rule. rule.created_at) (filter (λ rule. rule.org_id == org_id) db.alert_rules)

unfoldable pub find_rule_for_org_or_throw : Db → ℕ → ℕ → Throws AlertRule
find_rule_for_org_or_throw db org_id id = elim (find? (is_rule_of org_id id) db.alert_rules) [
  | none ↦ throw not_found
  | some rule ↦ ok rule
]

-- `encryptConfig`: `JSON.stringify`, then the CryptoService.
module _ (stringify : ChannelConfig → Text) (encrypt : Text → Text) where
  unfoldable pub create : Db → ℕ → ℕ → CreateAlertRuleDto → Db × AlertRule
  create db now org_id dto =
      let rule : AlertRule = record {
        id = db.next_id;
        org_id = org_id;
        name = dto.name;
        entity_type = dto.entity_type;
        condition = dto.condition;
        channel = dto.channel;
        channel_config_encrypted = encrypt (stringify dto.channel_config);
        cooldown_minutes = or_kept dto.cooldown_minutes 30;
        enabled = or_kept dto.enabled true;
        created_at = now;
      } in
      (record db { alert_rules = db.alert_rules ++ rule ∷ []; next_id = suc db.next_id }, rule)

  abbrev pub sealed_or_kept : Option ChannelConfig → Text → Text
  sealed_or_kept none old = old
  sealed_or_kept (some config) old = encrypt (stringify config)

  unfoldable pub updated : AlertRule → UpdateAlertRuleDto → AlertRule
  updated rule dto = record rule {
    name = or_kept dto.name rule.name;
    entity_type = or_kept dto.entity_type rule.entity_type;
    condition = or_kept dto.condition rule.condition;
    channel = or_kept dto.channel rule.channel;
    channel_config_encrypted = sealed_or_kept dto.channel_config rule.channel_config_encrypted;
    cooldown_minutes = or_kept dto.cooldown_minutes rule.cooldown_minutes;
    enabled = or_kept dto.enabled rule.enabled;
  }

  unfoldable pub update : Db → ℕ → ℕ → UpdateAlertRuleDto → Db × Throws AlertRule
  unfolding find_rule_for_org_or_throw updated
  update db org_id id dto = elim (find_rule_for_org_or_throw db org_id id) [
    | throw e ↦ (db, throw e)
    | ok rule ↦ (
      record db {
        alert_rules =
            update_where (λ row. row.id == rule.id) (λ row. updated rule dto) db.alert_rules;
      },
      ok (updated rule dto),
    )
  ]

unfoldable pub remove : Db → ℕ → ℕ → Db × Throws (Unit {0})
unfolding find_rule_for_org_or_throw remove_alert_rule
remove db org_id id = elim (find_rule_for_org_or_throw db org_id id) [
  | throw e ↦ (db, throw e)
  | ok rule ↦ (remove_alert_rule db rule.id, ok tt)
]

pub record ListAlertLogsQueryDto : Type 0 where
  pub alert_rule_id : Option ℕ
  pub entity_type : Option AlertEntityType

abbrev pub is_asked_rule : Option ℕ → ℕ → Bool
is_asked_rule none id = true
is_asked_rule (some wanted) id = id == wanted

abbrev pub is_asked_type : Option AlertEntityType → AlertEntityType → Bool
is_asked_type none type = true
is_asked_type (some wanted) type = same_entity_type type wanted

abbrev pub alert_logs_list_limit : ℕ
alert_logs_list_limit = 100

-- The inner join keeps the logs whose rule is the organization's.
unfoldable pub find_logs_for_org : Db → ℕ → ListAlertLogsQueryDto → List AlertLog
unfolding newest_first
find_logs_for_org db org_id query = take alert_logs_list_limit (
    newest_first (λ log. log.fired_at)
      (filter
        (λ log.
          any (λ rule. rule.id == log.alert_rule_id && rule.org_id == org_id) db.alert_rules
          && is_asked_rule query.alert_rule_id log.alert_rule_id
          && is_asked_type query.entity_type log.entity_type)
        db.alert_logs))
