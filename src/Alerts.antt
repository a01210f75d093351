-- ===== src/Alerts.antt =====
-- src/alerts/alert-evaluation.service.ts, with the condition and message builders and the two channel
-- adapters: which rules fire on an event, the cooldown, delivery and the log of it.
pub mod Channels
pub mod Delivery
pub mod Cooldown
pub mod Frame
pub mod Ids
use servers_manager.Base.{
  ℕ, suc, ◌+◌, ◌*◌, Bool, true, false, not, ◌&&◌, Option, none, some, List, [], ◌∷◌, ◌++◌, Text,
  codes, ◌==◌, ltb, find?, filter, text_eq, if◌then◌else◌, Throws, ok, throw, ◌>>=◌, Error,
}
use servers_manager.Db.{Db, AlertEntityType, AlertRule, AlertLog, AlertDeliveryStatus}
use servers_manager.Alerts.Channels.{ChannelPorts, ChannelConfig, ChannelSendResult, adapter_send}

-- The values of the enum `AlertEntityType`, and `===` on them.
abbrev pub entity_type_text : AlertEntityType → Text
entity_type_text AlertEntityType.host = codes "host"
entity_type_text AlertEntityType.domain = codes "domain"
entity_type_text AlertEntityType.ssl_certificate = codes "ssl_certificate"
entity_type_text AlertEntityType.service = codes "service"
entity_type_text AlertEntityType.rollback_event = codes "rollback_event"
entity_type_text AlertEntityType.system = codes "system"

abbrev pub same_entity_type : AlertEntityType → AlertEntityType → Bool
same_entity_type AlertEntityType.host AlertEntityType.host = true
same_entity_type AlertEntityType.domain AlertEntityType.domain = true
same_entity_type AlertEntityType.ssl_certificate AlertEntityType.ssl_certificate = true
same_entity_type AlertEntityType.service AlertEntityType.service = true
same_entity_type AlertEntityType.rollback_event AlertEntityType.rollback_event = true
same_entity_type AlertEntityType.system AlertEntityType.system = true
same_entity_type _ _ = false

abbrev pub is_sent : AlertDeliveryStatus → Bool
is_sent AlertDeliveryStatus.sent = true
is_sent AlertDeliveryStatus.failed = false

-- alert-condition-builder.ts
unfoldable pub build_transition_condition : AlertEntityType → Text → Option Text
build_transition_condition AlertEntityType.host new_status =
    some (codes "host_status_transitioned_to:" ++ new_status)
build_transition_condition AlertEntityType.ssl_certificate new_status =
    some (codes "ssl_status_transitioned_to:" ++ new_status)
build_transition_condition AlertEntityType.service new_status =
    some (codes "service_status_transitioned_to:" ++ new_status)
build_transition_condition AlertEntityType.rollback_event new_status =
    if text_eq new_status (codes "failed") then some (codes "rollback_event:failed") else none
build_transition_condition AlertEntityType.domain new_status = none
build_transition_condition AlertEntityType.system new_status = none

-- What the alerts take from the platform: the CryptoService's `decrypt`, `JSON.parse` of a channel
-- configuration, the message of an `Error`, an id in print, and the POST of the Slack adapter.
pub record AlertPorts : Type 0 where
  pub decrypt : Text → Throws Text
  pub json_parse : Text → Throws ChannelConfig
  pub message_of : Error → Text
  pub show_id : ℕ → Text
  pub channels : ChannelPorts

pub record EvaluateTransitionInput : Type 0 where
  pub org_id : ℕ
  pub entity_type : AlertEntityType
  pub entity_id : ℕ
  pub previous_status : Text
  pub new_status : Text

pub record EvaluateDirectConditionInput : Type 0 where
  pub org_id : ℕ
  pub entity_type : AlertEntityType
  pub entity_id : ℕ
  pub condition : Text
  pub message : Text

-- alert-message.builder.ts, with the suffix that the two statuses give.
unfoldable pub build_alert_message :
    (ℕ → Text) → AlertEntityType → ℕ → Text → Option (Text × Text) → Text
build_alert_message show_id entity_type entity_id condition none =
    codes "["
    ++ (entity_type_text entity_type
        ++ (codes "] " ++ (condition ++ (codes " (entity " ++ (show_id entity_id ++ codes ")")))))
build_alert_message show_id entity_type entity_id condition (some (previous_status, new_status)) =
    (codes "["
      ++ (entity_type_text entity_type
          ++ (codes "] "
              ++ (condition ++ (codes " (entity " ++ (show_id entity_id ++ codes ")"))))))
    ++ (codes ": " ++ (previous_status ++ (codes " -> " ++ new_status)))

-- The row was sent by the rule for the entity.
abbrev pub is_send_of : ℕ → ℕ → AlertLog → Bool
is_send_of rule_id entity_id log =
    log.alert_rule_id == rule_id && log.entity_id == entity_id && is_sent log.delivery_status

abbrev pub is_some {ℓ} : {A : Type ℓ} → Option A → Bool
is_some none = false
is_some (some a) = true

abbrev pub cooldown_ms : AlertRule → ℕ
cooldown_ms rule = rule.cooldown_minutes * 60000

-- `firedAt > now - cooldown`, with the cooldown on the other side: dates before 1970 do not occur.
unfoldable pub is_within_cooldown : List AlertLog → ℕ → AlertRule → ℕ → Bool
is_within_cooldown logs now rule entity_id = is_some (
    find? (λ log. is_send_of rule.id entity_id log && ltb now (log.fired_at + cooldown_ms rule))
      logs)

unfoldable pub write_alert_log : Db → ℕ → AlertRule → ℕ → Text → Bool → Option Text → Db
write_alert_log db now rule entity_id message success error = record db {
  alert_logs =
      db.alert_logs
      ++ record {
        id = db.next_id;
        alert_rule_id = rule.id;
        entity_type = rule.entity_type;
        entity_id = entity_id;
        message = message;
        delivery_status = if success then AlertDeliveryStatus.sent else AlertDeliveryStatus.failed;
        error = error;
        fired_at = now;
      }
        ∷ [];
  next_id = suc db.next_id;
}

-- The rules that `dispatch` finds.
abbrev pub matches : ℕ → AlertEntityType → Text → AlertRule → Bool
matches org_id entity_type condition rule =
    rule.org_id == org_id
    && same_entity_type rule.entity_type entity_type
    && text_eq rule.condition condition
    && rule.enabled

module _ (ports : AlertPorts) (now : ℕ) where
  -- The body of the `try` of `evaluateRule`, without the log.
  unfoldable pub attempt : AlertRule → Text → Throws ChannelSendResult
  attempt rule message = do
    plain ← ports.decrypt rule.channel_config_encrypted
    config ← ports.json_parse plain
    adapter_send ports.channels rule.channel message config

  unfoldable pub log_attempt : Db → AlertRule → ℕ → Text → Throws ChannelSendResult → Db
  unfolding write_alert_log
  log_attempt db rule entity_id message (ok result) =
      write_alert_log db now rule entity_id message result.success result.error
  log_attempt db rule entity_id message (throw e) =
      write_alert_log db now rule entity_id message false (some (ports.message_of e))

  unfoldable pub evaluate_rule : Db → AlertRule → ℕ → Text → Db
  unfolding attempt log_attempt is_within_cooldown
  evaluate_rule db rule entity_id message =
      if is_within_cooldown db.alert_logs now rule entity_id
      then db
      else log_attempt db rule entity_id message (attempt rule message)

  -- The `for` loop over the rules.
  unfoldable pub evaluate_rules : Db → List AlertRule → ℕ → Text → Db
  unfolding evaluate_rule
  evaluate_rules db [] entity_id message = db
  evaluate_rules db (rule ∷ rules) entity_id message =
      evaluate_rules (evaluate_rule db rule entity_id message) rules entity_id message

  unfoldable pub dispatch : Db → ℕ → AlertEntityType → ℕ → Text → Text → Db
  unfolding evaluate_rules
  dispatch db org_id entity_type entity_id condition message =
      evaluate_rules db (filter (matches org_id entity_type condition) db.alert_rules) entity_id
        message

  unfoldable pub dispatch_transition : Db → EvaluateTransitionInput → Option Text → Db
  unfolding dispatch build_alert_message
  dispatch_transition db input none = db
  dispatch_transition db input (some condition) =
      dispatch db input.org_id input.entity_type input.entity_id condition (
        build_alert_message ports.show_id input.entity_type input.entity_id condition
          (some (input.previous_status, input.new_status)))

  unfoldable pub evaluate_transition : Db → EvaluateTransitionInput → Db
  unfolding dispatch_transition build_transition_condition
  evaluate_transition db input =
      if text_eq input.previous_status input.new_status
      then db
      else dispatch_transition db input
          (build_transition_condition input.entity_type input.new_status)

  unfoldable pub evaluate_direct_condition : Db → EvaluateDirectConditionInput → Db
  unfolding dispatch
  evaluate_direct_condition db input =
      dispatch db input.org_id input.entity_type input.entity_id input.condition input.message
