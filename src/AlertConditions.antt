-- ===== src/AlertConditions.antt =====
-- The conditions that an alert rule may have, as src/alerts/alert-condition.ts admits them and as
-- frontend/src/lib/alertConditions.ts offers them.
pub mod Offered
use servers_manager.Base.{Bool, Option, none, some, List, [], ◌∷◌, Text, codes, text_eq, any, find?}
use servers_manager.Db.{AlertEntityType}

-- ALERT_CONDITIONS, which the DTO of a rule admits.
abbrev pub alert_conditions : List Text
alert_conditions =
    codes "host_status_transitioned_to:unreachable"
    ∷ codes "host_status_transitioned_to:degraded"
    ∷ codes "ssl_status_transitioned_to:expiring_soon"
    ∷ codes "ssl_status_transitioned_to:expired"
    ∷ codes "service_status_transitioned_to:crash_loop"
    ∷ codes "service_status_transitioned_to:unhealthy"
    ∷ codes "rollback_event:failed"
    ∷ codes "system:idle_host_detected"
    ∷ codes "system:orphan_detected"
    ∷ []

unfoldable pub is_alert_condition : Text → Bool
is_alert_condition condition = any (λ c. text_eq c condition) alert_conditions

pub record AlertConditionOption : Type 0 where
  pub value : Text
  pub label : Text
  pub entity_type : AlertEntityType

abbrev option_of : Text → Text → AlertEntityType → AlertConditionOption
option_of value label entity_type = record {
  value = value;
  label = label;
  entity_type = entity_type;
}

abbrev pub alert_condition_options : List AlertConditionOption
alert_condition_options =
    option_of (codes "host_status_transitioned_to:unreachable") (codes "A host becomes unreachable")
      AlertEntityType.host
    ∷ option_of (codes "host_status_transitioned_to:degraded") (codes "A host becomes degraded")
        AlertEntityType.host
    ∷ option_of (codes "ssl_status_transitioned_to:expiring_soon")
        (codes "An SSL certificate is expiring soon") AlertEntityType.ssl_certificate
    ∷ option_of (codes "ssl_status_transitioned_to:expired") (codes "An SSL certificate expires")
        AlertEntityType.ssl_certificate
    ∷ option_of (codes "service_status_transitioned_to:crash_loop")
        (codes "A service enters a crash loop") AlertEntityType.service
    ∷ option_of (codes "service_status_transitioned_to:unhealthy")
        (codes "A service becomes unhealthy") AlertEntityType.service
    ∷ option_of (codes "rollback_event:failed") (codes "A rollback fails")
        AlertEntityType.rollback_event
    ∷ option_of (codes "system:idle_host_detected") (codes "An idle host is detected")
        AlertEntityType.system
    ∷ option_of (codes "system:orphan_detected") (codes "An orphaned domain or host is detected")
        AlertEntityType.system
    ∷ []

unfoldable pub find_alert_condition_option : Text → Option AlertConditionOption
find_alert_condition_option value =
    find? (λ option. text_eq option.value value) alert_condition_options

unfoldable pub label_or : Text → Option AlertConditionOption → Text
label_or value none = value
label_or value (some option) = option.label

unfoldable pub describe_alert_condition : Text → Text
unfolding label_or find_alert_condition_option
describe_alert_condition value = label_or value (find_alert_condition_option value)
