-- ===== src/Tests/AlertRuns.antt =====
-- A failed rollback of the sample organization, reported at time 5000 and again within the cooldown.
use servers_manager.Base.{◌≡◌, refl, none, [], ◌∷◌, codes, text_eq, count, arith}
use servers_manager.Db.{Db, AlertEntityType, AlertLog, AlertDeliveryStatus}
use servers_manager.Alerts.{
  EvaluateTransitionInput, EvaluateDirectConditionInput, evaluate_transition,
  build_transition_condition, is_within_cooldown,
}
use servers_manager.Alerts.Cooldown.{Spaced, evaluate_transition-Spaced}
use servers_manager.Alerts.Delivery.{is_log_of, evaluate_transition-count}
use servers_manager.Tests.Samples.{alert_ports, db}

abbrev failed_rollback : EvaluateTransitionInput
failed_rollback = record {
  org_id = 1;
  entity_type = AlertEntityType.rollback_event;
  entity_id = 50;
  previous_status = codes "in_progress";
  new_status = codes "failed";
}

abbrev sent_before : AlertLog
sent_before = record {
  id = 45;
  alert_rule_id = 40;
  entity_type = AlertEntityType.rollback_event;
  entity_id = 50;
  message = [];
  delivery_status = AlertDeliveryStatus.sent;
  error = none;
  fired_at = 5000;
}

abbrev db_alerted : Db
db_alerted = record db { alert_logs = sent_before ∷ [] }

evaluate_transition-Spaced_example :
    Spaced 40 50 1800000
      (evaluate_transition alert_ports 6000 db_alerted failed_rollback).alert_logs
evaluate_transition-Spaced_example =
    evaluate_transition-Spaced alert_ports 6000 40 50 1800000 db_alerted failed_rollback
      ((λ e. refl), tt) ((λ h. tt), tt)

abbrev reported : EvaluateDirectConditionInput
reported = record {
  org_id = 1;
  entity_type = AlertEntityType.rollback_event;
  entity_id = 50;
  condition = codes "rollback_event:failed";
  message = codes "again";
}

evaluate_transition-count_example :
    count (is_log_of 40 50) (evaluate_transition alert_ports 5000 db failed_rollback).alert_logs ≡ 1
unfolding text_eq is_within_cooldown
evaluate_transition-count_example =
    evaluate_transition-count alert_ports 5000 db failed_rollback (codes "rollback_event:failed") 40
      (tt, tt) (λ e. ground arith) (unfold build_transition_condition text_eq in refl)
