-- ===== src/Responses/Events.antt =====
-- What the API shows of a service with its logs, of rollback events and of alert logs, and the
-- handlers of their controllers.
use servers_manager.Base.{ℕ, Option, List, map, Text, Throws, ok, ◌>>=◌}
use servers_manager.Db.{Db, Service, AlertEntityType, AlertDeliveryStatus, AlertLog, HealthCheckLog}
use servers_manager.AlertRules.{ListAlertLogsQueryDto, find_logs_for_org}
use servers_manager.Rollback.{
  find_service_for_org_or_throw, find_one_for_org_or_throw, list_for_org,
}
use servers_manager.Services as Services
use servers_manager.Responses.{
  HealthCheckLogResponseDto, to_health_check_log_response_dto, ServiceResponseDto,
  to_service_response_dto, RollbackEventResponseDto, to_rollback_event_response_dto,
}

pub record ServiceDetailResponseDto : Type 0 where
  pub service : ServiceResponseDto
  pub recent_logs : List HealthCheckLogResponseDto

unfoldable pub to_service_detail_response_dto :
    Service → List HealthCheckLog → ServiceDetailResponseDto
to_service_detail_response_dto service logs = record {
  service = to_service_response_dto service;
  recent_logs = map to_health_check_log_response_dto logs;
}

unfoldable pub get_service : Db → ℕ → ℕ → Throws ServiceDetailResponseDto
get_service db org_id id = do
  service ← find_service_for_org_or_throw db org_id id
  ok (to_service_detail_response_dto service (Services.get_recent_logs db service.id))

unfoldable pub get_rollback_events : Db → ℕ → List RollbackEventResponseDto
get_rollback_events db org_id = map to_rollback_event_response_dto (list_for_org db org_id)

unfoldable pub get_rollback_event : Db → ℕ → ℕ → Throws RollbackEventResponseDto
get_rollback_event db org_id id = do
  event ← find_one_for_org_or_throw db org_id id
  ok (to_rollback_event_response_dto event)

pub record AlertLogResponseDto : Type 0 where
  pub id : ℕ
  pub alert_rule_id : ℕ
  pub entity_type : AlertEntityType
  pub entity_id : ℕ
  pub message : Text
  pub delivery_status : AlertDeliveryStatus
  pub error : Option Text
  pub fired_at : ℕ

unfoldable pub to_alert_log_response_dto : AlertLog → AlertLogResponseDto
to_alert_log_response_dto log = record {
  id = log.id;
  alert_rule_id = log.alert_rule_id;
  entity_type = log.entity_type;
  entity_id = log.entity_id;
  message = log.message;
  delivery_status = log.delivery_status;
  error = log.error;
  fired_at = log.fired_at;
}

unfoldable pub get_alert_logs : Db → ℕ → ListAlertLogsQueryDto → List AlertLogResponseDto
get_alert_logs db org_id query = map to_alert_log_response_dto (find_logs_for_org db org_id query)
