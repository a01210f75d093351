-- ===== src/Responses.antt =====
-- What the API shows of the rows: the *.mapper.ts files of src, and the handlers of the controllers
-- that list with them.
pub mod Domains
pub mod Events
pub mod Replaced
pub mod Rekeyed
pub mod Undisclosed
use servers_manager.Base.{ℕ, Bool, Option, none, some, List, [], ◌∷◌, map, Text, Throws, ok, throw}
use servers_manager.Container.Status.{ServiceStatus}
use servers_manager.Db.{
  Db, HostProvider, HostStatus, Host, Service, DeploymentSnapshot, RollbackEventStatus,
  RollbackLogEntry, RollbackEvent, AlertEntityType, AlertChannel, AlertRule, AlertDeliveryStatus,
  AlertLog, DomainDnsStatus, Domain, JsDate, SslCertificateStatus, SslCertificate, LogStatus,
  RawOutput, HealthCheckLog,
}
use servers_manager.Hosts.Bootstrap.{build_bootstrap_command}
use servers_manager.Hosts
use servers_manager.AlertRules
use servers_manager.Snapshots.{find_history_for_service}
use servers_manager.Rollback.{find_service_for_org_or_throw}

pub record HealthCheckLogResponseDto : Type 0 where
  pub id : ℕ
  pub status : LogStatus
  pub raw_output : RawOutput
  pub checked_at : ℕ

abbrev pub to_health_check_log_response_dto : HealthCheckLog → HealthCheckLogResponseDto
to_health_check_log_response_dto log = record {
  id = log.id;
  status = log.status;
  raw_output = log.raw_output;
  checked_at = log.checked_at;
}

pub record HostResponseDto : Type 0 where
  pub id : ℕ
  pub name : Text
  pub provider : HostProvider
  pub ip_address : Text
  pub ssh_port : ℕ
  pub ssh_user : Text
  pub ssh_public_key : Text
  pub status : HostStatus
  pub last_checked_at : Option ℕ
  pub setup_verified_at : Option ℕ
  pub created_at : ℕ

unfoldable pub to_host_response_dto : Host → HostResponseDto
to_host_response_dto host = record {
  id = host.id;
  name = host.name;
  provider = host.provider;
  ip_address = host.ip_address;
  ssh_port = host.ssh_port;
  ssh_user = host.ssh_user;
  ssh_public_key = host.ssh_public_key;
  status = host.status;
  last_checked_at = host.last_checked_at;
  setup_verified_at = host.setup_verified_at;
  created_at = host.created_at;
}

pub record HostDetailResponseDto : Type 0 where
  pub host : HostResponseDto
  pub recent_logs : List HealthCheckLogResponseDto

unfoldable pub to_host_detail_response_dto : Host → List HealthCheckLog → HostDetailResponseDto
unfolding to_host_response_dto
to_host_detail_response_dto host logs = record {
  host = to_host_response_dto host;
  recent_logs = map to_health_check_log_response_dto logs;
}

pub record CreateHostResponseDto : Type 0 where
  pub host : HostResponseDto
  pub bootstrap_command : Text

unfoldable pub to_create_host_response_dto : Host → CreateHostResponseDto
unfolding to_host_response_dto
to_create_host_response_dto host = record {
  host = to_host_response_dto host;
  bootstrap_command = build_bootstrap_command host.ssh_public_key;
}

pub record SetupInstructionsResponseDto : Type 0 where
  pub ssh_public_key : Text
  pub bootstrap_command : Text

unfoldable pub to_setup_instructions_response_dto : Host → SetupInstructionsResponseDto
to_setup_instructions_response_dto host = record {
  ssh_public_key = host.ssh_public_key;
  bootstrap_command = build_bootstrap_command host.ssh_public_key;
}

pub record ServiceResponseDto : Type 0 where
  pub id : ℕ
  pub host_id : ℕ
  pub container_id : Text
  pub container_name : Text
  pub image : Text
  pub current_tag : Option Text
  pub status : ServiceStatus
  pub port_mappings : Option Text
  pub last_checked_at : ℕ
  pub created_at : ℕ

unfoldable pub to_service_response_dto : Service → ServiceResponseDto
to_service_response_dto service = record {
  id = service.id;
  host_id = service.host_id;
  container_id = service.container_id;
  container_name = service.container_name;
  image = service.image;
  current_tag = service.current_tag;
  status = service.status;
  port_mappings = service.port_mappings;
  last_checked_at = service.last_checked_at;
  created_at = service.created_at;
}

pub record DeploymentSnapshotResponseDto : Type 0 where
  pub id : ℕ
  pub image_tag : Text
  pub deployed_at : ℕ
  pub deployed_by : Option ℕ
  pub is_current : Bool
  pub created_at : ℕ

unfoldable pub to_deployment_snapshot_response_dto :
    DeploymentSnapshot → DeploymentSnapshotResponseDto
to_deployment_snapshot_response_dto snapshot = record {
  id = snapshot.id;
  image_tag = snapshot.image_tag;
  deployed_at = snapshot.deployed_at;
  deployed_by = snapshot.deployed_by_id;
  is_current = snapshot.is_current;
  created_at = snapshot.created_at;
}

pub record RollbackEventResponseDto : Type 0 where
  pub id : ℕ
  pub service_id : ℕ
  pub from_snapshot_id : ℕ
  pub to_snapshot_id : ℕ
  pub triggered_by : ℕ
  pub status : RollbackEventStatus
  pub log_output : List RollbackLogEntry
  pub initiated_at : ℕ
  pub completed_at : Option ℕ

unfoldable pub to_rollback_event_response_dto : RollbackEvent → RollbackEventResponseDto
to_rollback_event_response_dto event = record {
  id = event.id;
  service_id = event.service_id;
  from_snapshot_id = event.from_snapshot_id;
  to_snapshot_id = event.to_snapshot_id;
  triggered_by = event.triggered_by_id;
  status = event.status;
  log_output = event.log_output;
  initiated_at = event.initiated_at;
  completed_at = event.completed_at;
}

pub record AlertRuleResponseDto : Type 0 where
  pub id : ℕ
  pub name : Text
  pub entity_type : AlertEntityType
  pub condition : Text
  pub channel : AlertChannel
  pub cooldown_minutes : ℕ
  pub enabled : Bool
  pub created_at : ℕ

unfoldable pub to_alert_rule_response_dto : AlertRule → AlertRuleResponseDto
to_alert_rule_response_dto rule = record {
  id = rule.id;
  name = rule.name;
  entity_type = rule.entity_type;
  condition = rule.condition;
  channel = rule.channel;
  cooldown_minutes = rule.cooldown_minutes;
  enabled = rule.enabled;
  created_at = rule.created_at;
}

-- The handlers that read.
unfoldable pub get_hosts : Db → ℕ → List HostResponseDto
unfolding to_host_response_dto
get_hosts db org_id = map to_host_response_dto (Hosts.find_all_for_org db org_id)

unfoldable pub get_host : Db → ℕ → ℕ → Throws HostDetailResponseDto
unfolding to_host_detail_response_dto
get_host db org_id id = elim (Hosts.find_host_for_org_or_throw db org_id id) [
  | throw e ↦ throw e
  | ok host ↦ ok (to_host_detail_response_dto host (Hosts.get_recent_logs db host.id))
]

unfoldable pub get_setup_instructions : Db → ℕ → ℕ → Throws SetupInstructionsResponseDto
unfolding to_setup_instructions_response_dto
get_setup_instructions db org_id id = elim (Hosts.find_host_for_org_or_throw db org_id id) [
  | throw e ↦ throw e
  | ok host ↦ ok (to_setup_instructions_response_dto host)
]

unfoldable pub get_alert_rules : Db → ℕ → List AlertRuleResponseDto
unfolding to_alert_rule_response_dto
get_alert_rules db org_id = map to_alert_rule_response_dto (AlertRules.find_all_for_org db org_id)

unfoldable pub get_alert_rule : Db → ℕ → ℕ → Throws AlertRuleResponseDto
unfolding to_alert_rule_response_dto
get_alert_rule db org_id id = elim (AlertRules.find_rule_for_org_or_throw db org_id id) [
  | throw e ↦ throw e
  | ok rule ↦ ok (to_alert_rule_response_dto rule)
]

unfoldable pub get_snapshots : Db → ℕ → ℕ → Throws (List DeploymentSnapshotResponseDto)
unfolding to_deployment_snapshot_response_dto
get_snapshots db org_id service_id = elim (find_service_for_org_or_throw db org_id service_id) [
  | throw e ↦ throw e
  | ok service ↦
      ok (map to_deployment_snapshot_response_dto (find_history_for_service db service.id))
]
