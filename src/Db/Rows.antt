-- ===== src/Db/Rows.antt =====
-- The rows of the tables: the entity classes, with the enums that they store.
use servers_manager.Base.{ℕ, Bool, Option, List, Text}
use servers_manager.Container.Status.{ServiceStatus}

-- src/hosts/entities/host.entity.ts
pub data HostProvider : Type 0 where
  azure vmware ovh aws digitalocean bare_metal other : HostProvider

pub data HostStatus : Type 0 where
  unknown healthy degraded unreachable pending_setup : HostStatus

pub record Host : Type 0 where
  pub id : ℕ
  pub org_id : ℕ
  pub name : Text
  pub provider : HostProvider
  pub ip_address : Text
  pub ssh_port : ℕ
  pub ssh_user : Text
  pub ssh_key_encrypted : Text
  pub ssh_public_key : Text
  pub status : HostStatus
  pub last_checked_at : Option ℕ
  pub setup_verified_at : Option ℕ
  pub created_at : ℕ

-- src/services/entities/service.entity.ts; of the port mappings the raw text.
pub record Service : Type 0 where
  pub id : ℕ
  pub org_id : ℕ
  pub host_id : ℕ
  pub container_id : Text
  pub container_name : Text
  pub image : Text
  pub current_tag : Option Text
  pub status : ServiceStatus
  pub port_mappings : Option Text
  pub last_checked_at : ℕ
  pub created_at : ℕ

-- src/deployment-snapshots/entities/deployment-snapshot.entity.ts
pub record DeploymentSnapshot : Type 0 where
  pub id : ℕ
  pub service_id : ℕ
  pub image_tag : Text
  pub config_blob : Text
  pub deployed_at : ℕ
  pub deployed_by_id : Option ℕ
  pub is_current : Bool
  pub created_at : ℕ

-- src/rollback/entities/rollback-event.entity.ts
pub data RollbackEventStatus : Type 0 where
  pending in_progress succeeded failed : RollbackEventStatus

pub record RollbackLogEntry : Type 0 where
  pub timestamp : ℕ
  pub step : Text
  pub command : Option Text
  pub exit_code : Option (Option ℕ)
  pub stdout : Option Text
  pub stderr : Option Text
  pub message : Option Text

pub record RollbackEvent : Type 0 where
  pub id : ℕ
  pub service_id : ℕ
  pub from_snapshot_id : ℕ
  pub to_snapshot_id : ℕ
  pub triggered_by_id : ℕ
  pub status : RollbackEventStatus
  pub log_output : List RollbackLogEntry
  pub initiated_at : ℕ
  pub completed_at : Option ℕ

-- src/alerts/entities/alert-rule.entity.ts
pub data AlertEntityType : Type 0 where
  host domain ssl_certificate service rollback_event system : AlertEntityType

pub data AlertChannel : Type 0 where
  slack email : AlertChannel

pub record AlertRule : Type 0 where
  pub id : ℕ
  pub org_id : ℕ
  pub name : Text
  pub entity_type : AlertEntityType
  pub condition : Text
  pub channel : AlertChannel
  pub channel_config_encrypted : Text
  pub cooldown_minutes : ℕ
  pub enabled : Bool
  pub created_at : ℕ

-- src/alerts/entities/alert-log.entity.ts
pub data AlertDeliveryStatus : Type 0 where
  sent failed : AlertDeliveryStatus

pub record AlertLog : Type 0 where
  pub id : ℕ
  pub alert_rule_id : ℕ
  pub entity_type : AlertEntityType
  pub entity_id : ℕ
  pub message : Text
  pub delivery_status : AlertDeliveryStatus
  pub error : Option Text
  pub fired_at : ℕ

-- src/domains/entities/domain.entity.ts
pub data DomainDnsStatus : Type 0 where
  unknown resolving not_resolving : DomainDnsStatus

pub record Domain : Type 0 where
  pub id : ℕ
  pub org_id : ℕ
  pub host_id : Option ℕ
  pub hostname : Text
  pub registrar : Option Text
  pub domain_expires_at : Option ℕ
  pub dns_status : DomainDnsStatus
  pub resolved_ip : Option Text
  pub last_checked_at : Option ℕ
  pub created_at : ℕ

-- A `Date` that a text was read into: its time is NaN where the text is no date.
pub data JsDate : Type 0 where
  at : ℕ → JsDate
  invalid_date : JsDate

-- src/domains/entities/ssl-certificate.entity.ts
pub data SslCertificateStatus : Type 0 where
  unknown valid expiring_soon expired invalid : SslCertificateStatus

pub record SslCertificate : Type 0 where
  pub id : ℕ
  pub domain_id : ℕ
  pub issuer : Option Text
  pub valid_from : Option JsDate
  pub valid_to : Option JsDate
  pub status : SslCertificateStatus
  pub last_checked_at : Option ℕ
  pub created_at : ℕ

-- src/insights/entities/insight-state.entity.ts
pub data InsightFlag : Type 0 where
  idle_host orphaned_domain orphaned_host : InsightFlag

pub record InsightState : Type 0 where
  pub id : ℕ
  pub entity_id : ℕ
  pub flag : InsightFlag
  pub active : Bool
  pub updated_at : ℕ

-- src/users/entities/user.entity.ts and src/common/constants/roles.constant.ts
pub data UserRole : Type 0 where
  admin : UserRole

pub record User : Type 0 where
  pub id : ℕ
  pub org_id : ℕ
  pub email : Text
  pub password_hash : Text
  pub role : UserRole
  pub created_at : ℕ

-- src/organizations/entities/organization.entity.ts
pub record Organization : Type 0 where
  pub id : ℕ
  pub name : Text
  pub created_at : ℕ

-- src/cloud-accounts/entities/cloud-account.entity.ts
pub data CloudProvider : Type 0 where
  vercel render aws azure gcp ovh cloudflare : CloudProvider

pub record CloudAccount : Type 0 where
  pub id : ℕ
  pub org_id : ℕ
  pub provider : CloudProvider
  pub label : Text
  pub api_key_encrypted : Text
  pub connected_at : ℕ
  pub created_at : ℕ

-- src/health-check-log/entities/health-check-log.entity.ts
pub data HealthCheckEntityType : Type 0 where
  host domain ssl_certificate service : HealthCheckEntityType

-- The status of a log row is free text; these are the labels that the checkers write.
pub data LogStatus : Type 0 where
  host_status : HostStatus → LogStatus
  service_status : ServiceStatus → LogStatus
  dns_status : DomainDnsStatus → LogStatus
  ssl_status : SslCertificateStatus → LogStatus
  whois_ok whois_failed skipped : LogStatus

-- The `raw_output` of a log row, by the place that writes it; the words are the code's labels.
pub data RawOutput : Type 0 where
  ssh_failure : (error reason : Text) → RawOutput
  command_results :
      (uptime_exit docker_exit : Option ℕ) → (uptime_out docker_out : Text) → RawOutput
  container_row : (container_id names image status ports : Text) → RawOutput
  container_gone : RawOutput
  rolled_back : (rollback_event_id : ℕ) → (image_tag : Text) → RawOutput
  dns_check whois_check tls_check : RawOutput
  dns_did_not_resolve : RawOutput

pub record HealthCheckLog : Type 0 where
  pub id : ℕ
  pub entity_type : HealthCheckEntityType
  pub entity_id : ℕ
  pub status : LogStatus
  pub raw_output : RawOutput
  pub checked_at : ℕ
