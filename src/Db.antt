-- ===== src/Db.antt =====
-- The tables of the database as lists of rows, oldest first, with the queues that the jobs go to.
-- Ids are numbers: the code only compares them. Dates are milliseconds since the epoch.
mod Rows
pub mod Table
pub mod Query
pub mod Cascade
pub mod Ids
pub use Rows.{
  HostProvider, HostStatus, Host, Service, DeploymentSnapshot, RollbackEventStatus,
  RollbackLogEntry, RollbackEvent, AlertEntityType, AlertChannel, AlertRule, AlertDeliveryStatus,
  AlertLog, DomainDnsStatus, Domain, JsDate, SslCertificateStatus, SslCertificate, InsightFlag,
  InsightState, UserRole, User, Organization, CloudProvider, CloudAccount, HealthCheckEntityType,
  LogStatus, RawOutput, HealthCheckLog,
}
use servers_manager.Base.{ℕ, suc, ◌+◌, List, ◌++◌, ◌∷◌, []}

pub record Db : Type 0 where
  pub hosts : List Host
  pub services : List Service
  pub snapshots : List DeploymentSnapshot
  pub rollback_events : List RollbackEvent
  pub alert_rules : List AlertRule
  pub alert_logs : List AlertLog
  pub health_check_logs : List HealthCheckLog
  pub domains : List Domain
  pub ssl_certificates : List SslCertificate
  pub insight_states : List InsightState
  pub organizations : List Organization
  pub users : List User
  pub cloud_accounts : List CloudAccount
  -- the data of the jobs that wait: host ids, domain ids, rollback event ids
  pub health_check_queue : List ℕ
  pub domain_check_queue : List ℕ
  pub rollback_queue : List ℕ
  -- the id that the next inserted row gets
  pub next_id : ℕ

-- src/health-check-log/health-check-log.service.ts: `write`.
unfoldable pub write_log : Db → ℕ → HealthCheckEntityType → ℕ → LogStatus → RawOutput → Db
write_log db now entity_type entity_id status raw_output = record db {
  health_check_logs =
      db.health_check_logs
      ++ record {
        id = db.next_id;
        entity_type = entity_type;
        entity_id = entity_id;
        status = status;
        raw_output = raw_output;
        checked_at = now;
      }
        ∷ [];
  next_id = suc db.next_id;
}
