-- ===== src/HealthCheck.antt =====
-- src/health-check/health-check.processor.ts and src/health-check/health-check-status-mapper.ts:
-- the SSH check of a host, with the alert and the service sync behind it.
pub mod Setup
use servers_manager.Base.{
  ℕ, suc, Bool, true, false, not, ◌&&◌, Option, none, some, List, [], ◌∷◌, ◌++◌, map, Text, codes,
  ◌==◌, find?, if◌then◌else◌, Throws, ok, throw, Error, type_error,
}
use servers_manager.Container.Status.{SshCommandResult, is_zero, is_docker_missing}
use servers_manager.Db.{
  Db, Host, HostStatus, AlertEntityType, HealthCheckEntityType, LogStatus, RawOutput, write_log,
}
use servers_manager.Db.Table.{update_where}
use servers_manager.Alerts.{evaluate_transition}
use servers_manager.Ssh.{run_commands, connection_of}
use servers_manager.ServicesSync.{SyncPorts, sync}

-- src/hosts/entities/health-check-status.enum.ts
pub data HealthCheckStatus : Type 0 where
  healthy degraded unreachable pending_setup : HealthCheckStatus

pub record HealthCheckOutcome : Type 0 where
  pub status : HealthCheckStatus
  pub raw_output : RawOutput

-- The table `HEALTH_CHECK_STATUS_TO_HOST_STATUS`.
abbrev pub to_host_status : HealthCheckStatus → HostStatus
to_host_status healthy = HostStatus.healthy
to_host_status degraded = HostStatus.degraded
to_host_status unreachable = HostStatus.unreachable
to_host_status pending_setup = HostStatus.pending_setup

-- The set `SUCCESSFUL_CONNECTION_STATUSES`.
abbrev pub is_successful_connection : HealthCheckStatus → Bool
is_successful_connection healthy = true
is_successful_connection degraded = true
is_successful_connection unreachable = false
is_successful_connection pending_setup = false

-- The values of the enum `HostStatus`.
abbrev pub host_status_text : HostStatus → Text
host_status_text HostStatus.unknown = codes "unknown"
host_status_text HostStatus.healthy = codes "healthy"
host_status_text HostStatus.degraded = codes "degraded"
host_status_text HostStatus.unreachable = codes "unreachable"
host_status_text HostStatus.pending_setup = codes "pending_setup"

-- `auth_failure` is whether ssh2 tags the error as a refusal of every key.
unfoldable pub map_ssh_failure_to_outcome :
    (auth_failure : Bool) → (message : Text) → (setup_verified_at : Option ℕ) → HealthCheckOutcome
map_ssh_failure_to_outcome true message none = record {
  status = pending_setup;
  raw_output = RawOutput.ssh_failure message (codes "key_not_installed");
}
map_ssh_failure_to_outcome true message (some at) = record {
  status = unreachable;
  raw_output = RawOutput.ssh_failure message (codes "auth_revoked");
}
map_ssh_failure_to_outcome false message setup_verified_at = record {
  status = unreachable;
  raw_output = RawOutput.ssh_failure message (codes "network_unreachable");
}

unfoldable pub command_status :
    (Text → Text) → SshCommandResult → SshCommandResult → HealthCheckStatus
command_status to_lower uptime docker =
    if not (is_zero uptime.exit_code)
    then degraded
    else if not (is_zero docker.exit_code) && not (is_docker_missing to_lower docker)
    then degraded
    else healthy

-- A session answers both commands; fewer results would be read as `undefined`.
unfoldable pub map_command_results_to_outcome :
    (Text → Text) → List SshCommandResult → Throws HealthCheckOutcome
unfolding command_status
map_command_results_to_outcome to_lower (uptime ∷ docker ∷ rest) = ok (record {
  status = command_status to_lower uptime docker;
  raw_output =
      RawOutput.command_results uptime.exit_code docker.exit_code uptime.stdout docker.stdout;
})
map_command_results_to_outcome to_lower _ = throw type_error

-- What the check takes from the platform besides the ports of the sync.
pub record CheckPorts : Type 0 where
  pub sync : SyncPorts
  pub is_auth_failure : Error → Bool

-- The outcome with the results, if the session answered.
abbrev pub Checked : Type 0
Checked = HealthCheckOutcome × Option (List SshCommandResult)

module _ (ports : CheckPorts) (now : ℕ) where
  abbrev pub failure_outcome : Host → Error → Checked
  failure_outcome host e = (
    map_ssh_failure_to_outcome (ports.is_auth_failure e) (ports.sync.alerts.message_of e)
        host.setup_verified_at,
    none,
  )

  -- The mapping of the results stands in the same `try` as the session.
  unfoldable pub read_results : Host → List SshCommandResult → Throws HealthCheckOutcome → Checked
  unfolding map_ssh_failure_to_outcome
  read_results host results (throw e) = failure_outcome host e
  read_results host results (ok outcome) = (outcome, some results)

  unfoldable pub read_session : Host → Throws (List SshCommandResult) → Checked
  unfolding read_results map_command_results_to_outcome
  read_session host (throw e) = failure_outcome host e
  read_session host (ok results) =
      read_results host results (map_command_results_to_outcome ports.sync.to_lower results)

  unfoldable pub run_with_key : Host → Throws Text → Checked
  unfolding read_session
  run_with_key host (throw e) = failure_outcome host e
  run_with_key host (ok private_key) = read_session host (
      run_commands ports.sync.ssh (connection_of host private_key)
        (codes "uptime" ∷ codes "docker ps -a --format '{{json .}}'" ∷ []))

  unfoldable pub run_check : Host → Checked
  unfolding run_with_key
  run_check host = run_with_key host (ports.sync.alerts.decrypt host.ssh_key_encrypted)

  abbrev pub verified_at : HealthCheckStatus → Option ℕ → Option ℕ
  verified_at status (some at) = some at
  verified_at status none = if is_successful_connection status then some now else none

  -- The row as the check saves it.
  unfoldable pub checked_host : Host → HealthCheckOutcome → Host
  checked_host host outcome = record host {
    status = to_host_status outcome.status;
    last_checked_at = some now;
    setup_verified_at = verified_at outcome.status host.setup_verified_at;
  }

  unfoldable pub sync_results : Db → Host → Option (List SshCommandResult) → Db × Throws (Unit {0})
  sync_results db host (some (uptime ∷ docker ∷ rest)) = sync ports.sync now db host docker
  sync_results db host (some _) = (db, throw type_error)
  sync_results db host none = (db, ok tt)

  unfoldable pub check_found : Db → Host → Checked → Db × Throws (Unit {0})
  unfolding checked_host sync_results
  check_found db host (outcome, results) =
      let logged =
        write_log db now HealthCheckEntityType.host host.id
          (LogStatus.host_status (to_host_status outcome.status)) outcome.raw_output in
      let saved = record logged {
        hosts = update_where (λ row. row.id == host.id) (λ row. checked_host host outcome) db.hosts;
      } in
      let alerted = evaluate_transition ports.sync.alerts now saved (record {
        org_id = host.org_id;
        entity_type = AlertEntityType.host;
        entity_id = host.id;
        previous_status = host_status_text host.status;
        new_status = host_status_text (to_host_status outcome.status);
      }) in
      sync_results alerted (checked_host host outcome) results

  unfoldable pub check_row : Db → Option Host → Db × Throws (Unit {0})
  unfolding check_found run_check
  check_row db none = (db, ok tt)
  check_row db (some host) = check_found db host (run_check host)

  unfoldable pub check_host : Db → ℕ → Db × Throws (Unit {0})
  unfolding check_row
  check_host db host_id = check_row db (find? (λ row. row.id == host_id) db.hosts)

-- The tick: one job for each host.
unfoldable pub enqueue_check_for_all_hosts : Db → Db
enqueue_check_for_all_hosts db = record db {
  health_check_queue = db.health_check_queue ++ map (λ host. host.id) db.hosts;
}

-- The data of a job: a tick, or a host.
pub data HostJob : Type 0 where
  tick : HostJob
  check : ℕ → HostJob

unfoldable pub process : CheckPorts → ℕ → Db → HostJob → Db × Throws (Unit {0})
unfolding enqueue_check_for_all_hosts check_host
process ports now db tick = (enqueue_check_for_all_hosts db, ok tt)
process ports now db (check host_id) = check_host ports now db host_id
