-- ===== src/ServicesSync.antt =====
-- src/services/services-sync.service.ts: turning the `docker ps -a` output of a host's check into
-- service rows, with the deployment snapshots that a changed image asks for.
pub mod Missing
pub mod Upsert
use servers_manager.Base.{
  ℕ, suc, ◌+◌, Bool, true, false, not, ◌&&◌, Option, none, some, List, [], ◌∷◌, ◌++◌, Text, codes,
  truthy, ◌==◌, find?, filter, any, map, text_eq, if◌then◌else◌, Throws, ok, throw,
}
use servers_manager.DockerRun.{DeploymentConfigBlob}
use servers_manager.DockerPs.{
  DockerPsContainer, DockerPsParseResult, ParsedLine, parse_docker_ps_output, split_image_and_tag,
}
use servers_manager.Container.Status.{
  ServiceStatus, service_status_text, same_service_status, classify_container_status,
  SshCommandResult, is_zero, is_docker_missing,
}
use servers_manager.Container.Inspect.{ParsedInspect, parse_docker_inspect_output}
use servers_manager.Db.{
  Db, Host, Service, DeploymentSnapshot, AlertEntityType, HealthCheckEntityType, LogStatus,
  RawOutput, write_log,
}
use servers_manager.Db.Table.{update_where}
use servers_manager.Snapshots.{find_current_for_service, create_snapshot}
use servers_manager.Alerts.{AlertPorts, evaluate_transition}
use servers_manager.Ssh.{NodeSsh, run_commands, connection_of}

-- What the sync takes from the platform.
pub record SyncPorts : Type 0 where
  pub alerts : AlertPorts
  pub encrypt : Text → Text → Text
  pub stringify_config : DeploymentConfigBlob → Text
  pub parse_ps_line : Text → ParsedLine
  pub parse_inspect : Text → ParsedInspect
  pub to_lower : Text → Text
  pub ssh : NodeSsh
  pub iv : Text

-- The row that the unique index on (host, container) finds.
abbrev pub is_row_of : ℕ → Text → Service → Bool
is_row_of host_id container_id row = row.host_id == host_id && text_eq row.container_id container_id

-- The row as it is saved: the found one, or a new one, with the fields of this run.
unfoldable pub refreshed : Db → ℕ → Host → DockerPsContainer → Option Service → Service
refreshed db now host container none = record {
  id = db.next_id;
  org_id = host.org_id;
  host_id = host.id;
  container_id = container.id;
  container_name = container.names;
  image = (split_image_and_tag container.image).image;
  current_tag = (split_image_and_tag container.image).tag;
  status = classify_container_status container.status;
  port_mappings = if truthy container.ports then some container.ports else none;
  last_checked_at = now;
  created_at = now;
}
refreshed db now host container (some service) = record service {
  container_name = container.names;
  image = (split_image_and_tag container.image).image;
  current_tag = (split_image_and_tag container.image).tag;
  status = classify_container_status container.status;
  port_mappings = if truthy container.ports then some container.ports else none;
  last_checked_at = now;
}

-- `service.status ?? UNKNOWN`.
abbrev pub previous_status : Option Service → ServiceStatus
previous_status none = ServiceStatus.unknown
previous_status (some service) = service.status

unfoldable pub save_refreshed : Db → Option Service → Service → Db
save_refreshed db none saved = record db {
  services = db.services ++ saved ∷ [];
  next_id = suc db.next_id;
}
save_refreshed db (some service) saved = record db {
  services = update_where (λ row. row.id == saved.id) (λ row. saved) db.services;
}

abbrev pub same_image : Option DeploymentSnapshot → Text → Bool
same_image none image = false
same_image (some snapshot) image = text_eq snapshot.image_tag image

module _ (ports : SyncPorts) (now : ℕ) where
  -- The answer to `docker inspect`; what throws in here is caught and leaves things as they are.
  unfoldable pub capture_config :
      Db → Service → DockerPsContainer → Throws (Option DeploymentConfigBlob) → Db
  capture_config db service container (throw e) = db
  capture_config db service container (ok none) = db
  capture_config db service container (ok (some config)) =
      (create_snapshot ports.stringify_config ports.encrypt db ports.iv now (record {
        service_id = service.id;
        image_tag = container.image;
        config = config;
        deployed_at = now;
        deployed_by_id = none;
      })).0

  unfoldable pub capture_results :
      Db → Service → DockerPsContainer → Throws (List SshCommandResult) → Db
  unfolding capture_config
  capture_results db service container (throw e) = db
  capture_results db service container (ok []) = db
  capture_results db service container (ok (result ∷ results)) =
      if not (is_zero result.exit_code)
      then db
      else capture_config db service container
          (parse_docker_inspect_output ports.parse_inspect result.stdout)

  unfoldable pub capture_with_key : Db → Host → Service → DockerPsContainer → Throws Text → Db
  unfolding capture_results
  capture_with_key db host service container (throw e) = db
  capture_with_key db host service container (ok private_key) =
      capture_results db service container (
        run_commands ports.ssh (connection_of host private_key)
          ((codes "docker inspect " ++ container.id) ∷ []))

  unfoldable pub capture_snapshot_if_image_changed : Db → Host → Service → DockerPsContainer → Db
  unfolding capture_with_key
  capture_snapshot_if_image_changed db host service container =
      if same_image (find_current_for_service db service.id) container.image
      then db
      else capture_with_key db host service container (ports.alerts.decrypt host.ssh_key_encrypted)

  abbrev pub container_output : DockerPsContainer → RawOutput
  container_output container =
      RawOutput.container_row container.id container.names container.image container.status
        container.ports

  -- `upsertService` behind the `findOne`.
  unfoldable pub upsert_found : Db → Host → DockerPsContainer → Option Service → Db
  unfolding refreshed save_refreshed capture_snapshot_if_image_changed
  upsert_found db host container found =
      let saved = refreshed db now host container found in
      let logged =
        write_log (save_refreshed db found saved) now HealthCheckEntityType.service saved.id
          (LogStatus.service_status saved.status) (container_output container) in
      let alerted = evaluate_transition ports.alerts now logged (record {
        org_id = host.org_id;
        entity_type = AlertEntityType.service;
        entity_id = saved.id;
        previous_status = service_status_text (previous_status found);
        new_status = service_status_text saved.status;
      }) in
      capture_snapshot_if_image_changed alerted host saved container

  unfoldable pub upsert_service : Db → Host → DockerPsContainer → Db
  unfolding upsert_found
  upsert_service db host container =
      upsert_found db host container (find? (is_row_of host.id container.id) db.services)

  unfoldable pub upsert_all : Db → Host → List DockerPsContainer → Db
  unfolding upsert_service
  upsert_all db host [] = db
  upsert_all db host (container ∷ containers) =
      upsert_all (upsert_service db host container) host containers

  -- A row of the host that this run did not see and that is not marked yet.
  abbrev pub is_missing : Host → List Text → Service → Bool
  is_missing host seen row =
      row.host_id == host.id
      && not (any (λ id. text_eq id row.container_id) seen)
      && not (same_service_status row.status ServiceStatus.unknown)

  abbrev pub gone : Service → Service
  gone service = record service { status = ServiceStatus.unknown; last_checked_at = now }

  -- One round of the loop: the row is saved and logged.
  unfoldable pub mark_one : Db → Service → Db
  mark_one db service =
      let saved = record db {
        services = update_where (λ row. row.id == service.id) (λ row. gone service) db.services;
      } in
      write_log saved now HealthCheckEntityType.service service.id
        (LogStatus.service_status ServiceStatus.unknown) RawOutput.container_gone

  unfoldable pub mark_unknown : Db → List Service → Db
  unfolding mark_one
  mark_unknown db [] = db
  mark_unknown db (service ∷ missing) = mark_unknown (mark_one db service) missing

  unfoldable pub mark_missing_services_unknown : Db → Host → List Text → Db
  unfolding mark_unknown
  mark_missing_services_unknown db host seen =
      mark_unknown db (filter (is_missing host seen) db.services)

  unfoldable pub sync_parsed : Db → Host → Throws DockerPsParseResult → Db × Throws (Unit {0})
  unfolding upsert_all mark_missing_services_unknown
  sync_parsed db host (throw e) = (db, throw e)
  sync_parsed db host (ok parsed) = (
    mark_missing_services_unknown (upsert_all db host parsed.containers) host
        (map (λ c. c.id) parsed.containers),
    ok tt,
  )

  unfoldable pub sync : Db → Host → SshCommandResult → Db × Throws (Unit {0})
  unfolding sync_parsed
  sync db host docker_ps_result =
      if is_docker_missing ports.to_lower docker_ps_result
      then (db, ok tt)
      else sync_parsed db host (parse_docker_ps_output ports.parse_ps_line docker_ps_result.stdout)
