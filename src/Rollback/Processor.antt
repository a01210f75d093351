-- ===== src/Rollback/Processor.antt =====
-- src/rollback/rollback.processor.ts: the job that stops, removes, recreates and checks a container.
-- A handler returns the database and whether its promise resolves. `new Date()` is the job's `now`.
use servers_manager.Base.{
  ℕ, not, Option, none, some, List, [], ◌∷◌, ◌++◌, Text, codes, ◌==◌, find?, text_eq, if◌then◌else◌,
  Throws, ok, throw, type_error, unique_violation, Bool, any, ◌&&◌,
}
use servers_manager.DockerRun.{DeploymentConfigBlob, build_docker_run_command}
use servers_manager.DockerPs.{
  DockerPsContainer, ParsedLine, parse_docker_ps_output, split_image_and_tag,
}
use servers_manager.Container.Status.{
  ServiceStatus, running, service_status_text, same_service_status, classify_container_status,
  SshCommandResult, is_zero,
}
use servers_manager.Db.{
  Db, Host, Service, DeploymentSnapshot, RollbackEvent, RollbackEventStatus, RollbackLogEntry,
  AlertEntityType, HealthCheckEntityType, LogStatus, RawOutput, write_log,
}
use servers_manager.Db.Table.{update_where}
use servers_manager.Snapshots.{decrypt_config, create_snapshot}
use servers_manager.Alerts.{AlertPorts, evaluate_transition}
use servers_manager.Ssh.{NodeSsh, run_commands, connection_of}
use servers_manager.Rollback.{rollback_status_text}

-- What the job takes from the platform.
pub record RollbackPorts : Type 0 where
  pub alerts : AlertPorts
  pub encrypt : Text → Text → Text
  pub stringify_config : DeploymentConfigBlob → Text
  pub parse_config : Text → Throws DeploymentConfigBlob
  pub parse_ps_line : Text → ParsedLine
  pub ssh : NodeSsh
  -- the random bytes of the job's call of `encrypt`
  pub iv : Text

abbrev pub Result : Type 0
Result = Db × Throws (Unit {0})

abbrev pub done : Db → Result
done db = (db, ok tt)

-- `repository.save` of an event that the table holds.
unfoldable pub save_event : Db → RollbackEvent → Db
save_event db event = record db {
  rollback_events = update_where (λ row. row.id == event.id) (λ row. event) db.rollback_events;
}

-- Another service has this container of the host.
abbrev pub is_taken : Db → ℕ → ℕ → Text → Bool
is_taken db id host_id container_id =
    any
      (λ row.
        not (row.id == id) && (row.host_id == host_id && text_eq row.container_id container_id))
      db.services

-- `repository.save` of a service that the table holds, under the unique index on the host and the
-- container.
unfoldable pub save_service : Db → Service → Throws Db
save_service db service =
    if is_taken db service.id service.host_id service.container_id
    then throw unique_violation
    else ok (record db {
      services = update_where (λ row. row.id == service.id) (λ row. service) db.services;
    })

abbrev pub with_entry : RollbackEvent → RollbackLogEntry → RollbackEvent
with_entry event entry = record event { log_output = event.log_output ++ entry ∷ [] }

-- `appendLog`: the event is changed in place and saved.
unfoldable pub append_log : Db → RollbackEvent → RollbackLogEntry → Db × RollbackEvent
unfolding save_event
append_log db event entry = (save_event db (with_entry event entry), with_entry event entry)

abbrev pub message_entry : ℕ → Text → Text → RollbackLogEntry
message_entry now step message = record {
  timestamp = now;
  step = step;
  command = none;
  exit_code = none;
  stdout = none;
  stderr = none;
  message = some message;
}

abbrev pub to_log_entry : ℕ → Text → SshCommandResult → RollbackLogEntry
to_log_entry now step result = record {
  timestamp = now;
  step = step;
  command = some result.command;
  exit_code = some result.exit_code;
  stdout = some result.stdout;
  stderr = some result.stderr;
  message = none;
}

-- `a || b` on strings.
abbrev pub or_text : Text → Text → Text
or_text [] b = b
or_text (c ∷ a) b = c ∷ a

module _ (ports : RollbackPorts) (now : ℕ) where
  unfoldable pub alert_failure : Db → RollbackEvent → RollbackEventStatus → Option ℕ → Db
  alert_failure db event previous none = db
  alert_failure db event previous (some org_id) = evaluate_transition ports.alerts now db (record {
    org_id = org_id;
    entity_type = AlertEntityType.rollback_event;
    entity_id = event.id;
    previous_status = rollback_status_text previous;
    new_status = rollback_status_text event.status;
  })

  -- The event as `fail` leaves it.
  abbrev pub failed_event : RollbackEvent → Text → RollbackEvent
  failed_event event reason = record event {
    log_output = event.log_output ++ message_entry now (codes "failure") reason ∷ [];
    status = RollbackEventStatus.failed;
    completed_at = some now;
  }

  unfoldable pub fail : Db → RollbackEvent → Text → Option ℕ → Db
  unfolding append_log alert_failure save_event
  fail db event reason org_id =
      let logged = (append_log db event (message_entry now (codes "failure") reason)).0 in
      alert_failure (save_event logged (failed_event event reason)) (failed_event event reason)
        event.status org_id

  abbrev pub succeeded_event : RollbackEvent → RollbackEvent
  succeeded_event event = record event {
    status = RollbackEventStatus.succeeded;
    completed_at = some now;
  }

  abbrev pub recreated_service : Service → Text → DeploymentSnapshot → ServiceStatus → Service
  recreated_service service container_id target status =
      let cut = split_image_and_tag target.image_tag in
      record service {
        container_id = container_id;
        image = cut.image;
        current_tag = cut.tag;
        status = status;
        last_checked_at = now;
      }

  -- What `succeed` does once the configuration is decrypted: the snapshot, the log row, the event.
  unfoldable pub complete :
      Db → RollbackEvent → Service → DeploymentSnapshot → ServiceStatus → DeploymentConfigBlob → Db
  unfolding save_event
  complete db event service target status config =
      let captured =
        (create_snapshot ports.stringify_config ports.encrypt db ports.iv now (record {
          service_id = service.id;
          image_tag = target.image_tag;
          config = config;
          deployed_at = now;
          deployed_by_id = some event.triggered_by_id;
        })).0 in
      let logged =
        write_log captured now HealthCheckEntityType.service service.id
          (LogStatus.service_status status) (RawOutput.rolled_back event.id target.image_tag) in
      save_event logged (succeeded_event event)

  unfoldable pub succeed :
      Db → RollbackEvent → Service → Text → DeploymentSnapshot → ServiceStatus → Result
  unfolding complete save_service decrypt_config
  succeed db event service container_id target status =
      elim (save_service db (recreated_service service container_id target status)) [
        | throw e ↦ (db, throw e)
        | ok saved ↦ elim (decrypt_config ports.alerts.decrypt ports.parse_config target) [
          | throw e ↦ (saved, throw e)
          | ok config ↦ done (complete saved event service target status config)
        ]
      ]

  abbrev pub status_of : Option DockerPsContainer → ServiceStatus
  status_of none = ServiceStatus.unknown
  status_of (some container) = classify_container_status container.status

  unfoldable pub check_message : DeploymentConfigBlob → Option DockerPsContainer → Text
  check_message config none =
      codes "Container \""
      ++ config.container_name
      ++ codes "\" not found in docker ps -a output after recreation"
  check_message config (some container) =
      codes "Container \""
      ++ config.container_name
      ++ codes "\" classified as "
      ++ service_status_text (classify_container_status container.status)

  -- The last test: the recreated container is listed and runs.
  unfoldable pub conclude :
      Db → RollbackEvent → Service → DeploymentSnapshot → Option DockerPsContainer → Result
  unfolding fail succeed
  conclude db event service target none = done (
      fail db event (codes "Post-rollback health check failed: container status is \"unknown\"")
        (some service.org_id))
  conclude db event service target (some container) =
      let status = classify_container_status container.status in
      if same_service_status status running
      then succeed db event service container.id target status
      else done (
          fail db event
            (codes "Post-rollback health check failed: container status is \""
              ++ service_status_text status
              ++ codes "\"")
            (some service.org_id))

  -- `docker ps -a` after the recreation.
  unfoldable pub check_recreated :
      Db
      → RollbackEvent
      → Service
      → DeploymentSnapshot
      → DeploymentConfigBlob
      → SshCommandResult
      → Result
  unfolding append_log check_message conclude parse_docker_ps_output
  check_recreated db event service target config ps_result =
      elim (parse_docker_ps_output ports.parse_ps_line ps_result.stdout) [
        | throw e ↦ (db, throw e)
        | ok parsed ↦
            let recreated = find? (λ c. text_eq c.names config.container_name) parsed.containers in
            let (db', event') = append_log db event (
              message_entry now (codes "post_rollback_health_check")
                (check_message config recreated)) in
            conclude db' event' service target recreated
      ]

  -- The four results are logged; then the exit code of `docker run` decides. A session answers
  -- every command, so that there are four; fewer would be read as `undefined`.
  unfoldable pub after_commands :
      Db
      → RollbackEvent
      → Service
      → DeploymentSnapshot
      → DeploymentConfigBlob
      → List SshCommandResult
      → Result
  unfolding append_log check_recreated fail
  after_commands db event service target config (stopped ∷ removed ∷ run ∷ ps ∷ rest) =
      let (db1, event1) = append_log db event (to_log_entry now (codes "stop_container") stopped) in
      let (db2, event2) =
        append_log db1 event1 (to_log_entry now (codes "remove_container") removed) in
      let (db3, event3) = append_log db2 event2 (to_log_entry now (codes "start_container") run) in
      let (db4, event4) = append_log db3 event3 (to_log_entry now (codes "list_containers") ps) in
      if not (is_zero run.exit_code)
      then done (
          fail db4 event4
            (codes "docker run failed: "
              ++ or_text run.stderr (or_text run.stdout (codes "unknown error")))
            (some service.org_id))
      else check_recreated db4 event4 service target config ps
  after_commands db event service target config _ = (db, throw type_error)

  abbrev pub rollback_commands : Service → DeploymentConfigBlob → DeploymentSnapshot → List Text
  rollback_commands service config target =
      (codes "docker stop " ++ service.container_id)
      ∷ (codes "docker rm " ++ service.container_id)
      ∷ build_docker_run_command config target.image_tag
      ∷ codes "docker ps -a --format '{{json .}}'"
      ∷ []

  unfoldable pub run_rollback :
      Db
      → RollbackEvent
      → Service
      → Host
      → DeploymentSnapshot
      → Text
      → DeploymentConfigBlob
      → Result
  unfolding after_commands fail
  run_rollback db event service host target private_key config =
      elim (run_commands ports.ssh (connection_of host private_key)
        (rollback_commands service config target)) [
          | throw e ↦ done (
              fail db event (codes "SSH connection to host failed: " ++ ports.alerts.message_of e)
                (some service.org_id))
          | ok results ↦ after_commands db event service target config results
        ]

  -- `decryptConfig` stands in the outer `try`, which has a `finally` and no `catch`.
  unfoldable pub with_config :
      Db
      → RollbackEvent
      → Service
      → Host
      → DeploymentSnapshot
      → Text
      → Throws DeploymentConfigBlob
      → Result
  unfolding run_rollback
  with_config db event service host target private_key (throw e) = (db, throw e)
  with_config db event service host target private_key (ok config) =
      run_rollback db event service host target private_key config

  unfoldable pub with_key :
      Db → RollbackEvent → Service → Host → DeploymentSnapshot → Throws Text → Result
  unfolding with_config fail decrypt_config
  with_key db event service host target (throw e) = done (
      fail db event (codes "Failed to decrypt SSH key: " ++ ports.alerts.message_of e)
        (some service.org_id))
  with_key db event service host target (ok private_key) =
      with_config db event service host target private_key
        (decrypt_config ports.alerts.decrypt ports.parse_config target)

  unfoldable pub with_target :
      Db → RollbackEvent → Service → Host → Option DeploymentSnapshot → Result
  unfolding with_key fail
  with_target db event service host none =
      done (fail db event (codes "Target snapshot no longer exists") (some service.org_id))
  with_target db event service host (some target) =
      with_key db event service host target (ports.alerts.decrypt host.ssh_key_encrypted)

  unfoldable pub with_host : Db → RollbackEvent → Service → Option Host → Result
  unfolding with_target fail
  with_host db event service none =
      done (fail db event (codes "Host no longer exists") (some service.org_id))
  with_host db event service (some host) =
      with_target db event service host (find? (λ row. row.id == event.to_snapshot_id) db.snapshots)

  unfoldable pub with_service : Db → RollbackEvent → Option Service → Result
  unfolding with_host fail
  with_service db event none = done (fail db event (codes "Service no longer exists") none)
  with_service db event (some service) =
      with_host db event service (find? (λ row. row.id == service.host_id) db.hosts)

  abbrev pub started_event : RollbackEvent → RollbackEvent
  started_event event = record event { status = RollbackEventStatus.in_progress }

  unfoldable pub process_event : Db → Option RollbackEvent → Result
  unfolding with_service save_event
  process_event db none = done db
  process_event db (some event) =
      let started = save_event db (started_event event) in
      with_service started (started_event event)
        (find? (λ row. row.id == event.service_id) started.services)

  unfoldable pub process : Db → ℕ → Result
  unfolding process_event
  process db event_id = process_event db (find? (λ row. row.id == event_id) db.rollback_events)
