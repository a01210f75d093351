-- ===== src/Rollback/Settled.antt =====
-- The whole job of src/rollback/rollback.processor.ts: how its event stands at the end.
use servers_manager.Base.{
  ℕ, ◌≡◌, refl, sym, ◌∙◌, Bool, true, false, not, Option, none, some, List, [], ◌∷◌, ◌++◌, Text,
  codes, ◌==◌, ==_refl, find?, if◌then◌else◌, Throws, ok, throw,
}
use servers_manager.DockerRun.{DeploymentConfigBlob}
use servers_manager.Container.Status.{SshCommandResult, is_zero}
use servers_manager.Db.{Db, Host, Service, DeploymentSnapshot, RollbackEvent, RollbackLogEntry}
use servers_manager.Db.Table.{update_where-twice}
use servers_manager.Snapshots.{decrypt_config}
use servers_manager.Ssh.{run_commands, connection_of}
use servers_manager.Rollback.Processor.{
  RollbackPorts, save_event, with_entry, append_log, to_log_entry, fail, check_recreated,
  after_commands, rollback_commands, run_rollback, with_config, with_key, with_target, with_host,
  with_service, started_event, process, done, or_text,
}
use servers_manager.Rollback.Jobs.{
  Wrote, fail-Wrote, append_log-Wrote, IsHeld, append_log-IsHeld, throw-Wrote,
  check_recreated-Wrote,
}

module _ (ports : RollbackPorts) (now : ℕ) where
  after_commands-Wrote :
      (db : Db) (event : RollbackEvent) (service : Service) (target : DeploymentSnapshot)
      (config : DeploymentConfigBlob) (results : List SshCommandResult)
      → IsHeld ports now db event
      → Wrote now event db (after_commands ports now db event service target config results)
  unfolding after_commands append_log
  after_commands-Wrote db event service target config (stopped ∷ removed ∷ run ∷ ps ∷ rest) h =
      append_log-Wrote ports now db event e1 _ (
        append_log-Wrote ports now _ (with_entry event e1) e2 _ (
          append_log-Wrote ports now _ (with_entry (with_entry event e1) e2) e3 _ (
            append_log-Wrote ports now _ (with_entry (with_entry (with_entry event e1) e2) e3) e4 _
              decided)))
    where
      e1 : RollbackLogEntry
      e1 = to_log_entry now (codes "stop_container") stopped

      e2 : RollbackLogEntry
      e2 = to_log_entry now (codes "remove_container") removed

      e3 : RollbackLogEntry
      e3 = to_log_entry now (codes "start_container") run

      e4 : RollbackLogEntry
      e4 = to_log_entry now (codes "list_containers") ps

      event4 : RollbackEvent
      event4 = with_entry (with_entry (with_entry (with_entry event e1) e2) e3) e4

      db3 : Db
      db3 =
          save_event
            (save_event (save_event db (with_entry event e1)) (with_entry (with_entry event e1) e2))
            (with_entry (with_entry (with_entry event e1) e2) e3)

      reason : Text
      reason =
          codes "docker run failed: "
          ++ or_text run.stderr (or_text run.stdout (codes "unknown error"))

      go :
          (b : Bool)
          → Wrote now event4 (save_event db3 event4) (
              if b
              then (
                fail ports now (save_event db3 event4) event4 reason (some service.org_id),
                ok tt,
              )
              else check_recreated ports now
                  (save_event db3 event4)
                  event4
                  service
                  target
                  config
                  ps)
      go true = fail-Wrote ports now (save_event db3 event4) event4 reason (some service.org_id)
      go false =
          check_recreated-Wrote ports now (save_event db3 event4) event4 service target config ps (
            append_log-IsHeld ports now db3 (with_entry (with_entry (with_entry event e1) e2) e3) e4
              h.running)

      decided : Wrote now event4 (save_event db3 event4) (
          if not (is_zero run.exit_code)
          then (fail ports now (save_event db3 event4) event4 reason (some service.org_id), ok tt)
          else check_recreated ports now (save_event db3 event4) event4 service target config ps)
      decided = go (not (is_zero run.exit_code))
  after_commands-Wrote db event service target config [] h =
      throw-Wrote ports now db db event _ refl h
  after_commands-Wrote db event service target config (a ∷ []) h =
      throw-Wrote ports now db db event _ refl h
  after_commands-Wrote db event service target config (a ∷ b ∷ []) h =
      throw-Wrote ports now db db event _ refl h
  after_commands-Wrote db event service target config (a ∷ b ∷ c ∷ []) h =
      throw-Wrote ports now db db event _ refl h

  run_rollback-Wrote :
      (db : Db) (event : RollbackEvent) (service : Service) (host : Host)
      (target : DeploymentSnapshot) (private_key : Text) (config : DeploymentConfigBlob)
      → IsHeld ports now db event
      → Wrote now event db (run_rollback ports now db event service host target private_key config)
  unfolding run_rollback
  run_rollback-Wrote db event service host target private_key config h = go (
      run_commands ports.ssh (connection_of host private_key)
        (rollback_commands ports now service config target))
    where
      go :
          (t : Throws (List SshCommandResult))
          → Wrote now event db (elim t [
            | throw e ↦ done (
                fail ports now db event
                  (codes "SSH connection to host failed: " ++ ports.alerts.message_of e)
                  (some service.org_id))
            | ok results ↦ after_commands ports now db event service target config results
          ])
      go (throw e) = fail-Wrote ports now db event _ (some service.org_id)
      go (ok results) = after_commands-Wrote db event service target config results h

  with_key-Wrote :
      (db : Db) (event : RollbackEvent) (service : Service) (host : Host)
      (target : DeploymentSnapshot) (key : Throws Text)
      → IsHeld ports now db event
      → Wrote now event db (with_key ports now db event service host target key)
  unfolding with_key
  with_key-Wrote db event service host target (throw e) h =
      fail-Wrote ports now db event _ (some service.org_id)
  with_key-Wrote db event service host target (ok private_key) h =
      go (decrypt_config ports.alerts.decrypt ports.parse_config target)
    where
      go :
          (t : Throws DeploymentConfigBlob)
          → Wrote now event db (with_config ports now db event service host target private_key t)
      go (throw e) = throw-Wrote ports now db db event e refl h
      go (ok config) = run_rollback-Wrote db event service host target private_key config h

  with_service-Wrote :
      (db : Db) (event : RollbackEvent) (service : Option Service)
      → IsHeld ports now db event
      → Wrote now event db (with_service ports now db event service)
  unfolding with_service with_host with_target
  with_service-Wrote db event none h = fail-Wrote ports now db event _ none
  with_service-Wrote db event (some service) h =
      go (find? (λ row. row.id == service.host_id) db.hosts)
    where
      go_target :
          (host : Host) (target : Option DeploymentSnapshot)
          → Wrote now event db (with_target ports now db event service host target)
      go_target host none = fail-Wrote ports now db event _ (some service.org_id)
      go_target host (some target) =
          with_key-Wrote db event service host target (ports.alerts.decrypt host.ssh_key_encrypted)
            h

      go : (host : Option Host) → Wrote now event db (with_host ports now db event service host)
      go none = fail-Wrote ports now db event _ (some service.org_id)
      go (some host) = go_target host (find? (λ row. row.id == event.to_snapshot_id) db.snapshots)

  pub process-Wrote :
      (db : Db) (event_id : ℕ) (event : RollbackEvent)
      → find? (λ row. row.id == event_id) db.rollback_events ≡ some event
      → Wrote now event db (process ports now db event_id)
  unfolding process save_event
  process-Wrote db event_id event found = rw found (
      let w =
        with_service-Wrote (save_event db (started_event ports now event))
          (started_event ports now event) (find? (λ row. row.id == event.service_id) db.services)
          (record {
            stored = sym (
                update_where-twice (λ row. row.id == event.id) (started_event ports now event)
                  (started_event ports now event) db.rollback_events (==_refl event.id));
            running = refl;
          }) in
      record {
        final = w.final;
        rows =
            w.rows
            ∙ update_where-twice (λ row. row.id == event.id) (started_event ports now event) w.final
                db.rollback_events (==_refl event.id);
        same_id = w.same_id;
        same_service = w.same_service;
        ended = w.ended;
        kept = w.kept;
      })
