-- ===== src/Rollback/Jobs.antt =====
-- What one run of the job of src/rollback/rollback.processor.ts does to its event and to the rest.
use servers_manager.Base.{
  ℕ, ◌≡◌, ◌⊎◌, inl, inr, refl, sym, ap, ◌∙◌, Option, none, some, Text, codes, ◌==◌, ==_refl, find?,
  text_eq, Throws, ok, throw, Error, unique_violation, arith, Bool-cases,
}
use servers_manager.DockerRun.{DeploymentConfigBlob}
use servers_manager.DockerPs.{DockerPsContainer, DockerPsParseResult, parse_docker_ps_output}
use servers_manager.Container.Status.{
  ServiceStatus, running, same_service_status, classify_container_status, SshCommandResult,
}
use servers_manager.Db.{
  Db, Service, DeploymentSnapshot, RollbackEvent, RollbackEventStatus, RollbackLogEntry, write_log,
}
use servers_manager.Db.Table.{update_where, update_where-twice}
use servers_manager.Alerts.Frame.{evaluate_transition-IsAlerted}
use servers_manager.Snapshots.{decrypt_config, create_snapshot}
use servers_manager.Rollback.Processor.{
  RollbackPorts, with_entry, append_log, message_entry, alert_failure, failed_event, fail,
  succeeded_event, complete, succeed, conclude, check_recreated, done, check_message,
  recreated_service, is_taken, save_service,
}

-- How an event stands when the job's promise settles: resolved, it is terminal and dated; rejected,
-- it is still in progress.
abbrev pub Ended : ℕ → Throws (Unit {0}) → RollbackEvent → Type 0
Ended now (ok done) event =
    ((event.status ≡ RollbackEventStatus.succeeded) ⊎ (event.status ≡ RollbackEventStatus.failed))
    × (event.completed_at ≡ some now)
Ended now (throw e) event = event.status ≡ RollbackEventStatus.in_progress

-- The rows of one event's job: only the event's own row is written, with `final` at the end; a
-- failed job has left the services and the snapshots alone.
pub record Wrote (now : ℕ) (event : RollbackEvent) (before : Db) (out : Db × Throws (Unit {0}))
    : Type 0 where
  pub final : RollbackEvent
  pub rows :
      out.0.rollback_events
      ≡ update_where (λ row. row.id == event.id) (λ row. final) before.rollback_events
  pub same_id : final.id ≡ event.id
  pub same_service : final.service_id ≡ event.service_id
  pub ended : Ended now out.1 final
  pub kept :
      final.status ≡ RollbackEventStatus.failed
      → (out.0.services ≡ before.services) × (out.0.snapshots ≡ before.snapshots)

module _ (ports : RollbackPorts) (now : ℕ) where
  alert_failure-rows :
      (db : Db) (event : RollbackEvent) (previous : RollbackEventStatus) (org_id : Option ℕ)
      → let db' = alert_failure ports now db event previous org_id in
        (db'.rollback_events ≡ db.rollback_events)
        × (db'.services ≡ db.services)
        × (db'.snapshots ≡ db.snapshots)
  unfolding alert_failure
  alert_failure-rows db event previous none = (refl, refl, refl)
  alert_failure-rows db event previous (some org_id) =
      let h = evaluate_transition-IsAlerted ports.alerts now db _ in
      (ap (λ d. d.rollback_events) h, ap (λ d. d.services) h, ap (λ d. d.snapshots) h)

  -- Every failure path.
  pub fail-Wrote :
      (db : Db) (event : RollbackEvent) (reason : Text) (org_id : Option ℕ)
      → Wrote now event db (fail ports now db event reason org_id, ok tt)
  unfolding fail
  fail-Wrote db event reason org_id =
      let entry = message_entry now (codes "failure") reason in
      let (events, services, snapshots) =
        alert_failure-rows _ (failed_event ports now event reason) event.status org_id in
      record {
        final = failed_event ports now event reason;
        rows =
            events
            ∙ update_where-twice (λ row. row.id == event.id) (with_entry event entry)
                (failed_event ports now event reason) db.rollback_events (==_refl event.id);
        same_id = refl;
        same_service = refl;
        ended = (inr refl, refl);
        kept = λ h. (services, snapshots);
      }

  -- A log entry before the rest of the job.
  pub append_log-Wrote :
      (db : Db) (event : RollbackEvent) (entry : RollbackLogEntry) (out : Db × Throws (Unit {0}))
      → Wrote now (with_entry event entry) (append_log db event entry).0 out
      → Wrote now event db out
  unfolding append_log
  append_log-Wrote db event entry out w = record {
    final = w.final;
    rows =
        w.rows
        ∙ update_where-twice (λ row. row.id == event.id) (with_entry event entry) w.final
            db.rollback_events (==_refl event.id);
    same_id = w.same_id;
    same_service = w.same_service;
    ended = w.ended;
    kept = w.kept;
  }

  -- The event's row stands in the table as the job holds it, in progress.
  pub record IsHeld (db : Db) (event : RollbackEvent) : Type 0 where
    pub stored :
        db.rollback_events
        ≡ update_where (λ row. row.id == event.id) (λ row. event) db.rollback_events
    pub running : event.status ≡ RollbackEventStatus.in_progress

  pub append_log-IsHeld :
      (db : Db) (event : RollbackEvent) (entry : RollbackLogEntry)
      → event.status ≡ RollbackEventStatus.in_progress
      → IsHeld (append_log db event entry).0 (with_entry event entry)
  unfolding append_log
  append_log-IsHeld db event entry h = record {
    stored = sym (
        update_where-twice (λ row. row.id == event.id) (with_entry event entry)
          (with_entry event entry) db.rollback_events (==_refl event.id));
    running = h;
  }

  -- A job that throws with no further write to the events.
  pub throw-Wrote :
      (db saved : Db) (event : RollbackEvent) (e : Error)
      → saved.rollback_events ≡ db.rollback_events
      → IsHeld db event
      → Wrote now event db (saved, throw e)
  throw-Wrote db saved event e same h = record {
    final = event;
    rows = same ∙ h.stored;
    same_id = refl;
    same_service = refl;
    ended = h.running;
    kept = λ failed. absurd (ground (arith, h.running));
  }

  complete-Wrote :
      (db saved : Db) (event : RollbackEvent) (service : Service) (target : DeploymentSnapshot)
      (status : ServiceStatus) (config : DeploymentConfigBlob)
      → saved.rollback_events ≡ db.rollback_events
      → Wrote now event db (complete ports now saved event service target status config, ok tt)
  unfolding complete write_log create_snapshot
  complete-Wrote db saved event service target status config same = record {
    final = succeeded_event ports now event;
    rows =
        ap
          (λ rows.
            update_where (λ row. row.id == event.id) (λ row. succeeded_event ports now event) rows)
          same;
    same_id = refl;
    same_service = refl;
    ended = (inl refl, refl);
    kept = λ failed. absurd (ground arith);
  }

  succeed-Wrote :
      (db : Db) (event : RollbackEvent) (service : Service) (container_id : Text)
      (target : DeploymentSnapshot) (status : ServiceStatus)
      → IsHeld db event
      → Wrote now event db (succeed ports now db event service container_id target status)
  unfolding succeed save_service
  succeed-Wrote db event service container_id target status h =
      elim (Bool-cases (is_taken db service.id service.host_id container_id)) [
        | inl e ↦ rw (e, succeed) (throw-Wrote db db event unique_violation refl h)
        | inr e ↦
            rw (e, succeed) (go (decrypt_config ports.alerts.decrypt ports.parse_config target))
      ]
    where
      saved : Db
      saved = record db {
        services =
            update_where (λ row. row.id == service.id)
              (λ row. recreated_service ports now service container_id target status) db.services;
      }

      go :
          (t : Throws DeploymentConfigBlob)
          → Wrote now event db (elim t [
            | throw e ↦ (saved, throw e)
            | ok config ↦ done (complete ports now saved event service target status config)
          ])
      go (throw e) = throw-Wrote db saved event e refl h
      go (ok config) = complete-Wrote db saved event service target status config refl

  conclude-Wrote :
      (db : Db) (event : RollbackEvent) (service : Service) (target : DeploymentSnapshot)
      (recreated : Option DockerPsContainer)
      → IsHeld db event
      → Wrote now event db (conclude ports now db event service target recreated)
  unfolding conclude
  conclude-Wrote db event service target none h = fail-Wrote db event _ (some service.org_id)
  conclude-Wrote db event service target (some container) h =
      elim (Bool-cases (same_service_status (classify_container_status container.status) running)) [
        | inl e ↦ rw e (
            succeed-Wrote db event service container.id target
              (classify_container_status container.status) h)
        | inr e ↦ rw e (fail-Wrote db event _ (some service.org_id))
      ]

  pub check_recreated-Wrote :
      (db : Db) (event : RollbackEvent) (service : Service) (target : DeploymentSnapshot)
      (config : DeploymentConfigBlob) (ps : SshCommandResult)
      → IsHeld db event
      → Wrote now event db (check_recreated ports now db event service target config ps)
  unfolding check_recreated
  check_recreated-Wrote db event service target config ps h =
      go (parse_docker_ps_output ports.parse_ps_line ps.stdout)
    where
      listed : DockerPsParseResult → Option DockerPsContainer
      listed parsed = find? (λ c. text_eq c.names config.container_name) parsed.containers

      entry : DockerPsParseResult → RollbackLogEntry
      entry parsed =
          message_entry now (codes "post_rollback_health_check")
            (check_message ports now config (listed parsed))

      go :
          (t : Throws DockerPsParseResult)
          → Wrote now event db (elim t [
            | throw e ↦ (db, throw e)
            | ok parsed ↦
                conclude ports now
                  (append_log db event (entry parsed)).0
                  (with_entry event (entry parsed))
                  service
                  target
                  (listed parsed)
          ])
      go (throw e) = throw-Wrote db db event e refl h
      go (ok parsed) = append_log-Wrote db event (entry parsed) _ (
          conclude-Wrote _ (with_entry event (entry parsed)) service target (listed parsed)
            (append_log-IsHeld db event (entry parsed) h.running))
