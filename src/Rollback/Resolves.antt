-- ===== src/Rollback/Resolves.antt =====
-- When the job of src/rollback/rollback.processor.ts resolves, so that its event ends.
use servers_manager.Base.{
  ℕ, ◌≡◌, ◌≢◌, ◌⊎◌, Option, none, some, List, [], ◌∷◌, Text, ◌==◌, find?, Throws, ok, throw,
}
use servers_manager.DockerRun.{DeploymentConfigBlob}
use servers_manager.Container.Status.{SshCommandResult}
use servers_manager.Db.{Db, Host, Service, DeploymentSnapshot, RollbackEvent, RollbackEventStatus}
use servers_manager.Snapshots.{decrypt_config}
use servers_manager.Ssh.{run_commands, connection_of}
use servers_manager.Rollback.Processor.{RollbackPorts, is_taken, rollback_commands}
use servers_manager.Base.{All, false, text_eq}
use servers_manager.DockerPs.{null_value, non_blank_lines, parse_docker_ps_output}

-- The event with the id, as the table holds it at the end.
abbrev pub IsSettled : ℕ → ℕ → Db → Type 0
IsSettled now event_id db =
    (final : RollbackEvent) × (find? (λ row. row.id == event_id) db.rollback_events ≡ some final)
    × ((final.status ≡ RollbackEventStatus.succeeded) ⊎ (final.status ≡ RollbackEventStatus.failed))
    × (final.completed_at ≡ some now)

-- What holds of a row if there is one, and of what a promise resolves to if it does.
abbrev pub IfFound : {A : Type 0} → Option A → (A → Type 0) → Type 0
IfFound none P = Unit {0}
IfFound (some a) P = P a

abbrev pub IfOk : {A : Type 0} → Throws A → (A → Type 0) → Type 0
IfOk (throw e) P = Unit {0}
IfOk (ok a) P = P a

-- The promise resolves, with what holds.
abbrev pub IsOkWith : {A : Type 0} → Throws A → (A → Type 0) → Type 0
IsOkWith (throw e) P = ⊥
IsOkWith (ok a) P = P a

-- What the last command, `docker ps`, printed.
abbrev pub ps_output : List SshCommandResult → Text
ps_output (stopped ∷ removed ∷ run ∷ ps ∷ rest) = ps.stdout
ps_output _ = []

module _ (ports : RollbackPorts) (db : Db) where
  -- No line that `docker ps` printed is the JSON value `null`, and the container that it lists under
  -- the name is no other service's.
  abbrev pub IsClean : Service → DeploymentConfigBlob → Text → Type 0
  IsClean service config stdout =
      All (λ line. ports.parse_ps_line line ≢ null_value) (non_blank_lines stdout)
      × IfOk (parse_docker_ps_output ports.parse_ps_line stdout) (λ parsed.
        IfFound (find? (λ c. text_eq c.names config.container_name) parsed.containers)
          (λ container. is_taken db service.id service.host_id container.id ≡ false))

  -- The commands, if the session answers them.
  abbrev pub RunsClean : Service → Host → DeploymentSnapshot → Text → DeploymentConfigBlob → Type 0
  RunsClean service host target private_key config =
      IfOk
        (run_commands ports.ssh (connection_of host private_key)
          (rollback_commands ports 0 service config target))
        (λ results. IsClean service config (ps_output results))

  -- The configuration of the snapshot that the event goes back to can be read, and the commands run
  -- clean; asked only as far as the rows are there and the key can be decrypted.
  abbrev pub IsPrepared : RollbackEvent → Type 0
  IsPrepared event = IfFound (find? (λ row. row.id == event.service_id) db.services) (λ service.
      IfFound (find? (λ row. row.id == service.host_id) db.hosts) (λ host.
        IfFound (find? (λ row. row.id == event.to_snapshot_id) db.snapshots) (λ target.
          IfOk (ports.alerts.decrypt host.ssh_key_encrypted) (λ private_key.
            IsOkWith (decrypt_config ports.alerts.decrypt ports.parse_config target)
              (λ config. RunsClean service host target private_key config)))))
