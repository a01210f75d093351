-- ===== src/Tests/RollbackRuns.antt =====
-- A rollback of the sample service to its first snapshot, asked for by user 7 at time 1000.
use servers_manager.Base.{
  ℕ, ◌≡◌, ◌≢◌, refl, false, none, some, [], ◌∷◌, codes, map, Throws, ok, throw, error, arith, count,
  text_eq, includes, split_on, trim, truthy, if◌then◌else◌,
}
use servers_manager.Container.Status.{SshCommandResult, classify_container_status}
use servers_manager.Db.{Db, write_log, RollbackEvent, RollbackEventStatus}
use servers_manager.Db.Table.{update_where}
use servers_manager.Ssh.{run_commands}
use servers_manager.Snapshots.{
  CreateSnapshotInput, is_current_of, find_current_for_service, decrypt_config, create_snapshot,
}
use servers_manager.Snapshots.Current.{
  create_snapshot-count, create_snapshot-find_current, decrypt_config-create_snapshot,
}
use servers_manager.Rollback.{Checked, pending_event, enqueue_rollback, commit_rollback}
use servers_manager.Rollback.Unqueued.{commit_rollback-unqueued}
use servers_manager.Rollback.Requests.{IsChecked, IsEnqueued, enqueue_rollback-accepted}
use servers_manager.Rollback.Processor.{RollbackPorts, process}
use servers_manager.DockerPs.{null_value, value}
use servers_manager.Rollback.Exclusion.{
  IsExclusive, nothing, step, commit, work, Reaches-IsExclusive,
}
use servers_manager.Rollback.Stuck.{process_stuck}
use servers_manager.Crypto.{encrypt, decrypt}
use servers_manager.Tests.CheckRuns.{node, vector}
use servers_manager.Tests.Samples.{
  alert_ports, raw_web, config, ports, broken_ports, host, service, snapshot, db,
}

abbrev event : RollbackEvent
event = pending_event db 1000 20 31 30 7

abbrev db_queued : Db
db_queued = record db { rollback_events = event ∷ []; rollback_queue = 50 ∷ []; next_id = 51 }

enqueued : enqueue_rollback db 1000 1 20 30 7 (ok tt) ≡ (db_queued, ok event)
unfolding enqueue_rollback
enqueued = refl

enqueue_rollback-accepted_example :
    (c : Checked) × IsChecked db 1 20 30 c × IsEnqueued db db_queued c 7 event
enqueue_rollback-accepted_example =
    enqueue_rollback-accepted db db_queued 1000 1 20 30 7 (ok tt) event enqueued

rolled_back :
    map (λ r. r.status) (process ports 2000 db_queued 50).0.rollback_events
    ≡ RollbackEventStatus.succeeded ∷ []
unfolding process create_snapshot update_where run_commands text_eq split_on trim
    classify_container_status includes write_log
rolled_back = refl

-- A platform on which texts that are no configurations and the line `null` are told apart.
abbrev strict_ports : RollbackPorts
strict_ports = record ports {
  alerts = record alert_ports {
    decrypt = λ text. if truthy text then ok text else throw (error (codes "too short"));
  };
  parse_config = λ text. if truthy text then ok config else throw (error (codes "no JSON"));
  parse_ps_line = λ line. if text_eq line (codes "null") then null_value else value raw_web;
}

abbrev checked : Checked
checked = record { service_id = 20; to_snapshot_id = 30; from_snapshot_id = 31 }

committed : (commit_rollback db 1000 7 checked (ok tt)).0 ≡ db_queued
unfolding commit_rollback
committed = refl

start-IsExclusive : IsExclusive db
start-IsExclusive = record { unique_ids = λ id. omega arith; one_active = λ id. omega arith }

Reaches-IsExclusive_example :
    IsExclusive (process ports 2000 (commit_rollback db 1000 7 checked (ok tt)).0 50).0
unfolding commit_rollback
Reaches-IsExclusive_example = Reaches-IsExclusive ports start-IsExclusive (
    step (step nothing (commit db 1000 7 checked (ok tt) refl))
      (work (commit_rollback db 1000 7 checked (ok tt)).0 2000 50 event refl refl))

process_stuck_example :
    ((process broken_ports 2000 db_queued 50).1 ≡ throw (error (codes "bad JSON")))
    × ((later org_id target_id user_id : ℕ) (queue_add : Throws (Unit {0}))
          (accepted : RollbackEvent)
        → (enqueue_rollback
            (process broken_ports 2000 db_queued 50).0
            later
            org_id
            20
            target_id
            user_id
            queue_add).1
          ≢ ok accepted)
process_stuck_example =
    process_stuck broken_ports 2000 50 db_queued event service host
      (snapshot 30 (codes "app:1") false) (codes "key") (error (codes "bad JSON")) refl refl refl
      refl refl (unfold decrypt_config in refl)

abbrev uptime_result : SshCommandResult
uptime_result = record {
  command = codes "uptime";
  stdout = codes "{}";
  stderr = [];
  exit_code = some 0;
}

abbrev input : CreateSnapshotInput
input = record {
  service_id = 20;
  image_tag = codes "app:3";
  config = config;
  deployed_at = 9;
  deployed_by_id = none;
}

create_snapshot-count_example :
    count
      (is_current_of 20)
      (create_snapshot ports.stringify_config ports.encrypt db [] 9 input).0.snapshots
    ≡ 1
create_snapshot-count_example =
    create_snapshot-count ports.stringify_config ports.encrypt db [] 9 input 20

create_snapshot-find_current_example :
    find_current_for_service
      (create_snapshot ports.stringify_config ports.encrypt db [] 9 input).0
      20
    ≡ some (create_snapshot ports.stringify_config ports.encrypt db [] 9 input).1
create_snapshot-find_current_example =
    create_snapshot-find_current ports.stringify_config ports.encrypt db [] 9 input 20

decrypt_config-create_snapshot_example :
    decrypt_config
      (decrypt node (7 ∷ []))
      ports.parse_config
      (create_snapshot ports.stringify_config (encrypt node (7 ∷ [])) db vector 9 input).1
    ≡ ok config
decrypt_config-create_snapshot_example =
    decrypt_config-create_snapshot node (7 ∷ []) vector ports.stringify_config ports.parse_config db
      9 input refl refl refl (λ bytes. refl) (λ bytes. refl) refl

commit_rollback-unqueued_example :
    ((commit_rollback db 1000 7 checked (throw (error (codes "no Redis")))).0.rollback_queue ≡ [])
    × ((later org_id target_id other_id : ℕ) (queue_add : Throws (Unit {0}))
          (accepted : RollbackEvent)
        → (enqueue_rollback
            (commit_rollback db 1000 7 checked (throw (error (codes "no Redis")))).0
            later
            org_id
            20
            target_id
            other_id
            queue_add).1
          ≢ ok accepted)
commit_rollback-unqueued_example =
    commit_rollback-unqueued db 1000 7 checked (error (codes "no Redis")) refl
