-- ===== src/Rollback.antt =====
-- src/rollback/rollback.service.ts: how a rollback is asked for. The rows of the rollback events are
-- kept by a unique index of the database: one active row for each service.
pub mod Processor
pub mod Requests
pub mod Jobs
pub mod Settled
pub mod Exclusion
pub mod Stuck
pub mod Unqueued
pub mod Resolves
use servers_manager.Base.{
  ℕ, suc, ◌+◌, Bool, true, false, not, ◌&&◌, ◌||◌, Option, none, some, List, [], ◌∷◌, ◌++◌, Text,
  codes, ◌==◌, find?, any, filter, take, if◌then◌else◌, Throws, ok, throw, Error, not_found,
  bad_request, conflict, unique_violation,
}
use servers_manager.Db.{Db, Service, DeploymentSnapshot, RollbackEvent, RollbackEventStatus}
use servers_manager.Db.Query.{newest_first}
use servers_manager.Snapshots.{find_current_for_service, find_one_for_service_or_throw}

-- `In(ACTIVE_STATUSES)`.
abbrev pub is_active : RollbackEventStatus → Bool
is_active RollbackEventStatus.pending = true
is_active RollbackEventStatus.in_progress = true
is_active RollbackEventStatus.succeeded = false
is_active RollbackEventStatus.failed = false

-- The values of the enum.
abbrev pub rollback_status_text : RollbackEventStatus → Text
rollback_status_text RollbackEventStatus.pending = codes "pending"
rollback_status_text RollbackEventStatus.in_progress = codes "in_progress"
rollback_status_text RollbackEventStatus.succeeded = codes "succeeded"
rollback_status_text RollbackEventStatus.failed = codes "failed"

abbrev pub is_active_of : ℕ → RollbackEvent → Bool
is_active_of service_id event = event.service_id == service_id && is_active event.status

-- src/services/services.service.ts: `findOneForOrgOrThrow`.
unfoldable pub find_service_for_org_or_throw : Db → ℕ → ℕ → Throws Service
find_service_for_org_or_throw db org_id id =
    elim (find? (λ row. row.id == id && row.org_id == org_id) db.services) [
      | none ↦ throw not_found
      | some service ↦ ok service
    ]

abbrev pub pending_event : Db → ℕ → ℕ → ℕ → ℕ → ℕ → RollbackEvent
pending_event db now service_id from_id to_id user_id = record {
  id = db.next_id;
  service_id = service_id;
  from_snapshot_id = from_id;
  to_snapshot_id = to_id;
  triggered_by_id = user_id;
  status = RollbackEventStatus.pending;
  log_output = [];
  initiated_at = now;
  completed_at = none;
}

-- The insert of an active row, which the partial unique index of
-- src/migrations/1700300000000-Phase4RollbackAndSnapshots.ts refuses where the service has one.
unfoldable pub insert_event : Db → RollbackEvent → Db × Throws RollbackEvent
insert_event db event = elim (find? (is_active_of event.service_id) db.rollback_events) [
  | some active ↦ (db, throw unique_violation)
  | none ↦ (
    record db { rollback_events = db.rollback_events ++ event ∷ []; next_id = suc db.next_id },
    ok event,
  )
]

-- What the checks of `enqueueRollback` have found: the service, the target and the source.
pub record Checked : Type 0 where
  pub service_id : ℕ
  pub to_snapshot_id : ℕ
  pub from_snapshot_id : ℕ

abbrev pub checked_active : Checked → Option RollbackEvent → Throws Checked
checked_active c none = ok c
checked_active c (some active) = throw conflict

abbrev pub checked_current : Db → ℕ → ℕ → Option DeploymentSnapshot → Throws Checked
checked_current db service_id target_id none = throw bad_request
checked_current db service_id target_id (some current) =
    checked_active
      (record {
        service_id = service_id;
        to_snapshot_id = target_id;
        from_snapshot_id = current.id;
      })
      (find? (is_active_of service_id) db.rollback_events)

abbrev pub checked_target : Db → ℕ → Throws DeploymentSnapshot → Throws Checked
checked_target db service_id (throw e) = throw e
checked_target db service_id (ok target) =
    checked_current db service_id target.id (find_current_for_service db service_id)

abbrev pub checked_service : Db → ℕ → Throws Service → Throws Checked
checked_service db target_id (throw e) = throw e
checked_service db target_id (ok service) =
    checked_target db service.id (find_one_for_service_or_throw db service.id target_id)

-- The first half of `enqueueRollback`: everything before the `try`.
unfoldable pub check_rollback : Db → ℕ → ℕ → ℕ → Throws Checked
unfolding find_service_for_org_or_throw find_current_for_service find_one_for_service_or_throw
check_rollback db org_id service_id target_id =
    checked_service db target_id (find_service_for_org_or_throw db org_id service_id)

-- The `catch`: a violation of the unique index is a conflict for the caller.
abbrev pub translate : Error → Error
translate unique_violation = conflict
translate e = e

abbrev pub enqueued : Db × Throws RollbackEvent → Throws (Unit {0}) → Db × Throws RollbackEvent
enqueued (db, throw e) queue_add = (db, throw (translate e))
enqueued (db, ok event) (throw e) = (db, throw (translate e))
enqueued (db, ok event) (ok added) =
    (record db { rollback_queue = db.rollback_queue ++ event.id ∷ [] }, ok event)

-- The second half: the insert and the enqueueing. Other requests may have been served since the
-- checks, so it takes a database of its own. `queue_add` is the answer of the queue.
unfoldable pub commit_rollback :
    Db → ℕ → ℕ → Checked → Throws (Unit {0}) → Db × Throws RollbackEvent
unfolding insert_event
commit_rollback db now user_id c queue_add =
    enqueued
      (insert_event db
        (pending_event db now c.service_id c.from_snapshot_id c.to_snapshot_id user_id))
      queue_add

abbrev pub commit_checked :
    Db → ℕ → ℕ → Throws Checked → Throws (Unit {0}) → Db × Throws RollbackEvent
commit_checked db now user_id (throw e) queue_add = (db, throw e)
commit_checked db now user_id (ok c) queue_add = commit_rollback db now user_id c queue_add

-- `enqueueRollback`, served in one go.
unfoldable pub enqueue_rollback :
    Db → ℕ → ℕ → ℕ → ℕ → ℕ → Throws (Unit {0}) → Db × Throws RollbackEvent
unfolding check_rollback commit_rollback
enqueue_rollback db now org_id service_id target_id user_id queue_add =
    commit_checked db now user_id (check_rollback db org_id service_id target_id) queue_add

-- The inner join of the queries with the service.
unfoldable pub is_event_of_org : Db → ℕ → RollbackEvent → Bool
is_event_of_org db org_id event =
    any (λ service. service.id == event.service_id && service.org_id == org_id) db.services

unfoldable pub find_one_for_org_or_throw : Db → ℕ → ℕ → Throws RollbackEvent
unfolding is_event_of_org
find_one_for_org_or_throw db org_id id =
    elim (find? (λ event. event.id == id && is_event_of_org db org_id event) db.rollback_events) [
      | none ↦ throw not_found
      | some event ↦ ok event
    ]

abbrev pub rollback_events_list_limit : ℕ
rollback_events_list_limit = 50

unfoldable pub list_for_org : Db → ℕ → List RollbackEvent
unfolding is_event_of_org newest_first
list_for_org db org_id = take rollback_events_list_limit (
    newest_first (λ event. event.initiated_at)
      (filter (is_event_of_org db org_id) db.rollback_events))
