-- ===== src/Rollback/Requests.antt =====
-- What src/rollback/rollback.service.ts guarantees to the caller of an accepted request.
use servers_manager.Base.{
  ℕ, ◌≡◌, refl, Option, none, some, [], ◌∷◌, ◌++◌, find?, count, arith, Throws, ok, throw,
  Option-cases, inl, inr,
}
use servers_manager.Db.{Db, Service, DeploymentSnapshot, RollbackEvent, RollbackEventStatus}
use servers_manager.Db.Table.{find?-none}
use servers_manager.Snapshots.{find_current_for_service, find_one_for_service_or_throw}
use servers_manager.Rollback.{
  is_active_of, find_service_for_org_or_throw, Checked, checked_active, checked_current,
  checked_target, checked_service, check_rollback, commit_rollback, commit_checked,
  enqueue_rollback,
}

-- What the checks of a request have established.
pub record IsChecked (db : Db) (org_id service_id target_id : ℕ) (c : Checked) : Type 0 where
  pub service : Service
  pub target : DeploymentSnapshot
  pub current : DeploymentSnapshot
  pub owned : find_service_for_org_or_throw db org_id service_id ≡ ok service
  pub belongs : find_one_for_service_or_throw db service.id target_id ≡ ok target
  pub from_current : find_current_for_service db service.id ≡ some current
  pub idle : count (is_active_of service.id) db.rollback_events ≡ 0
  pub service_is : c.service_id ≡ service.id
  pub target_is : c.to_snapshot_id ≡ target.id
  pub current_is : c.from_snapshot_id ≡ current.id

check_rollback-IsChecked :
    (db : Db) (org_id service_id target_id : ℕ) (c : Checked)
    → check_rollback db org_id service_id target_id ≡ ok c
    → IsChecked db org_id service_id target_id c
unfolding check_rollback
check_rollback-IsChecked db org_id service_id target_id c h =
    go_service (find_service_for_org_or_throw db org_id service_id) refl h
  where
    go_active :
        (service : Service) (target current : DeploymentSnapshot)
        → find_service_for_org_or_throw db org_id service_id ≡ ok service
        → find_one_for_service_or_throw db service.id target_id ≡ ok target
        → find_current_for_service db service.id ≡ some current
        → (active : Option RollbackEvent)
        → find? (is_active_of service.id) db.rollback_events ≡ active
        → checked_active
            (record {
              service_id = service.id;
              to_snapshot_id = target.id;
              from_snapshot_id = current.id;
            })
            active
          ≡ ok c
        → IsChecked db org_id service_id target_id c
    go_active service target current o b f none e k = record {
      service = service;
      target = target;
      current = current;
      owned = o;
      belongs = b;
      from_current = f;
      idle = find?-none (is_active_of service.id) db.rollback_events e;
      service_is = ground arith;
      target_is = ground arith;
      current_is = ground arith;
    }
    go_active service target current o b f (some active) e k = cc

    go_current :
        (service : Service) (target : DeploymentSnapshot)
        → find_service_for_org_or_throw db org_id service_id ≡ ok service
        → find_one_for_service_or_throw db service.id target_id ≡ ok target
        → (current : Option DeploymentSnapshot) → find_current_for_service db service.id ≡ current
        → checked_current db service.id target.id current ≡ ok c
        → IsChecked db org_id service_id target_id c
    go_current service target o b none e k = cc
    go_current service target o b (some current) e k =
        go_active service target current o b e (find? (is_active_of service.id) db.rollback_events)
          refl k

    go_target :
        (service : Service)
        → find_service_for_org_or_throw db org_id service_id ≡ ok service
        → (target : Throws DeploymentSnapshot)
        → find_one_for_service_or_throw db service.id target_id ≡ target
        → checked_target db service.id target ≡ ok c
        → IsChecked db org_id service_id target_id c
    go_target service o (throw e) b k = cc
    go_target service o (ok target) b k =
        go_current service target o b (find_current_for_service db service.id) refl k

    go_service :
        (service : Throws Service)
        → find_service_for_org_or_throw db org_id service_id ≡ service
        → checked_service db target_id service ≡ ok c
        → IsChecked db org_id service_id target_id c
    go_service (throw e) o k = cc
    go_service (ok service) o k =
        go_target service o (find_one_for_service_or_throw db service.id target_id) refl k

-- The event that an accepted request leaves: pending, the last row, and the last job of the queue.
pub record IsEnqueued (db db' : Db) (c : Checked) (user_id : ℕ) (event : RollbackEvent)
    : Type 0 where
  pub pending : event.status ≡ RollbackEventStatus.pending
  pub service_is : event.service_id ≡ c.service_id
  pub to_is : event.to_snapshot_id ≡ c.to_snapshot_id
  pub from_is : event.from_snapshot_id ≡ c.from_snapshot_id
  pub user_is : event.triggered_by_id ≡ user_id
  pub stored : db'.rollback_events ≡ db.rollback_events ++ event ∷ []
  pub queued : db'.rollback_queue ≡ db.rollback_queue ++ event.id ∷ []

commit_rollback-IsEnqueued :
    (db db' : Db) (now user_id : ℕ) (c : Checked) (queue_add : Throws (Unit {0}))
    (event : RollbackEvent)
    → commit_rollback db now user_id c queue_add ≡ (db', ok event)
    → IsEnqueued db db' c user_id event
unfolding commit_rollback
commit_rollback-IsEnqueued db db' now user_id c (throw e) event h =
    elim (Option-cases (find? (is_active_of c.service_id) db.rollback_events)) [
      | inl free ↦ absurd (ground arith)
      | inr (active, busy) ↦ absurd (ground arith)
    ]
commit_rollback-IsEnqueued db db' now user_id c (ok added) event h =
    elim (Option-cases (find? (is_active_of c.service_id) db.rollback_events)) [
      | inl free ↦ record {
        pending = ground arith;
        service_is = ground arith;
        to_is = ground arith;
        from_is = ground arith;
        user_is = ground arith;
        stored = ground arith;
        queued = ground arith;
      }
      | inr (active, busy) ↦ absurd (ground arith)
    ]

-- A request that is accepted was made for a service of the organization, for a snapshot of that
-- service, from its current snapshot, while no rollback of the service was active; its event is
-- pending, carries these ids, and is the last row of the table and the last job of the queue.
pub enqueue_rollback-accepted :
    (db db' : Db) (now org_id service_id target_id user_id : ℕ) (queue_add : Throws (Unit {0}))
    (event : RollbackEvent)
    → enqueue_rollback db now org_id service_id target_id user_id queue_add ≡ (db', ok event)
    → (c : Checked) × IsChecked db org_id service_id target_id c × IsEnqueued db db' c user_id event
unfolding enqueue_rollback
enqueue_rollback-accepted db db' now org_id service_id target_id user_id queue_add event h =
    go (check_rollback db org_id service_id target_id) refl h
  where
    go :
        (t : Throws Checked)
        → check_rollback db org_id service_id target_id ≡ t
        → commit_checked db now user_id t queue_add ≡ (db', ok event)
        → (c : Checked) × IsChecked db org_id service_id target_id c
          × IsEnqueued db db' c user_id event
    go (throw e) checked k = absurd (ground arith)
    go (ok c) checked k = (
      c,
      check_rollback-IsChecked db org_id service_id target_id c checked,
      commit_rollback-IsEnqueued db db' now user_id c queue_add event k,
    )
