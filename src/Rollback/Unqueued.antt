-- ===== src/Rollback/Unqueued.antt =====
-- What src/rollback/rollback.service.ts leaves behind when the queue does not take the job.
use servers_manager.Base.{
  ℕ, ◌<◌, ◌≡◌, ◌≢◌, none, [], ◌∷◌, ◌++◌, ==_refl, find?, count, count-append, arith, Throws, ok,
  throw, Error,
}
use servers_manager.Db.{Db, RollbackEvent}
use servers_manager.Rollback.{
  is_active_of, Checked, insert_event, pending_event, commit_rollback, enqueue_rollback,
}
use servers_manager.Rollback.Stuck.{busy-refused}

-- When the queue refuses the job of a checked request, the inserted event stays: no job stands for
-- it, and from then on every request for a rollback of that service, by anyone to any snapshot, is
-- refused.
pub commit_rollback-unqueued :
    (db : Db) (now user_id : ℕ) (c : Checked) (e : Error)
    → find? (is_active_of c.service_id) db.rollback_events ≡ none
    → ((commit_rollback db now user_id c (throw e)).0.rollback_queue ≡ db.rollback_queue)
      × ((later org_id target_id other_id : ℕ) (queue_add : Throws (Unit {0}))
            (accepted : RollbackEvent)
          → (enqueue_rollback
              (commit_rollback db now user_id c (throw e)).0
              later
              org_id
              c.service_id
              target_id
              other_id
              queue_add).1
            ≢ ok accepted)
unfolding commit_rollback insert_event
commit_rollback-unqueued db now user_id c e idle =
    let out : Db = (commit_rollback db now user_id c (throw e)).0 in
    let inserted : out.rollback_events
        ≡ db.rollback_events
          ++ pending_event db now c.service_id c.from_snapshot_id c.to_snapshot_id user_id ∷ [] =
      ground arith in
    let busy : 0 < count (is_active_of c.service_id) out.rollback_events =
      rw inserted (rw count-append (rw (==_refl c.service_id) (omega arith))) in
    (
      ground arith,
      λ later org_id target_id other_id queue_add accepted.
          busy-refused out later org_id c.service_id target_id other_id queue_add accepted busy,
    )
