-- ===== src/Rollback/Exclusion.antt =====
-- At most one rollback of a service is active, however the requests of src/rollback/rollback.service.ts
-- and the jobs of src/rollback/rollback.processor.ts follow one another.
use servers_manager.Base.{
  ℕ, ◌≤◌, ◌≡◌, ◌⊎◌, ap, true, some, List, [], ◌∷◌, ◌++◌, ◌==◌, ==_iff, find?, count, count-append,
  arith, Throws, ok, throw, Bool-cases, Option-cases, inl, inr,
}
use servers_manager.Db.{Db, RollbackEvent}
use servers_manager.Db.Table.{
  update_where, count-update_where, update_where-none, find?-sound, find?-none,
}
use servers_manager.Rollback.{is_active, is_active_of, pending_event, Checked, commit_rollback}
use servers_manager.Rollback.Processor.{RollbackPorts, process}
use servers_manager.Rollback.Settled.{process-Wrote}

-- The primary key, and the property: one active event for each service at most.
pub record IsExclusive (db : Db) : Type 0 where
  pub unique_ids : (id : ℕ) → count (λ row. row.id == id) db.rollback_events ≤ 1
  pub one_active : (service_id : ℕ) → count (is_active_of service_id) db.rollback_events ≤ 1

-- One event of the system: a request whose checks were made at some earlier time commits (its new
-- id being a new one), or the job of an event runs that is still active.
pub data Step (ports : RollbackPorts) : Db → Db → Type 0 where
  commit :
      (db : Db) (now user_id : ℕ) (c : Checked) (queue_add : Throws (Unit {0}))
      → count (λ row. row.id == db.next_id) db.rollback_events ≡ 0
      → Step ports db (commit_rollback db now user_id c queue_add).0
  work :
      (db : Db) (now event_id : ℕ) (event : RollbackEvent)
      → find? (λ row. row.id == event_id) db.rollback_events ≡ some event
      → is_active event.status ≡ true
      → Step ports db (process ports now db event_id).0

pub data Reaches (ports : RollbackPorts) (start : Db) : Db → Type 0 where
  nothing : Reaches ports start start
  step : {db db' : Db} → Reaches ports start db → Step ports db db' → Reaches ports start db'

commit_rollback-rows :
    (db : Db) (now user_id : ℕ) (c : Checked) (queue_add : Throws (Unit {0}))
    → ((commit_rollback db now user_id c queue_add).0.rollback_events ≡ db.rollback_events)
      ⊎ ((count (is_active_of c.service_id) db.rollback_events ≡ 0)
          × ((commit_rollback db now user_id c queue_add).0.rollback_events
              ≡ db.rollback_events
                ++ pending_event db now c.service_id c.from_snapshot_id c.to_snapshot_id user_id
                  ∷ []))
unfolding commit_rollback
commit_rollback-rows db now user_id c (ok added) =
    elim (Option-cases (find? (is_active_of c.service_id) db.rollback_events)) [
      | inl free ↦ inr (find?-none _ db.rollback_events free, ground arith)
      | inr (active, busy) ↦ inl (ground arith)
    ]
commit_rollback-rows db now user_id c (throw x) =
    elim (Option-cases (find? (is_active_of c.service_id) db.rollback_events)) [
      | inl free ↦ inr (find?-none _ db.rollback_events free, ground arith)
      | inr (active, busy) ↦ inl (ground arith)
    ]

-- A write to one row that makes no inactive row active adds no active row.
count-write :
    (rows : List RollbackEvent) (event final : RollbackEvent) (service_id : ℕ)
    → find? (λ row. row.id == event.id) rows ≡ some event
    → count (λ row. row.id == event.id) rows ≤ 1
    → is_active event.status ≡ true
    → final.service_id ≡ event.service_id
    → count (is_active_of service_id) (update_where (λ row. row.id == event.id) (λ row. final) rows)
      ≤ count (is_active_of service_id) rows
unfolding update_where
count-write [] event final service_id found once active same = omega arith
count-write (row ∷ rows) event final service_id found once active same =
    elim (Bool-cases (row.id == event.id)) [
      | inl e ↦
          let row_is : row ≡ event = ground arith in
          let rest : count (λ r. r.id == event.id) rows ≡ 0 = ground arith in
          rw e (
            rw (update_where-none (λ r. r.id == event.id) (λ r. final) rows rest)
              (ground (arith, ap (λ r. r.status) row_is, ap (λ r. r.service_id) row_is)))
      | inr e ↦
          let ih =
            count-write rows event final service_id (rw e at found) (rw e at once) active same in
          rw e (ground arith)
    ]

commit-IsExclusive :
    (db db' : Db) (event : RollbackEvent)
    → IsExclusive db
    → count (λ row. row.id == event.id) db.rollback_events ≡ 0
    → count (is_active_of event.service_id) db.rollback_events ≡ 0
    → db'.rollback_events ≡ db.rollback_events ++ event ∷ []
    → IsExclusive db'
commit-IsExclusive db db' event x fresh idle rows = record {
  unique_ids = λ id. rw rows (
      rw (count-append (λ row. row.id == id) db.rollback_events (event ∷ []))
        (elim (Bool-cases (event.id == id)) [
          | inl e ↦
              let same : event.id ≡ id = ground arith in
              let none_yet : count (λ row. row.id == id) db.rollback_events ≡ 0 =
                rw same at fresh in
              rw e (omega arith)
          | inr e ↦ let before = x.unique_ids id in rw e (omega arith)
        ]));
  one_active = λ service_id. rw rows (
      rw (count-append (is_active_of service_id) db.rollback_events (event ∷ []))
        (elim (Bool-cases (event.service_id == service_id)) [
          | inl e ↦
              let same : event.service_id ≡ service_id = ground arith in
              let none_yet : count (is_active_of service_id) db.rollback_events ≡ 0 =
                rw same at idle in
              ground arith
          | inr e ↦ let before = x.one_active service_id in ground arith
        ]));
}

write-IsExclusive :
    (db db' : Db) (event final : RollbackEvent)
    → IsExclusive db
    → find? (λ row. row.id == event.id) db.rollback_events ≡ some event
    → is_active event.status ≡ true
    → final.id ≡ event.id
    → final.service_id ≡ event.service_id
    → db'.rollback_events
      ≡ update_where (λ row. row.id == event.id) (λ row. final) db.rollback_events
    → IsExclusive db'
write-IsExclusive db db' event final x found active same_id same_service rows = record {
  unique_ids = λ id. rw rows (
      rw
        (count-update_where (λ row. row.id == event.id) (λ row. row.id == id) (λ row. final)
          db.rollback_events (λ row e. ground arith))
        (x.unique_ids id));
  one_active = λ service_id.
      let before = x.one_active service_id in
      let after =
        count-write db.rollback_events event final service_id found (x.unique_ids event.id) active
          same_service in
      rw rows (omega arith);
}

-- One step of the system keeps the property.
pub Step-IsExclusive :
    (ports : RollbackPorts) {db db' : Db} → Step ports db db' → IsExclusive db → IsExclusive db'
Step-IsExclusive ports (commit db now user_id c queue_add fresh) x =
    go (commit_rollback-rows db now user_id c queue_add)
  where
    db' : Db
    db' = (commit_rollback db now user_id c queue_add).0

    event : RollbackEvent
    event = pending_event db now c.service_id c.from_snapshot_id c.to_snapshot_id user_id

    go :
        (db'.rollback_events ≡ db.rollback_events)
          ⊎ ((count (is_active_of c.service_id) db.rollback_events ≡ 0)
              × (db'.rollback_events ≡ db.rollback_events ++ event ∷ []))
        → IsExclusive db'
    go (inl same) = record {
      unique_ids = λ id. rw same (x.unique_ids id);
      one_active = λ service_id. rw same (x.one_active service_id);
    }
    go (inr (idle, rows)) = commit-IsExclusive db db' event x fresh idle rows
Step-IsExclusive ports (work db now event_id event found active) x =
    let w = process-Wrote ports now db event_id event found in
    let id_is : event.id ≡ event_id =
      (==_iff event.id event_id).0
        (find?-sound (λ row. row.id == event_id) db.rollback_events event found) in
    write-IsExclusive db (process ports now db event_id).0 event w.final x (simp id_is found) active
      w.same_id w.same_service w.rows

-- From a table with distinct ids and at most one active event for each service, every sequence of
-- requests and jobs leads to such a table: also where a request commits on checks that were made
-- before other requests committed, and where the queue refuses the job.
pub Reaches-IsExclusive :
    (ports : RollbackPorts) {start db : Db}
    → IsExclusive start
    → Reaches ports start db
    → IsExclusive db
Reaches-IsExclusive ports x nothing = x
Reaches-IsExclusive ports x (step r taken) =
    Step-IsExclusive ports taken (Reaches-IsExclusive ports x r)
