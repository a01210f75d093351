-- ===== src/Rollback/Stuck.antt =====
-- What happens in src/rollback/rollback.processor.ts when the stored configuration cannot be read.
use servers_manager.Base.{
  ℕ, ◌<◌, ◌≡◌, ◌≢◌, refl, ap, true, ◌&&◌, Option, none, some, List, [], ◌∷◌, Text, ◌==◌, ==_iff,
  ==_refl, find?, count, arith, Throws, ok, throw, Error, Bool-cases, inl, inr,
}
use servers_manager.Db.{Db, Host, Service, DeploymentSnapshot, RollbackEvent}
use servers_manager.Db.Table.{update_where, find?-sound}
use servers_manager.Snapshots.{decrypt_config}
use servers_manager.Rollback.{is_active_of, find_service_for_org_or_throw, enqueue_rollback}
use servers_manager.Rollback.Requests.{enqueue_rollback-accepted}
use servers_manager.Rollback.Processor.{
  RollbackPorts, with_service, with_host, with_target, with_key, process_event, process,
}
use servers_manager.Rollback.Jobs.{Ended}
use servers_manager.Rollback.Settled.{process-Wrote}

count-written :
    (rows : List RollbackEvent) (event final : RollbackEvent) (id service_id : ℕ)
    → find? (λ row. row.id == id) rows ≡ some event
    → is_active_of service_id final ≡ true
    → 0 < count (is_active_of service_id) (update_where (λ row. row.id == id) (λ row. final) rows)
unfolding update_where
count-written [] event final id service_id found active = cc
count-written (row ∷ rows) event final id service_id found active =
    elim (Bool-cases (row.id == id)) [
      | inl e ↦ rw e (rw active (omega arith))
      | inr e ↦
          let ih = count-written rows event final id service_id (rw e at found) active in
          rw e (ground arith)
    ]

find_service-id :
    (db : Db) (org_id id : ℕ) (service : Service)
    → find_service_for_org_or_throw db org_id id ≡ ok service
    → service.id ≡ id
unfolding find_service_for_org_or_throw
find_service-id db org_id id service h =
    go (find? (λ row. row.id == id && row.org_id == org_id) db.services) refl h
  where
    go :
        (found : Option Service)
        → find? (λ row. row.id == id && row.org_id == org_id) db.services ≡ found
        → (elim found as (λ x. Throws Service) [ none ↦ throw Error.not_found | some s ↦ ok s ])
          ≡ ok service
        → service.id ≡ id
    go none e k = cc
    go (some s) e k =
        let test = find?-sound (λ row. row.id == id && row.org_id == org_id) db.services s e in
        let same : s ≡ service = ground arith in ground (arith, ap (λ r. r.id) same)

-- A service with an active event accepts no request.
pub busy-refused :
    (db : Db) (now org_id service_id target_id user_id : ℕ) (queue_add : Throws (Unit {0}))
    (event : RollbackEvent)
    → 0 < count (is_active_of service_id) db.rollback_events
    → (enqueue_rollback db now org_id service_id target_id user_id queue_add).1 ≢ ok event
busy-refused db now org_id service_id target_id user_id queue_add event busy accepted =
    let out = enqueue_rollback db now org_id service_id target_id user_id queue_add in
    let (c, checked, _) =
      enqueue_rollback-accepted db out.0 now org_id service_id target_id user_id queue_add event
        (λ i. (out.0, accepted i)) in
    let service_is : checked.service.id ≡ service_id =
      find_service-id db org_id service_id checked.service checked.owned in
    let idle : count (is_active_of service_id) db.rollback_events ≡ 0 =
      rw service_is at checked.idle in
    omega arith

-- When the configuration of the target snapshot cannot be decrypted or parsed, the job of a
-- rollback whose service, host, target and key are there throws without failing its event, and from
-- then on every request for a rollback of that service, by anyone to any snapshot, is refused.
pub process_stuck :
    (ports : RollbackPorts) (now event_id : ℕ) (db : Db) (event : RollbackEvent) (service : Service)
    (host : Host) (target : DeploymentSnapshot) (private_key : Text) (e : Error)
    → find? (λ row. row.id == event_id) db.rollback_events ≡ some event
    → find? (λ row. row.id == event.service_id) db.services ≡ some service
    → find? (λ row. row.id == service.host_id) db.hosts ≡ some host
    → find? (λ row. row.id == event.to_snapshot_id) db.snapshots ≡ some target
    → ports.alerts.decrypt host.ssh_key_encrypted ≡ ok private_key
    → decrypt_config ports.alerts.decrypt ports.parse_config target ≡ throw e
    → ((process ports now db event_id).1 ≡ throw e)
      × ((later org_id target_id user_id : ℕ) (queue_add : Throws (Unit {0}))
            (accepted : RollbackEvent)
          → (enqueue_rollback
              (process ports now db event_id).0
              later
              org_id
              event.service_id
              target_id
              user_id
              queue_add).1
            ≢ ok accepted)
process_stuck ports now event_id db event service host target private_key e found fs fh ft key
      broken =
    let threw : (process ports now db event_id).1 ≡ throw e =
      unfold process process_event with_service with_host with_target with_key in
      rw found (rw fs (rw fh (rw ft (rw key (rw broken))))) in
    let w = process-Wrote ports now db event_id event found in
    let waits : Ended now (throw e) w.final = rw threw at w.ended in
    let id_is : event.id ≡ event_id =
      (==_iff event.id event_id).0
        (find?-sound (λ row. row.id == event_id) db.rollback_events event found) in
    let active : is_active_of event.service_id w.final ≡ true =
      ground (arith, w.same_service, waits, ==_refl event.service_id) in
    let busy : 0
        < count (is_active_of event.service_id) (process ports now db event_id).0.rollback_events =
      rw w.rows (
        count-written db.rollback_events event w.final event.id event.service_id (simp id_is found)
          active) in
    (
      threw,
      λ later org_id target_id user_id queue_add accepted.
          busy-refused (process ports now db event_id).0 later org_id event.service_id target_id
            user_id queue_add accepted busy,
    )
