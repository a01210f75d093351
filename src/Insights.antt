-- ===== src/Insights.antt =====
-- src/insights/insights.service.ts: idle hosts, orphaned domains and hosts, and the daily job that
-- reports an entity when it newly matches.
pub mod Silent
use servers_manager.Base.{
  ℕ, suc, ◌+◌, ◌*◌, Bool, true, false, not, ◌&&◌, ◌||◌, Option, none, some, List, [], ◌∷◌, ◌++◌,
  map, Text, codes, ◌==◌, ltb, find?, filter, any, text_eq, if◌then◌else◌,
}
use servers_manager.Container.Status.{ServiceStatus, same_service_status}
use servers_manager.Db.{
  Db, Host, HostStatus, Service, Domain, InsightFlag, InsightState, AlertEntityType,
}
use servers_manager.Db.Table.{update_where}
use servers_manager.Alerts.{AlertPorts, evaluate_direct_condition}

abbrev pub same_flag : InsightFlag → InsightFlag → Bool
same_flag InsightFlag.idle_host InsightFlag.idle_host = true
same_flag InsightFlag.orphaned_domain InsightFlag.orphaned_domain = true
same_flag InsightFlag.orphaned_host InsightFlag.orphaned_host = true
same_flag _ _ = false

abbrev pub is_healthy : HostStatus → Bool
is_healthy HostStatus.healthy = true
is_healthy _ = false

-- The optional `orgId` of a query.
abbrev pub in_org : Option ℕ → ℕ → Bool
in_org none org_id = true
in_org (some wanted) org_id = org_id == wanted

-- `CONDITION_FOR_FLAG`.
abbrev pub condition_for_flag : InsightFlag → Text
condition_for_flag InsightFlag.idle_host = codes "system:idle_host_detected"
condition_for_flag InsightFlag.orphaned_domain = codes "system:orphan_detected"
condition_for_flag InsightFlag.orphaned_host = codes "system:orphan_detected"

-- Healthy, registered more than 24 hours ago (`createdAt < now - 24h`), no running container.
unfoldable pub compute_idle_hosts : Db → ℕ → Option ℕ → List Host
compute_idle_hosts db now org_id =
    filter
      (λ host. not (
        any
          (λ service.
            service.host_id == host.id && same_service_status service.status ServiceStatus.running)
          db.services))
      (filter
        (λ host.
          is_healthy host.status
          && ltb (host.created_at + 24 * 60 * 60 * 1000) now
          && in_org org_id host.org_id)
        db.hosts)

abbrev pub is_unlinked : Option ℕ → Bool
is_unlinked none = true
is_unlinked (some host_id) = false

abbrev pub is_unknown_ip : List Host → Option Text → Bool
is_unknown_ip hosts none = false
is_unknown_ip hosts (some ip) = not (any (λ host. text_eq host.ip_address ip) hosts)

unfoldable pub compute_orphaned_domains : Db → Option ℕ → List Domain
compute_orphaned_domains db org_id =
    filter (λ domain. is_unlinked domain.host_id || is_unknown_ip db.hosts domain.resolved_ip)
      (filter (λ domain. in_org org_id domain.org_id) db.domains)

abbrev pub refers_to : ℕ → Option ℕ → Bool
refers_to host_id none = false
refers_to host_id (some id) = id == host_id

unfoldable pub compute_orphaned_hosts : Db → Option ℕ → List Host
compute_orphaned_hosts db org_id =
    filter (λ host. not (any (λ domain. refers_to host.id domain.host_id) db.domains))
      (filter (λ host. in_org org_id host.org_id) db.hosts)

-- What `evaluateFlagTransitions` reads of an entity: its ids, and the message built for it.
pub record Candidate : Type 0 where
  pub id : ℕ
  pub org_id : ℕ
  pub message : Text

abbrev pub is_state_of : ℕ → InsightFlag → InsightState → Bool
is_state_of entity_id flag state = state.entity_id == entity_id && same_flag state.flag flag

abbrev pub put_state : Db → ℕ → ℕ → InsightFlag → Bool → Option InsightState → Db
put_state db now entity_id flag active none = record db {
  insight_states =
      db.insight_states
      ++ record {
        id = db.next_id;
        entity_id = entity_id;
        flag = flag;
        active = active;
        updated_at = now;
      }
        ∷ [];
  next_id = suc db.next_id;
}
put_state db now entity_id flag active (some state) = record db {
  insight_states =
      update_where (λ row. row.id == state.id)
        (λ row. record state { active = active; updated_at = now }) db.insight_states;
}

unfoldable pub upsert_flag : Db → ℕ → ℕ → InsightFlag → Bool → Db
upsert_flag db now entity_id flag active =
    put_state db now entity_id flag active (find? (is_state_of entity_id flag) db.insight_states)

module _ (ports : AlertPorts) (now : ℕ) (flag : InsightFlag) where
  -- The report of one entity, if it was not active before.
  unfoldable pub report : Db → List InsightState → Candidate → Db
  report db previous entity =
      if any (λ state. state.entity_id == entity.id) previous
      then db
      else evaluate_direct_condition ports now db (record {
        org_id = entity.org_id;
        entity_type = AlertEntityType.system;
        entity_id = entity.id;
        condition = condition_for_flag flag;
        message = entity.message;
      })

  unfoldable pub raise_flags : Db → List InsightState → List Candidate → Db
  unfolding report upsert_flag
  raise_flags db previous [] = db
  raise_flags db previous (entity ∷ entities) =
      raise_flags (upsert_flag (report db previous entity) now entity.id flag true) previous
        entities

  unfoldable pub lower_flags : Db → List InsightState → Db
  unfolding upsert_flag
  lower_flags db [] = db
  lower_flags db (state ∷ states) =
      lower_flags (upsert_flag db now state.entity_id flag false) states

  unfoldable pub active_states : Db → List InsightState
  active_states db = filter (λ state. same_flag state.flag flag && state.active) db.insight_states

  unfoldable pub evaluate_flag_transitions : Db → List Candidate → Db
  unfolding raise_flags lower_flags active_states
  evaluate_flag_transitions db current = lower_flags (raise_flags db (active_states db) current) (
      filter (λ state. not (any (λ entity. entity.id == state.entity_id) current))
        (active_states db))

abbrev pub quoted : Text → Text
quoted name = codes "\"" ++ name ++ codes "\""

abbrev pub idle_candidate : Host → Candidate
idle_candidate host = record {
  id = host.id;
  org_id = host.org_id;
  message =
      codes "Host "
      ++ (quoted host.name
          ++ codes " appears idle: healthy, zero running containers, registered over 24h ago");
}

abbrev pub resolved_text : Option Text → Text
resolved_text none = codes "null"
resolved_text (some ip) = ip

abbrev pub domain_message : Domain → Option ℕ → Text
domain_message domain none =
    codes "Domain " ++ (quoted domain.hostname ++ codes " has no host linked")
domain_message domain (some host_id) =
    codes "Domain "
    ++ (quoted domain.hostname
        ++ (codes " resolves to "
            ++ (resolved_text domain.resolved_ip ++ codes ", which matches no registered host")))

abbrev pub domain_candidate : Domain → Candidate
domain_candidate domain = record {
  id = domain.id;
  org_id = domain.org_id;
  message = domain_message domain domain.host_id;
}

abbrev pub orphan_candidate : Host → Candidate
orphan_candidate host = record {
  id = host.id;
  org_id = host.org_id;
  message = codes "Host " ++ (quoted host.name ++ codes " has no domain pointing at it");
}

-- The daily job: each heuristic is computed on the database that the one before has left.
unfoldable pub run_daily_check : AlertPorts → ℕ → Db → Db
unfolding evaluate_flag_transitions compute_idle_hosts compute_orphaned_domains
    compute_orphaned_hosts
run_daily_check ports now db =
    let idle =
      evaluate_flag_transitions ports now InsightFlag.idle_host db
        (map idle_candidate (compute_idle_hosts db now none)) in
    let orphaned =
      evaluate_flag_transitions ports now InsightFlag.orphaned_domain idle
        (map domain_candidate (compute_orphaned_domains idle none)) in
    evaluate_flag_transitions ports now InsightFlag.orphaned_host orphaned
      (map orphan_candidate (compute_orphaned_hosts orphaned none))
