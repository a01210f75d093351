-- ===== src/Db/Cascade.antt =====
-- Removing rows with what the foreign keys of src/migrations take along.
use servers_manager.Base.{ℕ, Bool, false, Option, none, some, List, any, ◌==◌, if◌then◌else◌}
use servers_manager.Db.{Db, Domain, Service}
use servers_manager.Db.Table.{update_where, remove_where}

-- A domain's certificate goes with it.
unfoldable pub remove_domain : Db → ℕ → Db
remove_domain db id = record db {
  domains = remove_where (λ row. row.id == id) db.domains;
  ssl_certificates = remove_where (λ row. row.domain_id == id) db.ssl_certificates;
}

-- A rule's logs go with it.
unfoldable pub remove_alert_rule : Db → ℕ → Db
remove_alert_rule db id = record db {
  alert_rules = remove_where (λ row. row.id == id) db.alert_rules;
  alert_logs = remove_where (λ row. row.alert_rule_id == id) db.alert_logs;
}

abbrev pub is_linked_to : ℕ → Option ℕ → Bool
is_linked_to id none = false
is_linked_to id (some host_id) = host_id == id

abbrev pub unlink : Domain → Domain
unlink row = record row { host_id = none }

abbrev pub is_service_of_host : List Service → ℕ → ℕ → Bool
is_service_of_host services host_id service_id =
    any (λ s. if s.id == service_id then s.host_id == host_id else false) services

-- A host's services go with it, and with them their snapshots and rollback events; its domains lose
-- the link.
unfoldable pub remove_host : Db → ℕ → Db
remove_host db id = record db {
  hosts = remove_where (λ row. row.id == id) db.hosts;
  services = remove_where (λ row. row.host_id == id) db.services;
  snapshots = remove_where (λ row. is_service_of_host db.services id row.service_id) db.snapshots;
  rollback_events =
      remove_where (λ row. is_service_of_host db.services id row.service_id) db.rollback_events;
  domains = update_where (λ row. is_linked_to id row.host_id) unlink db.domains;
}
