-- ===== src/Services.antt =====
-- src/services/services.service.ts: the services of an organization.
use servers_manager.Base.{
  ℕ, ◌+◌, Bool, List, [], ◌∷◌, Text, ◌==◌, filter, length, if◌then◌else◌, Throws, ok, throw, ◌>>=◌,
}
use servers_manager.Container.Status.{ServiceStatus}
use servers_manager.Db.{Db, Service, HealthCheckEntityType, HealthCheckLog}
use servers_manager.Db.Query.{find_recent}
use servers_manager.Hosts.{find_host_for_org_or_throw}
use servers_manager.Hosts as Hosts
use servers_manager.Rollback.{find_service_for_org_or_throw}

-- `ORDER BY container_name ASC` in the collation of the database, which is a parameter.
module _ (before : Text → Text → Bool) where
  unfoldable pub insert_named : Service → List Service → List Service
  insert_named row [] = row ∷ []
  insert_named row (r ∷ rows) =
      let rest = insert_named row rows in
      if before r.container_name row.container_name then r ∷ rest else row ∷ r ∷ rows

  unfoldable pub by_name : List Service → List Service
  unfolding insert_named
  by_name [] = []
  by_name (row ∷ rows) = insert_named row (by_name rows)

  unfoldable pub find_all_for_host : Db → ℕ → ℕ → Throws (List Service)
  unfolding by_name
  find_all_for_host db org_id host_id = do
    host ← find_host_for_org_or_throw db org_id host_id
    ok (by_name (filter (λ row. row.host_id == host_id) db.services))

unfoldable pub get_recent_logs : Db → ℕ → List HealthCheckLog
unfolding find_recent
get_recent_logs db service_id = find_recent db (HealthCheckEntityType.service ∷ []) service_id

unfoldable pub enqueue_check : Db → ℕ → ℕ → Throws ℕ → Db × Throws ℕ
unfolding find_service_for_org_or_throw Hosts.enqueue_check
enqueue_check db org_id id queue_add = elim (find_service_for_org_or_throw db org_id id) [
  | throw e ↦ (db, throw e)
  | ok service ↦ Hosts.enqueue_check db org_id service.host_id queue_add
]

pub record ServiceOverviewCounts : Type 0 where
  pub services_total : ℕ
  pub running : ℕ
  pub unhealthy : ℕ
  pub stopped : ℕ
  pub crash_loop : ℕ
  pub services_unknown : ℕ

abbrev pub no_services : ServiceOverviewCounts
no_services = record {
  services_total = 0;
  running = 0;
  unhealthy = 0;
  stopped = 0;
  crash_loop = 0;
  services_unknown = 0;
}

-- `byStatus[service.status] += 1`.
unfoldable pub count_service : ServiceOverviewCounts → ServiceStatus → ServiceOverviewCounts
count_service by ServiceStatus.running = record by { running = by.running + 1 }
count_service by ServiceStatus.unhealthy = record by { unhealthy = by.unhealthy + 1 }
count_service by ServiceStatus.stopped = record by { stopped = by.stopped + 1 }
count_service by ServiceStatus.crash_loop = record by { crash_loop = by.crash_loop + 1 }
count_service by ServiceStatus.unknown = record by { services_unknown = by.services_unknown + 1 }

unfoldable pub count_services : ServiceOverviewCounts → List Service → ServiceOverviewCounts
unfolding count_service
count_services by [] = by
count_services by (service ∷ services) = count_services (count_service by service.status) services

unfoldable pub get_overview : Db → ℕ → ServiceOverviewCounts
unfolding count_services
get_overview db org_id =
    let services = filter (λ service. service.org_id == org_id) db.services in
    record (count_services no_services services) { services_total = length services }
