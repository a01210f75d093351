-- ===== src/Overview.antt =====
-- src/overview/overview.controller.ts: the counts of an organization on one page.
use servers_manager.Base.{ℕ, some, length}
use servers_manager.Db.{Db}
use servers_manager.Hosts.{OverviewCounts}
use servers_manager.Hosts as Hosts
use servers_manager.Domains.{DomainOverviewCounts}
use servers_manager.Domains as Domains
use servers_manager.Services.{ServiceOverviewCounts}
use servers_manager.Services as Services
use servers_manager.Insights.{compute_idle_hosts, compute_orphaned_domains, compute_orphaned_hosts}

-- The three records of counts, whose names do not clash, and the lengths of the three lists.
pub record OverviewResponseDto : Type 0 where
  pub hosts : OverviewCounts
  pub domains : DomainOverviewCounts
  pub services : ServiceOverviewCounts
  pub idle_hosts_count : ℕ
  pub orphaned_domains_count : ℕ
  pub orphaned_hosts_count : ℕ

unfoldable pub get_overview : Db → ℕ → ℕ → OverviewResponseDto
unfolding Hosts.get_overview Domains.get_overview Services.get_overview compute_idle_hosts
    compute_orphaned_domains compute_orphaned_hosts
get_overview db now org_id = record {
  hosts = Hosts.get_overview db org_id;
  domains = Domains.get_overview db org_id;
  services = Services.get_overview db org_id;
  idle_hosts_count = length (compute_idle_hosts db now (some org_id));
  orphaned_domains_count = length (compute_orphaned_domains db (some org_id));
  orphaned_hosts_count = length (compute_orphaned_hosts db (some org_id));
}
