-- ===== src/Responses/Rekeyed.antt =====
-- The insights and the overview of src/insights and src/overview on hosts with other keys.
use servers_manager.Base.{
  ℕ, ◌≡◌, refl, ap, not, ◌||◌, Option, none, some, List, [], ◌∷◌, map, Text, text_eq, ◌==◌, filter,
  length,
}
use servers_manager.Db.{Db, Host, Domain, DeploymentSnapshot, AlertRule, CloudAccount}
use servers_manager.Hosts.{OverviewCounts, no_hosts, count_host, count_hosts}
use servers_manager.Hosts
use servers_manager.Domains
use servers_manager.Services
use servers_manager.Insights.{
  is_unknown_ip, is_unlinked, in_org, compute_idle_hosts, compute_orphaned_domains,
  compute_orphaned_hosts,
}
use servers_manager.Overview.{get_overview}
use servers_manager.Responses.Domains.{to_idle_host_dto, to_orphaned_host_dto, get_insights}
use servers_manager.Responses.Replaced.{
  map-filter, filtered, length-replaced, length-filtered, any-replaced,
}

module _ (key : Host → Text) where
  abbrev pub rekeyed : Host → Host
  rekeyed host = record host { ssh_key_encrypted = key host }

  unknown_ip-rekeyed :
      (hosts : List Host) (ip : Option Text)
      → is_unknown_ip (map rekeyed hosts) ip ≡ is_unknown_ip hosts ip
  unknown_ip-rekeyed hosts none = refl
  unknown_ip-rekeyed hosts (some ip) = ap not (
      any-replaced rekeyed (λ h. h.created_at) (λ h. refl) (λ host. text_eq host.ip_address ip)
        hosts (λ h. refl))

  orphaned_domains-rekeyed :
      (hosts : List Host) (domains : List Domain)
      → filter
          (λ domain.
            is_unlinked domain.host_id || is_unknown_ip (map rekeyed hosts) domain.resolved_ip)
          domains
        ≡ filter
            (λ domain. is_unlinked domain.host_id || is_unknown_ip hosts domain.resolved_ip)
            domains
  orphaned_domains-rekeyed hosts domains i =
      filter (λ domain. is_unlinked domain.host_id || unknown_ip-rekeyed hosts domain.resolved_ip i)
        domains

  count_hosts-rekeyed :
      (hosts : List Host) (by : OverviewCounts)
      → count_hosts by (map rekeyed hosts) ≡ count_hosts by hosts
  unfolding count_hosts
  count_hosts-rekeyed [] by = refl
  count_hosts-rekeyed (host ∷ hosts) by = count_hosts-rekeyed hosts (count_host by host.status)

  module _ (db : Db) (snapshots : List DeploymentSnapshot) (rules : List AlertRule)
      (accounts : List CloudAccount) where
    -- The database with these hosts, snapshots, rules and accounts instead.
    abbrev replaced : Db
    replaced = record db {
      hosts = map rekeyed db.hosts;
      snapshots = snapshots;
      alert_rules = rules;
      cloud_accounts = accounts;
    }

    pub insights-rekeyed :
        (now org_id : ℕ) → get_insights replaced now org_id ≡ get_insights db now org_id
    unfolding get_insights compute_idle_hosts compute_orphaned_domains compute_orphaned_hosts
        to_idle_host_dto to_orphaned_host_dto
    insights-rekeyed now org_id =
        rw
          (filtered rekeyed (λ h. h.created_at) (λ h. refl) _ _ to_idle_host_dto db.hosts
            (λ h. refl) (λ h. refl) (λ h. refl))
          (rw
            (filtered rekeyed (λ h. h.created_at) (λ h. refl) _ _ to_orphaned_host_dto db.hosts
              (λ h. refl) (λ h. refl) (λ h. refl))
            (rw
              (orphaned_domains-rekeyed db.hosts
                (filter (λ domain. in_org (some org_id) domain.org_id) db.domains))
              refl))

    hosts_overview-rekeyed :
        (org_id : ℕ) → Hosts.get_overview replaced org_id ≡ Hosts.get_overview db org_id
    unfolding Hosts.get_overview
    hosts_overview-rekeyed org_id =
        let picked = filter (λ host. host.org_id == org_id) db.hosts in
        rw
          (map-filter rekeyed (λ h. h.created_at) (λ h. refl) (λ host. host.org_id == org_id)
            db.hosts (λ h. refl))
          (rw (count_hosts-rekeyed picked no_hosts)
            (rw (length-replaced rekeyed (λ h. h.created_at) (λ h. refl) picked) refl))

    idle_count-rekeyed :
        (now org_id : ℕ)
        → length (compute_idle_hosts replaced now (some org_id))
          ≡ length (compute_idle_hosts db now (some org_id))
    unfolding compute_idle_hosts
    idle_count-rekeyed now org_id =
        length-filtered rekeyed (λ h. h.created_at) (λ h. refl) _ _ db.hosts (λ h. refl) (λ h. refl)

    orphaned_count-rekeyed :
        (org_id : ℕ)
        → length (compute_orphaned_hosts replaced (some org_id))
          ≡ length (compute_orphaned_hosts db (some org_id))
    unfolding compute_orphaned_hosts
    orphaned_count-rekeyed org_id =
        length-filtered rekeyed (λ h. h.created_at) (λ h. refl) _ _ db.hosts (λ h. refl) (λ h. refl)

    pub overview-rekeyed :
        (now org_id : ℕ) → get_overview replaced now org_id ≡ get_overview db now org_id
    unfolding get_overview Hosts.get_overview Domains.get_overview Services.get_overview
        compute_idle_hosts compute_orphaned_domains compute_orphaned_hosts
    overview-rekeyed now org_id i = record {
      hosts = hosts_overview-rekeyed org_id i;
      domains = Domains.get_overview db org_id;
      services = Services.get_overview db org_id;
      idle_hosts_count = idle_count-rekeyed now org_id i;
      orphaned_domains_count = length (
          orphaned_domains-rekeyed db.hosts
            (filter (λ domain. in_org (some org_id) domain.org_id) db.domains) i);
      orphaned_hosts_count = orphaned_count-rekeyed org_id i;
    }
