-- ===== src/Responses/Domains.antt =====
-- What the API shows of domains and of insights: src/domains/domains.mapper.ts and
-- src/insights/insights.mapper.ts, with the handlers of their controllers.
use servers_manager.Base.{ℕ, Option, some, List, map, Text, Throws, ok, throw, ◌>>=◌}
use servers_manager.Db.{
  Db, Host, DomainDnsStatus, Domain, JsDate, SslCertificateStatus, SslCertificate, HealthCheckLog,
}
use servers_manager.Domains as Domains
use servers_manager.Insights.{compute_idle_hosts, compute_orphaned_domains, compute_orphaned_hosts}
use servers_manager.Responses.{HealthCheckLogResponseDto, to_health_check_log_response_dto}

pub record SslCertificateResponseDto : Type 0 where
  pub status : SslCertificateStatus
  pub issuer : Option Text
  pub valid_from : Option JsDate
  pub valid_to : Option JsDate
  pub last_checked_at : Option ℕ

abbrev pub to_ssl_certificate_response_dto : SslCertificate → SslCertificateResponseDto
to_ssl_certificate_response_dto cert = record {
  status = cert.status;
  issuer = cert.issuer;
  valid_from = cert.valid_from;
  valid_to = cert.valid_to;
  last_checked_at = cert.last_checked_at;
}

pub record DomainResponseDto : Type 0 where
  pub id : ℕ
  pub hostname : Text
  pub host_id : Option ℕ
  pub registrar : Option Text
  pub domain_expires_at : Option ℕ
  pub dns_status : DomainDnsStatus
  pub resolved_ip : Option Text
  pub ssl_status : SslCertificateStatus
  pub last_checked_at : Option ℕ
  pub created_at : ℕ

unfoldable pub to_domain_response_dto : Domain → SslCertificateStatus → DomainResponseDto
to_domain_response_dto domain ssl_status = record {
  id = domain.id;
  hostname = domain.hostname;
  host_id = domain.host_id;
  registrar = domain.registrar;
  domain_expires_at = domain.domain_expires_at;
  dns_status = domain.dns_status;
  resolved_ip = domain.resolved_ip;
  ssl_status = ssl_status;
  last_checked_at = domain.last_checked_at;
  created_at = domain.created_at;
}

pub record DomainDetailResponseDto : Type 0 where
  pub id : ℕ
  pub hostname : Text
  pub host_id : Option ℕ
  pub registrar : Option Text
  pub domain_expires_at : Option ℕ
  pub dns_status : DomainDnsStatus
  pub resolved_ip : Option Text
  pub last_checked_at : Option ℕ
  pub created_at : ℕ
  pub ssl_certificate : SslCertificateResponseDto
  pub recent_logs : List HealthCheckLogResponseDto

unfoldable pub to_domain_detail_response_dto :
    Domain → SslCertificate → List HealthCheckLog → DomainDetailResponseDto
to_domain_detail_response_dto domain ssl_certificate logs = record {
  id = domain.id;
  hostname = domain.hostname;
  host_id = domain.host_id;
  registrar = domain.registrar;
  domain_expires_at = domain.domain_expires_at;
  dns_status = domain.dns_status;
  resolved_ip = domain.resolved_ip;
  last_checked_at = domain.last_checked_at;
  created_at = domain.created_at;
  ssl_certificate = to_ssl_certificate_response_dto ssl_certificate;
  recent_logs = map to_health_check_log_response_dto logs;
}

abbrev pub shown_created : Db × Throws (Domain × ℕ) → Db × Throws DomainResponseDto
shown_created (db, throw e) = (db, throw e)
shown_created (db, ok (domain, job_id)) = (
  db,
  Domains.get_ssl_certificate_or_throw db domain.id
      >>= (λ cert. ok (to_domain_response_dto domain cert.status)),
)

unfoldable pub post_domain :
    Db → ℕ → ℕ → Domains.CreateDomainDto → Throws ℕ → Db × Throws DomainResponseDto
post_domain db now org_id dto queue_add = shown_created (Domains.create db now org_id dto queue_add)

unfoldable pub get_domains : Db → ℕ → List DomainResponseDto
get_domains db org_id =
    map (λ row. to_domain_response_dto row.0 row.1) (Domains.find_all_for_org db org_id)

unfoldable pub get_domain : Db → ℕ → ℕ → Throws DomainDetailResponseDto
get_domain db org_id id = do
  domain ← Domains.find_domain_for_org_or_throw db org_id id
  ssl_certificate ← Domains.get_ssl_certificate_or_throw db domain.id
  ok (to_domain_detail_response_dto domain ssl_certificate (Domains.get_recent_logs db domain.id))

pub record IdleHostDto : Type 0 where
  pub id : ℕ
  pub name : Text
  pub ip_address : Text
  pub last_checked_at : Option ℕ
  pub created_at : ℕ

unfoldable pub to_idle_host_dto : Host → IdleHostDto
to_idle_host_dto host = record {
  id = host.id;
  name = host.name;
  ip_address = host.ip_address;
  last_checked_at = host.last_checked_at;
  created_at = host.created_at;
}

pub record OrphanedDomainDto : Type 0 where
  pub id : ℕ
  pub hostname : Text
  pub host_id : Option ℕ
  pub resolved_ip : Option Text

unfoldable pub to_orphaned_domain_dto : Domain → OrphanedDomainDto
to_orphaned_domain_dto domain = record {
  id = domain.id;
  hostname = domain.hostname;
  host_id = domain.host_id;
  resolved_ip = domain.resolved_ip;
}

pub record OrphanedHostDto : Type 0 where
  pub id : ℕ
  pub name : Text
  pub ip_address : Text

unfoldable pub to_orphaned_host_dto : Host → OrphanedHostDto
to_orphaned_host_dto host = record { id = host.id; name = host.name; ip_address = host.ip_address }

pub record InsightsResponseDto : Type 0 where
  pub idle_hosts : List IdleHostDto
  pub orphaned_domains : List OrphanedDomainDto
  pub orphaned_hosts : List OrphanedHostDto

unfoldable pub get_insights : Db → ℕ → ℕ → InsightsResponseDto
get_insights db now org_id = record {
  idle_hosts = map to_idle_host_dto (compute_idle_hosts db now (some org_id));
  orphaned_domains = map to_orphaned_domain_dto (compute_orphaned_domains db (some org_id));
  orphaned_hosts = map to_orphaned_host_dto (compute_orphaned_hosts db (some org_id));
}
