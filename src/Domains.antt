-- ===== src/Domains.antt =====
-- src/domains/domains.service.ts: the domains of an organization and their certificate rows.
pub mod Created
use servers_manager.Base.{
  ℕ, suc, ◌+◌, Bool, true, false, ◌&&◌, Option, none, some, List, [], ◌∷◌, ◌++◌, map, Text, text_eq,
  ◌==◌, find?, filter, any, length, if◌then◌else◌, Throws, ok, throw, not_found, conflict,
  too_many_requests, unique_violation, Error, error, codes, ◌>>=◌,
}
use servers_manager.Db.{
  Db, Domain, DomainDnsStatus, SslCertificate, SslCertificateStatus, HealthCheckEntityType,
  HealthCheckLog,
}
use servers_manager.Db.Query.{newest_first, find_recent}
use servers_manager.Db.Cascade.{remove_domain}
use servers_manager.Hosts.{find_host_for_org_or_throw}

pub record CreateDomainDto : Type 0 where
  pub hostname : Text
  pub host_id : Option ℕ

abbrev pub is_domain_of : ℕ → ℕ → Domain → Bool
is_domain_of org_id id row = row.id == id && row.org_id == org_id

-- The row that the unique index on (organization, hostname) finds.
abbrev pub is_named : ℕ → Text → Domain → Bool
is_named org_id hostname row = row.org_id == org_id && text_eq row.hostname hostname

abbrev pub check_link : Db → ℕ → Option ℕ → Throws (Unit {0})
check_link db org_id none = ok tt
check_link db org_id (some host_id) = do host ← find_host_for_org_or_throw db org_id host_id; ok tt

abbrev pub check_free : Option Domain → Throws (Unit {0})
check_free none = ok tt
check_free (some existing) = throw conflict

-- The first half of `create`: the linked host and the name.
unfoldable pub check_create : Db → ℕ → CreateDomainDto → Throws (Unit {0})
unfolding find_host_for_org_or_throw
check_create db org_id dto = do
  linked ← check_link db org_id dto.host_id
  check_free (find? (is_named org_id dto.hostname) db.domains)

abbrev pub new_domain : Db → ℕ → ℕ → CreateDomainDto → Domain
new_domain db now org_id dto = record {
  id = db.next_id;
  org_id = org_id;
  host_id = dto.host_id;
  hostname = dto.hostname;
  registrar = none;
  domain_expires_at = none;
  dns_status = DomainDnsStatus.unknown;
  resolved_ip = none;
  last_checked_at = none;
  created_at = now;
}

abbrev pub new_certificate : ℕ → ℕ → ℕ → SslCertificate
new_certificate id now domain_id = record {
  id = id;
  domain_id = domain_id;
  issuer = none;
  valid_from = none;
  valid_to = none;
  status = SslCertificateStatus.unknown;
  last_checked_at = none;
  created_at = now;
}

-- The column refers to a host that is there, or to none; a column that keeps its value is not checked.
abbrev pub is_linked : Db → (stored written : Option ℕ) → Bool
is_linked db stored none = true
is_linked db none (some host_id) = any (λ host. host.id == host_id) db.hosts
is_linked db (some old) (some host_id) =
    if old == host_id then true else any (λ host. host.id == host_id) db.hosts

abbrev pub foreign_key_violation : Error
foreign_key_violation = error (codes "violates foreign key constraint")

-- The insert of a row, under the unique index on the organization and the hostname and the foreign
-- key to the host.
unfoldable pub insert_row : Db → Domain → Throws Db
insert_row db domain = elim (find? (is_named domain.org_id domain.hostname) db.domains) [
  | some existing ↦ throw unique_violation
  | none ↦
      if is_linked db none domain.host_id
      then ok (record db { domains = db.domains ++ domain ∷ [] })
      else throw foreign_key_violation
]

-- The first save of `create`.
unfoldable pub insert_domain : Db → ℕ → ℕ → CreateDomainDto → Db × Throws Domain
unfolding insert_row
insert_domain db now org_id dto = elim (insert_row db (new_domain db now org_id dto)) [
  | throw e ↦ (db, throw e)
  | ok inserted ↦ (record inserted { next_id = suc db.next_id }, ok (new_domain db now org_id dto))
]

-- The second save of `create`, under the foreign key to the domain and the unique index on it: the
-- domain may have been removed since the first.
unfoldable pub insert_certificate : Db → ℕ → ℕ → Db × Throws SslCertificate
insert_certificate db now domain_id =
    if any (λ row. row.id == domain_id) db.domains
    then (if any (λ row. row.domain_id == domain_id) db.ssl_certificates
        then (db, throw unique_violation)
        else (
          record db {
            ssl_certificates = db.ssl_certificates ++ new_certificate db.next_id now domain_id ∷ [];
            next_id = suc db.next_id;
          },
          ok (new_certificate db.next_id now domain_id),
        ))
    else (db, throw foreign_key_violation)

-- `queue_add` is the answer of the queue: the id of the job.
unfoldable pub enqueue_job : Db → ℕ → Throws ℕ → Db × Throws ℕ
enqueue_job db domain_id (throw e) = (db, throw e)
enqueue_job db domain_id (ok job_id) =
    (record db { domain_check_queue = db.domain_check_queue ++ domain_id ∷ [] }, ok job_id)

abbrev pub with_job : Domain → Db × Throws ℕ → Db × Throws (Domain × ℕ)
with_job domain (db, throw e) = (db, throw e)
with_job domain (db, ok job_id) = (db, ok (domain, job_id))

abbrev pub enqueue_created :
    Domain → Db × Throws SslCertificate → Throws ℕ → Db × Throws (Domain × ℕ)
enqueue_created domain (db, throw e) queue_add = (db, throw e)
enqueue_created domain (db, ok cert) queue_add =
    with_job domain (enqueue_job db domain.id queue_add)

-- What follows the first save, `later` being the database by then: other requests may have been
-- served since.
abbrev pub commit_certificate : Db → ℕ → Throws Domain → Throws ℕ → Db × Throws (Domain × ℕ)
commit_certificate later now (throw e) queue_add = (later, throw e)
commit_certificate later now (ok domain) queue_add =
    enqueue_created domain (insert_certificate later now domain.id) queue_add

-- The second half, its saves one right after the other.
unfoldable pub commit_create : Db → ℕ → ℕ → CreateDomainDto → Throws ℕ → Db × Throws (Domain × ℕ)
unfolding insert_domain insert_certificate enqueue_job
commit_create db now org_id dto queue_add =
    let inserted = insert_domain db now org_id dto in
    commit_certificate inserted.0 now inserted.1 queue_add

abbrev pub commit_if :
    Throws (Unit {0}) → Db → ℕ → ℕ → CreateDomainDto → Throws ℕ → Db × Throws (Domain × ℕ)
commit_if (throw e) db now org_id dto queue_add = (db, throw e)
commit_if (ok checked) db now org_id dto queue_add = commit_create db now org_id dto queue_add

-- `create`, served in one go.
unfoldable pub create : Db → ℕ → ℕ → CreateDomainDto → Throws ℕ → Db × Throws (Domain × ℕ)
unfolding check_create commit_create
create db now org_id dto queue_add =
    commit_if (check_create db org_id dto) db now org_id dto queue_add

-- `new Map(certs.map(…))`: of several rows of a domain the last one stands.
unfoldable pub last_status : List SslCertificate → ℕ → Option SslCertificateStatus
last_status [] domain_id = none
last_status (cert ∷ certs) domain_id = elim (last_status certs domain_id) [
  | some later ↦ some later
  | none ↦ if cert.domain_id == domain_id then some cert.status else none
]

abbrev pub or_unknown : Option SslCertificateStatus → SslCertificateStatus
or_unknown none = SslCertificateStatus.unknown
or_unknown (some status) = status

unfoldable pub find_all_for_org : Db → ℕ → List (Domain × SslCertificateStatus)
unfolding newest_first last_status
find_all_for_org db org_id =
    map (λ domain. (domain, or_unknown (last_status db.ssl_certificates domain.id)))
      (newest_first (λ domain. domain.created_at)
        (filter (λ domain. domain.org_id == org_id) db.domains))

unfoldable pub find_domain_for_org_or_throw : Db → ℕ → ℕ → Throws Domain
find_domain_for_org_or_throw db org_id id = elim (find? (is_domain_of org_id id) db.domains) [
  | none ↦ throw not_found
  | some domain ↦ ok domain
]

unfoldable pub get_ssl_certificate_or_throw : Db → ℕ → Throws SslCertificate
get_ssl_certificate_or_throw db domain_id =
    elim (find? (λ cert. cert.domain_id == domain_id) db.ssl_certificates) [
      | none ↦ throw not_found
      | some cert ↦ ok cert
    ]

unfoldable pub get_recent_logs : Db → ℕ → List HealthCheckLog
unfolding find_recent
get_recent_logs db domain_id =
    find_recent db (HealthCheckEntityType.domain ∷ HealthCheckEntityType.ssl_certificate ∷ [])
      domain_id

unfoldable pub remove : Db → ℕ → ℕ → Db × Throws (Unit {0})
unfolding find_domain_for_org_or_throw remove_domain
remove db org_id id = elim (find_domain_for_org_or_throw db org_id id) [
  | throw e ↦ (db, throw e)
  | ok domain ↦ (remove_domain db domain.id, ok tt)
]

-- `acquired` is the answer of the rate limiter for the domain.
unfoldable pub enqueue_acquired : Db → ℕ → Throws Bool → Throws ℕ → Db × Throws ℕ
unfolding enqueue_job
enqueue_acquired db id (throw e) queue_add = (db, throw e)
enqueue_acquired db id (ok false) queue_add = (db, throw too_many_requests)
enqueue_acquired db id (ok true) queue_add = enqueue_job db id queue_add

unfoldable pub enqueue_check : Db → ℕ → ℕ → Throws Bool → Throws ℕ → Db × Throws ℕ
unfolding find_domain_for_org_or_throw enqueue_acquired
enqueue_check db org_id id acquired queue_add = elim (find_domain_for_org_or_throw db org_id id) [
  | throw e ↦ (db, throw e)
  | ok domain ↦ enqueue_acquired db id acquired queue_add
]

pub record DomainOverviewCounts : Type 0 where
  pub domains_total : ℕ
  pub ssl_valid : ℕ
  pub ssl_expiring_soon : ℕ
  pub ssl_expired : ℕ
  pub ssl_invalid : ℕ
  pub domains_not_resolving : ℕ

abbrev pub no_domains : DomainOverviewCounts
no_domains = record {
  domains_total = 0;
  ssl_valid = 0;
  ssl_expiring_soon = 0;
  ssl_expired = 0;
  ssl_invalid = 0;
  domains_not_resolving = 0;
}

-- `bySslStatus[cert.status] += 1`; the count of the unknown ones is not read.
unfoldable pub count_certificate :
    DomainOverviewCounts → SslCertificateStatus → DomainOverviewCounts
count_certificate by SslCertificateStatus.valid = record by { ssl_valid = by.ssl_valid + 1 }
count_certificate by SslCertificateStatus.expiring_soon = record by {
  ssl_expiring_soon = by.ssl_expiring_soon + 1;
}
count_certificate by SslCertificateStatus.expired = record by { ssl_expired = by.ssl_expired + 1 }
count_certificate by SslCertificateStatus.invalid = record by { ssl_invalid = by.ssl_invalid + 1 }
count_certificate by SslCertificateStatus.unknown = by

unfoldable pub count_certificates :
    DomainOverviewCounts → List SslCertificate → DomainOverviewCounts
unfolding count_certificate
count_certificates by [] = by
count_certificates by (cert ∷ certs) = count_certificates (count_certificate by cert.status) certs

abbrev pub is_not_resolving : DomainDnsStatus → Bool
is_not_resolving DomainDnsStatus.not_resolving = true
is_not_resolving _ = false

-- The `find` over no alternatives would be a query without a condition, which is why no domains is
-- answered first.
unfoldable pub count_domains : Db → List Domain → DomainOverviewCounts
unfolding count_certificates
count_domains db [] = no_domains
count_domains db (domain ∷ domains) =
    record (count_certificates no_domains
      (filter (λ cert. any (λ d. cert.domain_id == d.id) (domain ∷ domains)) db.ssl_certificates)) {
        domains_total = length (domain ∷ domains);
        domains_not_resolving =
            length (filter (λ d. is_not_resolving d.dns_status) (domain ∷ domains));
      }

unfoldable pub get_overview : Db → ℕ → DomainOverviewCounts
unfolding count_domains
get_overview db org_id = count_domains db (filter (λ domain. domain.org_id == org_id) db.domains)
