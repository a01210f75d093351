-- ===== src/DomainCheck.antt =====
-- src/domain-check/domain-check.processor.ts: the check of a domain by DNS, WHOIS and TLS.
pub mod Checks
pub mod Expiry
pub mod Logged
pub mod Kept
pub mod Fields
pub mod Live
use servers_manager.Base.{
  ℕ, Bool, true, false, Option, none, some, List, Text, codes, ◌==◌, ◌∷◌, ◌++◌, [], map, truthy,
  find?, if◌then◌else◌, Throws, throw, ok, ◌&&◌,
}
use servers_manager.Db.{
  Db, Domain, DomainDnsStatus, SslCertificate, SslCertificateStatus, JsDate, AlertEntityType,
  HealthCheckEntityType, LogStatus, RawOutput, write_log,
}
use servers_manager.Db.Table.{update_where}
use servers_manager.Alerts.{AlertPorts, evaluate_transition}
use servers_manager.Domains.{is_linked, insert_row, foreign_key_violation}
use servers_manager.DomainCheck.Checks.{
  DnsCheckResult, WhoisCheckResult, WhoisEntry, PeerCertificate, TlsCheckResult, perform_dns_check,
  perform_whois_lookup, perform_tls_check, or_else,
}

-- What the check takes from the platform: the resolver, WHOIS, a TLS connection to an address for
-- a host name, lower casing, and `new Date` of a text.
pub record DomainPorts : Type 0 where
  pub alerts : AlertPorts
  pub resolve : Text → Throws (List Text)
  pub whois : Text → Throws (List WhoisEntry)
  pub tls : Text → Text → Throws (Option PeerCertificate)
  pub to_lower : Text → Text
  pub new_date : Text → JsDate

-- The values of the enum `SslCertificateStatus`.
abbrev pub ssl_status_text : SslCertificateStatus → Text
ssl_status_text SslCertificateStatus.unknown = codes "unknown"
ssl_status_text SslCertificateStatus.valid = codes "valid"
ssl_status_text SslCertificateStatus.expiring_soon = codes "expiring_soon"
ssl_status_text SslCertificateStatus.expired = codes "expired"
ssl_status_text SslCertificateStatus.invalid = codes "invalid"

-- The address to connect to: the domain resolves, and to a text that is not empty.
abbrev pub target : DnsCheckResult → Option Text
target result = elim (result.resolved_ip) [
  | none ↦ none
  | some ip ↦ elim (result.status) [
    | DomainDnsStatus.resolving ↦ if truthy ip then some ip else none
    | DomainDnsStatus.unknown ↦ none
    | DomainDnsStatus.not_resolving ↦ none
  ]
]

-- A column takes a date or null.
unfoldable pub is_storable : Option JsDate → Bool
is_storable none = true
is_storable (some (JsDate.at time)) = true
is_storable (some JsDate.invalid_date) = false

-- The row with the loaded one's id is written if it is still there: its organization and hostname
-- are never written anew, so only the host may be refused. If it was removed since it was loaded, the
-- save inserts it again.
unfoldable pub save_domain : Db → Domain → Throws Db
unfolding insert_row
save_domain db domain = elim (find? (λ row. row.id == domain.id) db.domains) [
  | none ↦ insert_row db domain
  | some stored ↦
      if is_linked db stored.host_id domain.host_id
      then ok (record db {
        domains = update_where (λ row. row.id == domain.id) (λ row. domain) db.domains;
      })
      else throw foreign_key_violation
]

module _ (ports : DomainPorts) (now : ℕ) where
  abbrev pub checked_cert : SslCertificate → TlsCheckResult → SslCertificate
  checked_cert cert result = record cert {
    status = result.status;
    issuer = result.issuer;
    valid_from = result.valid_from;
    valid_to = result.valid_to;
    last_checked_at = some now;
  }

  -- A row with a date that is no date is refused by the database, which ends the check.
  unfoldable pub save_cert : Db → Domain → TlsCheckResult → Option SslCertificate → Db
  unfolding is_storable
  save_cert db domain result none = db
  save_cert db domain result (some cert) =
      let saved = record db {
        ssl_certificates =
            update_where (λ row. row.id == cert.id) (λ row. checked_cert cert result)
              db.ssl_certificates;
      } in
      if is_storable result.valid_from && is_storable result.valid_to
      then evaluate_transition ports.alerts now saved (record {
        org_id = domain.org_id;
        entity_type = AlertEntityType.ssl_certificate;
        entity_id = domain.id;
        previous_status = ssl_status_text cert.status;
        new_status = ssl_status_text result.status;
      })
      else db

  unfoldable pub check_tls : Db → Domain → Text → Db
  unfolding save_cert
  check_tls db domain resolved_ip =
      let result = perform_tls_check ports.new_date now (ports.tls resolved_ip domain.hostname) in
      let logged =
        write_log db now HealthCheckEntityType.ssl_certificate domain.id
          (LogStatus.ssl_status result.status) RawOutput.tls_check in
      save_cert logged domain result
        (find? (λ cert. cert.domain_id == domain.id) logged.ssl_certificates)

  -- The row as the check saves it: what WHOIS does not say stays. `resolvedIp` is stored as it is.
  unfoldable pub checked_domain : Domain → DnsCheckResult → WhoisCheckResult → Domain
  checked_domain domain dns whois = record domain {
    dns_status = dns.status;
    resolved_ip = dns.resolved_ip;
    registrar = or_else whois.registrar domain.registrar;
    domain_expires_at = or_else whois.expires_at domain.domain_expires_at;
    last_checked_at = some now;
  }

  unfoldable pub check_certificate : Db → Domain → Option Text → Db
  unfolding check_tls
  check_certificate db domain (some ip) = check_tls db domain ip
  check_certificate db domain none =
      write_log db now HealthCheckEntityType.ssl_certificate domain.id LogStatus.skipped
        RawOutput.dns_did_not_resolve

  -- What the check logs before it saves the row.
  unfoldable pub look_up : Db → Domain → Db
  look_up db domain =
      let dns = perform_dns_check (ports.resolve domain.hostname) in
      let resolved =
        write_log db now HealthCheckEntityType.domain domain.id (LogStatus.dns_status dns.status)
          RawOutput.dns_check in
      let whois =
        perform_whois_lookup ports.to_lower ports.new_date (ports.whois domain.hostname) in
      write_log resolved now HealthCheckEntityType.domain domain.id
        (if whois.is_ok then LogStatus.whois_ok else LogStatus.whois_failed) RawOutput.whois_check

  -- The row as this check saves it.
  unfoldable pub stored : Domain → Domain
  unfolding checked_domain
  stored domain =
      checked_domain domain (perform_dns_check (ports.resolve domain.hostname))
        (perform_whois_lookup ports.to_lower ports.new_date (ports.whois domain.hostname))

  -- The rest of the check once the lookups are done; a save that is refused ends it.
  unfoldable pub save_checked : Db → Domain → Db
  unfolding save_domain check_certificate stored
  save_checked db domain = elim (save_domain db (stored domain)) [
    | throw e ↦ db
    | ok saved ↦
        check_certificate saved (stored domain)
          (target (perform_dns_check (ports.resolve domain.hostname)))
  ]

  -- The check of a row loaded before: the database may have changed since.
  unfoldable pub check_found : Db → Domain → Db
  unfolding look_up save_checked
  check_found db domain = save_checked (look_up db domain) domain

  unfoldable pub check_row : Db → Option Domain → Db
  unfolding check_found
  check_row db none = db
  check_row db (some domain) = check_found db domain

  unfoldable pub check_domain : Db → ℕ → Db
  unfolding check_row
  check_domain db domain_id = check_row db (find? (λ row. row.id == domain_id) db.domains)

-- The data of a job: a tick, or a domain.
pub data DomainJob : Type 0 where
  tick : DomainJob
  check : ℕ → DomainJob

unfoldable pub enqueue_check_for_all_domains : Db → Db
enqueue_check_for_all_domains db = record db {
  domain_check_queue = db.domain_check_queue ++ map (λ domain. domain.id) db.domains;
}

unfoldable pub process : DomainPorts → ℕ → Db → DomainJob → Db
unfolding enqueue_check_for_all_domains check_domain
process ports now db tick = enqueue_check_for_all_domains db
process ports now db (check domain_id) = check_domain ports now db domain_id
