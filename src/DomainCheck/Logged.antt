-- ===== src/DomainCheck/Logged.antt =====
-- What one check of src/domain-check/domain-check.processor.ts logs.
use servers_manager.Base.{
  ℕ, suc, ◌≡◌, refl, ap, ◌∙◌, Bool-cases, inl, inr, ==_iff, Option, none, some, List, [], ◌∷◌, ◌++◌,
  Text, truthy, ◌==◌, find?, ◌&&◌, if◌then◌else◌, Throws, ok, throw,
}
use servers_manager.Db.{
  Db, Domain, DomainDnsStatus, SslCertificate, HealthCheckEntityType, HealthCheckLog, LogStatus,
  RawOutput, write_log,
}
use servers_manager.Db.Table.{find?-sound}
use servers_manager.Alerts.Frame.{evaluate_transition-IsAlerted}
use servers_manager.DomainCheck.Checks.{
  TlsCheckResult, WhoisEntry, perform_dns_check, perform_whois_lookup, perform_tls_check,
}
use servers_manager.DomainCheck.{
  DomainPorts, is_storable, target, save_cert, check_tls, check_certificate, checked_domain, stored,
  look_up, check_found, check_row, check_domain,
}
use servers_manager.DomainCheck.Kept.{save_checked-loaded}

-- What a log row says of an entity at a time.
pub record Says (now : ℕ) (type : HealthCheckEntityType) (id : ℕ) (status : LogStatus)
    (output : RawOutput) (log : HealthCheckLog) : Type 0 where
  pub is_type : log.entity_type ≡ type
  pub is_about : log.entity_id ≡ id
  pub has_status : log.status ≡ status
  pub has_output : log.raw_output ≡ output
  pub at_time : log.checked_at ≡ now

-- DNS, WHOIS and TLS by what the platform answers.
abbrev pub dns_says : Throws (List Text) → LogStatus
dns_says (throw e) = LogStatus.dns_status DomainDnsStatus.not_resolving
dns_says (ok addresses) = LogStatus.dns_status DomainDnsStatus.resolving

abbrev pub whois_says : Throws (List WhoisEntry) → LogStatus
whois_says (throw e) = LogStatus.whois_failed
whois_says (ok entries) = LogStatus.whois_ok

abbrev pub certificate_says : DomainPorts → ℕ → Text → Throws (List Text) → LogStatus × RawOutput
certificate_says ports now hostname (throw e) = (LogStatus.skipped, RawOutput.dns_did_not_resolve)
certificate_says ports now hostname (ok []) = (LogStatus.skipped, RawOutput.dns_did_not_resolve)
certificate_says ports now hostname (ok (ip ∷ others)) =
    if truthy ip
    then (
      LogStatus.ssl_status (perform_tls_check ports.new_date now (ports.tls ip hostname)).status,
      RawOutput.tls_check,
    )
    else (LogStatus.skipped, RawOutput.dns_did_not_resolve)

-- The log of a check is three rows more.
pub record IsLogged (ports : DomainPorts) (now : ℕ) (domain : Domain) (before after : Db)
    : Type 0 where
  pub dns : HealthCheckLog
  pub whois : HealthCheckLog
  pub certificate : HealthCheckLog
  pub appended :
      after.health_check_logs ≡ before.health_check_logs ++ dns ∷ whois ∷ certificate ∷ []
  pub dns_said :
      Says now HealthCheckEntityType.domain domain.id
        (dns_says (ports.resolve domain.hostname))
        RawOutput.dns_check
        dns
  pub whois_said :
      Says now HealthCheckEntityType.domain domain.id
        (whois_says (ports.whois domain.hostname))
        RawOutput.whois_check
        whois
  pub certificate_said :
      Says now HealthCheckEntityType.ssl_certificate domain.id
        (certificate_says ports now domain.hostname (ports.resolve domain.hostname)).0
        (certificate_says ports now domain.hostname (ports.resolve domain.hostname)).1
        certificate

snoc_snoc_snoc {ℓ} :
    {A : Type ℓ} (rows : List A) (a b c : A)
    → ((rows ++ a ∷ []) ++ b ∷ []) ++ c ∷ [] ≡ rows ++ a ∷ b ∷ c ∷ []
snoc_snoc_snoc [] a b c = refl
snoc_snoc_snoc (row ∷ rows) a b c = ap (λ r. row ∷ r) (snoc_snoc_snoc rows a b c)

dns_says-perform :
    (answer : Throws (List Text))
    → LogStatus.dns_status (perform_dns_check answer).status ≡ dns_says answer
unfolding perform_dns_check
dns_says-perform (throw e) = refl
dns_says-perform (ok addresses) = refl

whois_says-perform :
    (to_lower : Text → Text) (ports : DomainPorts) (answer : Throws (List WhoisEntry))
    → (if (perform_whois_lookup to_lower ports.new_date answer).is_ok
        then LogStatus.whois_ok
        else LogStatus.whois_failed)
      ≡ whois_says answer
unfolding perform_whois_lookup
whois_says-perform to_lower ports (throw e) = refl
whois_says-perform to_lower ports (ok entries) = refl

module _ (ports : DomainPorts) (now : ℕ) where
  save_cert-logs :
      (db : Db) (domain : Domain) (result : TlsCheckResult) (cert : Option SslCertificate)
      → (save_cert ports now db domain result cert).health_check_logs ≡ db.health_check_logs
  unfolding save_cert
  save_cert-logs db domain result none = refl
  save_cert-logs db domain result (some cert) =
      elim (Bool-cases (is_storable result.valid_from && is_storable result.valid_to)) [
        | inl e ↦
            rw e
              (ap (λ d. d.health_check_logs) (evaluate_transition-IsAlerted ports.alerts now _ _))
        | inr e ↦ rw e refl
      ]

  abbrev log_row : ℕ → HealthCheckEntityType → Domain → LogStatus × RawOutput → HealthCheckLog
  log_row id type domain said = record {
    id = id;
    entity_type = type;
    entity_id = domain.id;
    status = said.0;
    raw_output = said.1;
    checked_at = now;
  }

  log_row-Says :
      (id : ℕ) (type : HealthCheckEntityType) (domain : Domain) (said : LogStatus × RawOutput)
      → Says now type domain.id said.0 said.1 (log_row id type domain said)
  log_row-Says id type domain said = record {
    is_type = refl;
    is_about = refl;
    has_status = refl;
    has_output = refl;
    at_time = refl;
  }

  check_certificate-logs :
      (db : Db) (domain : Domain) (answer : Throws (List Text))
      → (check_certificate ports now db domain
          (target (perform_dns_check answer))).health_check_logs
        ≡ db.health_check_logs
          ++ log_row db.next_id HealthCheckEntityType.ssl_certificate domain
              (certificate_says ports now domain.hostname answer)
            ∷ []
  unfolding check_certificate check_tls perform_dns_check write_log
  check_certificate-logs db domain (throw e) = refl
  check_certificate-logs db domain (ok []) = refl
  check_certificate-logs db domain (ok (ip ∷ others)) = elim (Bool-cases (truthy ip)) [
    | inl e ↦ rw e (search save_cert-logs)
    | inr e ↦ rw e refl
  ]

  abbrev dns_row : ℕ → Domain → HealthCheckLog
  dns_row id domain =
      log_row id HealthCheckEntityType.domain domain
        (dns_says (ports.resolve domain.hostname), RawOutput.dns_check)

  abbrev whois_row : ℕ → Domain → HealthCheckLog
  whois_row id domain =
      log_row id HealthCheckEntityType.domain domain
        (whois_says (ports.whois domain.hostname), RawOutput.whois_check)

  abbrev certificate_row : ℕ → Domain → HealthCheckLog
  certificate_row id domain =
      log_row id HealthCheckEntityType.ssl_certificate domain
        (certificate_says ports now domain.hostname (ports.resolve domain.hostname))

  look_up-logs :
      (db : Db) (domain : Domain)
      → (look_up ports now db domain).health_check_logs
        ≡ (db.health_check_logs ++ dns_row db.next_id domain ∷ [])
          ++ whois_row (suc db.next_id) domain ∷ []
  unfolding look_up write_log
  look_up-logs db domain =
      rw (dns_says-perform (ports.resolve domain.hostname))
        (rw (whois_says-perform ports.to_lower ports (ports.whois domain.hostname)) refl)

  check_found-logs :
      (db : Db) (domain : Domain)
      → find? (λ row. row.id == domain.id) db.domains ≡ some domain
      → (check_found ports now db domain).health_check_logs
        ≡ db.health_check_logs
          ++ dns_row db.next_id domain
            ∷ whois_row (suc db.next_id) domain
            ∷ certificate_row (suc (suc db.next_id)) domain
            ∷ []
  unfolding check_found look_up write_log stored checked_domain
  check_found-logs db domain h =
      let looked_up = look_up ports now db domain in
      ap (λ d. d.health_check_logs) (save_checked-loaded ports now looked_up domain h)
      ∙ check_certificate-logs _ (stored ports now domain) (ports.resolve domain.hostname)
      ∙ ap (λ logs. logs ++ certificate_row (suc (suc db.next_id)) domain ∷ [])
          (look_up-logs db domain)
      ∙ snoc_snoc_snoc db.health_check_logs (dns_row db.next_id domain)
          (whois_row (suc db.next_id) domain) (certificate_row (suc (suc db.next_id)) domain)

  check_found-IsLogged :
      (db : Db) (domain : Domain)
      → find? (λ row. row.id == domain.id) db.domains ≡ some domain
      → IsLogged ports now domain db (check_found ports now db domain)
  check_found-IsLogged db domain h = record {
    dns = dns_row db.next_id domain;
    whois = whois_row (suc db.next_id) domain;
    certificate = certificate_row (suc (suc db.next_id)) domain;
    appended = check_found-logs db domain h;
    dns_said = log_row-Says _ _ domain _;
    whois_said = log_row-Says _ _ domain _;
    certificate_said = log_row-Says _ _ domain _;
  }

  -- Every check of a domain that the table holds appends exactly three rows to the log, all of them
  -- about this domain: that it resolves or does not, that WHOIS answered or failed, and the status of
  -- the certificate read at its first address, or that this was skipped where there is no address,
  -- whichever of them fail.
  pub check_domain-about :
      (db : Db) (id : ℕ) (domain : Domain)
      → find? (λ row. row.id == id) db.domains ≡ some domain
      → IsLogged ports now domain db (check_domain ports now db id)
  unfolding check_domain check_row
  check_domain-about db id domain h =
      let same : domain.id ≡ id =
        (==_iff domain.id id).0 (find?-sound (λ row. row.id == id) db.domains domain h) in
      rw h
        (check_found-IsLogged db domain (ap (λ i. find? (λ row. row.id == i) db.domains) same ∙ h))
