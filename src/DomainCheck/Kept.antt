-- ===== src/DomainCheck/Kept.antt =====
-- What a check of src/domain-check/domain-check.processor.ts stores of the domain.
use servers_manager.Base.{
  ℕ, ◌≡◌, refl, ap, ◌∙◌, ==_iff, ==_refl, Option, none, some, Text, ◌==◌, find?, throw, Error, ok,
  true, Bool-cases, inl, inr, ◌&&◌,
}
use servers_manager.Db.{Db, Domain, SslCertificate, write_log}
use servers_manager.Db.Table.{find?-sound, find?-update_where, update_where}
use servers_manager.Domains.{is_linked}
use servers_manager.Alerts.Frame.{evaluate_transition-IsAlerted}
use servers_manager.DomainCheck.Checks.{TlsCheckResult, perform_dns_check, perform_whois_lookup}
use servers_manager.DomainCheck.{
  DomainPorts, is_storable, save_cert, check_tls, check_certificate, check_found, checked_domain,
  check_row, save_domain, stored, look_up, save_checked, target, check_domain,
}

is_linked-same : (db : Db) (host_id : Option ℕ) → is_linked db host_id host_id ≡ true
is_linked-same db none = refl
is_linked-same db (some host_id) = rw (==_refl host_id)

module _ (ports : DomainPorts) (now : ℕ) where
  save_cert-domains :
      (db : Db) (domain : Domain) (result : TlsCheckResult) (cert : Option SslCertificate)
      → (save_cert ports now db domain result cert).domains ≡ db.domains
  unfolding save_cert
  save_cert-domains db domain result none = refl
  save_cert-domains db domain result (some cert) =
      elim (Bool-cases (is_storable result.valid_from && is_storable result.valid_to)) [
        | inl e ↦ rw e (ap (λ d. d.domains) (evaluate_transition-IsAlerted ports.alerts now _ _))
        | inr e ↦ rw e refl
      ]

  pub check_certificate-domains :
      (db : Db) (domain : Domain) (ip : Option Text)
      → (check_certificate ports now db domain ip).domains ≡ db.domains
  unfolding check_certificate check_tls write_log
  check_certificate-domains db domain none = refl
  check_certificate-domains db domain (some ip) = search save_cert-domains

  -- The save of a row that is still as it was loaded is not refused.
  pub save_domain-loaded :
      (db : Db) (domain : Domain)
      → find? (λ row. row.id == domain.id) db.domains ≡ some domain
      → save_domain db (stored ports now domain)
        ≡ ok (record db {
          domains =
              update_where (λ row. row.id == domain.id) (λ row. stored ports now domain) db.domains;
        })
  unfolding stored checked_domain save_domain update_where
  save_domain-loaded db domain h = rw (h, save_domain) (rw (is_linked-same db domain.host_id) refl)

  pub save_checked-loaded :
      (db : Db) (domain : Domain)
      → find? (λ row. row.id == domain.id) db.domains ≡ some domain
      → save_checked ports now db domain
        ≡ check_certificate ports now
            (record db {
              domains =
                  update_where
                    (λ row. row.id == domain.id)
                    (λ row. stored ports now domain)
                    db.domains;
            })
            (stored ports now domain)
            (target (perform_dns_check (ports.resolve domain.hostname)))
  unfolding save_checked check_certificate
  save_checked-loaded db domain h = rw (save_domain-loaded db domain h, save_checked) refl

  pub check_found-find :
      (db : Db) (domain : Domain)
      → find? (λ row. row.id == domain.id) db.domains ≡ some domain
      → find? (λ row. row.id == domain.id) (check_found ports now db domain).domains
        ≡ some (stored ports now domain)
  unfolding check_found look_up write_log stored checked_domain
  check_found-find db domain h = rw (save_checked-loaded (look_up ports now db domain) domain h) (
      rw (check_certificate-domains _ _ _) (
        find?-update_where (λ row. row.id == domain.id) (stored ports now domain) domain db.domains
          (==_refl domain.id) h))

  check_domain-find :
      (db : Db) (id : ℕ) (domain : Domain)
      → find? (λ row. row.id == id) db.domains ≡ some domain
      → find? (λ row. row.id == id) (check_domain ports now db id).domains
        ≡ some (stored ports now domain)
  unfolding check_domain check_row
  check_domain-find db id domain h =
      let same : domain.id ≡ id =
        (==_iff domain.id id).0 (find?-sound (λ row. row.id == id) db.domains domain h) in
      rw h (
        rw (← same)
          (check_found-find db domain (ap (λ i. find? (λ row. row.id == i) db.domains) same ∙ h)))

  -- When WHOIS fails, the check stores the outcome of DNS and the time of the check, and leaves all
  -- else of the row, its registrar and its expiry among them, as it was.
  pub check_domain-kept :
      (db : Db) (id : ℕ) (domain : Domain) (e : Error)
      → find? (λ row. row.id == id) db.domains ≡ some domain
      → ports.whois domain.hostname ≡ throw e
      → find? (λ row. row.id == id) (check_domain ports now db id).domains
        ≡ some (record domain {
          dns_status = (perform_dns_check (ports.resolve domain.hostname)).status;
          resolved_ip = (perform_dns_check (ports.resolve domain.hostname)).resolved_ip;
          last_checked_at = some now;
        })
  unfolding stored checked_domain perform_whois_lookup
  check_domain-kept db id domain e h failed = check_domain-find db id domain h ∙ rw failed
