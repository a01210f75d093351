-- ===== src/Tests/DomainRuns.antt =====
-- The check of a domain that resolves while its registry is silent, and a certificate read.
use servers_manager.Base.{
  ◌≡◌, All, arith, refl, none, some, [], ◌∷◌, codes, ok, throw, error, ◌==◌, find?, List, text_eq,
  trim,
}
use servers_manager.Db.{Db, Domain, DomainDnsStatus, JsDate, SslCertificateStatus}
use servers_manager.DomainCheck.Checks.{
  PeerCertificate, WhoisEntry, one, absent, perform_tls_check, perform_dns_check, pick_field,
  last_entry, usable,
}
use servers_manager.DomainCheck.{
  DomainPorts, check_domain, process, tick, enqueue_check_for_all_domains,
}
use servers_manager.DomainCheck.Live.{Run, work, IsCheckedSince, work-IsCheckedSince}
use servers_manager.DomainCheck.Expiry.{
  IsRead, perform_tls_check-IsRead, perform_tls_check-unreadable,
}
use servers_manager.DomainCheck.Logged.{IsLogged, check_domain-about}
use servers_manager.DomainCheck.Kept.{check_domain-kept}
use servers_manager.DomainCheck.Fields.{IsPicked, pick_field-IsPicked}
use servers_manager.Hosts.{find_host_for_org_or_throw}
use servers_manager.Domains.{
  CreateDomainDto, new_domain, check_create, insert_row, insert_domain, insert_certificate,
  enqueue_job, commit_create, create,
}
use servers_manager.Domains.Created.{IsCreated, create-IsCreated}
use servers_manager.Tests.Samples.{alert_ports, db}

abbrev peer : PeerCertificate
peer = record {
  organization = one (codes "CA");
  common_name = absent;
  valid_from = none;
  valid_to = some (codes "Jun 1");
}

abbrev pub domain_ports : DomainPorts
domain_ports = record {
  alerts = alert_ports;
  resolve = λ hostname. ok (codes "203.0.113.10" ∷ []);
  whois = λ hostname. throw (error (codes "refused"));
  tls = λ ip hostname. ok (some peer);
  to_lower = λ text. text;
  new_date = λ text. JsDate.at 2000000000;
}

abbrev site : Domain
site = record {
  id = 70;
  org_id = 1;
  host_id = none;
  hostname = codes "example.com";
  registrar = some (codes "R");
  domain_expires_at = none;
  dns_status = DomainDnsStatus.unknown;
  resolved_ip = none;
  last_checked_at = none;
  created_at = 0;
}

abbrev db_site : Db
db_site = record db { domains = site ∷ [] }

perform_tls_check-IsRead_example :
    IsRead
      (perform_tls_check (λ text. JsDate.at 2000000000) 60 (ok (some peer))).status
      2000000000
      60
perform_tls_check-IsRead_example =
    perform_tls_check-IsRead (λ text. JsDate.at 2000000000) 60 peer (codes "Jun 1") 2000000000 refl
      refl refl

perform_tls_check-unreadable_example :
    (perform_tls_check (λ text. JsDate.invalid_date) 60 (ok (some peer))).status
    ≡ SslCertificateStatus.valid
perform_tls_check-unreadable_example =
    perform_tls_check-unreadable (λ text. JsDate.invalid_date) 60 peer (codes "Jun 1") refl refl
      refl

check_domain-about_example :
    IsLogged domain_ports 60 site db_site (check_domain domain_ports 60 db_site 70)
check_domain-about_example = check_domain-about domain_ports 60 db_site 70 site refl

check_domain-kept_example :
    find? (λ row. row.id == 70) (check_domain domain_ports 60 db_site 70).domains
    ≡ some (record site {
      dns_status = DomainDnsStatus.resolving;
      resolved_ip = some (codes "203.0.113.10");
      last_checked_at = some 60;
    })
unfolding perform_dns_check
check_domain-kept_example =
    check_domain-kept domain_ports 60 db_site 70 site (error (codes "refused")) refl refl

abbrev registry : List WhoisEntry
registry = record { key = codes "registrarName"; value = some (codes "R") } ∷ []

pick_field-IsPicked_example :
    IsPicked (λ text. text) registry (codes "registrarName" ∷ []) (codes "R")
unfolding pick_field last_entry usable text_eq trim
pick_field-IsPicked_example =
    pick_field-IsPicked (λ text. text) registry (codes "registrarName" ∷ []) (codes "R") refl

abbrev site_run : Run
site_run = record { ports = domain_ports; now = 9; domain_id = 70 }

work-IsCheckedSince_example :
    All (IsCheckedSince 5) (work (site_run ∷ []) (process domain_ports 5 db_site tick)).domains
unfolding process enqueue_check_for_all_domains
work-IsCheckedSince_example =
    work-IsCheckedSince domain_ports 5 db_site (site_run ∷ []) (omega arith, tt) refl

abbrev wanted : CreateDomainDto
wanted = record { hostname = codes "example.org"; host_id = some 10 }

abbrev made : Domain
made = new_domain db_site 3 1 wanted

create-IsCreated_example : IsCreated db_site 1 wanted made (create db_site 3 1 wanted (ok 7)).0
unfolding create check_create commit_create insert_domain insert_row insert_certificate enqueue_job
    find_host_for_org_or_throw text_eq
create-IsCreated_example =
    create-IsCreated db_site 3 1 wanted (create db_site 3 1 wanted (ok 7)).0 (ok 7) made 7 refl
