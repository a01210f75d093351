-- ===== src/DomainCheck/Checks.antt =====
-- src/domain-check/checks and src/domain-check/ssl-status.util.ts: what one look at DNS, WHOIS and TLS
-- comes to.
use servers_manager.Base.{
  ltb, leb, false, true, Bool, ◌-◌, ℕ, ◌*◌, Bool, true, false, Option, none, some, List, [], ◌∷◌,
  Text, codes, ltb, trim, truthy, text_eq, if◌then◌else◌, Throws, ok, throw,
}
use servers_manager.Db.{DomainDnsStatus, SslCertificateStatus, JsDate}

pub record DnsCheckResult : Type 0 where
  pub status : DomainDnsStatus
  pub resolved_ip : Option Text

abbrev pub first {ℓ} : {A : Type ℓ} → List A → Option A
first [] = none
first (a ∷ rest) = some a

-- `dns.resolve4` under the timeout is what the platform answers.
unfoldable pub perform_dns_check : Throws (List Text) → DnsCheckResult
perform_dns_check (ok addresses) = record {
  status = DomainDnsStatus.resolving;
  resolved_ip = first addresses;
}
perform_dns_check (throw e) = record { status = DomainDnsStatus.not_resolving; resolved_ip = none }

pub record WhoisCheckResult : Type 0 where
  pub is_ok : Bool
  pub registrar : Option Text
  pub expires_at : Option ℕ

-- One entry of the WHOIS record; the value is none where it is no string.
pub record WhoisEntry : Type 0 where
  pub key : Text
  pub value : Option Text

abbrev pub expiry_field_names : List Text
expiry_field_names =
    codes "registryExpiryDate"
    ∷ codes "registrarRegistrationExpirationDate"
    ∷ codes "expiryDate"
    ∷ codes "expirationDate"
    ∷ codes "expiresOn"
    ∷ codes "expires"
    ∷ codes "paidTill"
    ∷ []

abbrev pub registrar_field_names : List Text
registrar_field_names = codes "registrar" ∷ codes "sponsoringRegistrar" ∷ codes "registrarName" ∷ []

-- `lowerCaseKeys.get(…)`: of keys that differ in case only the last one stays in the map.
unfoldable pub last_entry : (Text → Text) → Text → List WhoisEntry → Option WhoisEntry
last_entry to_lower wanted [] = none
last_entry to_lower wanted (entry ∷ entries) = elim (last_entry to_lower wanted entries) [
  | some later ↦ some later
  | none ↦ if text_eq (to_lower entry.key) wanted then some entry else none
]

-- The value, where the key is not empty and the value is a string with more than blanks.
unfoldable pub usable : Option WhoisEntry → Option Text
usable none = none
usable (some entry) = elim (entry.value) [
  | none ↦ none
  | some value ↦
      if truthy entry.key then (if truthy (trim value) then some value else none) else none
]

unfoldable pub pick_field : (Text → Text) → List WhoisEntry → List Text → Option Text
unfolding last_entry usable
pick_field to_lower whois [] = none
pick_field to_lower whois (candidate ∷ candidates) =
    elim (usable (last_entry to_lower (to_lower candidate) whois)) [
      | some value ↦ some value
      | none ↦ pick_field to_lower whois candidates
    ]

-- An expiry date that is no date is dropped.
abbrev pub readable : JsDate → Option ℕ
readable (JsDate.at time) = some time
readable JsDate.invalid_date = none

unfoldable pub read_expiry : (Text → JsDate) → Option Text → Option ℕ
read_expiry new_date none = none
read_expiry new_date (some text) = readable (new_date text)

unfoldable pub perform_whois_lookup :
    (Text → Text) → (Text → JsDate) → Throws (List WhoisEntry) → WhoisCheckResult
unfolding pick_field read_expiry
perform_whois_lookup to_lower new_date (ok whois) = record {
  is_ok = true;
  registrar = pick_field to_lower whois registrar_field_names;
  expires_at = read_expiry new_date (pick_field to_lower whois expiry_field_names);
}
perform_whois_lookup to_lower new_date (throw e) = record {
  is_ok = false;
  registrar = none;
  expires_at = none;
}

-- `SSL_EXPIRY_WARNING_DAYS * MS_PER_DAY`.
abbrev pub warning_ms : ℕ
warning_ms = 14 * (24 * 60 * 60 * 1000)

-- A whole number of JavaScript, below zero or not, or NaN.
pub data JsNumber : Type 0 where
  nan : JsNumber
  minus plus : ℕ → JsNumber

-- `validTo.getTime() - now.getTime()`; `getTime` of an invalid date is NaN, and so is what is
-- computed with it.
unfoldable pub ms_until : JsDate → ℕ → JsNumber
ms_until JsDate.invalid_date now = nan
ms_until (JsDate.at time) now = if ltb time now then minus (now - time) else plus (time - now)

-- `n < 0` and `n <= k`, with NaN neither less than, nor equal to, any number.
unfoldable pub is_negative : JsNumber → Bool
is_negative nan = false
is_negative (minus n) = ltb 0 n
is_negative (plus n) = false

unfoldable pub is_at_most : ℕ → JsNumber → Bool
is_at_most k nan = false
is_at_most k (minus n) = true
is_at_most k (plus n) = leb n k

unfoldable pub compute_ssl_status_from_valid_to : JsDate → ℕ → SslCertificateStatus
unfolding ms_until is_negative is_at_most
compute_ssl_status_from_valid_to valid_to now =
    let ms_until_expiry = ms_until valid_to now in
    if is_negative ms_until_expiry
    then SslCertificateStatus.expired
    else if is_at_most warning_ms ms_until_expiry
    then SslCertificateStatus.expiring_soon
    else SslCertificateStatus.valid

-- A name of the issuer: `undefined`, a string, or an array of strings.
pub data IssuerName : Type 0 where
  absent : IssuerName
  one : Text → IssuerName
  many : List Text → IssuerName

pub record PeerCertificate : Type 0 where
  pub organization : IssuerName
  pub common_name : IssuerName
  pub valid_from : Option Text
  pub valid_to : Option Text

abbrev pub first_value : IssuerName → Option Text
first_value absent = none
first_value (one text) = if truthy text then some text else none
first_value (many texts) = first texts

abbrev pub or_else {ℓ} : {A : Type ℓ} → Option A → Option A → Option A
or_else none b = b
or_else (some a) b = some a

unfoldable pub format_issuer : PeerCertificate → Option Text
format_issuer cert = or_else (first_value cert.organization) (first_value cert.common_name)

pub record TlsCheckResult : Type 0 where
  pub status : SslCertificateStatus
  pub issuer : Option Text
  pub valid_from : Option JsDate
  pub valid_to : Option JsDate

-- `s ? new Date(s) : null`.
abbrev pub date_of : (Text → JsDate) → Option Text → Option JsDate
date_of new_date none = none
date_of new_date (some text) = if truthy text then some (new_date text) else none

unfoldable pub compute_status : Option JsDate → ℕ → SslCertificateStatus
unfolding compute_ssl_status_from_valid_to
compute_status none now = SslCertificateStatus.invalid
compute_status (some valid_to) now = compute_ssl_status_from_valid_to valid_to now

abbrev pub invalid_result : TlsCheckResult
invalid_result = record {
  status = SslCertificateStatus.invalid;
  issuer = none;
  valid_from = none;
  valid_to = none;
}

-- The certificate of the peer is none where none was presented.
unfoldable pub perform_tls_check :
    (Text → JsDate) → ℕ → Throws (Option PeerCertificate) → TlsCheckResult
unfolding compute_status format_issuer
perform_tls_check new_date now (throw e) = invalid_result
perform_tls_check new_date now (ok none) = invalid_result
perform_tls_check new_date now (ok (some cert)) = record {
  status = compute_status (date_of new_date cert.valid_to) now;
  issuer = format_issuer cert;
  valid_from = date_of new_date cert.valid_from;
  valid_to = date_of new_date cert.valid_to;
}
