-- ===== src/DomainCheck/Expiry.antt =====
-- The status that src/domain-check/checks/tls-check.ts gives a certificate.
use servers_manager.Base.{
  ltb, Bool-cases, inl, inr, ℕ, ◌+◌, ◌<◌, ◌≤◌, ◌≡◌, ◌↔◌, true, some, Text, truthy, arith, ok,
}
use servers_manager.Db.{SslCertificateStatus, JsDate}
use servers_manager.DomainCheck.Checks.{
  PeerCertificate, warning_ms, compute_ssl_status_from_valid_to, compute_status, perform_tls_check,
  ms_until, is_negative, is_at_most,
}

-- The three readable statuses, by where the expiry stands against the clock.
pub record IsRead (status : SslCertificateStatus) (valid_to now : ℕ) : Type 0 where
  pub expired : (status ≡ SslCertificateStatus.expired) ↔ (valid_to < now)
  pub expiring_soon :
      (status ≡ SslCertificateStatus.expiring_soon)
      ↔ ((now ≤ valid_to) × (valid_to ≤ now + warning_ms))
  pub valid : (status ≡ SslCertificateStatus.valid) ↔ (now + warning_ms < valid_to)

compute_ssl_status-IsRead :
    (valid_to now : ℕ)
    → IsRead (compute_ssl_status_from_valid_to (JsDate.at valid_to) now) valid_to now
unfolding compute_ssl_status_from_valid_to ms_until is_negative is_at_most
compute_ssl_status-IsRead valid_to now = elim (Bool-cases (ltb valid_to now)) [
  | inl e ↦ rw e (record {
    expired = ((λ h. ground arith), λ h. ground arith);
    expiring_soon = ((λ h. (ground arith, ground arith)), λ h. ground arith);
    valid = ((λ h. ground arith), λ h. ground arith);
  })
  | inr e ↦ rw e (record {
    expired = ((λ h. ground arith), λ h. ground arith);
    expiring_soon = ((λ h. (ground arith, ground arith)), λ h. ground arith);
    valid = ((λ h. ground arith), λ h. ground arith);
  })
]

module _ (new_date : Text → JsDate) (now : ℕ) (cert : PeerCertificate) (text : Text) where
  perform_tls_check-date :
      (date : JsDate)
      → cert.valid_to ≡ some text
      → truthy text ≡ true
      → new_date text ≡ date
      → (perform_tls_check new_date now (ok (some cert))).status
        ≡ compute_ssl_status_from_valid_to date now
  unfolding perform_tls_check compute_status
  perform_tls_check-date date e t d = rw e (rw t (rw d))

  -- Of a presented certificate whose expiry is read as a date the check says that it is expired
  -- exactly when that date has passed, expiring soon exactly when it is at most 14 days ahead, and
  -- valid exactly when it is further ahead.
  pub perform_tls_check-IsRead :
      (valid_to : ℕ)
      → cert.valid_to ≡ some text
      → truthy text ≡ true
      → new_date text ≡ JsDate.at valid_to
      → IsRead (perform_tls_check new_date now (ok (some cert))).status valid_to now
  perform_tls_check-IsRead valid_to e t d =
      rw (perform_tls_check-date (JsDate.at valid_to) e t d)
        (compute_ssl_status-IsRead valid_to now)

  -- A presented certificate whose expiry is a text that is no date is said to be valid.
  pub perform_tls_check-unreadable :
      cert.valid_to ≡ some text
      → truthy text ≡ true
      → new_date text ≡ JsDate.invalid_date
      → (perform_tls_check new_date now (ok (some cert))).status ≡ SslCertificateStatus.valid
  unfolding compute_ssl_status_from_valid_to ms_until is_negative is_at_most
  perform_tls_check-unreadable e t d = perform_tls_check-date JsDate.invalid_date e t d
