-- ===== src/Domains/Created.antt =====
-- What an accepted creation of src/domains/domains.service.ts has checked and written.
use servers_manager.Base.{
  ℕ, suc, ◌≡◌, refl, ap, Bool, true, false, ◌&&◌, Option, none, some, List, [], ◌∷◌, ◌++◌, ◌==◌,
  find?, any, count, Bool-cases, Option-cases, inl, inr, arith, Throws, ok, throw, returned,
}
use servers_manager.Db.{Db, Domain, SslCertificate, SslCertificateStatus}
use servers_manager.Db.Table.{find?-none}
use servers_manager.Hosts.{is_host_of, find_host_for_org_or_throw}
use servers_manager.Domains.{
  CreateDomainDto, is_named, check_link, check_create, is_linked, insert_row, insert_domain,
  insert_certificate, new_domain, new_certificate, enqueue_job, commit_create, create,
  commit_certificate, commit_if, enqueue_created, with_job,
}

-- The link of a new domain is empty, or a host that the organization has.
pub data IsLinkOf (db : Db) (org_id : ℕ) : Option ℕ → Type 0 where
  unlinked : IsLinkOf db org_id none
  linked :
      {host_id : ℕ}
      → any (λ row. row.id == host_id && row.org_id == org_id) db.hosts ≡ true
      → IsLinkOf db org_id (some host_id)

-- What was written where the creation returned the domain and its job.
pub record IsCreated (db : Db) (org_id : ℕ) (dto : CreateDomainDto) (domain : Domain) (after : Db)
    : Type 0 where
  pub certificate : SslCertificate
  pub was_free : count (is_named org_id dto.hostname) db.domains ≡ 0
  pub domains : after.domains ≡ db.domains ++ domain ∷ []
  pub certificates : after.ssl_certificates ≡ db.ssl_certificates ++ certificate ∷ []
  pub queue : after.domain_check_queue ≡ db.domain_check_queue ++ domain.id ∷ []
  pub belongs : domain.org_id ≡ org_id
  pub has_the_name : domain.hostname ≡ dto.hostname
  pub has_the_link : domain.host_id ≡ dto.host_id
  pub certifies : certificate.domain_id ≡ domain.id
  pub is_unknown : certificate.status ≡ SslCertificateStatus.unknown
  pub link : IsLinkOf db org_id dto.host_id
  pub is_only : count (λ row. row.domain_id == domain.id) db.ssl_certificates ≡ 0
  pub rest_is : after ≡ record db {
    domains = after.domains;
    ssl_certificates = after.ssl_certificates;
    domain_check_queue = after.domain_check_queue;
    next_id = after.next_id;
  }

find?-any {ℓ} :
    {A : Type ℓ} (p : A → Bool) (rows : List A) (row : A)
    → find? p rows ≡ some row
    → any p rows ≡ true
find?-any p [] row h = cc
find?-any p (r ∷ rows) row h = elim (Bool-cases (p r)) [
  | inl e ↦ rw e refl
  | inr e ↦ rw e (find?-any p rows row (rw e at h))
]

any-count {ℓ} : {A : Type ℓ} (p : A → Bool) (rows : List A) → any p rows ≡ false → count p rows ≡ 0
any-count p [] h = refl
any-count p (row ∷ rows) h = ground (arith, any-count p rows)

module _ (db : Db) (now org_id : ℕ) (dto : CreateDomainDto) where
  abbrev domain : Domain
  domain = new_domain db now org_id dto

  abbrev inserted : Db
  inserted = record db { domains = db.domains ++ domain ∷ []; next_id = suc db.next_id }

  insert_domain-ok :
      (created : Domain)
      → (insert_domain db now org_id dto).1 ≡ ok created
      → (count (is_named org_id dto.hostname) db.domains ≡ 0)
        × (insert_domain db now org_id dto ≡ (inserted, ok domain))
  unfolding insert_domain insert_row
  insert_domain-ok created e =
      elim (Option-cases (find? (is_named org_id dto.hostname) db.domains)) [
        | inl free ↦ elim (Bool-cases (is_linked db none dto.host_id)) [
          | inl k ↦ (find?-none _ db.domains free, rw (free, insert_domain) (rw k refl))
          | inr k ↦ absurd (ground arith)
        ]
        | inr (other, taken) ↦ absurd (ground arith)
      ]

  insert_certificate-ok :
      (later : Db) (domain_id : ℕ) (cert : SslCertificate)
      → (insert_certificate later now domain_id).1 ≡ ok cert
      → (count (λ row. row.domain_id == domain_id) later.ssl_certificates ≡ 0)
        × (insert_certificate later now domain_id ≡ (
          record later {
            ssl_certificates =
                later.ssl_certificates ++ new_certificate later.next_id now domain_id ∷ [];
            next_id = suc later.next_id;
          },
          ok (new_certificate later.next_id now domain_id),
        ))
  unfolding insert_certificate
  insert_certificate-ok later domain_id cert e =
      elim (Bool-cases (any (λ row. row.id == domain_id) later.domains)) [
        | inl k ↦
            elim (Bool-cases (any (λ row. row.domain_id == domain_id) later.ssl_certificates)) [
              | inl taken ↦ absurd (ground arith)
              | inr free ↦ (any-count _ later.ssl_certificates free, rw k (rw free refl))
            ]
        | inr k ↦ absurd (ground arith)
      ]

  check_link-ok : (link : Option ℕ) → check_link db org_id link ≡ ok tt → IsLinkOf db org_id link
  unfolding find_host_for_org_or_throw
  check_link-ok none e = unlinked
  check_link-ok (some host_id) e =
      elim (Option-cases (find? (is_host_of org_id host_id) db.hosts)) [
        | inl missing ↦ absurd (ground arith)
        | inr (host, found) ↦ linked (find?-any (is_host_of org_id host_id) db.hosts host found)
      ]

  abbrev certified : Db
  certified = record inserted {
    ssl_certificates = db.ssl_certificates ++ new_certificate (suc db.next_id) now db.next_id ∷ [];
    next_id = suc (suc db.next_id);
  }

  enqueued-IsCreated :
      (after : Db) (queue_add : Throws ℕ) (created : Domain) (job_id : ℕ)
      → IsLinkOf db org_id dto.host_id
      → count (is_named org_id dto.hostname) db.domains ≡ 0
      → count (λ row. row.domain_id == db.next_id) db.ssl_certificates ≡ 0
      → with_job domain (enqueue_job certified db.next_id queue_add) ≡ (after, ok (created, job_id))
      → IsCreated db org_id dto created after
  unfolding enqueue_job
  enqueued-IsCreated after (throw x) created job_id link free only e = cc
  enqueued-IsCreated after (ok id) created job_id link free only e =
      let same : domain ≡ created = ground (arith, ap (λ w. w.1) e) in
      rw (← ap (λ w. w.0) e) (
        rw (← same) (record {
          certificate = new_certificate (suc db.next_id) now db.next_id;
          was_free = free;
          domains = refl;
          certificates = refl;
          queue = refl;
          belongs = refl;
          has_the_name = refl;
          has_the_link = refl;
          certifies = refl;
          is_unknown = refl;
          link = link;
          is_only = only;
          rest_is = refl;
        }))

  commit_create-IsCreated :
      (after : Db) (queue_add : Throws ℕ) (created : Domain) (job_id : ℕ)
      → IsLinkOf db org_id dto.host_id
      → commit_create db now org_id dto queue_add ≡ (after, ok (created, job_id))
      → IsCreated db org_id dto created after
  unfolding commit_create
  commit_create-IsCreated after queue_add created job_id link e =
      go (insert_domain db now org_id dto).1 refl e
    where
      finish :
          (t : Throws SslCertificate)
          → (insert_certificate inserted now db.next_id).1 ≡ t
          → count (is_named org_id dto.hostname) db.domains ≡ 0
          → enqueue_created domain ((insert_certificate inserted now db.next_id).0, t) queue_add
            ≡ (after, ok (created, job_id))
          → IsCreated db org_id dto created after
      finish (throw x) ran free k = cc
      finish (ok cert) ran free k =
          let (only, wrote) = insert_certificate-ok inserted db.next_id cert ran in
          enqueued-IsCreated after queue_add created job_id link free only (rw wrote at k)

      go :
          (t : Throws Domain)
          → (insert_domain db now org_id dto).1 ≡ t
          → commit_certificate (insert_domain db now org_id dto).0 now t queue_add
            ≡ (after, ok (created, job_id))
          → IsCreated db org_id dto created after
      go (throw x) ran k = cc
      go (ok row) ran k =
          let (free, wrote) = insert_domain-ok row ran in
          let answered : ok domain ≡ ok row = rw wrote at ran in
          let same : domain ≡ row = ground arith in
          let k' : commit_certificate inserted now (ok domain) queue_add
              ≡ (after, ok (created, job_id)) =
            rw wrote at (rw (← same) at k) in
          finish (insert_certificate inserted now db.next_id).1 refl free k'

  -- A creation that is answered with a domain and a job has found the linked host in the organization
  -- and the name free in it; it has added this domain with the organization, the name and the link
  -- asked for, one certificate row for it, the only one, of unknown status, and its job at the end of
  -- the queue, and has changed no other row.
  pub create-IsCreated :
      (after : Db) (queue_add : Throws ℕ) (created : Domain) (job_id : ℕ)
      → create db now org_id dto queue_add ≡ (after, ok (created, job_id))
      → IsCreated db org_id dto created after
  unfolding create check_create
  create-IsCreated after queue_add created job_id e = go (check_create db org_id dto) refl e
    where
      go :
          (t : Throws (Unit {0}))
          → check_create db org_id dto ≡ t
          → commit_if t db now org_id dto queue_add ≡ (after, ok (created, job_id))
          → IsCreated db org_id dto created after
      go (throw x) ran k = absurd (ground arith)
      go (ok checked) ran k =
          let (linked_to, found, rest) = returned (check_link db org_id dto.host_id) _ ran in
          commit_create-IsCreated after queue_add created job_id (check_link-ok dto.host_id found) k
