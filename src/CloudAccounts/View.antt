-- ===== src/CloudAccounts/View.antt =====
-- The accounts of src/cloud-accounts/cloud-accounts.service.ts as a map from an organization and a
-- provider to what is stored of the connection.
use servers_manager.Base.{
  ℕ, ◌≤◌, ◌<◌, ◌≡◌, refl, ap, ◌∙◌, sym, Bool, true, false, ◌&&◌, Option, none, some, List, [], ◌∷◌,
  ◌++◌, Text, All, count, find?, ◌==◌, if◌then◌else◌, arith, Bool-cases, inl, inr,
}
use servers_manager.Db.{CloudAccount, CloudProvider}
use servers_manager.Db.Table.{
  update_where, remove_where, remove_where-none, count-find?, count-found, update_where-none,
}
use servers_manager.CloudAccounts.{same_provider, is_account_for}

-- What the map holds of a connection.
pub record Connection : Type 0 where
  pub label : Text
  pub api_key_encrypted : Text
  pub connected_at : ℕ

abbrev connection_of : Option CloudAccount → Option Connection
connection_of none = none
connection_of (some account) = some (record {
  label = account.label;
  api_key_encrypted = account.api_key_encrypted;
  connected_at = account.connected_at;
})

abbrev pub Connections : Type 0
Connections = ℕ → CloudProvider → Option Connection

unfoldable pub view : List CloudAccount → Connections
view accounts org_id provider = connection_of (find? (is_account_for org_id provider) accounts)

abbrev pub put : ℕ → CloudProvider → Option Connection → Connections → Connections
put org_id provider value connections o p =
    if org_id == o && same_provider provider p then value else connections o p

-- What the unique index and the drawing of ids keep true of the table.
pub record IsUnique (accounts : List CloudAccount) (next_id : ℕ) : Type 0 where
  pub single :
      (org_id : ℕ) (provider : CloudProvider) → count (is_account_for org_id provider) accounts ≤ 1
  pub distinct : (id : ℕ) → count (λ row. row.id == id) accounts ≤ 1
  pub fresh : All (λ row. row.id < next_id) accounts

pub same_provider_iff : (p q : CloudProvider) → same_provider p q ≡ true → p ≡ q
same_provider_iff CloudProvider.vercel q h = ground arith
same_provider_iff CloudProvider.render q h = ground arith
same_provider_iff CloudProvider.aws q h = ground arith
same_provider_iff CloudProvider.azure q h = ground arith
same_provider_iff CloudProvider.gcp q h = ground arith
same_provider_iff CloudProvider.ovh q h = ground arith
same_provider_iff CloudProvider.cloudflare q h = ground arith

pub same_provider_refl : (p : CloudProvider) → same_provider p p ≡ true
same_provider_refl CloudProvider.vercel = refl
same_provider_refl CloudProvider.render = refl
same_provider_refl CloudProvider.aws = refl
same_provider_refl CloudProvider.azure = refl
same_provider_refl CloudProvider.gcp = refl
same_provider_refl CloudProvider.ovh = refl
same_provider_refl CloudProvider.cloudflare = refl

pub find?-update_one :
    (q : CloudAccount → Bool) (old new : CloudAccount) (accounts : List CloudAccount)
    → find? (λ row. row.id == old.id) accounts ≡ some old
    → q new ≡ q old
    → count (λ row. row.id == old.id) accounts ≤ 1
    → count q accounts ≤ 1
    → find? q (update_where (λ row. row.id == old.id) (λ row. new) accounts)
      ≡ (if q old then some new else find? q accounts)
unfolding update_where
find?-update_one q old new [] found same once single = cc
find?-update_one q old new (row ∷ rows) found same once single =
    elim (Bool-cases (row.id == old.id)) [
      | inl e ↦
          let row_is : row ≡ old = ground arith in
          let rest : count (λ r. r.id == old.id) rows ≡ 0 = ground arith in
          rw e (
            rw (update_where-none (λ r. r.id == old.id) (λ r. new) rows rest)
              (rw same (ground (arith, ap q row_is))))
      | inr e ↦
          let below : find? (λ r. r.id == old.id) rows ≡ some old = rw e at found in
          let ih = find?-update_one q old new rows below same (rw e at once) (ground arith) in
          rw e (elim (Bool-cases (q row)) [
            | inr k ↦ rw k ih
            | inl k ↦ elim (Bool-cases (q old)) [
              | inr l ↦ rw (k, l)
              | inl l ↦
                  let twice = count-found q (λ r. r.id == old.id) rows old below l in
                  absurd (ground arith)
            ]
          ])
    ]

pub find?-append :
    (q : CloudAccount → Bool) (accounts : List CloudAccount) (row : CloudAccount)
    → (q row ≡ true → count q accounts ≡ 0)
    → find? q (accounts ++ row ∷ []) ≡ (if q row then some row else find? q accounts)
find?-append q [] row free = refl
find?-append q (r ∷ accounts) row free = elim (Bool-cases (q row)) [
  | inl e ↦
      let nothing : count q (r ∷ accounts) ≡ 0 = free e in
      let ih = find?-append q accounts row (λ h. ground arith) in ground arith
  | inr e ↦ let ih = find?-append q accounts row (λ h. absurd (ground arith)) in ground arith
]

-- The pair names the account that is connected: then nothing was there under it.
pub free_for :
    (accounts : List CloudAccount) (org_id o : ℕ) (provider p : CloudProvider)
    → count (is_account_for org_id provider) accounts ≡ 0
    → (org_id == o && same_provider provider p) ≡ true
    → count (is_account_for o p) accounts ≡ 0
free_for accounts org_id o provider p nothing h =
    let org : org_id ≡ o = ground arith in
    let prov : provider ≡ p = same_provider_iff provider p (ground arith) in
    ap (λ i. count (is_account_for i p) accounts) (sym org)
    ∙ ap (λ k. count (is_account_for org_id k) accounts) (sym prov)
    ∙ nothing

-- A row is taken out: another search loses it only if it was what it found.
pub find?-remove_one :
    (q : CloudAccount → Bool) (old : CloudAccount) (accounts : List CloudAccount)
    → find? (λ row. row.id == old.id) accounts ≡ some old
    → count (λ row. row.id == old.id) accounts ≤ 1
    → count q accounts ≤ 1
    → find? q (remove_where (λ row. row.id == old.id) accounts)
      ≡ (if q old then none else find? q accounts)
unfolding remove_where
find?-remove_one q old [] found once single = cc
find?-remove_one q old (row ∷ rows) found once single = elim (Bool-cases (row.id == old.id)) [
  | inl e ↦
      let row_is : row ≡ old = ground arith in
      let rest : count (λ r. r.id == old.id) rows ≡ 0 = ground arith in
      rw e (
        rw (remove_where-none (λ r. r.id == old.id) rows rest) (elim (Bool-cases (q old)) [
          | inl k ↦ let k' : q row ≡ true = rw row_is k in rw k (count-find? q rows (ground arith))
          | inr k ↦ let k' : q row ≡ false = rw row_is k in rw k (rw k')
        ]))
  | inr e ↦
      let below : find? (λ r. r.id == old.id) rows ≡ some old = rw e at found in
      let ih = find?-remove_one q old rows below (rw e at once) (ground arith) in
      rw e (elim (Bool-cases (q row)) [
        | inr k ↦ rw k ih
        | inl k ↦ elim (Bool-cases (q old)) [
          | inr l ↦ rw (k, l)
          | inl l ↦
              let twice = count-found q (λ r. r.id == old.id) rows old below l in
              absurd (ground arith)
        ]
      ])
]
