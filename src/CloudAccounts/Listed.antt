-- ===== src/CloudAccounts/Listed.antt =====
-- What `findAllForOrg` of src/cloud-accounts/cloud-accounts.service.ts lists.
use servers_manager.Base.{
  ℕ, ◌≤◌, ◌≡◌, refl, false, Option, none, some, List, [], ◌∷◌, map, count, find?, filter, ◌==◌,
  arith, Bool-cases, inl, inr,
}
use servers_manager.Db.{Db, CloudAccount, CloudProvider}
use servers_manager.CloudAccounts.{
  same_provider, providers, to_cloud_account_response_dto, is_account_for, later_or, last_account,
  find_all_for_org,
}
use servers_manager.CloudAccounts.View.{IsUnique}

-- Whatever is listed for a provider is what the map holds for it.
last_account-none :
    (accounts : List CloudAccount) (org_id : ℕ) (provider : CloudProvider)
    → count (is_account_for org_id provider) accounts ≡ 0
    → last_account (filter (λ account. account.org_id == org_id) accounts) provider ≡ none
unfolding last_account later_or
last_account-none [] org_id provider h = refl
last_account-none (row ∷ rows) org_id provider h = elim (Bool-cases (row.org_id == org_id)) [
  | inr e ↦ rw e (last_account-none rows org_id provider (ground arith))
  | inl e ↦ elim (Bool-cases (same_provider row.provider provider)) [
    | inl k ↦ absurd (ground arith)
    | inr k ↦ rw e (rw (last_account-none rows org_id provider (ground arith)) (rw k))
  ]
]

later_or-skips :
    (found : Option CloudAccount) (row : CloudAccount) (provider : CloudProvider)
    → same_provider row.provider provider ≡ false
    → later_or found row provider ≡ found
unfolding later_or
later_or-skips none row provider e = rw e
later_or-skips (some account) row provider e = refl

last_account-find? :
    (accounts : List CloudAccount) (org_id : ℕ) (provider : CloudProvider)
    → count (is_account_for org_id provider) accounts ≤ 1
    → last_account (filter (λ account. account.org_id == org_id) accounts) provider
      ≡ find? (is_account_for org_id provider) accounts
unfolding last_account
last_account-find? [] org_id provider h = refl
last_account-find? (row ∷ rows) org_id provider h = elim (Bool-cases (row.org_id == org_id)) [
  | inr e ↦ rw e (rw (last_account-find? rows org_id provider (ground arith)) (ground arith))
  | inl e ↦ elim (Bool-cases (same_provider row.provider provider)) [
    | inl k ↦
        let rest = last_account-none rows org_id provider (ground arith) in rw e (rw rest (rw k))
    | inr k ↦
        let ih = last_account-find? rows org_id provider (ground arith) in
        rw e (
          rw ih (
            rw (later_or-skips (find? (is_account_for org_id provider) rows) row provider k)
              (rw k)))
  ]
]

-- Where an organization has no two accounts of one provider, the page lists every provider once, in
-- the order of the enum, each with the organization's account of it if there is one.
pub find_all_for_org-accounts :
    (db : Db) (org_id : ℕ)
    → IsUnique db.cloud_accounts db.next_id
    → find_all_for_org db org_id
      ≡ map
          (λ provider.
            to_cloud_account_response_dto provider
              (find? (is_account_for org_id provider) db.cloud_accounts))
          providers
unfolding find_all_for_org
find_all_for_org-accounts db org_id u = go providers
  where
    go :
        (ps : List CloudProvider)
        → map
            (λ provider. to_cloud_account_response_dto provider (
              last_account
                (filter (λ account. account.org_id == org_id) db.cloud_accounts)
                provider))
            ps
          ≡ map
              (λ provider.
                to_cloud_account_response_dto provider
                  (find? (is_account_for org_id provider) db.cloud_accounts))
              ps
    go [] = refl
    go (p ∷ ps) =
        let same = last_account-find? db.cloud_accounts org_id p (u.single org_id p) in
        rw same (rw (go ps))
