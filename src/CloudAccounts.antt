-- ===== src/CloudAccounts.antt =====
-- src/cloud-accounts/cloud-accounts.service.ts and cloud-accounts.mapper.ts: the cloud providers that an
-- organization has connected.
pub mod View
pub mod Connects
pub mod Disconnects
pub mod Listed
use servers_manager.Base.{
  ℕ, suc, Bool, true, false, ◌&&◌, Option, none, some, List, [], ◌∷◌, ◌++◌, map, Text, codes, ◌==◌,
  find?, filter, if◌then◌else◌, Throws, ok, throw, not_found,
}
use servers_manager.Db.{Db, CloudAccount, CloudProvider}
use servers_manager.Db.Table.{update_where, remove_where}

abbrev pub same_provider : CloudProvider → CloudProvider → Bool
same_provider CloudProvider.vercel CloudProvider.vercel = true
same_provider CloudProvider.render CloudProvider.render = true
same_provider CloudProvider.aws CloudProvider.aws = true
same_provider CloudProvider.azure CloudProvider.azure = true
same_provider CloudProvider.gcp CloudProvider.gcp = true
same_provider CloudProvider.ovh CloudProvider.ovh = true
same_provider CloudProvider.cloudflare CloudProvider.cloudflare = true
same_provider _ _ = false

-- `Object.values(CloudProvider)`.
abbrev pub providers : List CloudProvider
providers =
    CloudProvider.vercel ∷ CloudProvider.render ∷ CloudProvider.aws ∷ CloudProvider.azure
    ∷ CloudProvider.gcp ∷ CloudProvider.ovh ∷ CloudProvider.cloudflare ∷ []

unfoldable pub provider_label : CloudProvider → Text
provider_label CloudProvider.vercel = codes "Vercel"
provider_label CloudProvider.render = codes "Render"
provider_label CloudProvider.aws = codes "AWS"
provider_label CloudProvider.azure = codes "Azure"
provider_label CloudProvider.gcp = codes "Google Cloud"
provider_label CloudProvider.ovh = codes "OVHcloud"
provider_label CloudProvider.cloudflare = codes "Cloudflare"

-- `monthly_cost_usd` is always null.
pub record CloudAccountResponseDto : Type 0 where
  pub id : Option ℕ
  pub provider : CloudProvider
  pub provider_label : Text
  pub connected : Bool
  pub label : Option Text
  pub connected_at : Option ℕ

unfoldable pub to_cloud_account_response_dto :
    CloudProvider → Option CloudAccount → CloudAccountResponseDto
unfolding provider_label
to_cloud_account_response_dto provider none = record {
  id = none;
  provider = provider;
  provider_label = provider_label provider;
  connected = false;
  label = none;
  connected_at = none;
}
to_cloud_account_response_dto provider (some account) = record {
  id = some account.id;
  provider = provider;
  provider_label = provider_label provider;
  connected = true;
  label = some account.label;
  connected_at = some account.connected_at;
}

abbrev pub is_account_for : ℕ → CloudProvider → CloudAccount → Bool
is_account_for org_id provider row = row.org_id == org_id && same_provider row.provider provider

-- What a `Map` holds for the provider of one pair and those after it.
unfoldable pub later_or : Option CloudAccount → CloudAccount → CloudProvider → Option CloudAccount
later_or (some later) account provider = some later
later_or none account provider =
    if same_provider account.provider provider then some account else none

-- `new Map(connected.map(…)).get(provider)`: of several accounts the last one stands.
unfoldable pub last_account : List CloudAccount → CloudProvider → Option CloudAccount
unfolding later_or
last_account [] provider = none
last_account (account ∷ accounts) provider =
    later_or (last_account accounts provider) account provider

unfoldable pub find_all_for_org : Db → ℕ → List CloudAccountResponseDto
unfolding to_cloud_account_response_dto last_account
find_all_for_org db org_id =
    map
      (λ provider.
        to_cloud_account_response_dto provider
          (last_account (filter (λ account. account.org_id == org_id) db.cloud_accounts) provider))
      providers

pub record ConnectCloudAccountDto : Type 0 where
  pub provider : CloudProvider
  pub label : Text
  pub api_key : Text

abbrev pub reconnected : CloudAccount → Text → Text → ℕ → CloudAccount
reconnected account label sealed now = record account {
  label = label;
  api_key_encrypted = sealed;
  connected_at = now;
}

abbrev pub new_account : Db → ℕ → ℕ → ConnectCloudAccountDto → Text → CloudAccount
new_account db now org_id dto sealed = record {
  id = db.next_id;
  org_id = org_id;
  provider = dto.provider;
  label = dto.label;
  api_key_encrypted = sealed;
  connected_at = now;
  created_at = now;
}

unfoldable pub save_account :
    Db → ℕ → ℕ → ConnectCloudAccountDto → Text → Option CloudAccount → Db × CloudAccount
save_account db now org_id dto sealed (some existing) = (
  record db {
    cloud_accounts =
        update_where (λ row. row.id == existing.id)
          (λ row. reconnected existing dto.label sealed now) db.cloud_accounts;
  },
  reconnected existing dto.label sealed now,
)
save_account db now org_id dto sealed none =
    let account = new_account db now org_id dto sealed in
    (
      record db { cloud_accounts = db.cloud_accounts ++ account ∷ []; next_id = suc db.next_id },
      account,
    )

unfoldable pub connect :
    (encrypt : Text → Text) (db : Db) (now org_id : ℕ) (dto : ConnectCloudAccountDto)
    → Db × CloudAccountResponseDto
unfolding save_account to_cloud_account_response_dto
connect encrypt db now org_id dto =
    let existing = find? (is_account_for org_id dto.provider) db.cloud_accounts in
    let saved = save_account db now org_id dto (encrypt dto.api_key) existing in
    (saved.0, to_cloud_account_response_dto dto.provider (some saved.1))

abbrev pub is_account_of : ℕ → ℕ → CloudAccount → Bool
is_account_of org_id id row = row.id == id && row.org_id == org_id

unfoldable pub disconnect : Db → ℕ → ℕ → Db × Throws (Unit {0})
disconnect db org_id id = elim (find? (is_account_of org_id id) db.cloud_accounts) [
  | none ↦ (db, throw not_found)
  | some account ↦ (
    record db { cloud_accounts = remove_where (λ row. row.id == account.id) db.cloud_accounts },
    ok tt,
  )
]
