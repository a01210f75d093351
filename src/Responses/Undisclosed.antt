-- ===== src/Responses/Undisclosed.antt =====
-- That what is stored encrypted stays out of what the controllers of hosts, alert rules, snapshots,
-- cloud accounts, insights and the overview answer.
use servers_manager.Base.{
  ℕ, ◌≡◌, refl, ap, ◌∙◌, Option, none, some, List, [], ◌∷◌, map, Text, ◌==◌, ◌&&◌, find?, filter,
  Bool-cases, Option-cases, inl, inr, ok,
}
use servers_manager.Db.{Db, Host, DeploymentSnapshot, AlertRule, CloudAccount, CloudProvider}
use servers_manager.Db.Query.{find_recent}
use servers_manager.CloudAccounts as CloudAccounts
use servers_manager.CloudAccounts.{
  same_provider, later_or, last_account, providers, to_cloud_account_response_dto,
}
use servers_manager.Hosts.{is_host_of}
use servers_manager.Hosts
use servers_manager.AlertRules
use servers_manager.AlertRules.{is_rule_of}
use servers_manager.Rollback.{find_service_for_org_or_throw}
use servers_manager.Snapshots.{find_history_for_service}
use servers_manager.Responses.{
  to_host_response_dto, to_host_detail_response_dto, to_setup_instructions_response_dto,
  to_alert_rule_response_dto, to_deployment_snapshot_response_dto, get_hosts, get_host,
  get_setup_instructions, get_alert_rules, get_alert_rule, get_snapshots,
}
use servers_manager.Overview.{get_overview}
use servers_manager.Responses.Domains.{get_insights}
use servers_manager.Responses.Rekeyed.{rekeyed, insights-rekeyed, overview-rekeyed}
use servers_manager.Responses.Replaced.{listed, image, map-filter, map-find?}

-- The database with other secrets in it.
module _ (key : Host → Text) (blob : DeploymentSnapshot → Text) (config : AlertRule → Text)
    (api_key : CloudAccount → Text) where
  abbrev reblobbed : DeploymentSnapshot → DeploymentSnapshot
  reblobbed snapshot = record snapshot { config_blob = blob snapshot }

  abbrev reconfigured : AlertRule → AlertRule
  reconfigured rule = record rule { channel_config_encrypted = config rule }

  abbrev rekeyed_account : CloudAccount → CloudAccount
  rekeyed_account account = record account { api_key_encrypted = api_key account }

  abbrev pub resealed : Db → Db
  resealed db = record db {
    hosts = map (rekeyed key) db.hosts;
    snapshots = map reblobbed db.snapshots;
    alert_rules = map reconfigured db.alert_rules;
    cloud_accounts = map rekeyed_account db.cloud_accounts;
  }

  -- The requests whose answers tell none of the stored keys, configurations and channel settings.
  pub record IsUndisclosed (db : Db) (org_id id : ℕ) : Type 0 where
    pub hosts : get_hosts (resealed db) org_id ≡ get_hosts db org_id
    pub host : get_host (resealed db) org_id id ≡ get_host db org_id id
    pub setup : get_setup_instructions (resealed db) org_id id ≡ get_setup_instructions db org_id id
    pub rules : get_alert_rules (resealed db) org_id ≡ get_alert_rules db org_id
    pub rule : get_alert_rule (resealed db) org_id id ≡ get_alert_rule db org_id id
    pub snapshots : get_snapshots (resealed db) org_id id ≡ get_snapshots db org_id id
    pub accounts :
        CloudAccounts.find_all_for_org (resealed db) org_id
        ≡ CloudAccounts.find_all_for_org db org_id
    pub insights : (now : ℕ) → get_insights (resealed db) now org_id ≡ get_insights db now org_id
    pub overview : (now : ℕ) → get_overview (resealed db) now org_id ≡ get_overview db now org_id

  find_host-resealed :
      (db : Db) (org_id id : ℕ)
      → find? (is_host_of org_id id) (map (rekeyed key) db.hosts)
        ≡ image
            (rekeyed key)
            (λ h. h.created_at)
            (λ h. refl)
            (find? (is_host_of org_id id) db.hosts)
  find_host-resealed db org_id id =
      map-find? (rekeyed key) (λ h. h.created_at) (λ h. refl) (is_host_of org_id id) db.hosts
        (λ h. refl)

  get_host-resealed :
      (db : Db) (org_id id : ℕ) → get_host (resealed db) org_id id ≡ get_host db org_id id
  unfolding get_host Hosts.find_host_for_org_or_throw Hosts.get_recent_logs find_recent
      to_host_detail_response_dto to_host_response_dto
  get_host-resealed db org_id id = elim (Option-cases (find? (is_host_of org_id id) db.hosts)) [
    | inl e ↦
        let there : find? (is_host_of org_id id) (map (rekeyed key) db.hosts) ≡ none =
          rw (find_host-resealed db org_id id) (rw e) in
        rw (there, get_host, Hosts.find_host_for_org_or_throw)
          (rw (e, get_host, Hosts.find_host_for_org_or_throw))
    | inr (host, e) ↦
        let there : find? (is_host_of org_id id) (map (rekeyed key) db.hosts)
            ≡ some (rekeyed key host) =
          rw (find_host-resealed db org_id id) (rw e) in
        rw (there, get_host, Hosts.find_host_for_org_or_throw)
          (rw (e, get_host, Hosts.find_host_for_org_or_throw))
  ]

  get_setup_instructions-resealed :
      (db : Db) (org_id id : ℕ)
      → get_setup_instructions (resealed db) org_id id ≡ get_setup_instructions db org_id id
  unfolding get_setup_instructions Hosts.find_host_for_org_or_throw
      to_setup_instructions_response_dto
  get_setup_instructions-resealed db org_id id =
      elim (Option-cases (find? (is_host_of org_id id) db.hosts)) [
        | inl e ↦
            let there : find? (is_host_of org_id id) (map (rekeyed key) db.hosts) ≡ none =
              rw (find_host-resealed db org_id id) (rw e) in
            rw (there, get_setup_instructions, Hosts.find_host_for_org_or_throw)
              (rw (e, get_setup_instructions, Hosts.find_host_for_org_or_throw))
        | inr (host, e) ↦
            let there : find? (is_host_of org_id id) (map (rekeyed key) db.hosts)
                ≡ some (rekeyed key host) =
              rw (find_host-resealed db org_id id) (rw e) in
            rw (there, get_setup_instructions, Hosts.find_host_for_org_or_throw)
              (rw (e, get_setup_instructions, Hosts.find_host_for_org_or_throw))
      ]

  get_alert_rule-resealed :
      (db : Db) (org_id id : ℕ)
      → get_alert_rule (resealed db) org_id id ≡ get_alert_rule db org_id id
  unfolding get_alert_rule AlertRules.find_rule_for_org_or_throw to_alert_rule_response_dto
  get_alert_rule-resealed db org_id id =
      let moved =
        map-find? reconfigured (λ r. r.created_at) (λ r. refl) (is_rule_of org_id id) db.alert_rules
          (λ r. refl) in
      elim (Option-cases (find? (is_rule_of org_id id) db.alert_rules)) [
        | inl e ↦
            let there : find? (is_rule_of org_id id) (map reconfigured db.alert_rules) ≡ none =
              rw moved (rw e) in
            rw (there, get_alert_rule, AlertRules.find_rule_for_org_or_throw)
              (rw (e, get_alert_rule, AlertRules.find_rule_for_org_or_throw))
        | inr (rule, e) ↦
            let there : find? (is_rule_of org_id id) (map reconfigured db.alert_rules)
                ≡ some (reconfigured rule) =
              rw moved (rw e) in
            rw (there, get_alert_rule, AlertRules.find_rule_for_org_or_throw)
              (rw (e, get_alert_rule, AlertRules.find_rule_for_org_or_throw))
      ]

  get_snapshots-resealed :
      (db : Db) (org_id id : ℕ) → get_snapshots (resealed db) org_id id ≡ get_snapshots db org_id id
  unfolding get_snapshots find_history_for_service to_deployment_snapshot_response_dto
      find_service_for_org_or_throw
  get_snapshots-resealed db org_id id =
      elim (Option-cases (find? (λ row. row.id == id && row.org_id == org_id) db.services)) [
        | inl e ↦ rw (e, get_snapshots, find_service_for_org_or_throw)
        | inr (service, e) ↦
            rw (e, get_snapshots, find_service_for_org_or_throw)
              (ap ok (
                listed reblobbed (λ s. s.deployed_at) (λ s. refl) (λ s. s.service_id == service.id)
                  to_deployment_snapshot_response_dto db.snapshots (λ s. refl) (λ s. refl)))
      ]

  abbrev account_image : Option CloudAccount → Option CloudAccount
  account_image = image rekeyed_account (λ a. a.created_at) (λ a. refl)

  later_or-rekeyed :
      (found : Option CloudAccount) (account : CloudAccount) (provider : CloudProvider)
      → later_or (account_image found) (rekeyed_account account) provider
        ≡ account_image (later_or found account provider)
  unfolding later_or
  later_or-rekeyed (some later) account provider = refl
  later_or-rekeyed none account provider =
      elim (Bool-cases (same_provider account.provider provider)) [ inl e ↦ rw e | inr e ↦ rw e ]

  last_account-rekeyed :
      (accounts : List CloudAccount) (provider : CloudProvider)
      → last_account (map rekeyed_account accounts) provider
        ≡ account_image (last_account accounts provider)
  unfolding last_account
  last_account-rekeyed [] provider = refl
  last_account-rekeyed (account ∷ accounts) provider =
      ap (λ found. later_or found (rekeyed_account account) provider)
        (last_account-rekeyed accounts provider)
      ∙ later_or-rekeyed (last_account accounts provider) account provider

  shown-rekeyed :
      (provider : CloudProvider) (found : Option CloudAccount)
      → to_cloud_account_response_dto provider (account_image found)
        ≡ to_cloud_account_response_dto provider found
  unfolding to_cloud_account_response_dto
  shown-rekeyed provider none = refl
  shown-rekeyed provider (some account) = refl

  accounts-resealed :
      (db : Db) (org_id : ℕ)
      → CloudAccounts.find_all_for_org (resealed db) org_id
        ≡ CloudAccounts.find_all_for_org db org_id
  unfolding CloudAccounts.find_all_for_org
  accounts-resealed db org_id =
      rw
        (map-filter rekeyed_account (λ a. a.created_at) (λ a. refl) (λ a. a.org_id == org_id)
          db.cloud_accounts (λ a. refl))
        (go (filter (λ a. a.org_id == org_id) db.cloud_accounts) providers)
    where
      go :
          (accounts : List CloudAccount) (ps : List CloudProvider)
          → map
              (λ p. to_cloud_account_response_dto p (last_account (map rekeyed_account accounts) p))
              ps
            ≡ map (λ p. to_cloud_account_response_dto p (last_account accounts p)) ps
      go accounts [] = refl
      go accounts (p ∷ ps) =
          rw (last_account-rekeyed accounts p)
            (rw (shown-rekeyed p (last_account accounts p)) (rw (go accounts ps)))

  -- Two databases that differ only in the encrypted keys of the hosts, the encrypted
  -- configurations of the snapshots, the encrypted channel settings of the rules and the encrypted
  -- keys of the cloud accounts give the same answers to the requests that list the hosts, the alert
  -- rules, the history of a service or the cloud accounts, show a host, its setup or an alert rule,
  -- or ask for the insights or the overview.
  pub resealed-IsUndisclosed : (db : Db) (org_id id : ℕ) → IsUndisclosed db org_id id
  unfolding get_hosts get_alert_rules Hosts.find_all_for_org AlertRules.find_all_for_org
      to_host_response_dto to_alert_rule_response_dto
  resealed-IsUndisclosed db org_id id = record {
    hosts =
        listed (rekeyed key) (λ h. h.created_at) (λ h. refl) (λ h. h.org_id == org_id)
          to_host_response_dto db.hosts (λ h. refl) (λ h. refl);
    host = get_host-resealed db org_id id;
    setup = get_setup_instructions-resealed db org_id id;
    rules =
        listed reconfigured (λ r. r.created_at) (λ r. refl) (λ r. r.org_id == org_id)
          to_alert_rule_response_dto db.alert_rules (λ r. refl) (λ r. refl);
    rule = get_alert_rule-resealed db org_id id;
    snapshots = get_snapshots-resealed db org_id id;
    accounts = accounts-resealed db org_id;
    insights = λ now. insights-rekeyed key db _ _ _ now org_id;
    overview = λ now. overview-rekeyed key db _ _ _ now org_id;
  }
