-- ===== src/CloudAccounts/Disconnects.antt =====
-- What `disconnect` of src/cloud-accounts/cloud-accounts.service.ts does to the map of the connections.
use servers_manager.Base.{
  ℕ, ◌<◌, ◌≡◌, refl, ◌&&◌, none, some, find?, ◌==◌, ==_refl, arith, Bool-cases, Option-cases, inl,
  inr, Throws, throw, not_found,
}
use servers_manager.Db.{Db, CloudAccount, CloudProvider}
use servers_manager.Db.Table.{
  remove_where, find?-sound, find?-once, count-remove_where_le, All-remove_where,
}
use servers_manager.CloudAccounts.{same_provider, is_account_for, is_account_of, disconnect}
use servers_manager.CloudAccounts.View.{view, put, IsUnique, find?-remove_one}

-- A disconnection takes one place out of the map, or finds nothing of the organization under the id.
pub record Disconnects (org_id id : ℕ) (db : Db) (ran : Db × Throws (Unit {0})) : Type 0 where
  pub kept : IsUnique ran.0.cloud_accounts ran.0.next_id
  pub viewed :
      (account : CloudAccount)
      → find? (is_account_of org_id id) db.cloud_accounts ≡ some account
      → (o : ℕ) (p : CloudProvider)
      → view ran.0.cloud_accounts o p
        ≡ put org_id account.provider none (view db.cloud_accounts) o p
  pub refused :
      find? (is_account_of org_id id) db.cloud_accounts ≡ none → ran ≡ (db, throw not_found)

module _ (db : Db) (org_id id : ℕ) where
  viewed-remove :
      (account : CloudAccount) (o : ℕ) (p : CloudProvider)
      → find? (is_account_of org_id id) db.cloud_accounts ≡ some account
      → IsUnique db.cloud_accounts db.next_id
      → view (remove_where (λ row. row.id == account.id) db.cloud_accounts) o p
        ≡ put org_id account.provider none (view db.cloud_accounts) o p
  unfolding view
  viewed-remove account o p e u =
      let by_id =
        find?-once (λ row. row.id == account.id) _ db.cloud_accounts account e (==_refl account.id)
          (u.distinct account.id) in
      let holds = find?-sound _ db.cloud_accounts account e in
      let org : account.org_id ≡ org_id = ground arith in
      rw
        (find?-remove_one (is_account_for o p) account db.cloud_accounts by_id
          (u.distinct account.id) (u.single o p))
        (rw org (elim (Bool-cases (org_id == o && same_provider account.provider p)) [
          | inl k ↦ rw k
          | inr k ↦ rw k
        ]))

  -- A disconnection of an account that the organization has takes the account's provider out of the
  -- map for this organization and changes nothing else of it; any other id is refused as not found
  -- and changes nothing at all.
  pub disconnect-Disconnects :
      IsUnique db.cloud_accounts db.next_id → Disconnects org_id id db (disconnect db org_id id)
  unfolding disconnect
  disconnect-Disconnects u =
      elim (Option-cases (find? (is_account_of org_id id) db.cloud_accounts)) [
        | inl e ↦
            rw (e, disconnect)
              (record {
                kept = u;
                viewed = λ account there. absurd (ground arith);
                refused = λ nothing. refl;
              })
        | inr (account, e) ↦
            rw (e, disconnect)
              (record {
                kept = record {
                  single = λ o p. omega (
                    arith,
                    count-remove_where_le (λ row. row.id == account.id) (is_account_for o p)
                        db.cloud_accounts,
                    u.single o p,
                  );
                  distinct = λ i. omega (
                    arith,
                    count-remove_where_le (λ row. row.id == account.id) (λ row. row.id == i)
                        db.cloud_accounts,
                    u.distinct i,
                  );
                  fresh =
                      All-remove_where (λ row. row.id < db.next_id) (λ row. row.id == account.id)
                        db.cloud_accounts u.fresh;
                };
                viewed = λ a there o p.
                    let same : account ≡ a = ground arith in
                    rw (← same) (viewed-remove account o p e u);
                refused = λ nothing. absurd (ground arith);
              })
      ]
