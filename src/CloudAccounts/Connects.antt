-- ===== src/CloudAccounts/Connects.antt =====
-- What `connect` of src/cloud-accounts/cloud-accounts.service.ts does to the map of the connections.
use servers_manager.Base.{
  ℕ, suc, ◌≤◌, ◌<◌, ◌≡◌, refl, ◌&&◌, Option, none, some, [], ◌∷◌, ◌++◌, Text, count, count-append,
  find?, ◌==◌, ==_refl, arith, Bool-cases, inl, inr,
}
use servers_manager.Db.{Db, CloudAccount, CloudProvider}
use servers_manager.Db.Table.{
  update_where, find?-none, find?-sound, find?-once, count-write, All-update_where,
}
use servers_manager.Db.Ids.{fresh-append, distinct-append}
use servers_manager.CloudAccounts.{
  same_provider, new_account, is_account_for, ConnectCloudAccountDto, reconnected, save_account,
  connect,
}
use servers_manager.CloudAccounts.View.{
  Connection, view, put, IsUnique, same_provider_iff, find?-update_one, find?-append, free_for,
}

abbrev connected : (encrypt : Text → Text) (now : ℕ) (dto : ConnectCloudAccountDto) → Connection
connected encrypt now dto = record {
  label = dto.label;
  api_key_encrypted = encrypt dto.api_key;
  connected_at = now;
}

-- A connection writes the map at its organization and provider, and leaves all else.
pub record Connects (encrypt : Text → Text) (now org_id : ℕ) (dto : ConnectCloudAccountDto)
    (db db' : Db) : Type 0 where
  pub kept : IsUnique db'.cloud_accounts db'.next_id
  pub viewed :
      (o : ℕ) (p : CloudProvider)
      → view db'.cloud_accounts o p
        ≡ put org_id dto.provider (some (connected encrypt now dto)) (view db.cloud_accounts) o p

module _ (encrypt : Text → Text) (db : Db) (now org_id : ℕ) (dto : ConnectCloudAccountDto) where
  abbrev added : CloudAccount
  added = new_account db now org_id dto (encrypt dto.api_key)

  abbrev renewed : CloudAccount → CloudAccount
  renewed old = reconnected old dto.label (encrypt dto.api_key) now

  single-append :
      (o : ℕ) (p : CloudProvider)
      → count (is_account_for org_id dto.provider) db.cloud_accounts ≡ 0
      → count (is_account_for o p) db.cloud_accounts ≤ 1
      → count (is_account_for o p) (db.cloud_accounts ++ added ∷ []) ≤ 1
  single-append o p nothing once =
      rw count-append (elim (Bool-cases (org_id == o && same_provider dto.provider p)) [
        | inl e ↦
            let free = free_for db.cloud_accounts org_id o dto.provider p nothing e in
            rw e (omega arith)
        | inr e ↦ rw e (omega arith)
      ])

  viewed-append :
      (o : ℕ) (p : CloudProvider)
      → count (is_account_for org_id dto.provider) db.cloud_accounts ≡ 0
      → view (db.cloud_accounts ++ added ∷ []) o p
        ≡ put org_id dto.provider (some (connected encrypt now dto)) (view db.cloud_accounts) o p
  unfolding view
  viewed-append o p nothing =
      rw
        (find?-append (is_account_for o p) db.cloud_accounts added
          (free_for db.cloud_accounts org_id o dto.provider p nothing))
        (elim (Bool-cases (org_id == o && same_provider dto.provider p)) [
          | inl e ↦ rw e
          | inr e ↦ rw e
        ])

  viewed-update :
      (old : CloudAccount) (o : ℕ) (p : CloudProvider)
      → find? (is_account_for org_id dto.provider) db.cloud_accounts ≡ some old
      → IsUnique db.cloud_accounts db.next_id
      → view (update_where (λ row. row.id == old.id) (λ row. renewed old) db.cloud_accounts) o p
        ≡ put org_id dto.provider (some (connected encrypt now dto)) (view db.cloud_accounts) o p
  unfolding view
  viewed-update old o p e u =
      let by_id =
        find?-once (λ row. row.id == old.id) _ db.cloud_accounts old e (==_refl old.id)
          (u.distinct old.id) in
      let holds = find?-sound _ db.cloud_accounts old e in
      let org : old.org_id ≡ org_id = ground arith in
      let prov : old.provider ≡ dto.provider =
        same_provider_iff old.provider dto.provider (ground arith) in
      rw
        (find?-update_one (is_account_for o p) old (renewed old) db.cloud_accounts by_id refl
          (u.distinct old.id) (u.single o p))
        (rw (org, prov)
          (elim (Bool-cases (org_id == o && same_provider dto.provider p)) [
            | inl k ↦ rw k
            | inr k ↦ rw k
          ]))

  save_account-Connects :
      (found : Option CloudAccount)
      → find? (is_account_for org_id dto.provider) db.cloud_accounts ≡ found
      → IsUnique db.cloud_accounts db.next_id
      → Connects encrypt now org_id dto db
          (save_account db now org_id dto (encrypt dto.api_key) found).0
  unfolding save_account
  save_account-Connects none e u =
      let nothing = find?-none _ db.cloud_accounts e in
      record {
        kept = record {
          single = λ o p. single-append o p nothing (u.single o p);
          distinct = λ id.
              distinct-append (λ d. d.id) db.cloud_accounts added db.next_id id (omega arith)
                u.fresh (u.distinct id);
          fresh =
              fresh-append (λ d. d.id) db.cloud_accounts added db.next_id (suc db.next_id)
                (omega arith) (omega arith) u.fresh;
        };
        viewed = λ o p. viewed-append o p nothing;
      }
  save_account-Connects (some old) e u =
      let by_id =
        find?-once (λ row. row.id == old.id) _ db.cloud_accounts old e (==_refl old.id)
          (u.distinct old.id) in
      record {
        kept = record {
          single = λ o p.
              rw
                (count-write (λ row. row.id == old.id) (is_account_for o p) (renewed old) old
                  db.cloud_accounts by_id (u.distinct old.id) refl)
                (u.single o p);
          distinct = λ id.
              rw
                (count-write (λ row. row.id == old.id) (λ row. row.id == id) (renewed old) old
                  db.cloud_accounts by_id (u.distinct old.id) refl)
                (u.distinct id);
          fresh =
              All-update_where (λ row. row.id < db.next_id) (λ row. row.id == old.id)
                (λ row. renewed old) db.cloud_accounts (λ row lt same. ground arith) u.fresh;
        };
        viewed = λ o p. viewed-update old o p e u;
      }

  -- Connecting a provider, the first time or again, is a write of the map at the organization and
  -- the provider and of no other place, and keeps what the unique index and the ids keep true.
  pub connect-Connects :
      IsUnique db.cloud_accounts db.next_id
      → Connects encrypt now org_id dto db (connect encrypt db now org_id dto).0
  unfolding connect
  connect-Connects u = save_account-Connects _ refl u
