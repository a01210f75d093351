-- ===== src/Snapshots.antt =====
-- src/deployment-snapshots/deployment-snapshots.service.ts: the deployment history of each service.
-- `JSON.stringify`, `JSON.parse` and the two directions of the CryptoService are parameters; `iv`
-- stands for the random bytes that one call of `encrypt` draws.
pub mod Current
use servers_manager.Base.{
  ℕ, suc, ◌+◌, Bool, true, false, ◌&&◌, Option, none, some, List, [], ◌∷◌, ◌++◌, Text, ◌==◌, find?,
  filter, Throws, ok, throw, bad_request, ◌>>=◌,
}
use servers_manager.DockerRun.{DeploymentConfigBlob}
use servers_manager.Db.{Db, DeploymentSnapshot}
use servers_manager.Db.Query.{newest_first}
use servers_manager.Db.Table.{update_where}

pub record CreateSnapshotInput : Type 0 where
  pub service_id : ℕ
  pub image_tag : Text
  pub config : DeploymentConfigBlob
  pub deployed_at : ℕ
  pub deployed_by_id : Option ℕ

-- The row is the service's, and is current.
abbrev pub is_current_of : ℕ → DeploymentSnapshot → Bool
is_current_of service_id row = row.service_id == service_id && row.is_current

unfoldable pub find_current_for_service : Db → ℕ → Option DeploymentSnapshot
find_current_for_service db service_id = find? (is_current_of service_id) db.snapshots

unfoldable pub find_history_for_service : Db → ℕ → List DeploymentSnapshot
unfolding newest_first
find_history_for_service db service_id =
    newest_first (λ row. row.deployed_at)
      (filter (λ row. row.service_id == service_id) db.snapshots)

unfoldable pub find_one_for_service_or_throw : Db → ℕ → ℕ → Throws DeploymentSnapshot
find_one_for_service_or_throw db service_id id =
    elim (find? (λ row. row.id == id && row.service_id == service_id) db.snapshots) [
      | none ↦ throw bad_request
      | some snapshot ↦ ok snapshot
    ]

unfoldable pub decrypt_config :
    (Text → Throws Text)
    → (Text → Throws DeploymentConfigBlob)
    → DeploymentSnapshot
    → Throws DeploymentConfigBlob
decrypt_config decrypt json_parse snapshot = do blob ← decrypt snapshot.config_blob; json_parse blob

abbrev pub retire : DeploymentSnapshot → DeploymentSnapshot
retire row = record row { is_current = false }

module _ (json_stringify : DeploymentConfigBlob → Text) (encrypt : Text → Text → Text) where
  unfoldable pub new_snapshot : Db → Text → ℕ → CreateSnapshotInput → DeploymentSnapshot
  new_snapshot db iv now input = record {
    id = db.next_id;
    service_id = input.service_id;
    image_tag = input.image_tag;
    config_blob = encrypt iv (json_stringify input.config);
    deployed_at = input.deployed_at;
    deployed_by_id = input.deployed_by_id;
    is_current = true;
    created_at = now;
  }

  -- The transaction: the old current row is retired and the new one inserted.
  unfoldable pub create_snapshot : Db → Text → ℕ → CreateSnapshotInput → Db × DeploymentSnapshot
  unfolding new_snapshot
  create_snapshot db iv now input =
      let snapshot = new_snapshot db iv now input in
      (
        record db {
          snapshots =
              update_where (is_current_of input.service_id) retire db.snapshots ++ snapshot ∷ [];
          next_id = suc db.next_id;
        },
        snapshot,
      )
