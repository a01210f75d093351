-- ===== src/Snapshots/Current.antt =====
-- Which snapshot of a service is current, after deployment-snapshots.service.ts created one.
use servers_manager.Base.{
  length, ℕ, ◌≡◌, ◌≢◌, refl, ◌∙◌, ap, Bool, true, false, some, List, [], ◌∷◌, ◌++◌, Text, ◌==◌,
  ==_iff, find?, count, count-append, map, arith, if◌then◌else◌, Bool-cases, inl, inr, Throws, ok,
}
use servers_manager.DockerRun.{DeploymentConfigBlob}
use servers_manager.Crypto as Crypto
use servers_manager.Crypto.{Bytes, NodeCrypto, iv_length_bytes, auth_tag_length_bytes}
use servers_manager.Crypto.Sealed.{decrypt-encrypt}
use servers_manager.Db.{Db, DeploymentSnapshot}
use servers_manager.Db.Table.{update_where}
use servers_manager.Snapshots.{
  CreateSnapshotInput, is_current_of, find_current_for_service, decrypt_config, retire,
  new_snapshot, create_snapshot,
}

count-retire_self :
    (sid : ℕ) (rows : List DeploymentSnapshot)
    → count (is_current_of sid) (update_where (is_current_of sid) retire rows) ≡ 0
unfolding update_where
count-retire_self sid [] = refl
count-retire_self sid (row ∷ rows) = ground (arith, count-retire_self sid rows)

count-retire_other :
    (sid other : ℕ) (rows : List DeploymentSnapshot)
    → other ≢ sid
    → count (is_current_of other) (update_where (is_current_of sid) retire rows)
      ≡ count (is_current_of other) rows
unfolding update_where
count-retire_other sid other [] h = refl
count-retire_other sid other (row ∷ rows) h = ground (arith, count-retire_other sid other rows h)

find?-retire_self :
    (sid : ℕ) (rows : List DeploymentSnapshot) (new : DeploymentSnapshot)
    → is_current_of sid new ≡ true
    → find? (is_current_of sid) (update_where (is_current_of sid) retire rows ++ new ∷ [])
      ≡ some new
unfolding update_where
find?-retire_self sid [] new h = rw h
find?-retire_self sid (row ∷ rows) new h = ground (arith, find?-retire_self sid rows new h)

find?-retire_other :
    (sid other : ℕ) (rows : List DeploymentSnapshot) (new : DeploymentSnapshot)
    → other ≢ sid
    → is_current_of other new ≡ false
    → find? (is_current_of other) (update_where (is_current_of sid) retire rows ++ new ∷ [])
      ≡ find? (is_current_of other) rows
unfolding update_where
find?-retire_other sid other [] new h k = rw k
find?-retire_other sid other (row ∷ rows) new h k =
    ground (arith, find?-retire_other sid other rows new h k)

-- A row without its mark.
abbrev pub unmarked : DeploymentSnapshot → DeploymentSnapshot
unmarked = retire

unmarked-retire :
    (p : DeploymentSnapshot → Bool) (rows : List DeploymentSnapshot)
    → map unmarked (update_where p retire rows) ≡ map unmarked rows
unfolding update_where
unmarked-retire p [] = refl
unmarked-retire p (row ∷ rows) = elim (Bool-cases (p row)) [
  | inl e ↦ rw e (ap (λ r. unmarked row ∷ r) (unmarked-retire p rows))
  | inr e ↦ rw e (ap (λ r. unmarked row ∷ r) (unmarked-retire p rows))
]

map-snoc :
    (rows : List DeploymentSnapshot) (row : DeploymentSnapshot)
    → map unmarked (rows ++ row ∷ []) ≡ map unmarked rows ++ unmarked row ∷ []
map-snoc [] row = refl
map-snoc (r ∷ rows) row = ap (λ t. unmarked r ∷ t) (map-snoc rows row)

module _ (json_stringify : DeploymentConfigBlob → Text) (encrypt : Text → Text → Text) (db : Db)
    (iv : Text) (now : ℕ) (input : CreateSnapshotInput) where
  -- After a snapshot is created its service has exactly one current row, and every other service
  -- has as many as before.
  pub create_snapshot-count :
      (sid : ℕ)
      → count
          (is_current_of sid)
          (create_snapshot json_stringify encrypt db iv now input).0.snapshots
        ≡ (if sid == input.service_id then 1 else count (is_current_of sid) db.snapshots)
  unfolding create_snapshot
  create_snapshot-count sid = elim (Bool-cases (sid == input.service_id)) [
    | inl e ↦
        let same : sid ≡ input.service_id = (==_iff sid input.service_id).0 e in
        rw (e, count-append) (ground (arith, count-retire_self sid db.snapshots))
    | inr e ↦
        rw (e, count-append) (ground (arith, count-retire_other input.service_id sid db.snapshots))
  ]

  -- The new snapshot is what `findCurrentForService` then finds for its service, and what it finds
  -- for any other service is unchanged.
  pub create_snapshot-find_current :
      (sid : ℕ)
      → find_current_for_service (create_snapshot json_stringify encrypt db iv now input).0 sid ≡ (
          if sid == input.service_id
          then some (create_snapshot json_stringify encrypt db iv now input).1
          else find_current_for_service db sid)
  unfolding create_snapshot find_current_for_service new_snapshot
  create_snapshot-find_current sid = elim (Bool-cases (sid == input.service_id)) [
    | inl e ↦ rw e (
        rw ((==_iff sid input.service_id).0 e) (
          find?-retire_self input.service_id db.snapshots
            (new_snapshot json_stringify encrypt db iv now input) (ground arith)))
    | inr e ↦
        rw e (find?-retire_other input.service_id sid db.snapshots _ (ground arith) (ground arith))
  ]

  -- Creating a snapshot rewrites nothing of the history but the mark: the rows, without their
  -- marks, are the old ones in their order, followed by the new one.
  pub create_snapshot-history :
      map unmarked (create_snapshot json_stringify encrypt db iv now input).0.snapshots
      ≡ map unmarked db.snapshots
        ++ unmarked (create_snapshot json_stringify encrypt db iv now input).1 ∷ []
  unfolding create_snapshot
  create_snapshot-history =
      map-snoc _ _
      ∙ ap (λ r. r ++ unmarked (new_snapshot json_stringify encrypt db iv now input) ∷ [])
          (unmarked-retire (is_current_of input.service_id) db.snapshots)

-- A created snapshot, sealed by the CryptoService, is read back by `decryptConfig` as the
-- configuration it was created with. Assumed are an initialisation vector of 12 bytes, tags of 16
-- bytes, that UTF-8 and JSON give back this configuration, that base64 gives back all bytes, and that
-- the decipher undoes the cipher.
pub decrypt_config-create_snapshot :
    (node : NodeCrypto) (key iv : Bytes) (json_stringify : DeploymentConfigBlob → Text)
    (json_parse : Text → Throws DeploymentConfigBlob) (db : Db) (now : ℕ)
    (input : CreateSnapshotInput)
    → length iv ≡ iv_length_bytes
    → length (node.cipher key iv (node.utf8 (json_stringify input.config))).auth_tag
      ≡ auth_tag_length_bytes
    → node.from_utf8 (node.utf8 (json_stringify input.config)) ≡ json_stringify input.config
    → ((bytes : Bytes) → node.from_base64 (node.base64 bytes) ≡ bytes)
    → ((bytes : Bytes)
        → node.decipher key iv (node.cipher key iv bytes).auth_tag (node.cipher key iv bytes).body
          ≡ ok bytes)
    → json_parse (json_stringify input.config) ≡ ok input.config
    → decrypt_config
        (Crypto.decrypt node key)
        json_parse
        (create_snapshot json_stringify (Crypto.encrypt node key) db iv now input).1
      ≡ ok input.config
unfolding create_snapshot decrypt_config
decrypt_config-create_snapshot node key iv json_stringify json_parse db now input iv_size tag_size
      printed coded undone parsed =
    rw
      (decrypt-encrypt node key iv (json_stringify input.config) iv_size tag_size printed coded
        undone)
      parsed
