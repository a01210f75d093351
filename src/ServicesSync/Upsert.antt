-- ===== src/ServicesSync/Upsert.antt =====
-- What one container's upsert in src/services/services-sync.service.ts leaves in the table.
use servers_manager.Base.{
  truthy, text_eq_sound, ℕ, ◌≡◌, inl, inr, refl, ap, ◌∙◌, Bool, true, false, not, Option, none,
  some, List, [], ◌∷◌, ◌++◌, Text, codes, ◌==◌, ==_refl, find?, text_eq_refl, arith, if◌then◌else◌,
  Throws, ok, throw, Bool-cases,
}
use servers_manager.DockerRun.{DeploymentConfigBlob}
use servers_manager.DockerPs.{DockerPsContainer, split_image_and_tag}
use servers_manager.Container.Status.{SshCommandResult, is_zero, classify_container_status}
use servers_manager.Container.Inspect.{parse_docker_inspect_output}
use servers_manager.Db.{Db, Host, Service, write_log}
use servers_manager.Db.Table.{update_where, find?-sound}
use servers_manager.Snapshots.{find_current_for_service, create_snapshot}
use servers_manager.Ssh.{run_commands, connection_of}
use servers_manager.Alerts.Frame.{evaluate_transition-IsAlerted}
use servers_manager.ServicesSync.{
  SyncPorts, is_row_of, refreshed, save_refreshed, same_image, capture_config, capture_results,
  capture_with_key, capture_snapshot_if_image_changed, upsert_found, upsert_service,
}

find?-append {ℓ} :
    {A : Type ℓ} (p : A → Bool) (xs : List A) (x : A)
    → find? p xs ≡ none
    → p x ≡ true
    → find? p (xs ++ x ∷ []) ≡ some x
find?-append p [] x h k = rw k
find?-append p (y ∷ xs) x h k = elim (Bool-cases (p y)) [
  | inl e ↦ absurd (ground arith)
  | inr e ↦ rw e (find?-append p xs x (rw e at h) k)
]

find?-write :
    (p : Service → Bool) (rows : List Service) (old new : Service)
    → find? p rows ≡ some old
    → new.id ≡ old.id
    → p new ≡ true
    → find? p (update_where (λ row. row.id == new.id) (λ row. new) rows) ≡ some new
unfolding update_where
find?-write p [] old new h same k = cc
find?-write p (row ∷ rows) old new h same k = elim (Bool-cases (row.id == new.id)) [
  | inl e ↦ rw e (rw k)
  | inr e ↦ elim (Bool-cases (p row)) [
    | inl q ↦
        let row_is : row ≡ old = ground arith in absurd (ground (arith, ap (λ r. r.id) row_is))
    | inr q ↦ rw e (rw q (find?-write p rows old new (rw q at h) same k))
  ]
]

module _ (ports : SyncPorts) (now : ℕ) where
  capture_results-services :
      (db : Db) (service : Service) (container : DockerPsContainer)
      (t : Throws (List SshCommandResult))
      → (capture_results ports now db service container t).services ≡ db.services
  unfolding capture_results create_snapshot
  capture_results-services db service container (throw e) = refl
  capture_results-services db service container (ok []) = refl
  capture_results-services db service container (ok (result ∷ results)) =
      go (not (is_zero result.exit_code))
        (parse_docker_inspect_output ports.parse_inspect result.stdout)
    where
      go :
          (b : Bool) (t : Throws (Option DeploymentConfigBlob))
          → (if b then db else capture_config ports now db service container t).services
            ≡ db.services
      go true t = refl
      go false (throw e) = refl
      go false (ok none) = refl
      go false (ok (some config)) = refl

  capture-services :
      (db : Db) (host : Host) (service : Service) (container : DockerPsContainer)
      → (capture_snapshot_if_image_changed ports now db host service container).services
        ≡ db.services
  unfolding capture_snapshot_if_image_changed
  capture-services db host service container =
      go (same_image (find_current_for_service db service.id) container.image)
        (ports.alerts.decrypt host.ssh_key_encrypted)
    where
      go :
          (b : Bool) (t : Throws Text)
          → (if b then db else capture_with_key ports now db host service container t).services
            ≡ db.services
      go true t = refl
      go false (throw e) = refl
      go false (ok key) = capture_results-services db service container (
          run_commands ports.ssh (connection_of host key)
            ((codes "docker inspect " ++ container.id) ∷ []))

  upsert_found-services :
      (db : Db) (host : Host) (container : DockerPsContainer) (found : Option Service)
      → (upsert_found ports now db host container found).services
        ≡ (save_refreshed db found (refreshed db now host container found)).services
  unfolding upsert_found write_log
  upsert_found-services db host container found =
      capture-services _ host (refreshed db now host container found) container
      ∙ ap (λ d. d.services) (evaluate_transition-IsAlerted ports.alerts now _ _)

  upsert_service-row :
      (db : Db) (host : Host) (container : DockerPsContainer)
      → find? (is_row_of host.id container.id) (upsert_service ports now db host container).services
        ≡ some
            (refreshed db now host container (find? (is_row_of host.id container.id) db.services))
  unfolding upsert_service
  upsert_service-row db host container =
      go (find? (is_row_of host.id container.id) db.services) refl
    where
      go :
          (found : Option Service)
          → find? (is_row_of host.id container.id) db.services ≡ found
          → find?
              (is_row_of host.id container.id)
              (upsert_found ports now db host container found).services
            ≡ some (refreshed db now host container found)
      go none e = rw (upsert_found-services db host container none) (
          find?-append (is_row_of host.id container.id) db.services _ e
            (rw (==_refl host.id) (text_eq_refl container.id)))
      go (some old) e = rw (upsert_found-services db host container (some old)) (
          find?-write (is_row_of host.id container.id) db.services old
            (refreshed db now host container (some old)) e refl
            (find?-sound (is_row_of host.id container.id) db.services old e))

  -- The row that a lookup by host and container id then finds, field by field.
  pub record IsUpserted (db : Db) (host : Host) (container : DockerPsContainer) : Type 0 where
    pub row : Service
    pub found :
        find? (is_row_of host.id container.id) (upsert_service ports now db host container).services
        ≡ some row
    pub on_host : row.host_id ≡ host.id
    pub of_container : row.container_id ≡ container.id
    pub named : row.container_name ≡ container.names
    pub imaged : row.image ≡ (split_image_and_tag container.image).image
    pub tagged : row.current_tag ≡ (split_image_and_tag container.image).tag
    pub classified : row.status ≡ classify_container_status container.status
    pub ported :
        (truthy container.ports ≡ true → row.port_mappings ≡ some container.ports)
        × (truthy container.ports ≡ false → row.port_mappings ≡ none)
    pub dated : row.last_checked_at ≡ now
    pub kept :
        (old : Service)
        → find? (is_row_of host.id container.id) db.services ≡ some old
        → (row.id ≡ old.id) × (row.org_id ≡ old.org_id) × (row.created_at ≡ old.created_at)
    pub new :
        find? (is_row_of host.id container.id) db.services ≡ none
        → (row.id ≡ db.next_id) × (row.org_id ≡ host.org_id) × (row.created_at ≡ now)

  -- After a container is upserted, the lookup by its host and id finds a row with the name, image,
  -- tag, classified status and ports of this run, dated now: the row found before, with its id,
  -- organization and date of creation, or else a new one of the host's organization.
  pub upsert_service-find :
      (db : Db) (host : Host) (container : DockerPsContainer) → IsUpserted db host container
  unfolding refreshed
  upsert_service-find db host container =
      go (find? (is_row_of host.id container.id) db.services) refl
    where
      go :
          (found : Option Service)
          → find? (is_row_of host.id container.id) db.services ≡ found
          → IsUpserted db host container
      go none e = record {
        row = refreshed db now host container none;
        found =
            upsert_service-row db host container
            ∙ ap (λ f. some (refreshed db now host container f)) e;
        on_host = refl;
        of_container = refl;
        named = refl;
        imaged = refl;
        tagged = refl;
        classified = refl;
        ported = ((λ h. rw h), λ h. rw h);
        dated = refl;
        kept = λ old there. absurd (ground arith);
        new = λ nothing. (refl, refl, refl);
      }
      go (some old) e =
          let holds = find?-sound (is_row_of host.id container.id) db.services old e in
          record {
            row = refreshed db now host container (some old);
            found =
                upsert_service-row db host container
                ∙ ap (λ f. some (refreshed db now host container f)) e;
            on_host = ground arith;
            of_container = text_eq_sound old.container_id container.id (ground arith);
            named = refl;
            imaged = refl;
            tagged = refl;
            classified = refl;
            ported = ((λ h. rw h), λ h. rw h);
            dated = refl;
            kept = λ o there.
                let same : old ≡ o = ground arith in
                (ap (λ r. r.id) same, ap (λ r. r.org_id) same, ap (λ r. r.created_at) same);
            new = λ nothing. absurd (ground arith);
          }
