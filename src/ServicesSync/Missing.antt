-- ===== src/ServicesSync/Missing.antt =====
-- What `markMissingServicesUnknown` of src/services/services-sync.service.ts achieves.
use servers_manager.Base.{
  ℕ, ◌≡◌, ◌⊎◌, inl, inr, true, false, List, [], ◌∷◌, Text, ◌==◌, ==_refl, All, any, filter, map,
  arith, ok, Bool-cases,
}
use servers_manager.DockerPs.{DockerPsParseResult, parse_docker_ps_output}
use servers_manager.Container.Status.{SshCommandResult, is_docker_missing}
use servers_manager.Db.{Db, Host, Service, write_log}
use servers_manager.Db.Table.{update_where}
use servers_manager.ServicesSync.{
  SyncPorts, is_missing, gone, mark_one, mark_unknown, mark_missing_services_unknown, upsert_all,
  sync,
}

module _ (ports : SyncPorts) (now : ℕ) (host : Host) (seen : List Text) where
  -- Each row is in order, or is among those still to be marked.
  abbrev IsCovered : List Service → List Service → Type 0
  IsCovered todo rows =
      All
        (λ row.
          (is_missing ports now host seen row ≡ false) ⊎ (any (λ s. s.id == row.id) todo ≡ true))
        rows

  mark_one-IsCovered :
      (service : Service) (todo rows : List Service)
      → IsCovered (service ∷ todo) rows
      → IsCovered todo
          (update_where (λ row. row.id == service.id) (λ row. gone ports now service) rows)
  unfolding update_where
  mark_one-IsCovered service todo [] h = tt
  mark_one-IsCovered service todo (row ∷ rows) h = elim (Bool-cases (row.id == service.id)) [
    | inl e ↦ rw e (inl (ground arith), mark_one-IsCovered service todo rows h.1)
    | inr e ↦ rw e (ground arith, mark_one-IsCovered service todo rows h.1)
  ]

  mark_unknown-IsCovered :
      (db : Db) (todo : List Service)
      → IsCovered todo db.services
      → IsCovered [] (mark_unknown ports now db todo).services
  unfolding mark_unknown write_log
  mark_unknown-IsCovered db [] h = h
  mark_unknown-IsCovered db (service ∷ todo) h =
      mark_unknown-IsCovered (mark_one ports now db service) todo
        (mark_one-IsCovered service todo db.services h)

  filter-IsCovered :
      (rows todo : List Service)
      → ((id : ℕ)
          → any (λ s. s.id == id) (filter (is_missing ports now host seen) rows) ≡ true
          → any (λ s. s.id == id) todo ≡ true)
      → IsCovered todo rows
  filter-IsCovered [] todo h = tt
  filter-IsCovered (row ∷ rows) todo h = elim (Bool-cases (is_missing ports now host seen row)) [
    | inl e ↦ (
      inr (h row.id (rw e (rw (==_refl row.id)))),
      filter-IsCovered rows todo (λ id k. h id (rw e (ground arith))),
    )
    | inr e ↦ (inl e, filter-IsCovered rows todo (λ id k. h id (rw e k)))
  ]

  IsCovered-settled :
      (rows : List Service)
      → IsCovered [] rows
      → All (λ row. is_missing ports now host seen row ≡ false) rows
  IsCovered-settled [] h = tt
  IsCovered-settled (row ∷ rows) h = (ground arith, IsCovered-settled rows h.1)

  mark_missing_settles :
      (db : Db)
      → All
          (λ row. is_missing ports now host seen row ≡ false)
          (mark_missing_services_unknown ports now db host seen).services
  unfolding mark_missing_services_unknown
  mark_missing_settles db = IsCovered-settled _ (
      mark_unknown-IsCovered db (filter (is_missing ports now host seen) db.services)
        (filter-IsCovered db.services _ (λ id k. k)))

-- After a sync whose output is parsed, every service row of the host whose container the output
-- does not list is marked unknown, whatever it was before.
pub sync_settles :
    (ports : SyncPorts) (now : ℕ) (db : Db) (host : Host) (result : SshCommandResult)
    (parsed : DockerPsParseResult)
    → is_docker_missing ports.to_lower result ≡ false
    → parse_docker_ps_output ports.parse_ps_line result.stdout ≡ ok parsed
    → All
        (λ row. is_missing ports now host (map (λ c. c.id) parsed.containers) row ≡ false)
        (sync ports now db host result).0.services
unfolding sync
sync_settles ports now db host result parsed present listed =
    rw (present, sync)
      (rw listed (
        mark_missing_settles ports now host (map (λ c. c.id) parsed.containers)
          (upsert_all ports now db host parsed.containers)))
