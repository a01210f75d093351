-- ===== src/Db/Query.antt =====
-- The queries that give rows in an order, and the recent log rows of an entity
-- (src/health-check-log/health-check-log.service.ts: `findRecent`).
use servers_manager.Base.{
  ℕ, Bool, true, false, ◌&&◌, List, [], ◌∷◌, ltb, ◌==◌, filter, any, take, if◌then◌else◌,
}
use servers_manager.Db.{Db, HealthCheckEntityType, HealthCheckLog}

module _ {ℓ} {A : Type ℓ} (date : A → ℕ) where
  unfoldable pub insert_newest : A → List A → List A
  insert_newest row [] = row ∷ []
  insert_newest row (r ∷ rows) =
      let rest = insert_newest row rows in
      if ltb (date row) (date r) then r ∷ rest else row ∷ r ∷ rows

  -- `ORDER BY date DESC`; SQL leaves the order of equal dates open, here the later row comes first.
  unfoldable pub newest_onto : List A → List A → List A
  unfolding insert_newest
  newest_onto [] done = done
  newest_onto (row ∷ rows) done = newest_onto rows (insert_newest row done)

  unfoldable pub newest_first : List A → List A
  unfolding newest_onto
  newest_first rows = newest_onto rows []

abbrev pub same_checked_type : HealthCheckEntityType → HealthCheckEntityType → Bool
same_checked_type HealthCheckEntityType.host HealthCheckEntityType.host = true
same_checked_type HealthCheckEntityType.domain HealthCheckEntityType.domain = true
same_checked_type HealthCheckEntityType.ssl_certificate HealthCheckEntityType.ssl_certificate = true
same_checked_type HealthCheckEntityType.service HealthCheckEntityType.service = true
same_checked_type _ _ = false

abbrev pub recent_logs_limit : ℕ
recent_logs_limit = 20

unfoldable pub find_recent : Db → List HealthCheckEntityType → ℕ → List HealthCheckLog
unfolding newest_first
find_recent db entity_types entity_id = take recent_logs_limit (
    newest_first (λ log. log.checked_at)
      (filter
        (λ log.
          any (λ type. same_checked_type log.entity_type type) entity_types
          && log.entity_id == entity_id)
        db.health_check_logs))
