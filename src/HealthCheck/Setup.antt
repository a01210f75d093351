-- ===== src/HealthCheck/Setup.antt =====
-- What a check in src/health-check/health-check.processor.ts says of a host's setup.
use servers_manager.Base.{◌≡◌, ◌≢◌, ◌↔◌, true, none}
use servers_manager.Db.{Host}
use servers_manager.HealthCheck.{pending_setup, Checked, is_successful_connection}

-- A check that ended so fits the host: it reached it just when it has results, and only a host that
-- was never verified waits for its setup.
pub record Fits (host : Host) (checked : Checked) : Type 0 where
  pub reached : (is_successful_connection checked.0.status ≡ true) ↔ (checked.1 ≢ none)
  pub waiting : checked.0.status ≡ pending_setup → host.setup_verified_at ≡ none
