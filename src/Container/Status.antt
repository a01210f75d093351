-- ===== src/Container/Status.antt =====
-- src/services/container-status-classifier.ts, src/common/utils/docker.util.ts and src/ssh/ssh.service.ts'
-- result of a command.
pub mod Classified
use servers_manager.Base.{
  ℕ, ◌≡◌, ◌↔◌, Bool, true, false, ◌&&◌, ◌||◌, not, Option, none, some, List, [], ◌∷◌, ◌++◌, map,
  any, Text, codes, includes, if◌then◌else◌, arith, ◌==◌,
}

-- src/services/entities/service.entity.ts
pub data ServiceStatus : Type 0 where
  unknown running unhealthy stopped crash_loop : ServiceStatus

-- The value of the enum, as it is stored and compared.
abbrev pub service_status_text : ServiceStatus → Text
service_status_text unknown = codes "unknown"
service_status_text running = codes "running"
service_status_text unhealthy = codes "unhealthy"
service_status_text stopped = codes "stopped"
service_status_text crash_loop = codes "crash_loop"

-- `===` on the enum.
abbrev pub same_service_status : ServiceStatus → ServiceStatus → Bool
same_service_status unknown unknown = true
same_service_status running running = true
same_service_status unhealthy unhealthy = true
same_service_status stopped stopped = true
same_service_status crash_loop crash_loop = true
same_service_status _ _ = false

unfoldable pub classify_container_status : Text → ServiceStatus
classify_container_status status =
    if includes status (codes "Restarting")
    then crash_loop
    else if includes status (codes "Up")
    then (if includes status (codes "(unhealthy)") then unhealthy else running)
    else if includes status (codes "Exited")
    then stopped
    else unknown

-- src/ssh/ssh.service.ts; the exit code is null where the command was killed.
pub record SshCommandResult : Type 0 where
  pub command : Text
  pub stdout : Text
  pub stderr : Text
  pub exit_code : Option ℕ

-- `exitCode === 0`.
abbrev pub is_zero : Option ℕ → Bool
is_zero none = false
is_zero (some n) = n == 0

-- src/common/constants/ssh.constant.ts
abbrev pub docker_not_installed_markers : List Text
docker_not_installed_markers =
    codes "command not found" ∷ codes "not recognized" ∷ codes "no such file" ∷ []

-- `to_lower` is `toLowerCase` of the platform.
unfoldable pub is_docker_missing : (Text → Text) → SshCommandResult → Bool
is_docker_missing to_lower result =
    let combined = to_lower (result.stdout ++ b' ' ∷ result.stderr) in
    if is_zero result.exit_code
    then false
    else any (λ marker. includes combined marker) docker_not_installed_markers
