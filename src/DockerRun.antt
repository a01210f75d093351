-- ===== src/DockerRun.antt =====
-- src/rollback/docker-run-command.builder.ts: the `docker run` command line that recreates a container.
pub mod Words
use servers_manager.Base.{
  ℕ, Bool, Text, codes, truthy, List, [], ◌∷◌, ◌++◌, map, ◌==◌, if◌then◌else◌,
}

-- src/deployment-snapshots/deployment-config-blob.interface.ts
pub record DeploymentConfigBlob : Type 0 where
  pub container_name : Text
  pub env : List Text
  pub port_bindings : List Text
  pub restart_policy : Text

-- `value.replace(/'/g, "'\\''")`.
unfoldable pub escape_quotes : Text → Text
escape_quotes [] = []
escape_quotes (c ∷ value) =
    let rest = escape_quotes value in if c == b'\'' then codes "'\\''" ++ rest else c ∷ rest

unfoldable pub shell_escape : Text → Text
unfolding escape_quotes
shell_escape value = b'\'' ∷ escape_quotes value ++ b'\'' ∷ []

-- `parts.push(flag, shellEscape(value))` for each value of a loop.
unfoldable pub push_flag : Text → List Text → List Text
unfolding shell_escape
push_flag flag [] = []
push_flag flag (value ∷ values) = flag ∷ shell_escape value ∷ push_flag flag values

-- `parts.join(' ')`.
unfoldable pub join_space : List Text → Text
join_space [] = []
join_space (part ∷ []) = part
join_space (part ∷ q ∷ parts) = part ++ b' ' ∷ join_space (q ∷ parts)

unfoldable pub parts : DeploymentConfigBlob → Text → List Text
unfolding shell_escape push_flag
parts config image_tag =
    codes "docker"
    ∷ codes "run"
    ∷ codes "-d"
    ∷ codes "--name"
    ∷ shell_escape config.container_name
    ∷ (push_flag (codes "-p") config.port_bindings
        ++ (push_flag (codes "-e") config.env
            ++ ((if truthy config.restart_policy
                  then codes "--restart" ∷ shell_escape config.restart_policy ∷ []
                  else [])
                ++ shell_escape image_tag ∷ [])))

unfoldable pub build_docker_run_command : DeploymentConfigBlob → Text → Text
unfolding parts join_space
build_docker_run_command config image_tag = join_space (parts config image_tag)
