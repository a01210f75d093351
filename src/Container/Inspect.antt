-- ===== src/Container/Inspect.antt =====
-- src/deployment-snapshots/docker-inspect-parser.ts: the runtime configuration of a container.
use servers_manager.Base.{
  not, Option, none, some, List, [], ◌∷◌, ◌++◌, Text, truthy, drop_prefix, if◌then◌else◌, Throws,
  ok, throw, type_error,
}
use servers_manager.DockerRun.{DeploymentConfigBlob}
use servers_manager.DockerPs.{present, or_else}

-- `HostConfig.PortBindings`: each container port with its bindings, `null` where it is exposed and
-- not published; of a binding only the host port is read.
abbrev pub PortBindings : Type 0
PortBindings = List (Text × Option (List (Option Text)))

pub record DockerInspectContainer : Type 0 where
  pub name : Option Text
  pub env : Option (List Text)
  pub port_bindings : Option PortBindings
  pub restart_policy : Option Text

-- What `JSON.parse` makes of the output. The cast to an array is trusted, but for `null`.
pub data ParsedInspect : Type 0 where
  malformed null_value : ParsedInspect
  array : List (Option DockerInspectContainer) → ParsedInspect

abbrev pub or_empty {ℓ} : {A : Type ℓ} → Option (List A) → List A
or_empty none = []
or_empty (some xs) = xs

-- The inner loop over the bindings of one container port.
unfoldable pub flatten_bindings : Text → List (Option Text) → List Text
flatten_bindings container_port [] = []
flatten_bindings container_port (host_port ∷ bindings) =
    let rest = flatten_bindings container_port bindings in
    if present host_port then (or_else host_port [] ++ b':' ∷ container_port) ∷ rest else rest

unfoldable pub flatten_port_bindings : PortBindings → List Text
unfolding flatten_bindings
flatten_port_bindings [] = []
flatten_port_bindings ((container_port, bindings) ∷ ports) =
    flatten_bindings container_port (or_empty bindings) ++ flatten_port_bindings ports

unfoldable pub to_config : DockerInspectContainer → Option DeploymentConfigBlob
unfolding flatten_port_bindings
to_config container =
    let container_name = drop_prefix b'/' (or_else container.name []) in
    if not (truthy container_name)
    then none
    else some (record {
      container_name = container_name;
      env = or_empty container.env;
      port_bindings = flatten_port_bindings (or_empty container.port_bindings);
      restart_policy = or_else container.restart_policy [];
    })

-- `parsed[0]`, and the early return where there is none.
unfoldable pub first_config : List (Option DockerInspectContainer) → Option DeploymentConfigBlob
unfolding to_config
first_config [] = none
first_config (none ∷ containers) = none
first_config (some container ∷ containers) = to_config container

unfoldable pub read_inspect : ParsedInspect → Throws (Option DeploymentConfigBlob)
unfolding first_config
read_inspect malformed = ok none
read_inspect null_value = throw type_error
read_inspect (array containers) = ok (first_config containers)

unfoldable pub parse_docker_inspect_output :
    (Text → ParsedInspect) → Text → Throws (Option DeploymentConfigBlob)
unfolding read_inspect
parse_docker_inspect_output json_parse stdout = read_inspect (json_parse stdout)
