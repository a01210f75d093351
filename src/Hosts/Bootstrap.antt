-- ===== src/Hosts/Bootstrap.antt =====
-- src/hosts/bootstrap-command.util.ts: the line that installs a public key.
pub mod Shell
pub mod Pasted
use servers_manager.Base.{List, ◌++◌, Text, codes}

unfoldable pub build_bootstrap_command : Text → Text
build_bootstrap_command public_key =
    codes "mkdir -p ~/.ssh && chmod 700 ~/.ssh && "
    ++ ((codes "echo \"" ++ (public_key ++ codes "\" >> ~/.ssh/authorized_keys && "))
        ++ codes "chmod 600 ~/.ssh/authorized_keys")
