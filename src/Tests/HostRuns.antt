-- ===== src/Tests/HostRuns.antt =====
-- A key file and the line that installs a key.
use servers_manager.Base.{◌≡◌, ◌++◌, refl, some, [], ◌∷◌, codes, ok, arith}
use servers_manager.Hosts.Keypair.{Bytes, key_body}
use servers_manager.Hosts.Keypair.Opened.{open_key}
use servers_manager.Hosts.Keypair.RoundTrip.{open_key-key_body}
use servers_manager.Hosts.Bootstrap.{build_bootstrap_command}
use servers_manager.Hosts.Bootstrap.Shell.{is_live, is_bare, is_operator, tokens_of, word, op}
use servers_manager.Hosts.Bootstrap.Pasted.{
  before_key, behind_key, closing, build_bootstrap_command-tokens, build_bootstrap_command-runs,
}

abbrev raw : Bytes
raw = codes "abcdefghijklmnopqrstuvwxyz012345"

abbrev seed : Bytes
seed = codes "ABCDEFGHIJKLMNOPQRSTUVWXYZ543210"

open_key-key_body_example :
    (bytes : Bytes) × (key_body (codes "1234") raw seed (codes "prod") ≡ ok bytes)
    × (open_key bytes
        ≡ some (record { public_key = raw; private_key = seed ++ raw; comment = codes "prod" }))
open_key-key_body_example =
    open_key-key_body (codes "1234") raw seed (codes "prod") refl refl refl (omega arith)

build_bootstrap_command-tokens_example :
    tokens_of (build_bootstrap_command (codes "ssh-ed25519 A prod"))
    ≡ some (before_key ++ word (codes "ssh-ed25519 A prod") ∷ behind_key)
unfolding is_live
build_bootstrap_command-tokens_example =
    build_bootstrap_command-tokens (codes "ssh-ed25519 A prod") (ground arith)

build_bootstrap_command-runs_example :
    tokens_of (build_bootstrap_command (codes "ssh-ed25519 A " ++ closing 105 (codes "d")))
    ≡ some (
        before_key
        ++ word (codes "ssh-ed25519 A ") ∷ op 59 ∷ word (codes "id") ∷ word [] ∷ behind_key)
unfolding is_live is_bare is_operator
build_bootstrap_command-runs_example =
    build_bootstrap_command-runs (codes "ssh-ed25519 A ") (codes "d") 105 (ground arith)
      (ground arith) (ground arith)
