-- ===== src/Ssh.antt =====
-- src/ssh/ssh.service.ts: every remote command goes through this one service. The SSH library is a
-- parameter: how it answers a connection, and how the host answers a command after the commands
-- that the session has run before.
pub mod Session
use servers_manager.Base.{ℕ, Option, List, [], ◌∷◌, ◌++◌, Text, Throws, ok, throw, ◌>>=◌}
use servers_manager.Container.Status.{SshCommandResult}
use servers_manager.Db.{Host}

pub record SshConnectionOptions : Type 0 where
  pub host : Text
  pub port : ℕ
  pub username : Text
  pub private_key : Text

pub record ExecResult : Type 0 where
  pub stdout : Text
  pub stderr : Text
  pub code : Option ℕ

pub record NodeSsh : Type 0 where
  pub connect : SshConnectionOptions → Throws (Unit {0})
  pub exec_command : List Text → Text → Throws ExecResult

-- The options that every caller builds from a host.
abbrev pub connection_of : Host → Text → SshConnectionOptions
connection_of host private_key = record {
  host = host.ip_address;
  port = host.ssh_port;
  username = host.ssh_user;
  private_key = private_key;
}

abbrev to_result : Text → ExecResult → SshCommandResult
to_result command result = record {
  command = command;
  stdout = result.stdout;
  stderr = result.stderr;
  exit_code = result.code;
}

-- The `for` loop over the commands, behind those of the session that have run.
unfoldable pub run_session : NodeSsh → List Text → List Text → Throws (List SshCommandResult)
run_session ssh history [] = ok []
run_session ssh history (command ∷ commands) = do
  result ← ssh.exec_command history command
  results ← run_session ssh (history ++ command ∷ []) commands
  ok (to_result command result ∷ results)

-- A connection that fails, or a command that throws, makes the whole call throw.
unfoldable pub run_commands :
    NodeSsh → SshConnectionOptions → List Text → Throws (List SshCommandResult)
unfolding run_session
run_commands ssh options commands = do connected ← ssh.connect options; run_session ssh [] commands
