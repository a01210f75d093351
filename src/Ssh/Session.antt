-- ===== src/Ssh/Session.antt =====
-- What `runCommands` of src/ssh/ssh.service.ts answers.
use servers_manager.Base.{◌≡◌, List, [], ◌∷◌, ◌++◌, map, Text, ok, returned, arith}
use servers_manager.Container.Status.{SshCommandResult}
use servers_manager.Ssh.{SshConnectionOptions, NodeSsh, run_session, run_commands}

run_session-commands :
    (ssh : NodeSsh) (history commands : List Text) (results : List SshCommandResult)
    → run_session ssh history commands ≡ ok results
    → map (λ r. r.command) results ≡ commands
unfolding run_session
run_session-commands ssh history [] results h =
    let none_left : [] ≡ results = ground arith in rw (← none_left)
run_session-commands ssh history (command ∷ commands) results h =
    let (result, ran, later) = returned (ssh.exec_command history command) _ h in
    let (rest, rest_ran, whole) =
      returned (run_session ssh (history ++ command ∷ []) commands) _ later in
    let tail = run_session-commands ssh (history ++ command ∷ []) commands rest rest_ran in
    ground arith

-- A session that answers answers every command, once and in the order of the commands; otherwise
-- the call throws.
pub run_commands-commands :
    (ssh : NodeSsh) (options : SshConnectionOptions) (commands : List Text)
    (results : List SshCommandResult)
    → run_commands ssh options commands ≡ ok results
    → map (λ r. r.command) results ≡ commands
unfolding run_commands
run_commands-commands ssh options commands results h =
    let (connected, e, ran) = returned (ssh.connect options) _ h in
    run_session-commands ssh [] commands results ran
