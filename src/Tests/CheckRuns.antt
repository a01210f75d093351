-- ===== src/Tests/CheckRuns.antt =====
-- Checks of the sample host and its one container, the report of an idle host, and a sealed text.
use servers_manager.Base.{
  All, text_eq, split_on, trim, ◌≡◌, refl, true, false, some, [], ◌∷◌, codes, count, ok, inl,
}
use servers_manager.DockerPs.{DockerPsContainer, value, parse_docker_ps_output}
use servers_manager.Container.Status.{SshCommandResult, is_docker_missing}
use servers_manager.Container.Inspect.{malformed}
use servers_manager.Db.{InsightFlag, InsightState, Db}
use servers_manager.ServicesSync.{SyncPorts, is_missing, sync}
use servers_manager.ServicesSync.Missing.{sync_settles}
use servers_manager.ServicesSync.Upsert.{IsUpserted, upsert_service-find}
use servers_manager.HealthCheck.{CheckPorts}
use servers_manager.Insights.{active_states, evaluate_flag_transitions, idle_candidate}
use servers_manager.Insights.Silent.{is_about, evaluate_flag_transitions-about}
use servers_manager.Crypto.{NodeCrypto, Bytes, encrypt, decrypt}
use servers_manager.Crypto.Sealed.{decrypt-encrypt}
use servers_manager.Tests.Samples.{alert_ports, ssh, raw_web, host, db}

abbrev sync_ports : SyncPorts
sync_ports = record {
  alerts = alert_ports;
  encrypt = λ iv text. text;
  stringify_config = λ c. c.container_name;
  parse_ps_line = λ line. value raw_web;
  parse_inspect = λ text. malformed;
  to_lower = λ text. text;
  ssh = ssh;
  iv = [];
}

abbrev listing : SshCommandResult
listing = record {
  command = codes "docker ps";
  exit_code = some 0;
  stdout = codes "{}";
  stderr = [];
}

abbrev web : DockerPsContainer
web = record {
  id = codes "c9";
  names = codes "web";
  image = codes "app:1";
  status = codes "Up 3 seconds";
  ports = [];
}

sync_settles_example :
    All
      (λ row. is_missing sync_ports 60 host (codes "c9" ∷ []) row ≡ false)
      (sync sync_ports 60 db host listing).0.services
unfolding text_eq split_on trim
sync_settles_example =
    sync_settles sync_ports 60 db host listing (record { containers = web ∷ []; skipped_lines = 0 })
      (unfold is_docker_missing in refl) (unfold parse_docker_ps_output in refl)

upsert_service-find_example : IsUpserted sync_ports 60 db host web
upsert_service-find_example = upsert_service-find sync_ports 60 db host web

abbrev check_ports : CheckPorts
check_ports = record { sync = sync_ports; is_auth_failure = λ e. true }

abbrev idle_before : InsightState
idle_before = record {
  id = 46;
  entity_id = 10;
  flag = InsightFlag.idle_host;
  active = true;
  updated_at = 0;
}

abbrev db_idle : Db
db_idle = record db { insight_states = idle_before ∷ [] }

evaluate_flag_transitions-about_example :
    count
      (is_about 10)
      (evaluate_flag_transitions alert_ports 60 InsightFlag.idle_host db_idle
        (idle_candidate host ∷ [])).alert_logs
    ≡ 0
unfolding active_states
evaluate_flag_transitions-about_example =
    evaluate_flag_transitions-about alert_ports 60 InsightFlag.idle_host db_idle
      (idle_candidate host ∷ []) 10 (inl refl)

abbrev pub node : NodeCrypto
node = record {
  utf8 = λ text. text;
  from_utf8 = λ bytes. bytes;
  base64 = λ bytes. bytes;
  from_base64 = λ text. text;
  cipher = λ key iv bytes. record {
    body = bytes;
    auth_tag = 1 ∷ 2 ∷ 3 ∷ 4 ∷ 5 ∷ 6 ∷ 7 ∷ 8 ∷ 9 ∷ 10 ∷ 11 ∷ 12 ∷ 13 ∷ 14 ∷ 15 ∷ 16 ∷ [];
  };
  decipher = λ key iv tag bytes. ok bytes;
}

abbrev pub vector : Bytes
vector = 1 ∷ 2 ∷ 3 ∷ 4 ∷ 5 ∷ 6 ∷ 7 ∷ 8 ∷ 9 ∷ 10 ∷ 11 ∷ 12 ∷ []

decrypt-encrypt_example :
    decrypt node (7 ∷ []) (encrypt node (7 ∷ []) vector (codes "secret")) ≡ ok (codes "secret")
decrypt-encrypt_example =
    decrypt-encrypt node (7 ∷ []) vector (codes "secret") refl refl refl (λ bytes. refl)
      (λ bytes. refl)
