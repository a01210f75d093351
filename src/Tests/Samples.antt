-- ===== src/Tests/Samples.antt =====
-- A small installation: one organization (1), one host (10), one service (20) with two snapshots
-- (30, 31, the second current), and a platform whose cipher and JSON are the identity.
use servers_manager.Base.{ℕ, Bool, true, false, none, some, [], ◌∷◌, Text, codes, ok, throw, error}
use servers_manager.DockerRun.{DeploymentConfigBlob}
use servers_manager.DockerPs.{RawDockerPsJson, value}
use servers_manager.Container.Status.{ServiceStatus}
use servers_manager.Db.{
  Db, Host, HostProvider, HostStatus, Service, DeploymentSnapshot, AlertRule, AlertChannel,
  AlertEntityType,
}
use servers_manager.Ssh.{NodeSsh}
use servers_manager.Alerts.Channels.{response, webhook}
use servers_manager.Alerts.{AlertPorts}
use servers_manager.Rollback.Processor.{RollbackPorts}

abbrev pub config : DeploymentConfigBlob
config = record {
  container_name = codes "web";
  env = codes "MSG=it's" ∷ [];
  port_bindings = codes "8080:80/tcp" ∷ [];
  restart_policy = codes "always";
}

abbrev pub raw_web : RawDockerPsJson
raw_web = record {
  id = some (codes "c9");
  names = some (codes "web");
  image = some (codes "app:1");
  status = some (codes "Up 3 seconds");
  ports = none;
}

abbrev pub ssh : NodeSsh
ssh = record {
  connect = λ options. ok tt;
  exec_command = λ history command. ok (record { stdout = codes "{}"; stderr = []; code = some 0 });
}

abbrev pub alert_ports : AlertPorts
alert_ports = record {
  decrypt = λ text. ok text;
  json_parse = λ text. ok (webhook text);
  message_of = λ e. codes "failed";
  show_id = λ id. codes "id";
  channels = record { post = λ url message. response true (codes "200") (codes "ok") };
}

abbrev pub ports : RollbackPorts
ports = record {
  alerts = alert_ports;
  encrypt = λ iv text. text;
  stringify_config = λ c. c.container_name;
  parse_config = λ text. ok config;
  parse_ps_line = λ line. value raw_web;
  ssh = ssh;
  iv = [];
}

-- The same platform, where the stored configurations cannot be read.
abbrev pub broken_ports : RollbackPorts
broken_ports = record ports { parse_config = λ text. throw (error (codes "bad JSON")) }

abbrev pub host : Host
host = record {
  id = 10;
  org_id = 1;
  name = codes "prod";
  provider = HostProvider.azure;
  ip_address = codes "203.0.113.10";
  ssh_port = 22;
  ssh_user = codes "ubuntu";
  ssh_key_encrypted = codes "key";
  ssh_public_key = codes "pub";
  status = HostStatus.healthy;
  last_checked_at = none;
  setup_verified_at = none;
  created_at = 0;
}

abbrev pub service : Service
service = record {
  id = 20;
  org_id = 1;
  host_id = 10;
  container_id = codes "c1";
  container_name = codes "web";
  image = codes "app";
  current_tag = some (codes "2");
  status = ServiceStatus.running;
  port_mappings = none;
  last_checked_at = 5;
  created_at = 0;
}

abbrev pub snapshot : ℕ → Text → Bool → DeploymentSnapshot
snapshot id image_tag is_current = record {
  id = id;
  service_id = 20;
  image_tag = image_tag;
  config_blob = codes "blob";
  deployed_at = 0;
  deployed_by_id = none;
  is_current = is_current;
  created_at = 0;
}

abbrev pub rule : AlertRule
rule = record {
  id = 40;
  org_id = 1;
  name = codes "rollbacks";
  entity_type = AlertEntityType.rollback_event;
  condition = codes "rollback_event:failed";
  channel = AlertChannel.slack;
  channel_config_encrypted = codes "https://hooks";
  cooldown_minutes = 30;
  enabled = true;
  created_at = 0;
}

abbrev pub db : Db
db = record {
  hosts = host ∷ [];
  services = service ∷ [];
  snapshots = snapshot 30 (codes "app:1") false ∷ snapshot 31 (codes "app:2") true ∷ [];
  rollback_events = [];
  alert_rules = rule ∷ [];
  alert_logs = [];
  health_check_logs = [];
  domains = [];
  ssl_certificates = [];
  insight_states = [];
  organizations = [];
  users = [];
  cloud_accounts = [];
  health_check_queue = [];
  domain_check_queue = [];
  rollback_queue = [];
  next_id = 50;
}
