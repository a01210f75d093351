-- ===== src/Hosts.antt =====
-- src/hosts/hosts.service.ts: the hosts of an organization.
pub mod Keypair
pub mod Bootstrap
use servers_manager.Base.{
  ℕ, suc, ◌+◌, Bool, true, false, ◌&&◌, Option, none, some, List, [], ◌∷◌, ◌++◌, Text, ◌==◌, find?,
  filter, count, length, Throws, ok, throw, not_found, ◌>>=◌,
}
use servers_manager.Db.{Db, Host, HostProvider, HostStatus, HealthCheckEntityType, HealthCheckLog}
use servers_manager.Db.Query.{newest_first, find_recent}
use servers_manager.Db.Cascade.{remove_host}
use servers_manager.Hosts.Keypair.{GeneratedSshKeypair}

pub record CreateHostDto : Type 0 where
  pub name : Text
  pub provider : HostProvider
  pub ip_address : Text
  pub ssh_port : Option ℕ
  pub ssh_user : Text

abbrev pub default_ssh_port : ℕ
default_ssh_port = 22

abbrev pub port_of : Option ℕ → ℕ
port_of none = default_ssh_port
port_of (some port) = port

-- `generate` is the key generation for a comment; `encrypt` the CryptoService.
unfoldable pub create :
    (generate : Text → Throws GeneratedSshKeypair) (encrypt : Text → Text) (db : Db)
    (now org_id : ℕ) (dto : CreateHostDto)
    → Db × Throws Host
create generate encrypt db now org_id dto = elim (generate dto.name) [
  | throw e ↦ (db, throw e)
  | ok keys ↦
      let host : Host = record {
        id = db.next_id;
        org_id = org_id;
        name = dto.name;
        provider = dto.provider;
        ip_address = dto.ip_address;
        ssh_port = port_of dto.ssh_port;
        ssh_user = dto.ssh_user;
        ssh_key_encrypted = encrypt keys.private_key;
        ssh_public_key = keys.public_key;
        status = HostStatus.pending_setup;
        last_checked_at = none;
        setup_verified_at = none;
        created_at = now;
      } in
      (record db { hosts = db.hosts ++ host ∷ []; next_id = suc db.next_id }, ok host)
]

abbrev pub is_host_of : ℕ → ℕ → Host → Bool
is_host_of org_id id row = row.id == id && row.org_id == org_id

unfoldable pub find_all_for_org : Db → ℕ → List Host
unfolding newest_first
find_all_for_org db org_id =
    newest_first (λ host. host.created_at) (filter (λ host. host.org_id == org_id) db.hosts)

unfoldable pub find_host_for_org_or_throw : Db → ℕ → ℕ → Throws Host
find_host_for_org_or_throw db org_id id = elim (find? (is_host_of org_id id) db.hosts) [
  | none ↦ throw not_found
  | some host ↦ ok host
]

unfoldable pub get_recent_logs : Db → ℕ → List HealthCheckLog
unfolding find_recent
get_recent_logs db host_id = find_recent db (HealthCheckEntityType.host ∷ []) host_id

unfoldable pub remove : Db → ℕ → ℕ → Db × Throws (Unit {0})
unfolding find_host_for_org_or_throw remove_host
remove db org_id id = elim (find_host_for_org_or_throw db org_id id) [
  | throw e ↦ (db, throw e)
  | ok host ↦ (remove_host db host.id, ok tt)
]

-- `queue_add` is the answer of the queue: the id of the job.
unfoldable pub add_job : Db → ℕ → Throws ℕ → Db × Throws ℕ
add_job db id (throw e) = (db, throw e)
add_job db id (ok job_id) =
    (record db { health_check_queue = db.health_check_queue ++ id ∷ [] }, ok job_id)

unfoldable pub enqueue_check : Db → ℕ → ℕ → Throws ℕ → Db × Throws ℕ
unfolding find_host_for_org_or_throw add_job
enqueue_check db org_id id queue_add = elim (find_host_for_org_or_throw db org_id id) [
  | throw e ↦ (db, throw e)
  | ok host ↦ add_job db id queue_add
]

pub record OverviewCounts : Type 0 where
  pub total_hosts : ℕ
  pub healthy : ℕ
  pub degraded : ℕ
  pub unreachable : ℕ
  pub unknown : ℕ
  pub pending_setup : ℕ

abbrev pub no_hosts : OverviewCounts
no_hosts = record {
  total_hosts = 0;
  healthy = 0;
  degraded = 0;
  unreachable = 0;
  unknown = 0;
  pending_setup = 0;
}

-- `byStatus[host.status] += 1`.
unfoldable pub count_host : OverviewCounts → HostStatus → OverviewCounts
count_host by HostStatus.healthy = record by { healthy = by.healthy + 1 }
count_host by HostStatus.degraded = record by { degraded = by.degraded + 1 }
count_host by HostStatus.unreachable = record by { unreachable = by.unreachable + 1 }
count_host by HostStatus.unknown = record by { unknown = by.unknown + 1 }
count_host by HostStatus.pending_setup = record by { pending_setup = by.pending_setup + 1 }

unfoldable pub count_hosts : OverviewCounts → List Host → OverviewCounts
unfolding count_host
count_hosts by [] = by
count_hosts by (host ∷ hosts) = count_hosts (count_host by host.status) hosts

unfoldable pub get_overview : Db → ℕ → OverviewCounts
unfolding count_hosts
get_overview db org_id =
    let hosts = filter (λ host. host.org_id == org_id) db.hosts in
    record (count_hosts no_hosts hosts) { total_hosts = length hosts }
