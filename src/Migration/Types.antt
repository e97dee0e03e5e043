-- ===== src/Migration/Types.antt =====
-- internal/migration/cutover_params.go: the parameters of a cutover and the stages of a host.
use bm.Base.{
  ℕ, ◌+◌, ◌*◌, ◌/◌, ◌%◌, zero, suc, Bool, Option, none, some, List, [], ◌∷◌, ◌++◌, Str, codes,
  is_empty, ltb, if◌then◌else◌, ℤ, pos, negsuc, ◌-◌, ◌&&◌,
}
use Prim.Native.Nat.{◌^◌}
use bm.Domain.{HostRow, SshCreds, ApiPorts, NodeState}
use bm.Tasks.Types.{HostOpState}
use bm.Deploy.Params.{named_hosts}

pub data Stage : Type 0 where
  pending stopping_minio downloading_pkg installing switching_unit waiting_health waiting_cluster :
      Stage
  done rolled_back failed : Stage

abbrev pub stage_text : Stage → Str
stage_text pending = codes "pending"
stage_text stopping_minio = codes "stopping_minio"
stage_text downloading_pkg = codes "downloading_pkg"
stage_text installing = codes "installing"
stage_text switching_unit = codes "switching_unit"
stage_text waiting_health = codes "waiting_health"
stage_text waiting_cluster = codes "waiting_cluster"
stage_text done = codes "done"
stage_text rolled_back = codes "rolled_back"
stage_text failed = codes "failed"

unfoldable pub stage_to_host_state : Stage → HostOpState
stage_to_host_state pending = HostOpState.pending
stage_to_host_state done = HostOpState.succeeded
stage_to_host_state failed = HostOpState.failed
stage_to_host_state _ = HostOpState.running

pub record StepEvent : Type 0 where
  pub host_id : Str
  pub hostname : Str
  pub stage : Stage
  pub detail : Str

-- Of a server in a ServerInfo answer, what the migration reads.
pub record Server : Type 0 where
  pub endpoint : Str
  pub state : NodeState

pub record CutoverParams : Type 0 where
  pub source_cluster_id : Str
  pub name : Str
  pub description : Str
  pub target_version : Str
  pub api : ApiPorts
  pub region : Str
  pub server_url : Str
  pub hosts : List HostRow
  pub ssh : SshCreds
  pub snapshot_path : Str
  pub healthy_timeout : ℕ
  pub cluster_healthy_timeout : ℕ

pub record MigrationBody : Type 0 where
  pub source_cluster_id : Str
  pub name : Str
  pub description : Str
  pub target_version : Str
  pub api : ApiPorts
  pub region : Str
  pub server_url : Str
  pub hosts : List HostRow
  pub ssh : SshCreds
  pub snapshot_path : Str
  pub healthy_timeout_sec : ℤ
  pub cluster_healthy_timeout_sec : ℤ
  pub persist_ssh : Bool

-- The bits of `time.Duration(z) * time.Second`, a product of 64 bits.
abbrev nanoseconds : ℤ → ℕ
nanoseconds (pos n) = n * 1000000000 % 2 ^ 64
nanoseconds (negsuc n) = (2 ^ 64 - suc n * 1000000000 % 2 ^ 64) % 2 ^ 64

-- That duration where it is positive, or else a default number of seconds, in nanoseconds.
abbrev seconds_or : ℤ → ℕ → ℕ
seconds_or z fallback =
    let d = nanoseconds z in if ltb 0 d && ltb d (2 ^ 63) then d else fallback * 1000000000

unfoldable pub from_migration_body : MigrationBody → CutoverParams
unfolding named_hosts
from_migration_body b = record {
  source_cluster_id = b.source_cluster_id;
  name = b.name;
  description = b.description;
  target_version = b.target_version;
  api = b.api;
  region = b.region;
  server_url = b.server_url;
  hosts = named_hosts b.hosts;
  ssh = b.ssh;
  snapshot_path = b.snapshot_path;
  healthy_timeout = seconds_or b.healthy_timeout_sec 90;
  cluster_healthy_timeout = seconds_or b.cluster_healthy_timeout_sec 120;
}

-- `Validate`. Which release tags are known is an argument.
unfoldable pub validate : (Str → Bool) → CutoverParams → Option Str
validate known p =
    if is_empty p.source_cluster_id
    then some (codes "cutover: sourceClusterId required")
    else if is_empty p.target_version
    then some (codes "cutover: targetVersion required")
    else if known p.target_version
    then (if is_empty p.hosts
        then some (codes "cutover: at least one host required")
        else if is_empty p.ssh.user
        then some (codes "cutover: ssh user required")
        else if is_empty p.snapshot_path
        then some (codes "cutover: snapshotPath required (run /migrate/snapshot first)")
        else none)
    else some (codes "cutover: unsupported targetVersion " ++ p.target_version)

digits : ℕ → ℕ → Str → Str
digits zero n text = text
digits (suc fuel) n text =
    let shown = (48 + n % 10) ∷ text in
    let more = digits fuel (n / 10) shown in if ltb n 10 then shown else more

-- strconv.Itoa
unfoldable pub itoa : ℕ → Str
unfolding digits
itoa n = digits (suc n) n []
