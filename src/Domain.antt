-- ===== src/Domain.antt =====
-- The types of internal/domain that the modelled components read.
use bm.Base.{ℕ, Bool, Option, List, Str, ℤ}

pub data AuthMethod : Type 0 where
  key password agent : AuthMethod
  unsupported : Str → AuthMethod

pub record SshCreds : Type 0 where
  pub auth_method : AuthMethod
  pub user : Str
  pub port : ℤ
  pub key_path : Str
  pub key_passphrase : Str
  pub password : Str
  pub sudo : Bool

pub record SshOverrides : Type 0 where
  pub auth_method : Option AuthMethod
  pub user : Option Str
  pub key_path : Option Str
  pub key_passphrase : Option Str
  pub password : Option Str
  pub sudo : Option Bool

pub data DriveState : Type 0 where
  ready healing failed unknown : DriveState
  other : Str → DriveState

-- Of the source's struct, the fields that the health rollup reads, with the drive's name.
pub record Drive : Type 0 where
  pub mount : Str
  pub device : Str
  pub state : DriveState
  pub is_boot : Bool

pub data NodeState : Type 0 where
  online offline degraded unknown unreachable : NodeState
  other : Str → NodeState

-- Without the hardware facts, which no modelled operation reads.
pub record Node : Type 0 where
  pub id : Str
  pub cluster_id : Str
  pub hostname : Str
  pub ssh_port : ℤ
  pub state : NodeState
  pub drives : List Drive
  pub pool : ℤ

pub record NodeRollup : Type 0 where
  pub online : ℕ
  pub degraded : ℕ
  pub offline : ℕ
  pub total : ℕ

pub record DriveRollup : Type 0 where
  pub ready : ℕ
  pub healing : ℕ
  pub failed : ℕ
  pub total : ℕ

pub record HealthSummary : Type 0 where
  pub nodes : NodeRollup
  pub drives : DriveRollup

pub data HealthState : Type 0 where
  healthy degraded critical unknown : HealthState

pub data ClusterEngine : Type 0 where
  buckit minio : ClusterEngine

pub record MigratedFrom : Type 0 where
  pub product : Str
  pub version : Str
  pub finalized_at : ℕ

-- Times are nanoseconds; a time that was never set is `none` where the source has a nil pointer.
pub record Cluster : Type 0 where
  pub id : Str
  pub name : Str
  pub description : Str
  pub engine : ClusterEngine
  pub version : Str
  pub health : HealthState
  pub health_summary : Option HealthSummary
  pub node_count : ℤ
  pub pool_count : ℤ
  pub drive_count : ℤ
  pub parity : ℤ
  pub usable_bytes : ℤ
  pub raw_bytes : ℤ
  pub used_bytes : ℤ
  pub last_fetched_at : Option ℕ
  pub unreachable_since : Option ℕ
  pub ssh_configured : Bool
  pub api_frozen : Bool
  pub last_activity_at : ℕ
  pub created_at : ℕ
  pub migrated_from : Option MigratedFrom
  pub console_url : Str
  pub console_port : ℤ

pub data HostProbeState : Type 0 where
  idle probing reachable auth_failed timeout : HostProbeState

pub record HostRow : Type 0 where
  pub id : Str
  pub hostname : Str
  pub port : ℤ
  pub probe : HostProbeState
  pub ssh_override : Option SshOverrides

pub record Topology : Type 0 where
  pub set_size : ℤ
  pub parity : ℤ
  pub data_volume_mode : Str
  pub selected_mounts : List Str
  pub custom_data_volume_paths : Str

pub record Credentials : Type 0 where
  pub root_user : Str
  pub root_password : Str

pub data TlsMode : Type 0 where
  off byo : TlsMode

pub record TlsConfig : Type 0 where
  pub mode : TlsMode
  pub cert_pem : Str
  pub key_pem : Str
  pub ca_bundle_pem : Str

pub record ApiPorts : Type 0 where
  pub port : ℤ
  pub console_port : ℤ

-- The wizard's draft. `Discovery` is the type of what the Discover step found of the hosts; the
-- check of a custom URL is the user interface's alone and is left out.
pub record NewClusterDraft (Discovery : Type 0) : Type 0 where
  pub name : Str
  pub description : Str
  pub version : Str
  pub custom_url : Str
  pub credentials : Credentials
  pub api : ApiPorts
  pub region : Str
  pub server_url : Str
  pub hosts : List HostRow
  pub ssh : SshCreds
  pub tls : TlsConfig
  pub discovery : Discovery
  pub topology : Topology
  pub persist_ssh : Bool
