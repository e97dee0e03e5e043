-- ===== src/Operations/Types.antt =====
-- The state of an executor of internal/operations, what it loads, and how it runs a command on a host
-- (helpers.go, and seedHostStatuses and setHostState of orchestrated.go).
use bm.Base.{
  ℕ, Bool, false, Option, none, some, List, [], ◌∷◌, ◌++◌, Str, codes, is_empty, ◌==◌,
  if◌then◌else◌, pos, ◌⊎◌, inl, inr,
}
use bm.Store.{Error, Result, ok, err, Outcome}
use bm.Store.Json.{Json}
use bm.Store.Bucket.{Bucket}
use bm.Store.Assoc.{lookup}
use bm.Domain.{Cluster, Node, AuthMethod, SshCreds, SshOverrides}
use bm.Ssh.Config.{Resolved, merge}
use bm.Clusters.Repo.{ClusterDb, get_cluster}
use bm.Tasks.Types.{OperationProgress}
use bm.Deploy.Params.{trim_space}
use bm.Migration.Types.{itoa}
use bm.Operations.Versions.{VersionError}
use bm.Operations.Waits.{SshAnswer, dial_failed, run_failed, exited, HostPoll, ClusterPoll}
use bm.Operations.Versions.Waiting.{Fetched, Attempt, WaitError}

-- A request to the admin API.
pub data AdminCall : Type 0 where
  service_restart service_stop service_freeze service_unfreeze : AdminCall
  server_update : Str → AdminCall

-- What an executor does to the world, in order: a command on a host, by the node's id, a wait for
-- a host or for the whole cluster with how it ended, and a call of the admin API.
pub data Event : Type 0 where
  ran : Str → Str → Event
  waited_host waited_ssh : Str → Bool → Event
  waited_cluster : Bool → Event
  called : AdminCall → Event

pub data StepResult : Type 0 where
  output step_failed : Str → StepResult

-- `runHostStep`, on the answer of the host.
unfoldable pub run_host_step : Str → SshAnswer → StepResult
unfolding trim_space itoa
run_host_step hostname (dial_failed e) =
    step_failed (codes "ssh dial " ++ hostname ++ codes ": " ++ e)
run_host_step hostname (run_failed e) = step_failed e
run_host_step hostname (exited code out stderr) =
    let msg = trim_space stderr in
    if code == 0
    then output out
    else step_failed
        (hostname ++ codes ": " ++ (if is_empty msg then codes "exit " ++ itoa code else msg))

pub data Failure : Type 0 where
  load_cluster_failed : Error → Failure
  load_nodes_failed : Error → Failure
  load_admin_creds_failed admin_client_failed interrupted : Str → Failure
  unknown_target : Str → Failure
  no_targets no_units engine_mismatch no_time_left : Failure
  units_missing : List Str → Failure
  host_failed : Str → Str → Failure
  -- How many of how many, and the error of the first, where it is kept.
  hosts_failed : ℕ → ℕ → Option Str → Failure
  admin_failed not_healthy : Str → Failure
  server_info_failed not_resolved : Str → Failure
  version_refused : VersionError → Failure
  not_converged : WaitError → Failure
  update_failed : List Str → Failure

pub record RunCtx : Type 0 where
  pub cluster : Cluster
  pub nodes : List Node
  pub ssh_creds : SshCreds
  pub ssh_overrides : List (Str × SshOverrides)

unfoldable pub resolved_creds : RunCtx → Str → Resolved
unfolding merge lookup
resolved_creds rc id = merge rc.ssh_creds (lookup id rc.ssh_overrides)

-- Without saved credentials the source keeps Go's zero values.
unfoldable pub zero_creds : SshCreds
zero_creds = record {
  auth_method = AuthMethod.unsupported [];
  user = [];
  port = pos 0;
  key_path = [];
  key_passphrase = [];
  password = [];
  sudo = false;
}

-- What an executor meets. The answers of hosts and of the admin API depend on what was done so far.
pub record Env : Type 0 where
  pub nodes : Result (List Node)
  pub admin_creds_error : Option Str
  pub admin_client_error : Option Str
  pub saved_ssh : Option (SshCreds × List (Str × SshOverrides))
  pub reads_in_time : Bool
  pub write : Outcome
  pub now : ℕ
  -- How long the operation took, in the source's words.
  pub elapsed : Str
  pub ctx_error : List Event → Option Str
  pub answer : List Event → Str → Str → SshAnswer
  pub host_polls : List Event → Str → List HostPoll
  pub cluster_polls : List Event → List ClusterPoll
  pub version_attempts : List Event → List Attempt
  pub admin : List Event → AdminCall → Option Str
  pub server_info : List Event → Fetched
  -- What is left of the time after a restart, in nanoseconds.
  pub budget_left : List Event → ℕ

module _ (b : Bucket (Json Cluster)) where
  -- The progress of the task, what was done so far, and the bucket of the clusters.
  pub record World : Type 0 where
    pub progress : OperationProgress
    pub events : List Event
    pub clusters : ClusterDb b

  abbrev pub mutate : (OperationProgress → OperationProgress) → World → World
  mutate f w = record w { progress = f w.progress }

  abbrev pub note : Event → World → World
  note e w = record w { events = w.events ++ (e ∷ []) }

  unfoldable pub loaded : Env → Cluster → List Node → Option Str → Option Str → Failure ⊎ RunCtx
  unfolding zero_creds
  loaded env c nodes (some e) client = inl (load_admin_creds_failed e)
  loaded env c nodes none (some e) = inl (admin_client_failed e)
  loaded env c nodes none none = inr (record {
    cluster = c;
    nodes = nodes;
    ssh_creds = elim env.saved_ssh [ none ↦ zero_creds | some (c, _) ↦ c ];
    ssh_overrides = elim env.saved_ssh [ none ↦ [] | some (_, o) ↦ o ];
  })

  -- `load`, with every repository in place.
  unfoldable pub load : Env → Str → World → Failure ⊎ RunCtx
  unfolding loaded get_cluster
  load env id w = elim (get_cluster b id env.reads_in_time w.clusters) [
    | err e ↦ inl (load_cluster_failed e)
    | ok c ↦ elim env.nodes [
      | err e ↦ inl (load_nodes_failed e)
      | ok nodes ↦ loaded env c nodes env.admin_creds_error env.admin_client_error
    ]
  ]

  unfoldable pub run_step : Env → Node → Str → World → World × StepResult
  unfolding run_host_step
  run_step env n cmd w =
      (note (ran n.id cmd) w, run_host_step n.hostname (env.answer w.events n.id cmd))
