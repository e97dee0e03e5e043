-- ===== src/Migration/Examples.antt =====
-- The cutover of a cluster of two hosts, one of them offline, and its rollback.
use bm.Base.{
  ◌+◌, ◌≡◌, refl, ap, true, false, none, some, List, [], ◌∷◌, Str, codes, pos, length, All, ◌=s◌,
}
use bm.Store.{prompt, update}
use bm.Store.Json.{Json, json}
use bm.Store.Assoc.{assoc, lookup}
use bm.Domain.{HostRow, HostProbeState, NodeState, AuthMethod, Cluster, ClusterEngine, HealthState}
use bm.Clusters.Repo.{get_cluster, put_cluster}
use bm.Tasks.Types.{OperationState}
use bm.Deploy.Params.{named_hosts, trim_space, trim_left}
use bm.Migration.Types.{Server, MigrationBody, from_migration_body, validate, itoa}
use bm.Migration.Hosts.{
  is_up, online_hosts, partition_hosts, parted, Poll, all_up, wait_online, mem_str,
  hostname_from_minio_endpoint,
}
use bm.Migration.Online.{is_attempted, Placed, partition_hosts_lem}
use bm.Migration.Cutover.Defs.{
  World, execute, decoded_body, run_phases, commit_engine_flip, fan_out,
}
use bm.Migration.Cutover.Env.{Env, migrated, verify_outcome}
use bm.Migration.Cutover.Course.{chosen_for, Followed, execute-Followed}
use bm.Migration.Cutover.Flip.{Flipped, execute-Flipped}
use bm.Migration.Rollback.Revert.{Reverted, rollback-Reverted}
use bm.Migration.Rollback.Defs.{
  probed, probe_hosts, decoded_rollback, with_targets, after_stop, after_start,
  commit_engine_revert, after_revert, RollbackEnv, rollback,
}

abbrev host : Str → HostRow
host name = record {
  id = name;
  hostname = name;
  port = pos 22;
  probe = HostProbeState.reachable;
  ssh_override = none;
}

abbrev hosts : List HostRow
hosts = host (codes "N1") ∷ host (codes "n2") ∷ []

abbrev servers : List Server
servers =
    record { endpoint = codes "http://n1:9000"; state = NodeState.online }
    ∷ record { endpoint = codes "n2:9000"; state = NodeState.offline }
    ∷ []

parted_servers :
    partition_hosts (some servers) hosts ≡ parted (host (codes "N1") ∷ []) (codes "n2" ∷ [])
unfolding partition_hosts online_hosts is_up mem_str hostname_from_minio_endpoint ◌=s◌
parted_servers = refl

partition_hosts_lem_example :
    All (λ h. is_attempted (some servers) h ≡ true) (host (codes "N1") ∷ [])
    × All (Placed (some servers) (host (codes "N1") ∷ []) (codes "n2" ∷ [])) hosts
    × (length (host (codes "N1") ∷ []) + length (codes "n2" ∷ []) ≡ length hosts)
partition_hosts_lem_example =
    partition_hosts_lem (some servers) hosts (host (codes "N1") ∷ []) (codes "n2" ∷ [])
      parted_servers

abbrev no_answer : Poll
no_answer = record { ctx_error = none; servers = none; interrupted = none }

abbrev one_up : Poll
one_up = record no_answer { servers = some servers }

abbrev polls : List Poll
polls = no_answer ∷ one_up ∷ []

abbrev body : MigrationBody
body = record {
  source_cluster_id = codes "c1";
  name = [];
  description = [];
  target_version = codes "v2";
  api = record { port = pos 9000; console_port = pos 9001 };
  region = [];
  server_url = [];
  hosts = hosts;
  ssh = record {
    auth_method = AuthMethod.agent;
    user = codes "root";
    port = pos 22;
    key_path = [];
    key_passphrase = [];
    password = [];
    sudo = false;
  };
  snapshot_path = codes "/snap";
  healthy_timeout_sec = pos 0;
  cluster_healthy_timeout_sec = pos 0;
  persist_ssh = true;
}

abbrev env : Env
env = record {
  body = some body;
  known_version = λ _. true;
  creds_error = none;
  servers = some servers;
  run_phase = λ phase attempted. record { events = []; error = none };
  verify_error = none;
  polls = polls;
  late = codes "late";
  reads_in_time = true;
  write = prompt;
  now = 50;
  snapshot_version = none;
  verified = record {
    buckets_ok = 3;
    buckets_total = 3;
    nodes_ok = 1;
    nodes_total = 2;
    smoke_ok = true;
    failure_note = [];
  };
}

abbrev minio_cluster : Cluster
minio_cluster = record {
  id = codes "c1";
  name = codes "one";
  description = [];
  engine = ClusterEngine.minio;
  version = codes "v1";
  health = HealthState.unknown;
  health_summary = none;
  node_count = pos 2;
  pool_count = pos 1;
  drive_count = pos 4;
  parity = pos 1;
  usable_bytes = pos 0;
  raw_bytes = pos 0;
  used_bytes = pos 0;
  last_fetched_at = none;
  unreachable_since = none;
  ssh_configured = true;
  api_frozen = false;
  last_activity_at = 0;
  created_at = 0;
  migrated_from = none;
  console_url = [];
  console_port = pos 0;
}

abbrev stored_clusters : List (Str × Json Cluster)
stored_clusters = (codes "c1", json minio_cluster) ∷ []

unfoldable cluster_table : (assoc (Json Cluster)).T
unfolding assoc
cluster_table = stored_clusters

abbrev world : World (assoc (Json Cluster))
world = record {
  progress = record {
    task_id = codes "t1";
    state = OperationState.running;
    current_step = [];
    current = none;
    total = none;
    detail = [];
    failure_note = [];
    host_statuses = [];
    summary = [];
    events = [];
  };
  calls = [];
  clusters = some cluster_table;
}

execute-Followed_example :
    Followed
      (assoc (Json Cluster))
      env
      (chosen_for env env.body)
      world
      (execute (assoc (Json Cluster)) env world)
execute-Followed_example = execute-Followed (assoc (Json Cluster)) env world

succeeds : (execute (assoc (Json Cluster)) env world).1 ≡ none
unfolding execute decoded_body from_migration_body named_hosts trim_space trim_left run_phases
    commit_engine_flip fan_out migrated verify_outcome validate itoa partition_hosts online_hosts
    is_up mem_str hostname_from_minio_endpoint ◌=s◌ wait_online all_up get_cluster put_cluster
    update assoc lookup cluster_table
succeeds = refl

-- A pair with a second part that is known.
done_with : {A B : Type 0} {o : B} (x : A × B) → x.1 ≡ o → x ≡ (x.0, o)
done_with x e = ap (λ o. (x.0, o)) e

execute-Flipped_example :
    Flipped
      (assoc (Json Cluster))
      env
      (from_migration_body body)
      world
      (execute (assoc (Json Cluster)) env world).0
execute-Flipped_example =
    execute-Flipped (assoc (Json Cluster)) env body world
      (execute (assoc (Json Cluster)) env world).0 refl
      (done_with (execute (assoc (Json Cluster)) env world) succeeds)

abbrev rollback_env : RollbackEnv
rollback_env = record {
  body = some body;
  ctx_error = λ _. none;
  active = λ _. some true;
  run_phase = λ phase targets. record { events = []; error = none };
  reads_in_time = true;
  write = prompt;
  now = 60;
}

two_targets :
    probe_hosts rollback_env (from_migration_body body).hosts
    ≡ probed (host (codes "N1") ∷ host (codes "n2") ∷ []) 0
unfolding probe_hosts from_migration_body named_hosts trim_space trim_left
two_targets = refl

reverts : (rollback (assoc (Json Cluster)) rollback_env world).1 ≡ none
unfolding rollback decoded_rollback from_migration_body named_hosts trim_space trim_left probe_hosts
    with_targets after_stop fan_out after_start commit_engine_revert after_revert get_cluster
    put_cluster update assoc lookup cluster_table ◌=s◌
reverts = refl

rollback-Reverted_example :
    Reverted
      (assoc (Json Cluster))
      rollback_env
      (from_migration_body body)
      world
      (rollback (assoc (Json Cluster)) rollback_env world).0
rollback-Reverted_example =
    rollback-Reverted (assoc (Json Cluster)) rollback_env body (host (codes "N1"))
      (host (codes "n2") ∷ []) 0 world (rollback (assoc (Json Cluster)) rollback_env world).0 refl
      two_targets (done_with (rollback (assoc (Json Cluster)) rollback_env world) reverts)
