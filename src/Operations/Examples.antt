-- ===== src/Operations/Examples.antt =====
-- Operations on a cluster of two nodes, both of them with the unit of Buckit.
use bm.Base.{
  ◌≡◌, ◌≤◌, ◌<◌, ◌↔◌, ℕ, zero, suc, arith, refl, true, false, none, some, List, [], ◌∷◌, ◌++◌, Str,
  codes, pos, length, inr, All, ◌=s◌, has_prefix, is_empty, if◌then◌else◌,
}
use bm.Store.{ok, prompt, view}
use bm.Store.Json.{Json, json}
use bm.Store.Assoc.{assoc, lookup}
use bm.Domain.{Node, NodeState, AuthMethod, Cluster, ClusterEngine, SshCreds, SshOverrides}
use bm.Clusters.Examples.{node, cluster}
use bm.Clusters.Repo.{get_cluster, get_tx, decoded}
use bm.Tasks.Types.{OperationState}
use bm.Ssh.Config.{validate_resolved}
use bm.Ssh.Saved.{validate_config, validate_creds, validate_overrides, validate_override}
use bm.Operations.Shell.{sudo_bash, rune_tail, continues}
use bm.Operations.Shell.Quoting.{is_utf8, runs_on, words, sudo_words, sudo_bash-words}
use bm.Operations.Types.{Env, World, RunCtx, load, loaded, resolved_creds, called, server_update}
use bm.Operations.Waits.{exited}
use bm.Operations.Versions.{
  ServerInfo, parse_comparable_version_time, ensure_version_is_newer, ensure_version_reached_target,
  all_comparable, all_reached, newer_than_all,
}
use bm.Operations.Versions.Target.{
  Reached, Outdated, ensure_version_reached_target_iff, ensure_version_is_newer_iff,
}
use bm.Operations.Versions.Waiting.{
  Attempt, info, unavailable, Converged, wait_server_versions_reached, wait_versions, after_answer,
  after_check, wait_server_versions_reached-Converged,
}
use bm.Operations.Rolling.{rolling_restart}
use bm.Operations.Rolling.OneDown.{LeftDown, restart_of, rolling_restart-LeftDown}
use bm.Operations.Scoped.{host_systemctl, target_hosts, pick_hosts, node_by_id}
use bm.Operations.Scoped.Counts.{Reported, host_systemctl-Reported}
use bm.Operations.Upgrade.{Packages, InstallAction, validate_engine_compat, upgrade_preflight}
use bm.Operations.Upgrade.Systemctl.{cluster_upgrade_by_systemctl}
use bm.Operations.Upgrade.OneRestart.{UpgradeEnd, cluster_upgrade_by_systemctl-End}
use bm.Operations.Peers.{pick_config_source_peer}
use bm.Operations.Peers.Best.{BestPeer, pick_config_source_peer-BestPeer}
use bm.Operations.Start.{start_cluster, stop_cluster_by_systemctl}
use bm.Operations.Start.Left.{turns_of}
use bm.Operations.Start.Ends.{Answered, start_and_stop-Answered}
use bm.Operations.Upgrade.AdminUpdate.{
  Binaries, ServerUpdateResult, resolve_binary_update_url, url_of_servers, platform_of,
  cluster_upgrade_by_admin_update,
}
use bm.Operations.Upgrade.AdminUpdate.Ends.{UpdateEnd, cluster_upgrade_by_admin_update-UpdateEnd}
use bm.Operations.Creds.{resolved_creds-valid}

sudo_bash-words_example : words (sudo_bash (codes "ops") (codes "echo 'a b' && rm \"$x\"")) ≡ (
    if codes "ops" =s codes "root"
    then words (codes "echo 'a b' && rm \"$x\"")
    else some (sudo_words (codes "echo 'a b' && rm \"$x\"")))
sudo_bash-words_example =
    sudo_bash-words (codes "ops") (codes "echo 'a b' && rm \"$x\"")
      (unfold is_utf8 runs_on rune_tail continues in refl)

abbrev creds : SshCreds
creds = record {
  auth_method = AuthMethod.password;
  user = codes "ops";
  port = pos 22;
  key_path = [];
  key_passphrase = [];
  password = codes "secret";
  sudo = true;
}

abbrev by_key : SshOverrides
by_key = record {
  auth_method = some AuthMethod.key;
  user = none;
  key_path = some (codes "/root/.ssh/id");
  key_passphrase = none;
  password = none;
  sudo = none;
}

abbrev pair : List Node
pair = node (codes "n1") NodeState.online [] ∷ node (codes "n2") NodeState.online [] ∷ []

abbrev buckit_cluster : Cluster
buckit_cluster = record cluster { engine = ClusterEngine.buckit }

abbrev servers : Str → ServerInfo
servers version = record {
  version = version;
  servers =
      record {
        endpoint = codes "n1:9000";
        state = NodeState.online;
        version = version;
        os = codes "linux";
        arch = codes "amd64";
      }
      ∷ record {
        endpoint = codes "n2:9000";
        state = NodeState.online;
        version = version;
        os = codes "linux";
        arch = codes "amd64";
      }
      ∷ [];
  pools = pos 1;
  raw = pos 0;
  used = pos 0;
  usable = pos 0;
}

abbrev old_version : Str
old_version = codes "2026-05-01T00:00:00Z"

abbrev new_version : Str
new_version = codes "RELEASE.2026-06-01T00-00-00Z"

abbrev attempts : List Attempt
attempts =
    record {
      late = false;
      ctx_error = none;
      answer = unavailable (codes "refused");
      ctx_after = none;
    }
    ∷ record {
      late = false;
      ctx_error = none;
      answer = info (servers new_version);
      ctx_after = none;
    }
    ∷ []

abbrev env : Env
env = record {
  nodes = ok pair;
  admin_creds_error = none;
  admin_client_error = none;
  saved_ssh = some (creds, (codes "n2", by_key) ∷ []);
  reads_in_time = true;
  write = prompt;
  now = 5;
  elapsed = codes "1s";
  ctx_error = λ es. none;
  answer = λ es id cmd. exited 0 (codes "loaded") [];
  host_polls = λ es id. record { late = false; answer = exited 0 [] []; cut = false } ∷ [];
  cluster_polls =
      λ es. record { late = false; ctx_error = none; answer = info (servers new_version) } ∷ [];
  version_attempts = λ es. attempts;
  admin = λ es call. none;
  server_info = λ es. info (servers old_version);
  budget_left = λ es. 100000000000;
}

unfoldable cluster_table : (assoc (Json Cluster)).T
unfolding assoc
cluster_table = (codes "c1", json buckit_cluster) ∷ []

abbrev world : World (assoc (Json Cluster))
world = record {
  progress = record {
    task_id = codes "t1";
    state = OperationState.running;
    current_step = [];
    current = none;
    total = none;
    detail = [];
    failure_note = [];
    host_statuses = [];
    summary = [];
    events = [];
  };
  events = [];
  clusters = some cluster_table;
}

abbrev rc : RunCtx
rc = record {
  cluster = buckit_cluster;
  nodes = pair;
  ssh_creds = creds;
  ssh_overrides = (codes "n2", by_key) ∷ [];
}

loads : load (assoc (Json Cluster)) env (codes "c1") world ≡ inr rc
unfolding load get_cluster get_tx decoded loaded assoc lookup ◌=s◌ view cluster_table
loads = refl

resolved_creds-valid_example : validate_resolved (resolved_creds rc (codes "n2")) ≡ none
resolved_creds-valid_example =
    resolved_creds-valid rc (codes "n2")
      (unfold validate_config validate_creds validate_overrides validate_override in refl)
      (refl, tt)

rolling_restart-LeftDown_example :
    LeftDown (restart_of rc) (rolling_restart (assoc (Json Cluster)) env (codes "c1") world)
rolling_restart-LeftDown_example =
    rolling_restart-LeftDown (assoc (Json Cluster)) env (codes "c1") world rc loads refl

both :
    target_hosts (codes "n2" ∷ codes "n1" ∷ []) rc.nodes
    ≡ inr (node (codes "n2") NodeState.online [] ∷ node (codes "n1") NodeState.online [] ∷ [])
unfolding target_hosts pick_hosts node_by_id ◌=s◌
both = refl

host_systemctl-Reported_example :
    Reported
      (length (node (codes "n2") NodeState.online [] ∷ node (codes "n1") NodeState.online [] ∷ []))
      (host_systemctl
        (assoc (Json Cluster))
        env
        (codes "c1")
        (codes "stop")
        false
        (codes "n2" ∷ codes "n1" ∷ [])
        world)
host_systemctl-Reported_example =
    host_systemctl-Reported (assoc (Json Cluster)) env (codes "c1") (codes "stop") false
      (codes "n2" ∷ codes "n1" ∷ []) world rc
      (node (codes "n2") NodeState.online [] ∷ node (codes "n1") NodeState.online [] ∷ []) loads
      both

abbrev packages : Packages
packages = record {
  manager = λ es id. inr (record {
    kind = codes "rpm";
    download_command = λ url. url;
    verify_checksum_command = λ sha. sha;
    inspect_script = codes "inspect";
    install_command = λ action. codes "install";
  });
  artifact = λ es id. inr (codes "https://x");
  checksum = λ url. inr (codes "00");
  parse_inspect = λ out. inr InstallAction.upgrade;
}

checks_pass :
    upgrade_preflight (assoc (Json Cluster)) env (parse_comparable_version_time new_version) world
    ≡ inr 2
unfolding upgrade_preflight ensure_version_is_newer newer_than_all parse_comparable_version_time
    has_prefix
checks_pass = refl

cluster_upgrade_by_systemctl-End_example :
    UpgradeEnd
      (assoc (Json Cluster))
      env
      packages
      (codes "c1")
      new_version
      (parse_comparable_version_time new_version)
      2
      (cluster_upgrade_by_systemctl
        (assoc (Json Cluster))
        env
        packages
        (codes "c1")
        new_version
        world)
cluster_upgrade_by_systemctl-End_example =
    cluster_upgrade_by_systemctl-End (assoc (Json Cluster)) env packages (codes "c1") new_version
      world rc 2 loads (unfold validate_engine_compat in refl) checks_pass refl

ensure_version_is_newer_iff_example : (ensure_version_is_newer 7 (servers old_version) ≡ none) ↔ (
    is_empty (servers old_version).servers ≡ false × All (Outdated 7) (servers old_version).servers)
ensure_version_is_newer_iff_example = ensure_version_is_newer_iff 7 (servers old_version)

ensure_version_reached_target_iff_example :
    (ensure_version_reached_target 7 2 (servers new_version) ≡ none) ↔ (
      is_empty (servers new_version).servers ≡ false
      × (2 ≤ length (servers new_version).servers)
      × All (Reached 7) (servers new_version).servers)
ensure_version_reached_target_iff_example =
    ensure_version_reached_target_iff 7 2 (servers new_version)

wait_server_versions_reached-Converged_example : Converged 7 2 attempts
unfolding has_prefix
wait_server_versions_reached-Converged_example =
    wait_server_versions_reached-Converged 7 2 attempts (
      unfold wait_server_versions_reached wait_versions after_answer after_check
        ensure_version_reached_target all_comparable all_reached parse_comparable_version_time in
      refl)

pick_config_source_peer-BestPeer_example :
    BestPeer pair
      (node (codes "n1") NodeState.online [])
      (λ _. true)
      (pick_config_source_peer pair (node (codes "n1") NodeState.online []) (λ _. true))
pick_config_source_peer-BestPeer_example =
    pick_config_source_peer-BestPeer pair (node (codes "n1") NodeState.online []) (λ _. true)

-- The second host's turns lie between the first host's.
abbrev schedule : List ℕ
schedule = 0 ∷ 1 ∷ 1 ∷ 0 ∷ []

two_turns_each : (i : ℕ) → i < length rc.nodes → 2 ≤ turns_of i schedule
unfolding turns_of
two_turns_each zero l = omega arith
two_turns_each (suc zero) l = omega arith
two_turns_each (suc (suc i)) l = absurd (omega (arith, l))

start_and_stop-Answered_example :
    Answered
      (length rc.nodes)
      (start_cluster (assoc (Json Cluster)) env (codes "c1") schedule world)
    × Answered
        (length rc.nodes)
        (stop_cluster_by_systemctl (assoc (Json Cluster)) env (codes "c1") schedule world)
start_and_stop-Answered_example =
    start_and_stop-Answered (assoc (Json Cluster)) env (codes "c1") schedule world rc loads
      two_turns_each

abbrev results : List ServerUpdateResult
results =
    record { host = codes "n1"; updated_version = new_version; error = [] }
    ∷ record { host = codes "n2"; updated_version = []; error = codes "no space left" }
    ∷ []

abbrev binaries : Binaries
binaries = record {
  url = λ version os arch. inr (codes "https://b");
  update = λ es url. inr results;
}

url_found :
    resolve_binary_update_url binaries new_version (env.server_info world.events)
    ≡ inr (codes "https://b")
unfolding resolve_binary_update_url url_of_servers platform_of ◌=s◌
url_found = refl

cluster_upgrade_by_admin_update-UpdateEnd_example :
    UpdateEnd
      (assoc (Json Cluster))
      env
      results
      (parse_comparable_version_time new_version)
      2
      (world.events ++ (called (server_update (codes "https://b")) ∷ []))
      (cluster_upgrade_by_admin_update
        (assoc (Json Cluster))
        env
        binaries
        (codes "c1")
        new_version
        world)
cluster_upgrade_by_admin_update-UpdateEnd_example =
    cluster_upgrade_by_admin_update-UpdateEnd (assoc (Json Cluster)) env binaries (codes "c1")
      new_version (codes "https://b") world rc 2 results loads
      (unfold validate_engine_compat in refl) checks_pass url_found refl
