-- ===== src/Operations/Upgrade.antt =====
-- The checks before and after an upgrade that both of its executors in
-- internal/operations/orchestrated.go share, and the upgrade over systemctl. Log lines are left out.
-- The package managers of internal/deploy are an argument; what their detection and the look for an
-- artifact ask a host is no event.
pub mod Systemctl
pub mod OneRestart
pub mod AdminUpdate
use bm.Base.{
  ℕ, ◌+◌, ◌*◌, ◌/◌, Bool, true, false, Option, none, some, List, [], ◌∷◌, ◌++◌, ◌⊎◌, inl, inr, Str,
  codes, is_empty, ◌=s◌, ◌==◌, ◌||◌, ltb, length, if◌then◌else◌,
}
use bm.Store.Json.{Json}
use bm.Store.Bucket.{Bucket}
use bm.Domain.{Cluster, ClusterEngine, Node}
use bm.Tasks.Types.{HostOpState}
use bm.Migration.Types.{itoa}
use bm.Operations.Shell.{
  load_state_probe_command, parse_load_state_loaded, sudo_bash, sudo_systemctl,
}
use bm.Operations.Types.{
  Event, AdminCall, service_restart, StepResult, output, step_failed, Failure, engine_mismatch,
  no_units, no_time_left, admin_failed, not_healthy, server_info_failed, version_refused,
  not_converged, Env, World, mutate, run_step, load, RunCtx,
}
use bm.Operations.Versions.{
  ServerInfo, VersionError, parse_comparable_version_time, ensure_version_is_newer,
}
use bm.Operations.Versions.Waiting.{
  Fetched, unavailable, info, WaitError, wait_server_versions_reached,
}
use bm.Operations.Progress.{seed_host_statuses, item, concluded}
use bm.Operations.Hosts.{
  HostEnd, passed, skipped, Tally, no_tally, each_host, marked, breaks, wait_cluster, call_admin,
  refresh_cluster_row,
}

-- `minimumVersionConvergenceBudget`
unfoldable pub minimum_version_convergence_budget : ℕ → ℕ
minimum_version_convergence_budget budget =
    if ltb (budget / 10) 5000000000 then budget / 10 else 5000000000

-- `validateEngineCompat` for an operation that only Buckit has.
unfoldable pub validate_engine_compat : ClusterEngine → Option Failure
validate_engine_compat ClusterEngine.buckit = none
validate_engine_compat ClusterEngine.minio = some engine_mismatch

module _ (b : Bucket (Json Cluster)) (env : Env) where
  -- The check before an upgrade to a version that names a time; it counts the servers.
  abbrev pub newer : ℕ → Fetched → Failure ⊎ ℕ
  newer target (unavailable e) = inl (server_info_failed e)
  newer target (info i) = elim (ensure_version_is_newer target i) [
    | some e ↦ inl (version_refused e)
    | none ↦ inr (length i.servers)
  ]

  unfoldable pub upgrade_preflight : Option ℕ → World b → Failure ⊎ ℕ
  unfolding ensure_version_is_newer
  upgrade_preflight none w = inr 0
  upgrade_preflight (some target) w = newer target (env.server_info w.events)

  abbrev pub converged : World b → Option WaitError → World b × Option Failure
  converged w (some e) = (w, some (not_converged e))
  converged w none = (w, none)

  abbrev pub detailed : Str → World b → World b
  detailed text w = mutate b (λ p. record p { detail = text }) w

  abbrev pub awaiting_versions : World b → World b
  awaiting_versions w = detailed (codes "Waiting for version convergence") w

  -- The wait for the versions, in what is left of two minutes.
  unfoldable pub wait_versions_after : Option ℕ → ℕ → World b → World b × Option Failure
  unfolding minimum_version_convergence_budget wait_server_versions_reached
  wait_versions_after none expected w = (w, none)
  wait_versions_after (some target) expected w =
      if ltb (env.budget_left w.events) (minimum_version_convergence_budget 120000000000)
      then (awaiting_versions w, some no_time_left)
      else converged (awaiting_versions w)
          (wait_server_versions_reached target expected (env.version_attempts w.events))

  unfoldable pub after_health : Option ℕ → ℕ → World b × Option Str → World b × Option Failure
  unfolding wait_versions_after
  after_health target expected (w, some e) = (w, some (not_healthy e))
  after_health target expected (w, none) = wait_versions_after target expected w

-- Of `deploy.InstallAction`.
pub data InstallAction : Type 0 where
  fresh reinstall upgrade downgrade : InstallAction

abbrev action_text : InstallAction → Str
action_text fresh = codes "fresh"
action_text reinstall = codes "reinstall"
action_text upgrade = codes "upgrade"
action_text downgrade = codes "downgrade"

pub record PackageManager : Type 0 where
  pub kind : Str
  pub download_command : Str → Str
  pub verify_checksum_command : Str → Str
  pub inspect_script : Str
  pub install_command : InstallAction → Str

-- What internal/deploy answers: an error, or what was asked for.
pub record Packages : Type 0 where
  pub manager : List Event → Str → Str ⊎ PackageManager
  pub artifact : List Event → Str → Str ⊎ Str
  pub checksum : Str → Str ⊎ Str
  pub parse_inspect : Str → Str ⊎ InstallAction

module _ (b : Bucket (Json Cluster)) (env : Env) (pkg : Packages) (user : Str) where
  unfoldable pub after_reload : ℕ → Node → World b × StepResult → World b × HostEnd
  after_reload i n (w, step_failed e) = breaks b i n e w
  after_reload i n (w, output _) = (marked b i HostOpState.succeeded (codes "staged") w, passed)

  unfoldable pub after_install : ℕ → Node → World b × StepResult → World b × HostEnd
  unfolding after_reload run_step sudo_systemctl
  after_install i n (w, step_failed e) = breaks b i n e w
  after_install i n (w, output _) = after_reload i n (
      run_step b env n (sudo_systemctl user (codes "daemon-reload"))
        (marked b i HostOpState.running (codes "systemctl daemon-reload") w))

  abbrev downgrade_refused : Str
  downgrade_refused =
      codes
        "cluster_upgrade_by_systemctl: selected version is older than the version currently installed; downgrade is not supported"

  abbrev installs : PackageManager → ℕ → Node → InstallAction → World b → World b × StepResult
  installs m i n action w =
      run_step b env n (sudo_bash user (m.install_command action))
        (marked b i HostOpState.running (m.kind ++ codes " " ++ action_text action) w)

  unfoldable pub with_action :
      PackageManager → ℕ → Node → World b → Str ⊎ InstallAction → World b × HostEnd
  unfolding after_install run_step sudo_bash
  with_action m i n w (inl e) = breaks b i n e w
  with_action m i n w (inr downgrade) = breaks b i n downgrade_refused w
  with_action m i n w (inr fresh) = after_install i n (installs m i n fresh w)
  with_action m i n w (inr upgrade) = after_install i n (installs m i n upgrade w)
  with_action m i n w (inr reinstall) = after_install i n (installs m i n reinstall w)

  unfoldable pub after_inspect :
      PackageManager → ℕ → Node → World b × StepResult → World b × HostEnd
  unfolding with_action
  after_inspect m i n (w, step_failed e) = breaks b i n e w
  after_inspect m i n (w, output out) = with_action m i n w (pkg.parse_inspect out)

  unfoldable pub after_checksum :
      PackageManager → ℕ → Node → World b × StepResult → World b × HostEnd
  unfolding after_inspect run_step sudo_bash
  after_checksum m i n (w, step_failed e) = breaks b i n e w
  after_checksum m i n (w, output _) =
      after_inspect m i n (run_step b env n (sudo_bash user m.inspect_script) w)

  unfoldable pub after_download :
      PackageManager → Str → ℕ → Node → World b × StepResult → World b × HostEnd
  unfolding after_checksum run_step
  after_download m sha i n (w, step_failed e) = breaks b i n e w
  after_download m sha i n (w, output _) = after_checksum m i n (
      run_step b env n (m.verify_checksum_command sha)
        (marked b i HostOpState.running (codes "verifying checksum") w))

  unfoldable pub with_checksum :
      PackageManager → Str → ℕ → Node → World b → Str ⊎ Str → World b × HostEnd
  unfolding after_download run_step
  with_checksum m url i n w (inl e) = breaks b i n e w
  with_checksum m url i n w (inr sha) = after_download m sha i n (
      run_step b env n (m.download_command url)
        (marked b i HostOpState.running (codes "downloading") w))

  unfoldable pub with_artifact : PackageManager → ℕ → Node → World b → Str ⊎ Str → World b × HostEnd
  unfolding with_checksum
  with_artifact m i n w (inl e) = breaks b i n e w
  with_artifact m i n w (inr url) = with_checksum m url i n w (pkg.checksum url)

  unfoldable pub with_manager : ℕ → Node → World b → Str ⊎ PackageManager → World b × HostEnd
  unfolding with_artifact
  with_manager i n w (inl e) = breaks b i n e w
  with_manager i n w (inr m) = with_artifact m i n w (pkg.artifact w.events n.id)

  unfoldable pub after_unit : ℕ → Node → World b × StepResult → World b × HostEnd
  unfolding with_manager parse_load_state_loaded
  after_unit i n (w, step_failed e) = breaks b i n e w
  after_unit i n (w, output out) =
      if parse_load_state_loaded out then with_manager i n w (pkg.manager w.events n.id) else (
        marked b i HostOpState.succeeded (codes "skipped: buckit.service not installed") w,
        skipped,
      )

  -- The body of the loop: one host is upgraded, and not restarted.
  unfoldable pub stage_host : ℕ → Node → World b → World b × HostEnd
  unfolding after_unit run_step load_state_probe_command
  stage_host i n w =
      after_unit i n (run_step b env n (load_state_probe_command (codes "buckit.service")) w)
