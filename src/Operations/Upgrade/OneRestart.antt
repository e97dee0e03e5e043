-- ===== src/Operations/Upgrade/OneRestart.antt =====
-- An upgrade over systemctl restarts the cluster once, after every host is upgraded, and its success
-- means that every server reports the version.
use bm.Base.{
  ℕ, ◌+◌, ◌≡◌, refl, ap, Bool, true, false, Option, none, some, List, [], ◌∷◌, ◌++◌, ◌⊎◌, inl, inr,
  Str, codes, if◌then◌else◌, if_both, ltb, ◌==◌, arith,
}
use bm.Store.Json.{Json}
use bm.Store.Bucket.{Bucket}
use bm.Domain.{Cluster, Node}
use bm.Operations.Shell.{parse_load_state_loaded}
use bm.Operations.Types.{
  Event, ran, waited_cluster, called, service_restart, StepResult, output, step_failed, Failure,
  admin_failed, no_time_left, not_healthy, not_converged, Env, World, RunCtx, load, run_step,
  mutate,
}
use bm.Operations.Versions.{parse_comparable_version_time}
use bm.Operations.Versions.Waiting.{WaitError, Converged, wait_server_versions_reached-Converged}
use bm.Operations.Progress.{seed_host_statuses}
use bm.Operations.Hosts.{
  HostEnd, Tally, no_tally, each_host, is_well, wait_cluster, call_admin, refresh_cluster_row,
  rewrite,
}
use bm.Operations.Hosts.Loops.{Ended, Finished, each_host-Finished, Caused, each_host-Caused}
use bm.Operations.Upgrade.{
  awaiting_versions, PackageManager, InstallAction, fresh, reinstall, upgrade, downgrade, Packages,
  after_reload, after_install, with_action, after_inspect, after_checksum, after_download,
  with_checksum, with_artifact, with_manager, after_unit, stage_host,
  minimum_version_convergence_budget, converged, wait_versions_after, after_health,
  upgrade_preflight, validate_engine_compat,
}
use bm.Operations.Upgrade.Systemctl.{
  concluded_upgrade, after_restart_call, after_staging, after_preflight, after_compat, upgrade_ctx,
  cluster_upgrade_by_systemctl,
}

abbrev is_restart : Event → ℕ
is_restart (called service_restart) = 1
is_restart _ = 0

-- How often the admin API was asked to restart the cluster.
unfoldable pub restarts : List Event → ℕ
restarts [] = 0
restarts (e ∷ es) = is_restart e + restarts es

restarts-snoc :
    (es : List Event) (e : Event) → restarts (es ++ (e ∷ [])) ≡ restarts es + is_restart e
unfolding restarts
restarts-snoc [] e = omega arith
restarts-snoc (x ∷ es) e = omega (arith, restarts-snoc es e)

module _ (b : Bucket (Json Cluster)) (env : Env) (pkg : Packages) (user : Str) where
  -- No restart was asked for.
  abbrev pub Calm : World b → Type 0
  Calm w = restarts w.events ≡ 0

  abbrev CalmEnd : World b × HostEnd → Type 0
  CalmEnd r = Ended b Calm Calm r

  ran-Calm : (w : World b) (id cmd : Str) → Calm w → restarts (w.events ++ (ran id cmd ∷ [])) ≡ 0
  ran-Calm w id cmd h = omega (arith, restarts-snoc w.events (ran id cmd), h)

  after_reload-Calm :
      (i : ℕ) (n : Node) (r : World b × StepResult)
      → Calm r.0
      → CalmEnd (after_reload b env pkg user i n r)
  unfolding after_reload run_step
  after_reload-Calm i n (w, step_failed e) h = h
  after_reload-Calm i n (w, output o) h = h

  after_install-Calm :
      (i : ℕ) (n : Node) (r : World b × StepResult)
      → Calm r.0
      → CalmEnd (after_install b env pkg user i n r)
  unfolding after_install run_step
  after_install-Calm i n (w, step_failed e) h = h
  after_install-Calm i n (w, output o) h = after_reload-Calm i n _ (ran-Calm w n.id _ h)

  with_action-Calm :
      (m : PackageManager) (i : ℕ) (n : Node) (w : World b) (r : Str ⊎ InstallAction)
      → Calm w
      → CalmEnd (with_action b env pkg user m i n w r)
  unfolding with_action run_step
  with_action-Calm m i n w (inl e) h = h
  with_action-Calm m i n w (inr downgrade) h = h
  with_action-Calm m i n w (inr fresh) h = after_install-Calm i n _ (ran-Calm w n.id _ h)
  with_action-Calm m i n w (inr upgrade) h = after_install-Calm i n _ (ran-Calm w n.id _ h)
  with_action-Calm m i n w (inr reinstall) h = after_install-Calm i n _ (ran-Calm w n.id _ h)

  after_inspect-Calm :
      (m : PackageManager) (i : ℕ) (n : Node) (r : World b × StepResult)
      → Calm r.0
      → CalmEnd (after_inspect b env pkg user m i n r)
  unfolding after_inspect run_step
  after_inspect-Calm m i n (w, step_failed e) h = h
  after_inspect-Calm m i n (w, output o) h = with_action-Calm m i n w (pkg.parse_inspect o) h

  after_checksum-Calm :
      (m : PackageManager) (i : ℕ) (n : Node) (r : World b × StepResult)
      → Calm r.0
      → CalmEnd (after_checksum b env pkg user m i n r)
  unfolding after_checksum run_step
  after_checksum-Calm m i n (w, step_failed e) h = h
  after_checksum-Calm m i n (w, output o) h = after_inspect-Calm m i n _ (ran-Calm w n.id _ h)

  after_download-Calm :
      (m : PackageManager) (sha : Str) (i : ℕ) (n : Node) (r : World b × StepResult)
      → Calm r.0
      → CalmEnd (after_download b env pkg user m sha i n r)
  unfolding after_download run_step
  after_download-Calm m sha i n (w, step_failed e) h = h
  after_download-Calm m sha i n (w, output o) h = after_checksum-Calm m i n _ (ran-Calm w n.id _ h)

  with_checksum-Calm :
      (m : PackageManager) (url : Str) (i : ℕ) (n : Node) (w : World b) (r : Str ⊎ Str)
      → Calm w
      → CalmEnd (with_checksum b env pkg user m url i n w r)
  unfolding with_checksum run_step
  with_checksum-Calm m url i n w (inl e) h = h
  with_checksum-Calm m url i n w (inr x) h = after_download-Calm m x i n _ (ran-Calm w n.id _ h)

  with_artifact-Calm :
      (m : PackageManager) (i : ℕ) (n : Node) (w : World b) (r : Str ⊎ Str)
      → Calm w
      → CalmEnd (with_artifact b env pkg user m i n w r)
  unfolding with_artifact
  with_artifact-Calm m i n w (inl e) h = h
  with_artifact-Calm m i n w (inr x) h = with_checksum-Calm m x i n w (pkg.checksum x) h

  with_manager-Calm :
      (i : ℕ) (n : Node) (w : World b) (r : Str ⊎ PackageManager)
      → Calm w
      → CalmEnd (with_manager b env pkg user i n w r)
  unfolding with_manager
  with_manager-Calm i n w (inl e) h = h
  with_manager-Calm i n w (inr x) h = with_artifact-Calm x i n w (pkg.artifact w.events n.id) h

  after_unit-Calm :
      (i : ℕ) (n : Node) (r : World b × StepResult)
      → Calm r.0
      → CalmEnd (after_unit b env pkg user i n r)
  unfolding after_unit
  after_unit-Calm i n (w, step_failed e) h = h
  after_unit-Calm i n (w, output o) h =
      if_both CalmEnd (parse_load_state_loaded o) _ _
        (λ _. with_manager-Calm i n w (pkg.manager w.events n.id) h) (λ _. h)

  stage_host-Calm :
      (i : ℕ) (n : Node) (w : World b) → Calm w → CalmEnd (stage_host b env pkg user i n w)
  unfolding stage_host run_step
  stage_host-Calm i n w h = after_unit-Calm i n _ (ran-Calm w n.id _ h)

-- The errors that come after the cluster was asked to restart.
abbrev pub asked : Failure → Bool
asked (admin_failed e) = true
asked (not_healthy e) = true
asked no_time_left = true
asked (not_converged e) = true
asked _ = false

module _ (b : Bucket (Json Cluster)) (env : Env) (pkg : Packages) (id version : Str) where
  -- That a wait after the events `es` has seen all servers at the target's version; `none` is a
  -- version without a time, which is not checked.
  abbrev pub VersionMet : Option ℕ → ℕ → List Event → Type 0
  VersionMet none expected es = Unit
  VersionMet (some target) expected es = Converged target expected (env.version_attempts es)

  -- How an upgrade ends: by a success after one restart, which is the last that is done but for the
  -- wait for the cluster, or by an error from before the restart or from after it.
  abbrev pub UpgradeEnd : Option ℕ → ℕ → World b × Option Failure → Type 0
  UpgradeEnd target expected (w, none) =
      VersionMet target expected w.events
      × ((es : List Event) × (restarts es ≡ 0)
          × (w.events ≡ (es ++ (called service_restart ∷ [])) ++ (waited_cluster true ∷ [])))
  UpgradeEnd target expected (w, some f) = restarts w.events ≡ (if asked f then 1 else 0)

  -- The worlds after the restart and a wait.
  abbrev Waited : List Event → World b → Bool → Type 0
  Waited es w well = w.events ≡ (es ++ (called service_restart ∷ [])) ++ (waited_cluster well ∷ [])

  one_restart :
      (es : List Event) (w : World b) (well : Bool)
      → restarts es ≡ 0
      → Waited es w well
      → restarts w.events ≡ 1
  one_restart es w well h e = rw e (
      omega (
        arith,
        restarts-snoc (es ++ (called service_restart ∷ [])) (waited_cluster well),
        restarts-snoc es (called service_restart),
        h,
      ))

  converged-End :
      (rc : RunCtx) (t : Tally) (target expected : ℕ) (es : List Event) (w : World b)
      (o : Option WaitError)
      → restarts es ≡ 0
      → Waited es w true
      → (o ≡ none → Converged target expected (env.version_attempts w.events))
      → UpgradeEnd
          (some target)
          expected
          (concluded_upgrade b env pkg id version rc t (converged b env w o))
  unfolding concluded_upgrade refresh_cluster_row rewrite
  converged-End rc t target expected es w (some e) h q k = one_restart es w true h q
  converged-End rc t target expected es w none h q k = (k refl, (es, h, q))

  wait_versions_after-End :
      (rc : RunCtx) (t : Tally) (target : Option ℕ) (expected : ℕ) (es : List Event) (w : World b)
      → restarts es ≡ 0
      → Waited es w true
      → UpgradeEnd target expected (
          concluded_upgrade b env pkg id version rc t (wait_versions_after b env target expected w))
  unfolding wait_versions_after concluded_upgrade refresh_cluster_row rewrite
  wait_versions_after-End rc t none expected es w h q = (tt, (es, h, q))
  wait_versions_after-End rc t (some target) expected es w h q =
      if_both {A = World b × Option Failure}
        (λ r. UpgradeEnd (some target) expected (concluded_upgrade b env pkg id version rc t r))
        (ltb (env.budget_left w.events) (minimum_version_convergence_budget 120000000000)) _ _
        (λ _. one_restart es (awaiting_versions b env w) true h q)
        (λ _.
          converged-End rc t target expected es (awaiting_versions b env w) _ h q (
            wait_server_versions_reached-Converged target expected (env.version_attempts w.events)))

  after_health-End :
      (rc : RunCtx) (t : Tally) (target : Option ℕ) (expected : ℕ) (es : List Event)
      (r : World b × Option Str)
      → restarts es ≡ 0
      → Waited es r.0 (is_well b r.1)
      → UpgradeEnd target expected
          (concluded_upgrade b env pkg id version rc t (after_health b env target expected r))
  unfolding after_health concluded_upgrade
  after_health-End rc t target expected es (w, some e) h q = one_restart es w false h q
  after_health-End rc t target expected es (w, none) h q =
      wait_versions_after-End rc t target expected es w h q

  after_restart_call-End :
      (rc : RunCtx) (t : Tally) (target : Option ℕ) (expected : ℕ) (es : List Event)
      (r : World b × Option Str)
      → restarts es ≡ 0
      → r.0.events ≡ es ++ (called service_restart ∷ [])
      → UpgradeEnd target expected (after_restart_call b env pkg id version rc t target expected r)
  unfolding after_restart_call wait_cluster
  after_restart_call-End rc t target expected es (w, some e) h q =
      rw q (omega (arith, restarts-snoc es (called service_restart), h))
  after_restart_call-End rc t target expected es (w, none) h q =
      after_health-End rc t target expected es (wait_cluster b env (codes "2m0s") w) h
        (ap (λ x. x ++ (waited_cluster (is_well b (wait_cluster b env (codes "2m0s") w).1) ∷ [])) q)

  after_staging-End :
      (rc : RunCtx) (target : Option ℕ) (expected : ℕ) (r : World b × (Failure ⊎ Tally))
      → Finished b (λ w. restarts w.events ≡ 0) (λ w. restarts w.events ≡ 0) r
      → Caused b (λ f. asked f ≡ false) r
      → UpgradeEnd target expected (after_staging b env pkg id version rc target expected r)
  unfolding after_staging call_admin
  after_staging-End rc target expected (w, inl f) h k = rw k h
  after_staging-End rc target expected (w, inr t) h k =
      if_both {A = World b × Option Failure} (UpgradeEnd target expected) (t.passed == 0) _ _
        (λ _. h) (λ _. after_restart_call-End rc t target expected w.events _ h refl)

  after_preflight-End :
      (rc : RunCtx) (target : Option ℕ) (expected : ℕ) (w : World b)
      → restarts w.events ≡ 0
      → UpgradeEnd target expected (after_preflight b env pkg id version rc target w (inr expected))
  unfolding after_preflight
  after_preflight-End rc target expected w h =
      let user = rc.ssh_creds.user in
      let body = stage_host b env pkg user in
      let v = mutate b (seed_host_statuses rc.nodes) w in
      after_staging-End rc target expected (each_host b env body 0 rc.nodes no_tally v)
        (each_host-Finished b _ _ env body (λ u q. q) (stage_host-Calm b env pkg user) 0 rc.nodes
          no_tally v h)
        (each_host-Caused b (λ f. asked f ≡ false) env body (λ e. refl) (λ x e. refl) 0 rc.nodes
          no_tally v)

-- An upgrade over systemctl whose checks pass asks the cluster to restart once and as its last act,
-- with every command on a host before it. It succeeds only where a wait that began after the restart
-- and after the cluster was healthy saw every server report the version; a version that names no time
-- is not checked. An error from before the restart leaves the cluster running.
pub cluster_upgrade_by_systemctl-End :
    (b : Bucket (Json Cluster)) (env : Env) (pkg : Packages) (id version : Str) (w : World b)
    (rc : RunCtx) (expected : ℕ)
    → load b env id w ≡ inr rc
    → validate_engine_compat rc.cluster.engine ≡ none
    → upgrade_preflight b env (parse_comparable_version_time version) w ≡ inr expected
    → w.events ≡ []
    → UpgradeEnd b env pkg id version
        (parse_comparable_version_time version)
        expected
        (cluster_upgrade_by_systemctl b env pkg id version w)
unfolding cluster_upgrade_by_systemctl upgrade_ctx after_compat restarts
cluster_upgrade_by_systemctl-End b env pkg id version w rc expected loaded compat checked start =
    rw (loaded, compat, checked)
      (after_preflight-End b env pkg id version rc (parse_comparable_version_time version) expected
        w (rw start refl))
