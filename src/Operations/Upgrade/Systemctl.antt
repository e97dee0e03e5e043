-- ===== src/Operations/Upgrade/Systemctl.antt =====
-- `clusterUpgradeBySystemctlExecutor` of internal/operations/orchestrated.go: every host is upgraded
-- first, and the cluster is restarted once.
use bm.Base.{
  ℕ, Option, none, some, [], ◌∷◌, ◌⊎◌, inl, inr, Str, codes, is_empty, ◌=s◌, ◌==◌, ◌||◌, length,
  if◌then◌else◌,
}
use bm.Store.Json.{Json}
use bm.Store.Bucket.{Bucket}
use bm.Domain.{Cluster}
use bm.Migration.Types.{itoa}
use bm.Operations.Types.{
  service_restart, Failure, no_units, admin_failed, Env, World, mutate, load, RunCtx,
}
use bm.Operations.Versions.{parse_comparable_version_time}
use bm.Operations.Progress.{seed_host_statuses, item, concluded}
use bm.Operations.Hosts.{Tally, no_tally, each_host, wait_cluster, call_admin, refresh_cluster_row}
use bm.Operations.Upgrade.{
  validate_engine_compat, upgrade_preflight, after_health, Packages, stage_host,
}

module _ (b : Bucket (Json Cluster)) (env : Env) (pkg : Packages) (id version : Str) where
  abbrev to_version : Str
  to_version = if is_empty version || version =s codes "custom" then codes "custom URL" else version

  unfoldable pub concluded_upgrade :
      RunCtx → Tally → World b × Option Failure → World b × Option Failure
  unfolding concluded itoa refresh_cluster_row
  concluded_upgrade rc t (w, some f) = (w, some f)
  concluded_upgrade rc t (w, none) = (
    refresh_cluster_row b env id (
        mutate b
          (concluded (codes "Cluster upgrade complete") (
            item (codes "Hosts") (itoa (length rc.nodes))
            ∷ item (codes "Updated hosts") (itoa t.passed)
            ∷ item (codes "Skipped") (itoa t.skipped)
            ∷ item (codes "From") rc.cluster.version
            ∷ item (codes "To") to_version
            ∷ item (codes "Upgrade time") env.elapsed
            ∷ []))
          w),
    none,
  )

  unfoldable pub after_restart_call :
      RunCtx → Tally → Option ℕ → ℕ → World b × Option Str → World b × Option Failure
  unfolding concluded_upgrade after_health wait_cluster
  after_restart_call rc t target expected (w, some e) = (w, some (admin_failed e))
  after_restart_call rc t target expected (w, none) =
      concluded_upgrade rc t
        (after_health b env target expected (wait_cluster b env (codes "2m0s") w))

  unfoldable pub after_staging :
      RunCtx → Option ℕ → ℕ → World b × (Failure ⊎ Tally) → World b × Option Failure
  unfolding after_restart_call call_admin
  after_staging rc target expected (w, inl f) = (w, some f)
  after_staging rc target expected (w, inr t) =
      if t.passed == 0
      then (w, some no_units)
      else after_restart_call rc t target expected (
          call_admin b env service_restart
            (mutate b (λ p. record p { detail = codes "Restarting cluster" }) w))

  unfoldable pub after_preflight :
      RunCtx → Option ℕ → World b → Failure ⊎ ℕ → World b × Option Failure
  unfolding after_staging each_host stage_host seed_host_statuses
  after_preflight rc target w (inl f) = (w, some f)
  after_preflight rc target w (inr expected) = after_staging rc target expected (
      each_host b env (stage_host b env pkg rc.ssh_creds.user) 0 rc.nodes no_tally
        (mutate b (seed_host_statuses rc.nodes) w))

  unfoldable pub after_compat : RunCtx → World b → Option Failure → World b × Option Failure
  unfolding after_preflight upgrade_preflight parse_comparable_version_time
  after_compat rc w (some f) = (w, some f)
  after_compat rc w none =
      let target = parse_comparable_version_time version in
      after_preflight rc target w (upgrade_preflight b env target w)

  unfoldable pub upgrade_ctx : World b → Failure ⊎ RunCtx → World b × Option Failure
  unfolding after_compat validate_engine_compat
  upgrade_ctx w (inl f) = (w, some f)
  upgrade_ctx w (inr rc) = after_compat rc w (validate_engine_compat rc.cluster.engine)

  unfoldable pub cluster_upgrade_by_systemctl : World b → World b × Option Failure
  unfolding upgrade_ctx load
  cluster_upgrade_by_systemctl w = upgrade_ctx w (load b env id w)
