-- ===== src/Operations/Rolling.antt =====
-- `rollingRestartExecutor` of internal/operations/orchestrated.go. Log lines are left out.
pub mod OneDown
use bm.Base.{
  ℕ, ◌-◌, Bool, Option, none, some, List, [], ◌∷◌, ◌++◌, ◌⊎◌, inl, inr, Str, codes, ◌==◌, ltb,
  length, if◌then◌else◌,
}
use bm.Store.Json.{Json}
use bm.Store.Bucket.{Bucket}
use bm.Domain.{Cluster, Node}
use bm.Tasks.Types.{HostOpState, SummaryItem}
use bm.Migration.Types.{itoa}
use bm.Operations.Shell.{
  load_state_probe_command, parse_load_state_loaded, sudo_systemctl, unit_name,
}
use bm.Operations.Types.{
  StepResult, output, step_failed, Failure, no_units, Env, World, mutate, run_step, load, RunCtx,
}
use bm.Operations.Progress.{seed_host_statuses, item, concluded}
use bm.Operations.Hosts.{
  HostEnd, passed, skipped, Tally, no_tally, each_host, marked, breaks, wait_host,
  refresh_cluster_row,
}

-- The item of a summary that only shows when a host was skipped.
abbrev pub skipped_item : ℕ → List SummaryItem
skipped_item n = if ltb 0 n then item (codes "Skipped") (itoa n) ∷ [] else []

module _ (b : Bucket (Json Cluster)) (env : Env) (user unit : Str) where
  unfoldable pub after_wait : ℕ → Node → World b × Option Str → World b × HostEnd
  after_wait i n (w, some e) = breaks b i n e w
  after_wait i n (w, none) = (marked b i HostOpState.succeeded (codes "healthy") w, passed)

  unfoldable pub after_restart : ℕ → Node → World b × StepResult → World b × HostEnd
  unfolding after_wait wait_host
  after_restart i n (w, step_failed e) = breaks b i n e w
  after_restart i n (w, output _) = after_wait i n (wait_host b env (codes "1m0s") n w)

  abbrev pub restart_command : Str
  restart_command = sudo_systemctl user (codes "restart " ++ unit)

  unfoldable pub after_probe : ℕ → Node → World b × StepResult → World b × HostEnd
  unfolding after_restart parse_load_state_loaded sudo_systemctl run_step
  after_probe i n (w, step_failed e) = breaks b i n e w
  after_probe i n (w, output out) =
      if parse_load_state_loaded out
      then after_restart i n (
          run_step b env n restart_command
            (marked b i HostOpState.running (codes "systemctl restart") w))
      else (
        marked b i HostOpState.succeeded (codes "skipped: " ++ unit ++ codes " not installed") w,
        skipped,
      )

  -- The body of the loop.
  unfoldable pub restart_host : ℕ → Node → World b → World b × HostEnd
  unfolding after_probe run_step load_state_probe_command
  restart_host i n w = after_probe i n (run_step b env n (load_state_probe_command unit) w)

module _ (b : Bucket (Json Cluster)) (env : Env) (id : Str) where
  unfoldable pub restarted : RunCtx → World b × (Failure ⊎ Tally) → World b × Option Failure
  unfolding itoa concluded refresh_cluster_row
  restarted rc (w, inl f) = (w, some f)
  restarted rc (w, inr t) = if t.skipped == length rc.nodes then (w, some no_units) else (
    refresh_cluster_row b env id (
        mutate b
          (concluded (codes "Rolling restart complete") (
            item (codes "Hosts") (itoa (length rc.nodes))
              ∷ item (codes "Restarted") (itoa (length rc.nodes - t.skipped))
              ∷ skipped_item t.skipped
            ++ (item (codes "Sequential time") env.elapsed
                ∷ item (codes "Failed") (codes "0")
                ∷ [])))
          w),
    none,
  )

  unfoldable pub with_ctx : World b → Failure ⊎ RunCtx → World b × Option Failure
  unfolding restarted each_host restart_host unit_name seed_host_statuses
  with_ctx w (inl f) = (w, some f)
  with_ctx w (inr rc) = restarted rc (
      each_host b env (restart_host b env rc.ssh_creds.user (unit_name rc.cluster.engine)) 0
        rc.nodes no_tally (mutate b (seed_host_statuses rc.nodes) w))

  unfoldable pub rolling_restart : World b → World b × Option Failure
  unfolding with_ctx load
  rolling_restart w = with_ctx w (load b env id w)
