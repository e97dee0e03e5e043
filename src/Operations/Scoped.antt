-- ===== src/Operations/Scoped.antt =====
-- The executors of internal/operations/host_scoped.go: systemctl on some hosts, reboot and shutdown.
-- Log lines and the pool of SSH clients are left out.
pub mod Counts
use bm.Base.{
  ℕ, ◌-◌, suc, Bool, true, false, Option, none, some, List, [], ◌∷◌, ◌++◌, ◌⊎◌, inl, inr, Str,
  codes, ◌==◌, ◌=s◌, ltb, length, if◌then◌else◌, is_empty,
}
use bm.Store.Json.{Json}
use bm.Store.Bucket.{Bucket}
use bm.Domain.{Cluster, Node}
use bm.Tasks.Types.{HostOpState}
use bm.Migration.Types.{itoa}
use bm.Operations.Shell.{
  load_state_probe_command, parse_load_state_loaded, sudo_bash, sudo_systemctl, unit_name,
}
use bm.Operations.Types.{
  ran, waited_ssh, StepResult, output, step_failed, Failure, interrupted, unknown_target,
  no_targets, units_missing, host_failed, hosts_failed, Env, World, mutate, note, run_step, load,
  RunCtx,
}
use bm.Operations.Waits.{wait_ssh_return}
use bm.Operations.Progress.{seed_host_statuses, item, concluded}
use bm.Operations.Hosts.{
  HostEnd, passed, failed, Tally, no_tally, each_host, marked, breaks, wait_host, is_well,
  refresh_cluster_row,
}

-- The later of two nodes with the same id.
unfoldable pub node_by_id : Str → List Node → Option Node
node_by_id id [] = none
node_by_id id (n ∷ nodes) =
    let later = node_by_id id nodes in
    elim later [ some m ↦ some m | none ↦ if n.id =s id then some n else none ]

unfoldable pub pick_hosts : List Node → List Str → Failure ⊎ List Node
unfolding node_by_id
pick_hosts nodes [] = inr []
pick_hosts nodes (id ∷ ids) =
    let rest = pick_hosts nodes ids in
    elim (node_by_id id nodes) [
      | none ↦ inl (unknown_target id)
      | some n ↦ elim rest [ inl f ↦ inl f | inr ns ↦ inr (n ∷ ns) ]
    ]

-- `targetHosts`: no ids are all nodes.
unfoldable pub target_hosts : List Str → List Node → Failure ⊎ List Node
unfolding pick_hosts
target_hosts [] nodes = inr nodes
target_hosts (id ∷ ids) nodes = pick_hosts nodes (id ∷ ids)

module _ (b : Bucket (Json Cluster)) (env : Env) where
  -- One host of `preflightUnitPresent`, on the result of the probe.
  abbrev pub after_unit_probe :
      Node
      → StepResult
      → World b
      → (List Str → World b → World b × Option Failure)
      → List Str
      → World b × Option Failure
  after_unit_probe n (step_failed e) w next missing = (w, some (host_failed n.hostname e))
  after_unit_probe n (output out) w next missing =
      if parse_load_state_loaded out then next missing w else next (missing ++ (n.hostname ∷ [])) w

  abbrev pub unless_cut : Option Str → World b → World b × Option Failure → World b × Option Failure
  unless_cut (some e) w r = (w, some (interrupted e))
  unless_cut none w r = r

  abbrev pub probed : Str → Node → World b → World b × StepResult
  probed unit n w = run_step b env n (load_state_probe_command unit) w

  unfoldable pub probe_units : Str → List Node → List Str → World b → World b × Option Failure
  unfolding parse_load_state_loaded load_state_probe_command run_step
  probe_units unit [] missing w =
      (w, if is_empty missing then none else some (units_missing missing))
  probe_units unit (n ∷ nodes) missing w = unless_cut (env.ctx_error w.events) w (
      after_unit_probe n (probed unit n w).1 (probed unit n w).0 (λ m v. probe_units unit nodes m v)
        missing)

  module _ (user verb unit : Str) (wait_healthy : Bool) where
    unfoldable pub after_verb_wait : ℕ → World b × Option Str → World b × HostEnd
    after_verb_wait i (w, some e) = (marked b i HostOpState.failed e w, failed)
    after_verb_wait i (w, none) = (marked b i HostOpState.succeeded (codes "done") w, passed)

    unfoldable pub after_verb : ℕ → Node → World b × StepResult → World b × HostEnd
    unfolding after_verb_wait wait_host
    after_verb i n (w, step_failed e) = (marked b i HostOpState.failed e w, failed)
    after_verb i n (w, output _) =
        if wait_healthy
        then after_verb_wait i (wait_host b env (codes "1m0s") n w)
        else after_verb_wait i (w, none)

    -- The body of the loop of `hostSystemctlExecutor`: a host that fails does not end the loop.
    unfoldable pub systemctl_host : ℕ → Node → World b → World b × HostEnd
    unfolding after_verb run_step sudo_systemctl
    systemctl_host i n w = after_verb i n (
        run_step b env n (sudo_systemctl user (verb ++ codes " " ++ unit))
          (marked b i HostOpState.running (codes "systemctl " ++ verb) w))

  unfoldable pub systemctl_done :
      Str → Str → ℕ → World b × (Failure ⊎ Tally) → World b × Option Failure
  unfolding itoa concluded refresh_cluster_row
  systemctl_done id verb n (w, inl f) = (w, some f)
  systemctl_done id verb n (w, inr t) =
      let shown =
        mutate b
          (concluded (codes "systemctl " ++ verb ++ codes " complete") (
            item (codes "Targeted") (itoa n)
            ∷ item (codes "Succeeded") (itoa (n - t.failed))
            ∷ item (codes "Failed") (itoa t.failed)
            ∷ item (codes "Duration") env.elapsed
            ∷ []))
          w in
      (
        if verb =s codes "stop" then shown else refresh_cluster_row b env id shown,
        if ltb 0 t.failed then some (hosts_failed t.failed n none) else none,
      )

  unfoldable pub after_preflight :
      Str → RunCtx → Str → Bool → List Node → World b × Option Failure → World b × Option Failure
  unfolding systemctl_done each_host systemctl_host unit_name seed_host_statuses
  after_preflight id rc verb wait_healthy hosts (w, some f) = (w, some f)
  after_preflight id rc verb wait_healthy hosts (w, none) = systemctl_done id verb (length hosts) (
      each_host b env
        (systemctl_host rc.ssh_creds.user verb (unit_name rc.cluster.engine) wait_healthy) 0 hosts
        no_tally (mutate b (seed_host_statuses hosts) w))

  unfoldable pub systemctl_targets :
      Str → RunCtx → Str → Bool → World b → Failure ⊎ List Node → World b × Option Failure
  unfolding after_preflight probe_units unit_name
  systemctl_targets id rc verb wait_healthy w (inl f) = (w, some f)
  systemctl_targets id rc verb wait_healthy w (inr []) = (w, some no_targets)
  systemctl_targets id rc verb wait_healthy w (inr (n ∷ ns)) =
      after_preflight id rc verb wait_healthy (n ∷ ns)
        (probe_units (unit_name rc.cluster.engine) (n ∷ ns) [] w)

  unfoldable pub systemctl_ctx :
      Str → Str → Bool → List Str → World b → Failure ⊎ RunCtx → World b × Option Failure
  unfolding systemctl_targets target_hosts
  systemctl_ctx id verb wait_healthy targets w (inl f) = (w, some f)
  systemctl_ctx id verb wait_healthy targets w (inr rc) =
      systemctl_targets id rc verb wait_healthy w (target_hosts targets rc.nodes)

  -- `hostSystemctlExecutor`, with the verbs restart, stop and start.
  unfoldable pub host_systemctl : Str → Str → Bool → List Str → World b → World b × Option Failure
  unfolding systemctl_ctx load
  host_systemctl id verb wait_healthy targets w =
      systemctl_ctx id verb wait_healthy targets w (load b env id w)
