-- ===== src/Operations/Start.antt =====
-- `startClusterExecutor` and `stopClusterBySystemctlExecutor` of internal/operations/orchestrated.go:
-- one goroutine for each host, in any order of their steps. Log lines are left out.
pub mod Turns
pub mod Left
pub mod Ends
use bm.Base.{
  ℕ, suc, ◌-◌, Bool, true, false, ◌&&◌, Option, none, some, List, [], ◌∷◌, ◌++◌, ◌⊎◌, inl, inr, Str,
  codes, ◌==◌, ltb, length, map, modify, get_elem?, if◌then◌else◌,
}
use bm.Store.Json.{Json}
use bm.Store.Bucket.{Bucket}
use bm.Domain.{Cluster, Node}
use bm.Tasks.Types.{HostOpState}
use bm.Migration.Types.{itoa}
use bm.Operations.Shell.{
  load_state_probe_command, parse_load_state_loaded, sudo_systemctl, unit_name,
}
use bm.Operations.Types.{
  StepResult, output, step_failed, Failure, no_units, hosts_failed, not_healthy, Env, World, mutate,
  run_step, load, RunCtx,
}
use bm.Operations.Progress.{seed_host_statuses, item, concluded}
use bm.Operations.Row.{stopped}
use bm.Operations.Hosts.{marked, wait_cluster, rewrite, refresh_cluster_row}
use bm.Operations.Rolling.{skipped_item}

-- Where a goroutine stands: before its probe, before its command, or at its end.
pub data Phase : Type 0 where
  at_probe at_command ended : Phase

module _ (b : Bucket (Json Cluster)) where
  -- The goroutines, and the variables that they share.
  pub record Fan : Type 0 where
    pub world : World b
    pub phases : List Phase
    pub failed : ℕ
    pub skipped : ℕ
    pub fail_err : Option Str

  abbrev pub goes_to : ℕ → Phase → HostOpState → Str → Fan → Fan
  goes_to i phase st detail f = record f {
    world = marked b i st detail f.world;
    phases = modify f.phases i (λ _. phase);
  }

  abbrev pub or_else : Option Str → Str → Option Str
  or_else none e = some e
  or_else (some first) e = some first

  abbrev pub fails : ℕ → Str → Fan → Fan
  fails i e f = record (goes_to i ended HostOpState.failed e f) {
    failed = suc f.failed;
    fail_err = or_else f.fail_err e;
  }

  abbrev pub skips : ℕ → Str → Fan → Fan
  skips i detail f = record (goes_to i ended HostOpState.succeeded detail f) {
    skipped = suc f.skipped;
  }

  -- The text of a host that was started or stopped.
  module _ (env : Env) (user verb text unit : Str) where
    unfoldable pub probe_answered : ℕ → StepResult → Fan → Fan
    unfolding parse_load_state_loaded
    probe_answered i (step_failed e) f = fails i e f
    probe_answered i (output out) f =
        if parse_load_state_loaded out
        then goes_to i at_command HostOpState.running (codes "systemctl " ++ verb) f
        else skips i (codes "skipped: " ++ unit ++ codes " not installed") f

    unfoldable pub command_answered : ℕ → StepResult → Fan → Fan
    command_answered i (step_failed e) f = fails i e f
    command_answered i (output _) f = goes_to i ended HostOpState.succeeded text f

    abbrev pub sent : Node → Str → Fan → Fan
    sent n cmd f = record f { world = (run_step b env n cmd f.world).0 }

    -- One turn of the goroutine of a host.
    unfoldable pub turn_of : ℕ → Node → Phase → Fan → Fan
    unfolding probe_answered command_answered run_step load_state_probe_command sudo_systemctl
    turn_of i n at_probe f =
        let cmd = load_state_probe_command unit in
        probe_answered i (run_step b env n cmd f.world).1 (sent n cmd f)
    turn_of i n at_command f =
        let cmd = sudo_systemctl user (verb ++ codes " " ++ unit) in
        command_answered i (run_step b env n cmd f.world).1 (sent n cmd f)
    turn_of i n ended f = f

    abbrev pub turn_at : ℕ → Option Node → Option Phase → Fan → Fan
    turn_at i (some n) (some p) f = turn_of i n p f
    turn_at i (some n) none f = f
    turn_at i none p f = f

    -- The turns of the goroutines, in the order of the schedule.
    unfoldable pub run_turns : List Node → List ℕ → Fan → Fan
    unfolding turn_of
    run_turns nodes [] f = f
    run_turns nodes (i ∷ schedule) f =
        run_turns nodes schedule (turn_at i (get_elem? nodes i) (get_elem? f.phases i) f)

  abbrev pub is_ended : Phase → Bool
  is_ended ended = true
  is_ended _ = false

  unfoldable pub all_ended : List Phase → Bool
  all_ended [] = true
  all_ended (p ∷ phases) = is_ended p && all_ended phases

  abbrev pub begun : List Node → World b → Fan
  begun nodes w = record {
    world = mutate b (seed_host_statuses nodes) w;
    phases = map (λ _. at_probe) nodes;
    failed = 0;
    skipped = 0;
    fail_err = none;
  }

  abbrev pub summary_of : Env → Str → Str → Str → ℕ → ℕ → World b → World b
  summary_of env detail done_label time_label n skipped w =
      mutate b
        (concluded detail (
          item (codes "Hosts") (itoa n)
            ∷ item done_label (itoa (n - skipped))
            ∷ skipped_item skipped
          ++ (item time_label env.elapsed ∷ [])))
        w

  abbrev pub after_start_wait : Env → Str → ℕ → ℕ → World b × Option Str → World b × Option Failure
  after_start_wait env id n skipped (w, some e) = (w, some (not_healthy e))
  after_start_wait env id n skipped (w, none) = (
    refresh_cluster_row b env id (
        summary_of env (codes "Cluster started") (codes "Started") (codes "Healthy after") n skipped
          w),
    none,
  )

  -- What comes after the last goroutine.
  unfoldable pub start_ended : Env → Str → ℕ → Fan → World b × Option Failure
  unfolding wait_cluster refresh_cluster_row concluded itoa
  start_ended env id n f =
      if ltb 0 f.failed
      then (f.world, some (hosts_failed f.failed n f.fail_err))
      else if f.skipped == n
      then (f.world, some no_units)
      else after_start_wait env id n f.skipped (wait_cluster b env (codes "2m0s") f.world)

  unfoldable pub stop_ended : Env → Str → ℕ → Fan → World b × Option Failure
  unfolding rewrite stopped concluded itoa
  stop_ended env id n f =
      if ltb 0 f.failed
      then (f.world, some (hosts_failed f.failed n f.fail_err))
      else if f.skipped == n
      then (f.world, some no_units)
      else (
        rewrite b env id (stopped env.now) (
            summary_of env (codes "Cluster stopped") (codes "Stopped") (codes "Duration") n
              f.skipped f.world),
        none,
      )

  -- `wg.Wait`: there is an answer once every goroutine is at its end.
  abbrev pub waited :
      (ℕ → Fan → World b × Option Failure) → ℕ → Fan → Option (World b × Option Failure)
  waited conclude n f = if all_ended f.phases then some (conclude n f) else none

  abbrev pub fanned :
      (ℕ → Fan → World b × Option Failure)
      → Env
      → Str
      → Str
      → List ℕ
      → World b
      → RunCtx
      → Option (World b × Option Failure)
  fanned conclude env verb text schedule w rc = waited conclude (length rc.nodes) (
      run_turns env rc.ssh_creds.user verb text (unit_name rc.cluster.engine) rc.nodes schedule
        (begun rc.nodes w))

  unfoldable pub start_ctx :
      Env → Str → List ℕ → World b → Failure ⊎ RunCtx → Option (World b × Option Failure)
  unfolding run_turns all_ended unit_name start_ended seed_host_statuses
  start_ctx env id schedule w (inl f) = some (w, some f)
  start_ctx env id schedule w (inr rc) =
      fanned (start_ended env id) env (codes "start") (codes "started") schedule w rc

  unfoldable pub start_cluster : Env → Str → List ℕ → World b → Option (World b × Option Failure)
  unfolding start_ctx load
  start_cluster env id schedule w = start_ctx env id schedule w (load b env id w)

  unfoldable pub stop_ctx :
      Env → Str → List ℕ → World b → Failure ⊎ RunCtx → Option (World b × Option Failure)
  unfolding run_turns all_ended unit_name stop_ended seed_host_statuses
  stop_ctx env id schedule w (inl f) = some (w, some f)
  stop_ctx env id schedule w (inr rc) =
      fanned (stop_ended env id) env (codes "stop") (codes "stopped") schedule w rc

  unfoldable pub stop_cluster_by_systemctl :
      Env → Str → List ℕ → World b → Option (World b × Option Failure)
  unfolding stop_ctx load
  stop_cluster_by_systemctl env id schedule w = stop_ctx env id schedule w (load b env id w)
