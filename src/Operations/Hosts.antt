-- ===== src/Operations/Hosts.antt =====
-- The loops over hosts of internal/operations: one host after the other, with the check of the task's
pub mod Loops
pub mod Statuses
-- context before each; and the steps that their bodies share. A body ends in a state of its host, or
-- with the error that ends the loop.
use bm.Base.{
  ℕ, suc, Bool, true, false, Option, none, some, List, [], ◌∷◌, ◌++◌, ◌⊎◌, inl, inr, Str, codes,
  if◌then◌else◌, zero,
}
use bm.Store.{Result, ok, err}
use bm.Store.Json.{Json}
use bm.Store.Bucket.{Bucket}
use bm.Domain.{Cluster, Node}
use bm.Tasks.Types.{HostOpState}
use bm.Operations.Shell.{load_state_probe_command, parse_load_state_loaded}
use bm.Operations.Types.{
  Event, ran, waited_host, waited_cluster, called, AdminCall, StepResult, output, step_failed,
  Failure, interrupted, host_failed, Env, World, mutate, note, run_step, RunCtx, units_missing,
}
use bm.Operations.Waits.{wait_host_healthy, wait_cluster_healthy}
use bm.Operations.Progress.{set_host_state}
use bm.Operations.Row.{rewrite_row, refreshed}

pub data HostEnd : Type 0 where
  passed skipped failed : HostEnd
  broke : Str → Str → HostEnd

pub record Tally : Type 0 where
  pub passed : ℕ
  pub skipped : ℕ
  pub failed : ℕ

abbrev pub no_tally : Tally
no_tally = record { passed = 0; skipped = 0; failed = 0 }

module _ (b : Bucket (Json Cluster)) where
  unfoldable pub after_host :
      World b × HostEnd
      → Tally
      → (Tally → World b → World b × (Failure ⊎ Tally))
      → World b × (Failure ⊎ Tally)
  after_host (w, broke hostname e) t next = (w, inl (host_failed hostname e))
  after_host (w, passed) t next = next (record t { passed = suc t.passed }) w
  after_host (w, skipped) t next = next (record t { skipped = suc t.skipped }) w
  after_host (w, failed) t next = next (record t { failed = suc t.failed }) w

  abbrev pub unless_over :
      Option Str → World b → World b × (Failure ⊎ Tally) → World b × (Failure ⊎ Tally)
  unless_over (some e) w r = (w, inl (interrupted e))
  unless_over none w r = r

  unfoldable pub each_host :
      Env
      → (ℕ → Node → World b → World b × HostEnd)
      → ℕ
      → List Node
      → Tally
      → World b
      → World b × (Failure ⊎ Tally)
  unfolding after_host
  each_host env body i [] t w = (w, inr t)
  each_host env body i (n ∷ nodes) t w =
      unless_over (env.ctx_error w.events) w
        (after_host (body i n w) t (each_host env body (suc i) nodes))

  abbrev pub marked : ℕ → HostOpState → Str → World b → World b
  marked i st detail w = mutate b (set_host_state i st detail) w

  -- The host is marked as failed, and the loop ends.
  abbrev pub breaks : ℕ → Node → Str → World b → World b × HostEnd
  breaks i n e w = (marked i HostOpState.failed e w, broke n.hostname e)

  abbrev pub is_well : Option Str → Bool
  is_well none = true
  is_well (some e) = false

  unfoldable pub wait_host : Env → Str → Node → World b → World b × Option Str
  unfolding wait_host_healthy
  wait_host env limit n w =
      let result = wait_host_healthy limit n.hostname (env.host_polls w.events n.id) in
      (note b (waited_host n.id (is_well result)) w, result)

  unfoldable pub wait_cluster : Env → Str → World b → World b × Option Str
  unfolding wait_cluster_healthy
  wait_cluster env limit w =
      let result = wait_cluster_healthy limit (env.cluster_polls w.events) none in
      (note b (waited_cluster (is_well result)) w, result)

  unfoldable pub call_admin : Env → AdminCall → World b → World b × Option Str
  call_admin env call w = (note b (called call) w, env.admin w.events call)

  abbrev listed : Result (List Node) → List Node
  listed (ok nodes) = nodes
  listed (err e) = []

  unfoldable pub rewrite : Env → Str → (Cluster → Cluster) → World b → World b
  unfolding rewrite_row
  rewrite env id change w = record w {
    clusters = rewrite_row b id env.reads_in_time env.write change w.clusters;
  }

  -- `refreshClusterRow`
  unfoldable pub refresh_cluster_row : Env → Str → World b → World b
  unfolding rewrite refreshed
  refresh_cluster_row env id w =
      rewrite env id (refreshed env.now (env.server_info w.events) (listed env.nodes)) w
