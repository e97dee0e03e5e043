-- ===== src/Migration/Rollback/Defs.antt =====
-- `Execute` of internal/migration/rollback.go, over the same worlds as a cutover. Log lines are left out.
use bm.Base.{
  ℕ, suc, Bool, true, false, Option, none, some, List, [], ◌∷◌, ◌++◌, Str, codes, ltb, ◌==◌, ◌&&◌,
  if◌then◌else◌, length,
}
use bm.Store.{Error, Result, ok, err, Outcome}
use bm.Store.Json.{Json}
use bm.Store.Bucket.{Bucket}
use bm.Domain.{HostRow, Cluster, ClusterEngine}
use bm.Clusters.Repo.{get_cluster, put_cluster}
use bm.Tasks.Types.{HostOpState, OperationProgress}
use bm.Migration.Types.{CutoverParams, MigrationBody, from_migration_body, itoa}
use bm.Migration.Hosts.{index_of, status_at, mark_all}
use bm.Migration.Cutover.Defs.{World, mutate, fan_out}
use bm.Migration.Cutover.Env.{HostPhase, stop_buckit, start_minio, PhaseRun, at_step, seed, item}

-- Of `active`, none is a probe that fails.
pub record RollbackEnv : Type 0 where
  pub body : Option MigrationBody
  pub ctx_error : HostRow → Option Str
  pub active : HostRow → Option Bool
  pub run_phase : HostPhase → List HostRow → PhaseRun
  pub reads_in_time : Bool
  pub write : Outcome
  pub now : ℕ

pub data RollbackFailure : Type 0 where
  undecodable_params : RollbackFailure
  canceled stop_failed start_failed : Str → RollbackFailure
  revert_failed : Error → RollbackFailure

-- What the probes of the hosts find: an end of the context, or the targets and the number skipped.
pub data Probed : Type 0 where
  interrupted : Str → Str → Probed
  probed : List HostRow → ℕ → Probed

abbrev pub with_target : HostRow → Probed → Probed
with_target h (interrupted name e) = interrupted name e
with_target h (probed targets skipped) = probed (h ∷ targets) skipped

abbrev pub with_skipped : Probed → Probed
with_skipped (interrupted name e) = interrupted name e
with_skipped (probed targets skipped) = probed targets (suc skipped)

-- A host is a target unless its probe says that Buckit is not active.
abbrev pub is_target : RollbackEnv → HostRow → Bool
is_target env h = elim (env.active h) [ some false ↦ false | _ ↦ true ]

unfoldable pub probe_hosts : RollbackEnv → List HostRow → Probed
probe_hosts env [] = probed [] 0
probe_hosts env (h ∷ hosts) =
    let rest = probe_hosts env hosts in
    elim (env.ctx_error h) [
      | some e ↦ interrupted h.hostname e
      | none ↦ if is_target env h then with_target h rest else with_skipped rest
    ]

-- The host rows that the same loop writes, up to an end of the context.
unfoldable pub mark_skipped :
    RollbackEnv → List HostRow → List HostRow → OperationProgress → OperationProgress
unfolding index_of
mark_skipped env rows [] p = p
mark_skipped env rows (h ∷ hosts) p =
    let marked =
      status_at (index_of rows h.id) HostOpState.succeeded (codes "Already on MinIO") p in
    let rest = mark_skipped env rows hosts (if is_target env h then p else marked) in
    elim (env.ctx_error h) [ some e ↦ p | none ↦ rest ]

unfoldable pub reverted : ℕ → Cluster → Cluster
reverted now c = record c {
  engine = ClusterEngine.minio;
  last_fetched_at = some now;
  last_activity_at = now;
  migrated_from = none;
  version = [];
}

unfoldable pub summed_up : ℕ → ℕ → OperationProgress → OperationProgress
unfolding itoa
summed_up n_completed n_skipped p = record p {
  detail =
      if n_completed == 0 && ltb 0 n_skipped
      then codes "No hosts required rollback"
      else if ltb 0 n_completed && n_skipped == 0
      then codes "Rollback complete"
      else codes "Rollback partial " ++ (226 ∷ 128 ∷ 148 ∷ codes " some hosts already on MinIO");
  summary =
      p.summary
      ++ (item (codes "Rolled back") (itoa n_completed)
          ∷ (if ltb 0 n_skipped then item (codes "Already MinIO") (itoa n_skipped) ∷ [] else []));
}

module _ (b : Bucket (Json Cluster)) where
  unfoldable pub revert_read : RollbackEnv → Result Cluster → World b → World b × Result (Unit {0})
  unfolding reverted
  revert_read env (err e) w = (w, err e)
  revert_read env (ok c) w =
      let (db, answer) = put_cluster b (reverted env.now c) env.write w.clusters in
      (record w { clusters = db }, answer)

  unfoldable pub commit_engine_revert :
      RollbackEnv → CutoverParams → World b → World b × Result (Unit {0})
  unfolding revert_read
  commit_engine_revert env params w =
      revert_read env (get_cluster b params.source_cluster_id env.reads_in_time w.clusters) w

  unfoldable pub after_revert :
      ℕ → ℕ → World b × Result (Unit {0}) → World b × Option RollbackFailure
  unfolding summed_up
  after_revert n_completed n_skipped (w, err e) = (w, some (revert_failed e))
  after_revert n_completed n_skipped (w, ok _) =
      (mutate b (summed_up n_completed n_skipped) w, none)

  module _ (env : RollbackEnv) (params : CutoverParams) (targets : List HostRow) (skipped : ℕ) where
    unfoldable pub after_start : Option Str → World b → World b × Option RollbackFailure
    unfolding commit_engine_revert after_revert mark_all
    after_start (some e) w = (
      mutate b
          (λ p. record p {
            failure_note =
                codes "rollback (start minio) failed: "
                ++ e
                ++ codes " "
                ++ (226 ∷ 128 ∷ 148 ∷ codes " manual intervention may be required");
          })
          w,
      some (start_failed e),
    )
    after_start none w = after_revert (length targets) skipped (
        commit_engine_revert env params (
          mutate b
            (λ p.
              mark_all params.hosts targets HostOpState.succeeded (codes "Rolled back to MinIO")
                (record p { current = some (length targets) }))
            w))

    unfoldable pub after_stop : Option Str → World b → World b × Option RollbackFailure
    unfolding fan_out after_start
    after_stop (some e) w = (
      mutate b (λ p. record p { failure_note = codes "rollback (stop buckit) failed: " ++ e }) w,
      some (stop_failed e),
    )
    after_stop none w = after_start (env.run_phase start_minio targets).error (
        fan_out b env.run_phase params.hosts start_minio targets
          (mutate b (at_step (codes "starting minio")) w))

  -- After the probes. Without a target the cluster's row is left alone.
  unfoldable pub with_targets :
      RollbackEnv → CutoverParams → Probed → World b → World b × Option RollbackFailure
  unfolding fan_out after_stop summed_up
  with_targets env params (interrupted name e) w = (
    mutate b (λ p. record p { failure_note = codes "rollback canceled at " ++ name }) w,
    some (canceled e),
  )
  with_targets env params (probed [] skipped) w = (mutate b (summed_up 0 skipped) w, none)
  with_targets env params (probed (h ∷ hosts) skipped) w =
      after_stop env params (h ∷ hosts) skipped (env.run_phase stop_buckit (h ∷ hosts)).error (
        fan_out b env.run_phase params.hosts stop_buckit (h ∷ hosts)
          (mutate b (at_step (codes "stopping buckit")) w))

  unfoldable pub decoded_rollback :
      RollbackEnv → Option MigrationBody → World b → World b × Option RollbackFailure
  unfolding with_targets probe_hosts mark_skipped seed from_migration_body
  decoded_rollback env none w = (w, some undecodable_params)
  decoded_rollback env (some body) w =
      let params = from_migration_body body in
      with_targets env params (probe_hosts env params.hosts) (
        mutate b
          (λ p. mark_skipped env params.hosts params.hosts (record p {
            host_statuses = seed [] params.hosts;
            total = some (length params.hosts);
            current = some 0;
            current_step = codes "starting rollback";
          }))
          w)

  unfoldable pub rollback : RollbackEnv → World b → World b × Option RollbackFailure
  unfolding decoded_rollback
  rollback env w = decoded_rollback env env.body w
