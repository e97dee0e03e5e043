-- ===== src/Migration/Cutover/Defs.antt =====
-- `CutoverExecutor` of internal/migration/executor.go. What the hosts and the admin API answer is an
-- argument, the `Env`; log lines are left out.
use bm.Base.{ℕ, Option, none, some, List, [], ◌∷◌, ◌++◌, Str, codes, length}
use bm.Store.{Result, ok, err}
use bm.Store.Json.{Json}
use bm.Store.Bucket.{Bucket}
use bm.Domain.{HostRow, Cluster}
use bm.Clusters.Repo.{ClusterDb, get_cluster, put_cluster}
use bm.Tasks.Types.{HostOpState, OperationProgress}
use bm.Migration.Types.{CutoverParams, MigrationBody, from_migration_body, validate}
use bm.Migration.Hosts.{emit_all, mark_all, Partition, no_host_online, parted, partition_hosts}
use bm.Migration.Cutover.Env.{
  HostPhase, pre_stage, switch, stop_buckit, start_minio, Call, fans_out, waits_online, PhaseRun,
  Env, Failure, undecodable_params, no_hosts_online, invalid, no_creds, probe_failed,
  pre_stage_failed, switch_failed, verify_failed, flip_failed, cause_text, dash, distinct, at_step,
  seed, migrated, completed, verify_outcome,
}

module _ (b : Bucket (Json Cluster)) where
  -- The progress of the task, the calls of the installer so far, and the bucket of the clusters.
  pub record World : Type 0 where
    pub progress : OperationProgress
    pub calls : List Call
    pub clusters : ClusterDb b

  abbrev pub mutate : (OperationProgress → OperationProgress) → World → World
  mutate f w = record w { progress = f w.progress }

  -- `fanOut`: the phase begins on every host at once, and the first error cancels the context of the
  -- others, which may cut them short. What becomes of each is in the events of the `PhaseRun`, which
  -- the state of its row follows.
  unfoldable pub fan_out :
      (HostPhase → List HostRow → PhaseRun)
      → List HostRow
      → HostPhase
      → List HostRow
      → World
      → World
  unfolding emit_all
  fan_out run hosts phase attempted w = record w {
    progress = emit_all hosts (run phase attempted).events w.progress;
    calls = w.calls ++ (fans_out phase attempted ∷ []);
  }

  -- The end of `autoRollback`, on the errors of StartMinio and of StopBuckit.
  unfoldable pub rolled_back :
      List HostRow → List HostRow → Failure → Option Str → Option Str → World → World
  unfolding mark_all
  rolled_back hosts attempted cause (some start_error) stop_error w =
      mutate
        (λ p. record p {
          failure_note =
              codes "cutover failed ("
              ++ cause_text cause
              ++ codes ") AND rollback failed ("
              ++ start_error
              ++ codes
                  "). Manual intervention required: stop buckit.service and start minio.service on the affected hosts.";
        })
        w
  rolled_back hosts attempted cause none (some stop_error) w =
      mutate
        (λ p. mark_all hosts attempted HostOpState.failed (codes "Rolled back to MinIO") (record p {
          failure_note =
              codes "cutover failed ("
              ++ cause_text cause
              ++ codes "); rollback recovered but stop-buckit had errors: "
              ++ stop_error;
        }))
        w
  rolled_back hosts attempted cause none none w =
      mutate (mark_all hosts attempted HostOpState.failed (codes "Rolled back to MinIO")) w

  unfoldable pub auto_rollback :
      Env → List HostRow → List HostRow → Failure → World → World × Option Failure
  unfolding fan_out rolled_back
  auto_rollback env hosts attempted cause w =
      let begun =
        mutate
          (λ p. record p {
            current_step = codes "rolling back: stopping buckit";
            failure_note =
                codes "cutover failed; rolling back attempted hosts: " ++ cause_text cause;
          })
          w in
      let stopped = fan_out env.run_phase hosts stop_buckit attempted begun in
      let started =
        fan_out env.run_phase hosts start_minio attempted
          (mutate (at_step (codes "rolling back: starting minio")) stopped) in
      (
        rolled_back hosts attempted cause (env.run_phase start_minio attempted).error
            (env.run_phase stop_buckit attempted).error started,
        some cause,
      )

  -- `commitEngineFlip`.
  unfoldable pub flip_read :
      Env → CutoverParams → Result Cluster → World → World × Result (Unit {0})
  unfolding migrated
  flip_read env params (err e) w = (w, err e)
  flip_read env params (ok c) w =
      let (db, answer) =
        put_cluster b (migrated params env.now env.snapshot_version c) env.write w.clusters in
      (record w { clusters = db }, answer)

  unfoldable pub commit_engine_flip : Env → CutoverParams → World → World × Result (Unit {0})
  unfolding flip_read
  commit_engine_flip env params w =
      flip_read env params (get_cluster b params.source_cluster_id env.reads_in_time w.clusters) w

  unfoldable pub after_flip :
      Env → CutoverParams → ℕ → ℕ → World × Result (Unit {0}) → World × Option Failure
  unfolding completed
  after_flip env params n_migrated n_skipped (w, err e) = (w, some (flip_failed e))
  after_flip env params n_migrated n_skipped (w, ok _) =
      (mutate (completed params n_migrated n_skipped env.verified) w, none)

  -- With the hosts parted.
  module _ (env : Env) (params : CutoverParams) (attempted : List HostRow)
      (skipped : List Str) where
    unfoldable pub after_verify : Option Str → World → World × Option Failure
    unfolding auto_rollback commit_engine_flip after_flip mark_all distinct
    after_verify (some e) w = auto_rollback env params.hosts attempted (verify_failed e) w
    after_verify none w = after_flip env params (length attempted) (distinct skipped) (
        commit_engine_flip env params (
          mutate
            (λ p.
              record (mark_all params.hosts attempted HostOpState.succeeded (codes "Migrated") p) {
                current = some (length attempted);
              })
            w))

    unfoldable pub after_switch : Option Str → World → World × Option Failure
    unfolding auto_rollback after_verify verify_outcome
    after_switch (some e) w = auto_rollback env params.hosts attempted (switch_failed e) w
    after_switch none w =
        after_verify (verify_outcome env attempted)
          (record (mutate (at_step (codes "verifying cluster health")) w) {
            calls = w.calls ++ (waits_online attempted ∷ []);
          })

    unfoldable pub after_pre_stage : Option Str → World → World × Option Failure
    unfolding fan_out after_switch
    after_pre_stage (some e) w = (
      mutate
          (λ p. record p {
            failure_note =
                codes "pre-stage failed: " ++ e ++ codes " " ++ dash ++ codes " cluster untouched";
            current_step = codes "pre-stage failed";
          })
          w,
      some (pre_stage_failed e),
    )
    after_pre_stage none w = after_switch (env.run_phase switch attempted).error (
        fan_out env.run_phase params.hosts switch attempted
          (mutate (at_step (codes "cutover (downtime)")) w))

    unfoldable pub run_phases : World → World × Option Failure
    unfolding fan_out after_pre_stage seed
    run_phases w =
        let seeded =
          mutate
            (λ p. record p {
              host_statuses = seed skipped params.hosts;
              total = some (length attempted);
              current = some 0;
              current_step = codes "starting cutover";
            })
            w in
        after_pre_stage (env.run_phase pre_stage attempted).error (
          fan_out env.run_phase params.hosts pre_stage attempted
            (mutate (at_step (codes "pre-staging")) seeded))

  unfoldable pub with_hosts : Env → CutoverParams → Partition → World → World × Option Failure
  unfolding run_phases
  with_hosts env params no_host_online w =
      (w, some (probe_failed (codes "ServerInfo reported zero online hosts")))
  with_hosts env params (parted [] skipped) w = (w, some no_hosts_online)
  with_hosts env params (parted (h ∷ hosts) skipped) w = run_phases env params (h ∷ hosts) skipped w

  unfoldable pub with_creds : Env → CutoverParams → Option Str → World → World × Option Failure
  unfolding with_hosts partition_hosts
  with_creds env params (some e) w = (w, some (no_creds e))
  with_creds env params none w = with_hosts env params (partition_hosts env.servers params.hosts) w

  unfoldable pub checked : Env → CutoverParams → Option Str → World → World × Option Failure
  unfolding with_creds
  checked env params (some e) w = (w, some (invalid e))
  checked env params none w = with_creds env params env.creds_error w

  unfoldable pub decoded_body : Env → Option MigrationBody → World → World × Option Failure
  unfolding checked from_migration_body validate
  decoded_body env none w = (w, some undecodable_params)
  decoded_body env (some body) w =
      let params = from_migration_body body in
      checked env params (validate env.known_version params) w

  unfoldable pub execute : Env → World → World × Option Failure
  unfolding decoded_body
  execute env w = decoded_body env env.body w
