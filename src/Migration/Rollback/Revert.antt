-- ===== src/Migration/Rollback/Revert.antt =====
-- The revert of the engine at the end of a rollback, in internal/migration/rollback.go.
use bm.Base.{ℕ, ◌≡◌, refl, ap, sym, subst, Option, none, some, List, [], ◌∷◌, Str, length}
use bm.Store.{Result, ok, err}
use bm.Store.Json.{Json, json}
use bm.Store.Bucket.{Bucket}
use bm.Domain.{HostRow, Cluster, ClusterEngine}
use bm.Clusters.Repo.{ClusterDb, get_cluster, put_cluster}
use bm.Migration.Types.{CutoverParams, MigrationBody, from_migration_body}
use bm.Migration.Cutover.Env.{stop_buckit, start_minio}
use bm.Migration.Cutover.Defs.{World, fan_out}
use bm.Migration.Cutover.Flip.{put_inv}
use bm.Migration.Rollback.Defs.{
  RollbackEnv, RollbackFailure, Probed, probed, probe_hosts, reverted, after_revert, revert_read,
  commit_engine_revert, after_start, after_stop, with_targets, decoded_rollback, rollback,
}

module _ (b : Bucket (Json Cluster)) where
  -- The row of a cluster that is back on MinIO: it has no version and no origin, and all else but the
  -- times is as before.
  pub record Back (now : ℕ) (c c' : Cluster) : Type 0 where
    pub engine : c'.engine ≡ ClusterEngine.minio
    pub version : c'.version ≡ []
    pub origin : c'.migrated_from ≡ none
    pub times : (c'.last_fetched_at ≡ some now) × (c'.last_activity_at ≡ now)
    pub rest :
        record c' {
          engine = c.engine;
          version = c.version;
          migrated_from = c.migrated_from;
          last_fetched_at = c.last_fetched_at;
          last_activity_at = c.last_activity_at;
        }
        ≡ c

  reverted-Back : (now : ℕ) (c : Cluster) → Back now c (reverted now c)
  unfolding reverted
  reverted-Back now c = record {
    engine = refl;
    version = refl;
    origin = refl;
    times = (refl, refl);
    rest = refl;
  }

  -- What a rollback of some targets that ends without a failure has done to the clusters.
  abbrev pub Reverted : RollbackEnv → CutoverParams → World b → World b → Type 0
  Reverted env params w w' =
      (c c' : Cluster) × (t : b.T) × (get_cluster b params.source_cluster_id env.reads_in_time
          w.clusters
        ≡ ok c)
      × (w'.clusters ≡ some t)
      × (b.get c.id t ≡ some (json c'))
      × Back env.now c c'

  abbrev Claimed : RollbackEnv → CutoverParams → World b → World b × Option RollbackFailure → Type 0
  Claimed env params w (w', some e) = Unit
  Claimed env params w (w', none) = Reverted env params w w'

  written_reverted :
      (env : RollbackEnv) (params : CutoverParams) (n k : ℕ) (w w' : World b) (c : Cluster)
      (x : ClusterDb b × Result (Unit {0}))
      → get_cluster b params.source_cluster_id env.reads_in_time w.clusters ≡ ok c
      → put_cluster b (reverted env.now c) env.write w'.clusters ≡ x
      → Claimed env params w (after_revert b n k (record w' { clusters = x.0 }, x.1))
  unfolding after_revert reverted
  written_reverted env params n k w w' c (db, err e) found wrote = tt
  written_reverted env params n k w w' c (db, ok u) found wrote =
      let (t, same, stored) = put_inv b (reverted env.now c) env.write w'.clusters db wrote in
      (c, _, t, found, same, stored, reverted-Back env.now c)

  read_reverted :
      (env : RollbackEnv) (params : CutoverParams) (n k : ℕ) (w w' : World b) (x : Result Cluster)
      → get_cluster b params.source_cluster_id env.reads_in_time w.clusters ≡ x
      → Claimed env params w (after_revert b n k (revert_read b env x w'))
  unfolding after_revert revert_read
  read_reverted env params n k w w' (err e) found = tt
  read_reverted env params n k w w' (ok c) found =
      written_reverted env params n k w w' c
        (put_cluster b (reverted env.now c) env.write w'.clusters) found refl

  module _ (env : RollbackEnv) (params : CutoverParams) (targets : List HostRow) (skipped : ℕ)
      (w : World b) where
    start_reverts :
        (o : Option Str) (w' : World b)
        → w'.clusters ≡ w.clusters
        → Claimed env params w (after_start b env params targets skipped o w')
    unfolding after_start commit_engine_revert
    start_reverts (some e) w' same = tt
    start_reverts none w' same =
        read_reverted env params (length targets) skipped w _
          (get_cluster b params.source_cluster_id env.reads_in_time w'.clusters)
          (ap (get_cluster b params.source_cluster_id env.reads_in_time) (sym same))

    stop_reverts :
        (o : Option Str) (w' : World b)
        → w'.clusters ≡ w.clusters
        → Claimed env params w (after_stop b env params targets skipped o w')
    unfolding after_stop fan_out
    stop_reverts (some e) w' same = tt
    stop_reverts none w' same = start_reverts (env.run_phase start_minio targets).error _ same

  targets_revert :
      (env : RollbackEnv) (params : CutoverParams) (h : HostRow) (hosts : List HostRow) (k : ℕ)
      (w w' : World b)
      → w'.clusters ≡ w.clusters
      → Claimed env params w (with_targets b env params (probed (h ∷ hosts) k) w')
  unfolding with_targets fan_out
  targets_revert env params h hosts k w w' same =
      stop_reverts env params (h ∷ hosts) k w (env.run_phase stop_buckit (h ∷ hosts)).error _ same

  probed_revert :
      (env : RollbackEnv) (params : CutoverParams) (h : HostRow) (hosts : List HostRow) (k : ℕ)
      (w w' : World b) (x : Probed)
      → x ≡ probed (h ∷ hosts) k
      → w'.clusters ≡ w.clusters
      → Claimed env params w (with_targets b env params x w')
  probed_revert env params h hosts k w w' x found same =
      subst (λ y. Claimed env params w (with_targets b env params y w')) (sym found)
        (targets_revert env params h hosts k w w' same)

  -- A rollback that finds at least one target and succeeds has read the cluster's row before, and has
  -- stored it again with the engine MinIO, no version and no origin, and all
  -- else but its times as before.
  pub rollback-Reverted :
      (env : RollbackEnv) (body : MigrationBody) (h : HostRow) (hosts : List HostRow) (k : ℕ)
      (w w' : World b)
      → env.body ≡ some body
      → probe_hosts env (from_migration_body body).hosts ≡ probed (h ∷ hosts) k
      → rollback b env w ≡ (w', none)
      → Reverted env (from_migration_body body) w w'
  unfolding rollback decoded_rollback
  rollback-Reverted env body h hosts k w w' e found done =
      subst (Claimed env (from_migration_body body) w) done (
        rw e (
          probed_revert env (from_migration_body body) h hosts k w _
            (probe_hosts env (from_migration_body body).hosts) found refl))
