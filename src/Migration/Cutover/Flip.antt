-- ===== src/Migration/Cutover/Flip.antt =====
-- The flip of the engine at the end of a cutover, in internal/migration/executor.go.
use bm.Base.{
  ℕ, ◌≡◌, refl, sym, ap, subst, true, false, Option, none, some, List, [], ◌∷◌, Str, length, arith,
  Option-cases, inl, inr, str_refl, codes, is_empty, if◌then◌else◌,
}
use bm.Store.{Result, ok, err, Outcome, prompt, commit_fails, timed_out}
use bm.Store.Json.{Json, json}
use bm.Store.Bucket.{Bucket}
use bm.Domain.{HostRow, Cluster, ClusterEngine}
use bm.Clusters.Repo.{ClusterDb, get_cluster, put_cluster}
use bm.Migration.Types.{CutoverParams, MigrationBody, validate, from_migration_body}
use bm.Migration.Hosts.{Partition, no_host_online, parted, partition_hosts}
use bm.Migration.Cutover.Defs.{
  World, fan_out, auto_rollback, after_flip, flip_read, commit_engine_flip, after_verify,
  after_switch, after_pre_stage, run_phases, with_hosts, with_creds, checked, decoded_body, execute,
}
use bm.Migration.Cutover.Env.{pre_stage, switch, Env, Failure, migrated, distinct, verify_outcome}

module _ (b : Bucket (Json Cluster)) where
  -- A put that answers without an error has stored the cluster.
  pub put_inv :
      (c : Cluster) (o : Outcome) (db db' : ClusterDb b)
      → put_cluster b c o db ≡ (db', ok tt)
      → (t : b.T) × (db' ≡ some t) × (b.get c.id t ≡ some (json c))
  unfolding put_cluster
  put_inv c prompt none db' h = absurd (ground (arith, h))
  put_inv c prompt (some t) db' h = elim (Option-cases (b.put c.id (json c) t)) [
    | inl refused ↦ absurd (ground (arith, h, refused))
    | inr (u, stored) ↦ (
      u,
      ground (arith, h, stored),
      rw (b.get-put c.id c.id (json c) t u stored, str_refl c.id) refl,
    )
  ]
  put_inv c commit_fails none db' h = absurd (ground (arith, h))
  put_inv c commit_fails (some t) db' h = elim (Option-cases (b.put c.id (json c) t)) [
    | inl refused ↦ absurd (ground (arith, h, refused))
    | inr (u, stored) ↦ absurd (ground (arith, h, stored))
  ]
  put_inv c (timed_out true) db db' h = absurd (ground (arith, h))
  put_inv c (timed_out false) db db' h = absurd (ground (arith, h))

  -- The row of a cluster that has moved to Buckit: the engine, the version and the origin are new, a
  -- name and a description that the cutover gives are taken, and all else is as before.
  pub record Moved (env : Env) (params : CutoverParams) (c c' : Cluster) : Type 0 where
    pub engine : c'.engine ≡ ClusterEngine.buckit
    pub version : c'.version ≡ params.target_version
    pub name : c'.name ≡ (if is_empty params.name then c.name else params.name)
    pub description :
        c'.description ≡ (if is_empty params.description then c.description else params.description)
    pub origin :
        c'.migrated_from
        ≡ some (record {
          product = codes "minio";
          version = elim env.snapshot_version [ none ↦ [] | some v ↦ v ];
          finalized_at = env.now;
        })
    pub times : (c'.last_fetched_at ≡ some env.now) × (c'.last_activity_at ≡ env.now)
    pub rest :
        record c' {
          engine = c.engine;
          version = c.version;
          name = c.name;
          description = c.description;
          migrated_from = c.migrated_from;
          last_fetched_at = c.last_fetched_at;
          last_activity_at = c.last_activity_at;
        }
        ≡ c

  migrated-Moved :
      (env : Env) (params : CutoverParams) (c : Cluster)
      → Moved env params c (migrated params env.now env.snapshot_version c)
  unfolding migrated
  migrated-Moved env params c = record {
    engine = refl;
    version = refl;
    name = refl;
    description = refl;
    origin = refl;
    times = (refl, refl);
    rest = refl;
  }

  -- What a cutover that ends without a failure has done to the clusters.
  abbrev pub Flipped : Env → CutoverParams → World b → World b → Type 0
  Flipped env params w w' =
      (c c' : Cluster) × (t : b.T) × (get_cluster b params.source_cluster_id env.reads_in_time
          w.clusters
        ≡ ok c)
      × (w'.clusters ≡ some t)
      × (b.get c.id t ≡ some (json c'))
      × Moved env params c c'

  abbrev Claimed : Env → CutoverParams → World b → World b × Option Failure → Type 0
  Claimed env params w (w', some e) = Unit
  Claimed env params w (w', none) = Flipped env params w w'

  written_flipped :
      (env : Env) (params : CutoverParams) (n k : ℕ) (w w' : World b) (c : Cluster)
      (x : ClusterDb b × Result (Unit {0}))
      → get_cluster b params.source_cluster_id env.reads_in_time w.clusters ≡ ok c
      → put_cluster b (migrated params env.now env.snapshot_version c) env.write w'.clusters ≡ x
      → Claimed env params w (after_flip b env params n k (record w' { clusters = x.0 }, x.1))
  unfolding after_flip migrated
  written_flipped env params n k w w' c (db, err e) found wrote = tt
  written_flipped env params n k w w' c (db, ok u) found wrote =
      let (t, same, stored) =
        put_inv (migrated params env.now env.snapshot_version c) env.write w'.clusters db wrote in
      (c, _, t, found, same, stored, migrated-Moved env params c)

  read_flipped :
      (env : Env) (params : CutoverParams) (n k : ℕ) (w w' : World b) (x : Result Cluster)
      → get_cluster b params.source_cluster_id env.reads_in_time w.clusters ≡ x
      → Claimed env params w (after_flip b env params n k (flip_read b env params x w'))
  unfolding after_flip flip_read
  read_flipped env params n k w w' (err e) found = tt
  read_flipped env params n k w w' (ok c) found =
      written_flipped env params n k w w' c
        (put_cluster b (migrated params env.now env.snapshot_version c) env.write w'.clusters) found
        refl

  module _ (env : Env) (params : CutoverParams) (attempted : List HostRow) (skipped : List Str)
      (w : World b) where
    verify_flips :
        (o : Option Str) (w' : World b)
        → w'.clusters ≡ w.clusters
        → Claimed env params w (after_verify b env params attempted skipped o w')
    unfolding after_verify auto_rollback commit_engine_flip
    verify_flips (some e) w' same = tt
    verify_flips none w' same =
        read_flipped env params (length attempted) (distinct skipped) w _
          (get_cluster b params.source_cluster_id env.reads_in_time w'.clusters)
          (ap (get_cluster b params.source_cluster_id env.reads_in_time) (sym same))

    switch_flips :
        (o : Option Str) (w' : World b)
        → w'.clusters ≡ w.clusters
        → Claimed env params w (after_switch b env params attempted skipped o w')
    unfolding after_switch auto_rollback
    switch_flips (some e) w' same = tt
    switch_flips none w' same = verify_flips (verify_outcome env attempted) _ same

    stage_flips :
        (o : Option Str) (w' : World b)
        → w'.clusters ≡ w.clusters
        → Claimed env params w (after_pre_stage b env params attempted skipped o w')
    unfolding after_pre_stage fan_out
    stage_flips (some e) w' same = tt
    stage_flips none w' same = switch_flips (env.run_phase switch attempted).error _ same

    run_flips : Claimed env params w (run_phases b env params attempted skipped w)
    unfolding run_phases fan_out
    run_flips = stage_flips (env.run_phase pre_stage attempted).error _ refl

  hosts_flip :
      (env : Env) (params : CutoverParams) (p : Partition) (w : World b)
      → Claimed env params w (with_hosts b env params p w)
  unfolding with_hosts
  hosts_flip env params no_host_online w = tt
  hosts_flip env params (parted [] skipped) w = tt
  hosts_flip env params (parted (h ∷ hosts) skipped) w = run_flips env params (h ∷ hosts) skipped w

  creds_flip :
      (env : Env) (params : CutoverParams) (o : Option Str) (w : World b)
      → Claimed env params w (with_creds b env params o w)
  unfolding with_creds
  creds_flip env params (some e) w = tt
  creds_flip env params none w = hosts_flip env params (partition_hosts env.servers params.hosts) w

  checked_flips :
      (env : Env) (params : CutoverParams) (o : Option Str) (w : World b)
      → Claimed env params w (checked b env params o w)
  unfolding checked
  checked_flips env params (some e) w = tt
  checked_flips env params none w = creds_flip env params env.creds_error w

  body_flips :
      (env : Env) (body : MigrationBody) (o : Option MigrationBody) (w : World b)
      → o ≡ some body
      → Claimed env (from_migration_body body) w (decoded_body b env o w)
  unfolding decoded_body
  body_flips env body o w h =
      subst (λ x. Claimed env (from_migration_body body) w (decoded_body b env x w)) (sym h)
        (checked_flips env (from_migration_body body)
          (validate env.known_version (from_migration_body body)) w)

  outcome-Flipped :
      (env : Env) (params : CutoverParams) (w w' : World b) (x : World b × Option Failure)
      → x ≡ (w', none)
      → Claimed env params w x
      → Flipped env params w w'
  outcome-Flipped env params w w' x h v = subst (Claimed env params w) h v

  -- A cutover that succeeds has read the cluster's row before, and has stored it again with the engine
  -- Buckit, the target version and the origin MinIO, its name and description where the cutover gives
  -- some, and all else as before.
  pub execute-Flipped :
      (env : Env) (body : MigrationBody) (w w' : World b)
      → env.body ≡ some body
      → execute b env w ≡ (w', none)
      → Flipped env (from_migration_body body) w w'
  unfolding execute
  execute-Flipped env body w w' e h =
      outcome-Flipped env (from_migration_body body) w w' (execute b env w) h
        (body_flips env body env.body w e)
