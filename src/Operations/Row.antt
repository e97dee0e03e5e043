-- ===== src/Operations/Row.antt =====
-- What an executor of internal/operations writes into the row of its cluster (helpers.go):
-- refreshClusterRow, setAPIFrozen and markUnreachable. Their errors are dropped.
use bm.Base.{ℕ, Bool, Option, none, some, Str, is_empty, if◌then◌else◌, List}
use bm.Store.{ok, err, Outcome}
use bm.Store.Json.{Json}
use bm.Store.Bucket.{Bucket}
use bm.Domain.{Cluster, Node, HealthState}
use bm.Clusters.Health.{summarize, rollup}
use bm.Clusters.Repo.{ClusterDb, get_cluster, put_cluster}
use bm.Discovery.Engine.{parse_engine}
use bm.Operations.Versions.{ServerInfo}
use bm.Operations.Versions.Waiting.{Fetched, unavailable, info}

abbrev pub or_now : ℕ → Option ℕ → Option ℕ
or_now now none = some now
or_now now (some t) = some t

-- The row when the admin API does not answer.
unfoldable pub away : ℕ → Cluster → Cluster
away now c = record c {
  last_fetched_at = some now;
  unreachable_since = or_now now c.unreachable_since;
}

-- The row after an answer.
unfoldable pub answered : ℕ → ServerInfo → List Node → Cluster → Cluster
unfolding parse_engine summarize rollup
answered now i nodes c =
    let fresh : Cluster = record c {
      last_fetched_at = some now;
      unreachable_since = none;
      version = if is_empty i.version then c.version else i.version;
      engine = if is_empty i.version then c.engine else parse_engine i.version;
      raw_bytes = i.raw;
      used_bytes = i.used;
      usable_bytes = i.usable;
      pool_count = i.pools;
      health_summary = some (summarize nodes);
    } in
    record fresh { health = rollup fresh (summarize nodes) }

unfoldable pub refreshed : ℕ → Fetched → List Node → Cluster → Cluster
unfolding away answered
refreshed now (unavailable e) nodes c = away now c
refreshed now (info i) nodes c = answered now i nodes c

unfoldable pub stopped : ℕ → Cluster → Cluster
stopped now c = record c {
  unreachable_since = some now;
  last_fetched_at = some now;
  health = HealthState.unknown;
}

unfoldable pub frozen : ℕ → Bool → Cluster → Cluster
frozen now flag c = record c { api_frozen = flag; last_activity_at = now }

module _ (b : Bucket (Json Cluster)) where
  -- Get, change and Put; nothing is done where Get fails.
  unfoldable pub rewrite_row :
      Str → Bool → Outcome → (Cluster → Cluster) → ClusterDb b → ClusterDb b
  unfolding get_cluster put_cluster
  rewrite_row id in_time o change db = elim (get_cluster b id in_time db) [
    | err e ↦ db
    | ok c ↦ (put_cluster b (change c) o db).0
  ]
