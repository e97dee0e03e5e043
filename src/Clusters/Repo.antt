-- ===== src/Clusters/Repo.antt =====
-- Get and Put of internal/clusters/clusters.go, over the bucket of the clusters.
use bm.Base.{Bool, Option, none, some, Str, is_empty, if◌then◌else◌}
use bm.Store.{
  id_required, bucket_missing, not_found, undecodable, bucket_error, Result, ok, err, ◌>>=◌,
  or_fail, Outcome, update, view,
}
use bm.Store.Bucket.{Bucket}
use bm.Store.Json.{Json, json, malformed}
use bm.Domain.{Cluster}

module _ (b : Bucket (Json Cluster)) where
  -- `none` where the bucket is missing.
  abbrev pub ClusterDb : Type 0
  ClusterDb = Option b.T

  unfoldable pub decoded : Option (Json Cluster) → Result Cluster
  decoded none = err not_found
  decoded (some (malformed raw)) = err undecodable
  decoded (some (json c)) = ok c

  unfoldable pub get_tx : Str → ClusterDb → Result Cluster
  unfolding decoded
  get_tx id none = err bucket_missing
  get_tx id (some t) = decoded (b.get id t)

  unfoldable pub get_cluster : Str → Bool → ClusterDb → Result Cluster
  unfolding get_tx view
  get_cluster id in_time db = view in_time (get_tx id) db

  unfoldable pub put_tx : Cluster → ClusterDb → Result (ClusterDb × Unit {0})
  put_tx c none = err bucket_missing
  put_tx c (some t) = do u ← or_fail (b.put c.id (json c) t) bucket_error; ok (some u, tt)

  unfoldable pub put_cluster : Cluster → Outcome → ClusterDb → ClusterDb × Result (Unit {0})
  unfolding put_tx update
  put_cluster c o db = if is_empty c.id then (db, err id_required) else update o (put_tx c) db
