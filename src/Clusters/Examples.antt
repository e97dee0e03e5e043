-- ===== src/Clusters/Examples.antt =====
-- A cluster of two nodes, one of them offline, with a failed drive.
use bm.Base.{
  ◌+◌, ◌≤◌, ◌<◌, ◌≡◌, refl, ◌↔◌, ◌⊎◌, Bool, true, false, none, List, [], ◌∷◌, Str, codes, pos,
  length,
}
use bm.Domain.{Drive, DriveState, Node, NodeState, Cluster, ClusterEngine, HealthState}
use bm.Clusters.Health.{summarize, rollup}
use bm.Clusters.Rollup.{
  is_online, is_degraded, is_away, is_ready, is_healing, is_failed, nodes_with, data_drives_with,
  summarize_lem, rollup-summarize,
}

abbrev drive : DriveState → Bool → Drive
drive state boot = record {
  mount = codes "/d";
  device = codes "sdb";
  state = state;
  is_boot = boot;
}

abbrev pub node : Str → NodeState → List Drive → Node
node name state drives = record {
  id = name;
  cluster_id = codes "c1";
  hostname = name;
  ssh_port = pos 22;
  state = state;
  drives = drives;
  pool = pos 1;
}

abbrev pub nodes : List Node
nodes =
    node (codes "n1") NodeState.online
      (drive DriveState.ready false ∷ drive DriveState.failed true ∷ [])
    ∷ node (codes "n2") NodeState.unreachable
        (drive DriveState.failed false ∷ drive DriveState.unknown false ∷ [])
    ∷ []

abbrev pub cluster : Cluster
cluster = record {
  id = codes "c1";
  name = codes "one";
  description = [];
  engine = ClusterEngine.buckit;
  version = codes "v1";
  health = HealthState.unknown;
  health_summary = none;
  node_count = pos 2;
  pool_count = pos 1;
  drive_count = pos 4;
  parity = pos 1;
  usable_bytes = pos 0;
  raw_bytes = pos 0;
  used_bytes = pos 0;
  last_fetched_at = none;
  unreachable_since = none;
  ssh_configured = true;
  api_frozen = false;
  last_activity_at = 0;
  created_at = 0;
  migrated_from = none;
  console_url = [];
  console_port = pos 0;
}

summarize_lem_example :
    ((summarize nodes).nodes.online ≡ nodes_with is_online nodes)
    × (((summarize nodes).nodes.degraded ≡ nodes_with is_degraded nodes)
        × (((summarize nodes).nodes.offline ≡ nodes_with is_away nodes)
            × (((summarize nodes).nodes.total ≡ length nodes)
                × (((summarize nodes).nodes.online
                        + (summarize nodes).nodes.degraded
                        + (summarize nodes).nodes.offline
                      ≡ length nodes)
                    × (((summarize nodes).drives.ready ≡ data_drives_with is_ready nodes)
                        × (((summarize nodes).drives.healing ≡ data_drives_with is_healing nodes)
                            × (((summarize nodes).drives.failed ≡ data_drives_with is_failed nodes)
                                × ((summarize nodes).drives.total
                                    ≡ data_drives_with is_ready nodes
                                      + data_drives_with is_healing nodes
                                      + data_drives_with is_failed nodes))))))))
summarize_lem_example = summarize_lem nodes

rollup-summarize_example :
    ((rollup cluster (summarize nodes) ≡ HealthState.healthy) ↔ (
      (1 ≤ length nodes)
      × ((nodes_with is_online nodes ≡ length nodes)
          × ((data_drives_with is_healing nodes ≡ 0) × (data_drives_with is_failed nodes ≡ 0)))))
    × ((rollup cluster (summarize nodes) ≡ HealthState.critical) ↔ (
        (1 ≤ length nodes)
        × ((1 < data_drives_with is_failed nodes) ⊎ (1 < nodes_with is_away nodes))))
rollup-summarize_example = rollup-summarize cluster nodes 1 refl
