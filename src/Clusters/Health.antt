-- ===== src/Clusters/Health.antt =====
-- internal/clusters/health.go: a cluster's health from the states of its nodes and drives.
use bm.Base.{
  ℕ, suc, ◌+◌, Bool, true, ◌||◌, List, [], ◌∷◌, ltb, ◌==◌, if◌then◌else◌, length, ℤ, pos, negsuc,
}
use bm.Domain.{
  Drive, DriveState, Node, NodeState, NodeRollup, DriveRollup, HealthSummary, HealthState, Cluster,
}

abbrev ready_drive : DriveRollup → DriveRollup
ready_drive r = record r { ready = suc r.ready }

abbrev healing_drive : DriveRollup → DriveRollup
healing_drive r = record r { healing = suc r.healing }

abbrev failed_drive : DriveRollup → DriveRollup
failed_drive r = record r { failed = suc r.failed }

-- The switch on a drive's state: an unknown one is not counted.
unfoldable pub count_state : DriveState → DriveRollup → DriveRollup
count_state DriveState.ready r = ready_drive r
count_state DriveState.healing r = healing_drive r
count_state DriveState.unknown r = r
count_state DriveState.failed r = failed_drive r
count_state (DriveState.other s) r = failed_drive r

unfoldable pub count_drives : List Drive → DriveRollup → DriveRollup
unfolding count_state
count_drives [] r = r
count_drives (d ∷ ds) r = count_drives ds (if d.is_boot then r else count_state d.state r)

unfoldable pub count_node : NodeState → NodeRollup → NodeRollup
count_node NodeState.online r = record r { online = suc r.online }
count_node NodeState.degraded r = record r { degraded = suc r.degraded }
count_node NodeState.offline r = record r { offline = suc r.offline }
count_node NodeState.unknown r = record r { offline = suc r.offline }
count_node NodeState.unreachable r = record r { offline = suc r.offline }
count_node (NodeState.other s) r = record r { offline = suc r.offline }

-- The loop over the nodes. The totals are written after it.
unfoldable pub count_nodes : List Node → NodeRollup → DriveRollup → HealthSummary
unfolding count_drives count_node
count_nodes [] n d = record { nodes = n; drives = d }
count_nodes (x ∷ xs) n d = count_nodes xs (count_node x.state n) (count_drives x.drives d)

unfoldable pub with_totals : ℕ → HealthSummary → HealthSummary
with_totals nodes s = record {
  nodes = record (s.nodes) { total = nodes };
  drives = record (s.drives) { total = s.drives.ready + s.drives.healing + s.drives.failed };
}

abbrev pub no_nodes : NodeRollup
no_nodes = record { online = 0; degraded = 0; offline = 0; total = 0 }

abbrev pub no_drives : DriveRollup
no_drives = record { ready = 0; healing = 0; failed = 0; total = 0 }

unfoldable pub summarize : List Node → HealthSummary
unfolding count_nodes with_totals
summarize nodes = with_totals (length nodes) (count_nodes nodes no_nodes no_drives)

-- n > z, for a count and a signed integer.
abbrev pub exceeds : ℕ → ℤ → Bool
exceeds n (pos z) = ltb z n
exceeds n (negsuc z) = true

unfoldable pub rollup : Cluster → HealthSummary → HealthState
rollup c s =
    if s.nodes.total == 0
    then HealthState.unknown
    else if exceeds s.drives.failed c.parity
    then HealthState.critical
    else if exceeds s.nodes.offline c.parity
    then HealthState.critical
    else if ltb 0 s.nodes.offline || ltb 0 s.nodes.degraded
    then HealthState.degraded
    else if ltb 0 s.drives.healing || ltb 0 s.drives.failed
    then HealthState.degraded
    else HealthState.healthy
