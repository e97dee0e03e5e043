-- ===== src/Clusters/Rollup.antt =====
-- The counts and the headline status of internal/clusters/health.go.
use bm.Base.{
  ℕ, ◌+◌, ◌<◌, ◌≤◌, ◌≡◌, ◌↔◌, ◌⊎◌, Bool, true, false, not, ◌&&◌, List, [], ◌∷◌, arith,
  if◌then◌else◌, length, pos,
}
use bm.Domain.{
  Drive, DriveState, Node, NodeState, NodeRollup, DriveRollup, HealthSummary, HealthState, Cluster,
}
use bm.Clusters.Health.{
  count_state, count_drives, count_node, count_nodes, with_totals, no_nodes, no_drives, summarize,
  rollup,
}

abbrev pub is_online : NodeState → Bool
is_online NodeState.online = true
is_online _ = false

abbrev pub is_degraded : NodeState → Bool
is_degraded NodeState.degraded = true
is_degraded _ = false

abbrev pub is_ready : DriveState → Bool
is_ready DriveState.ready = true
is_ready _ = false

abbrev pub is_healing : DriveState → Bool
is_healing DriveState.healing = true
is_healing _ = false

-- Neither ready nor healing, but known.
abbrev pub is_failed : DriveState → Bool
is_failed DriveState.ready = false
is_failed DriveState.healing = false
is_failed DriveState.unknown = false
is_failed _ = true

-- The number of drives of a node, or of nodes, that pass a test.
unfoldable pub drives_with : (DriveState → Bool) → List Drive → ℕ
drives_with p [] = 0
drives_with p (d ∷ ds) = (if not d.is_boot && p d.state then 1 else 0) + drives_with p ds

unfoldable pub data_drives_with : (DriveState → Bool) → List Node → ℕ
unfolding drives_with
data_drives_with p [] = 0
data_drives_with p (x ∷ xs) = drives_with p x.drives + data_drives_with p xs

unfoldable pub nodes_with : (NodeState → Bool) → List Node → ℕ
nodes_with p [] = 0
nodes_with p (x ∷ xs) = (if p x.state then 1 else 0) + nodes_with p xs

drive_step :
    (boot : Bool) (st : DriveState) (r : DriveRollup)
    → ((if boot then r else count_state st r).ready
        ≡ r.ready + (if not boot && is_ready st then 1 else 0))
      × (((if boot then r else count_state st r).healing
            ≡ r.healing + (if not boot && is_healing st then 1 else 0))
          × ((if boot then r else count_state st r).failed
              ≡ r.failed + (if not boot && is_failed st then 1 else 0)))
unfolding count_state
drive_step true st r = (omega arith, (omega arith, omega arith))
drive_step false DriveState.ready r = (omega arith, (omega arith, omega arith))
drive_step false DriveState.healing r = (omega arith, (omega arith, omega arith))
drive_step false DriveState.failed r = (omega arith, (omega arith, omega arith))
drive_step false DriveState.unknown r = (omega arith, (omega arith, omega arith))
drive_step false (DriveState.other s) r = (omega arith, (omega arith, omega arith))

count_drives_lem :
    (ds : List Drive) (r : DriveRollup)
    → ((count_drives ds r).ready ≡ r.ready + drives_with is_ready ds)
      × (((count_drives ds r).healing ≡ r.healing + drives_with is_healing ds)
          × ((count_drives ds r).failed ≡ r.failed + drives_with is_failed ds))
unfolding count_drives drives_with
count_drives_lem [] r = (omega arith, (omega arith, omega arith))
count_drives_lem (d ∷ ds) r =
    let step = drive_step d.is_boot d.state r in
    let rest = count_drives_lem ds (if d.is_boot then r else count_state d.state r) in
    (
      omega (arith, step.0, rest.0),
      (omega (arith, step.1.0, rest.1.0), omega (arith, step.1.1, rest.1.1)),
    )

node_step :
    (st : NodeState) (r : NodeRollup)
    → ((count_node st r).online ≡ r.online + (if is_online st then 1 else 0))
      × (((count_node st r).degraded ≡ r.degraded + (if is_degraded st then 1 else 0))
          × ((count_node st r).offline
              ≡ r.offline + (if not (is_online st) && not (is_degraded st) then 1 else 0)))
unfolding count_node
node_step NodeState.online r = (omega arith, (omega arith, omega arith))
node_step NodeState.offline r = (omega arith, (omega arith, omega arith))
node_step NodeState.degraded r = (omega arith, (omega arith, omega arith))
node_step NodeState.unknown r = (omega arith, (omega arith, omega arith))
node_step NodeState.unreachable r = (omega arith, (omega arith, omega arith))
node_step (NodeState.other s) r = (omega arith, (omega arith, omega arith))

abbrev pub is_away : NodeState → Bool
is_away s = not (is_online s) && not (is_degraded s)

NodesCounted : List Node → NodeRollup → HealthSummary → Type 0
NodesCounted xs n s =
    (s.nodes.online ≡ n.online + nodes_with is_online xs)
    × ((s.nodes.degraded ≡ n.degraded + nodes_with is_degraded xs)
        × (s.nodes.offline ≡ n.offline + nodes_with is_away xs))

count_nodes_nodes :
    (xs : List Node) (n : NodeRollup) (d : DriveRollup) → NodesCounted xs n (count_nodes xs n d)
unfolding NodesCounted count_nodes nodes_with
count_nodes_nodes [] n d = (omega arith, (omega arith, omega arith))
count_nodes_nodes (x ∷ xs) n d =
    let step = node_step x.state n in
    let rest = count_nodes_nodes xs (count_node x.state n) (count_drives x.drives d) in
    (
      omega (arith, step.0, rest.0),
      (omega (arith, step.1.0, rest.1.0), omega (arith, step.1.1, rest.1.1)),
    )

DrivesCounted : List Node → DriveRollup → HealthSummary → Type 0
DrivesCounted xs d s =
    (s.drives.ready ≡ d.ready + data_drives_with is_ready xs)
    × ((s.drives.healing ≡ d.healing + data_drives_with is_healing xs)
        × (s.drives.failed ≡ d.failed + data_drives_with is_failed xs))

count_nodes_drives :
    (xs : List Node) (n : NodeRollup) (d : DriveRollup) → DrivesCounted xs d (count_nodes xs n d)
unfolding DrivesCounted count_nodes data_drives_with
count_nodes_drives [] n d = (omega arith, (omega arith, omega arith))
count_nodes_drives (x ∷ xs) n d =
    let step = count_drives_lem x.drives d in
    let rest = count_nodes_drives xs (count_node x.state n) (count_drives x.drives d) in
    (
      omega (arith, step.0, rest.0),
      (omega (arith, step.1.0, rest.1.0), omega (arith, step.1.1, rest.1.1)),
    )

states_partition :
    (xs : List Node)
    → nodes_with is_online xs + nodes_with is_degraded xs + nodes_with is_away xs ≡ length xs
unfolding nodes_with
states_partition [] = omega arith
states_partition (x ∷ xs) = ground (arith, states_partition xs)

-- The summary counts each node once, as online, degraded or neither, and of the drives that hold
-- data each one in a known state once, as ready, healing or neither; boot drives are left out.
pub summarize_lem :
    (xs : List Node)
    → ((summarize xs).nodes.online ≡ nodes_with is_online xs)
      × (((summarize xs).nodes.degraded ≡ nodes_with is_degraded xs)
          × (((summarize xs).nodes.offline ≡ nodes_with is_away xs)
              × (((summarize xs).nodes.total ≡ length xs)
                  × (((summarize xs).nodes.online
                          + (summarize xs).nodes.degraded
                          + (summarize xs).nodes.offline
                        ≡ length xs)
                      × (((summarize xs).drives.ready ≡ data_drives_with is_ready xs)
                          × (((summarize xs).drives.healing ≡ data_drives_with is_healing xs)
                              × (((summarize xs).drives.failed ≡ data_drives_with is_failed xs)
                                  × ((summarize xs).drives.total
                                      ≡ data_drives_with is_ready xs
                                        + data_drives_with is_healing xs
                                        + data_drives_with is_failed xs))))))))
unfolding summarize with_totals NodesCounted DrivesCounted
summarize_lem xs =
    let n = count_nodes_nodes xs no_nodes no_drives in
    let d = count_nodes_drives xs no_nodes no_drives in ground (arith, n, d, states_partition xs)

summary_rollup :
    (c : Cluster) (s : HealthSummary) (p : ℕ)
    → c.parity ≡ pos p
    → ((rollup c s ≡ HealthState.healthy) ↔ (
        (1 ≤ s.nodes.total)
        × (((s.nodes.offline ≡ 0) × (s.nodes.degraded ≡ 0))
            × ((s.drives.healing ≡ 0) × (s.drives.failed ≡ 0)))))
      × ((rollup c s ≡ HealthState.critical)
          ↔ ((1 ≤ s.nodes.total) × ((p < s.drives.failed) ⊎ (p < s.nodes.offline))))
unfolding rollup
summary_rollup c s p e = rw e (
  (λ h. ground (arith, h), λ h. ground (arith, h)),
  (λ h. ground (arith, h), λ h. ground (arith, h)),
)

-- For a parity that is not negative: a cluster is healthy exactly when it has nodes, all of them are
-- online and none of its data drives is healing or failed, and critical exactly when it has nodes
-- and more failed data drives, or more nodes that do not serve, than its parity.
pub rollup-summarize :
    (c : Cluster) (xs : List Node) (p : ℕ)
    → c.parity ≡ pos p
    → ((rollup c (summarize xs) ≡ HealthState.healthy) ↔ (
        (1 ≤ length xs)
        × ((nodes_with is_online xs ≡ length xs)
            × ((data_drives_with is_healing xs ≡ 0) × (data_drives_with is_failed xs ≡ 0)))))
      × ((rollup c (summarize xs) ≡ HealthState.critical)
          ↔ ((1 ≤ length xs) × ((p < data_drives_with is_failed xs) ⊎ (p < nodes_with is_away xs))))
rollup-summarize c xs p e =
    let s = summarize_lem xs in
    let r = summary_rollup c (summarize xs) p e in
    (
      (
        λ h. ground (arith, s, r.0.0 h, states_partition xs),
        λ h. r.0.1 (ground (arith, s, h, states_partition xs)),
      ),
      (λ h. ground (arith, s, r.1.0 h), λ h. r.1.1 (ground (arith, s, h))),
    )
