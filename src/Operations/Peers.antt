-- ===== src/Operations/Peers.antt =====
-- The choice of a peer to copy the configuration from: pickConfigSourcePeerWith and
-- pickPeerInPoolScope of internal/operations/orchestrated.go. Whether a peer has the file is an argument.
pub mod Best
use bm.Base.{
  Bool, true, false, not, ◌&&◌, ◌||◌, Option, none, some, List, [], ◌∷◌, ◌=s◌, ◌==◌, if◌then◌else◌,
  ℤ, pos_part, neg_part,
}
use bm.Domain.{Node}
use bm.Clusters.Rollup.{is_online}

abbrev pub same_pool : Node → Node → Bool
same_pool n m = pos_part n.pool == pos_part m.pool && neg_part n.pool == neg_part m.pool

abbrev pub in_scope : Bool → Node → Node → Bool
in_scope true target n = same_pool n target
in_scope false target n = not (same_pool n target)

abbrev pub or_first : Option Node → Node → Option Node
or_first none n = some n
or_first (some m) n = some m

-- A peer in the scope that has the file.
abbrev pub fitting : Node → (Node → Bool) → Bool → Node → Bool
fitting target has same n = not (n.id =s target.id) && in_scope same target n && has n

-- `pickPeerInPoolScope`, with the peer to fall back to so far.
unfoldable pub pick_peer : Node → (Node → Bool) → Bool → List Node → Option Node → Option Node
pick_peer target has same [] fallback = fallback
pick_peer target has same (n ∷ nodes) fallback =
    let passed = pick_peer target has same nodes fallback in
    let kept = pick_peer target has same nodes (or_first fallback n) in
    if not (fitting target has same n) then passed else if is_online n.state then some n else kept

abbrev pub or_scope : Option Node → Option Node → Option Node
or_scope none o = o
or_scope (some n) o = some n

-- `pickConfigSourcePeerWith`
unfoldable pub pick_config_source_peer : List Node → Node → (Node → Bool) → Option Node
unfolding pick_peer
pick_config_source_peer nodes target has =
    or_scope (pick_peer target has true nodes none) (pick_peer target has false nodes none)
