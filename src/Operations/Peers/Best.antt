-- ===== src/Operations/Peers/Best.antt =====
-- The peer that internal/operations copies a configuration from is one of the best.
use bm.Base.{
  ℕ, suc, ◌≤◌, ◌≡◌, refl, Bool, true, false, not, ◌&&◌, Option, none, some, List, [], ◌∷◌, ◌⊎◌, inl,
  inr, ◌=s◌, if◌then◌else◌, if_both, All, All-map, get_elem?, subst, some-inj, arith,
}
use bm.Domain.{Node}
use bm.Clusters.Rollup.{is_online}
use bm.Operations.Peers.{or_first, or_scope, same_pool, fitting, pick_peer, pick_config_source_peer}

abbrev Found : List Node → (Node → Bool) → Node → Type 0
Found nodes good p = (i : ℕ) × (get_elem? nodes i ≡ some p) × (good p ≡ true)

-- The result of a scope: the first peer that is online, else the fallback, else the first peer.
abbrev Picked : (Node → Bool) → List Node → Option Node → Option Node → Type 0
Picked good nodes fallback none = (fallback ≡ none) × All (λ q. good q ≡ false) nodes
Picked good nodes fallback (some p) =
    (Found nodes good p × (is_online p.state ≡ true))
    ⊎ (All (λ q. (good q ≡ false) ⊎ (is_online q.state ≡ false)) nodes
        × ((fallback ≡ some p) ⊎ Found nodes good p))

skip_node :
    (good : Node → Bool) (n : Node) (nodes : List Node) (fallback r : Option Node)
    → good n ≡ false
    → Picked good nodes fallback r
    → Picked good (n ∷ nodes) fallback r
skip_node good n nodes fallback none e (h, k) = (h, (e, k))
skip_node good n nodes fallback (some p) e (inl ((i, at, g), o)) = inl ((suc i, at, g), o)
skip_node good n nodes fallback (some p) e (inr (k, inl f)) = inr ((inl e, k), inl f)
skip_node good n nodes fallback (some p) e (inr (k, inr (i, at, g))) =
    inr ((inl e, k), inr (suc i, at, g))

keep_node :
    (good : Node → Bool) (n : Node) (nodes : List Node) (fallback r : Option Node)
    → good n ≡ true
    → is_online n.state ≡ false
    → Picked good nodes (or_first fallback n) r
    → Picked good (n ∷ nodes) fallback r
keep_node good n nodes none none e o (h, k) = cc
keep_node good n nodes (some m) none e o (h, k) = cc
keep_node good n nodes fallback (some p) e o (inl ((i, at, g), q)) = inl ((suc i, at, g), q)
keep_node good n nodes none (some p) e o (inr (k, inl f)) =
    inr ((inr o, k), inr (0, f, subst (λ x. good x ≡ true) (some-inj f) e))
keep_node good n nodes (some m) (some p) e o (inr (k, inl f)) = inr ((inr o, k), inl f)
keep_node good n nodes fallback (some p) e o (inr (k, inr (i, at, g))) =
    inr ((inr o, k), inr (suc i, at, g))

pick_peer-Picked :
    (target : Node) (has : Node → Bool) (same : Bool) (nodes : List Node) (fallback : Option Node)
    → Picked (fitting target has same) nodes fallback (pick_peer target has same nodes fallback)
unfolding pick_peer
pick_peer-Picked target has same [] none = (refl, tt)
pick_peer-Picked target has same [] (some m) = inr (tt, inl refl)
pick_peer-Picked target has same (n ∷ nodes) fallback =
    let good = fitting target has same in
    if_both (Picked good (n ∷ nodes) fallback) (not (good n)) _ _
      (λ e.
        skip_node good n nodes fallback _ (ground (arith, e))
          (pick_peer-Picked target has same nodes fallback))
      (λ e.
        if_both (Picked good (n ∷ nodes) fallback) (is_online n.state) _ _
          (λ o. inl ((0, refl, ground (arith, e)), o))
          (λ o.
            keep_node good n nodes fallback _ (ground (arith, e)) o
              (pick_peer-Picked target has same nodes (or_first fallback n))))

-- Any other node that has the file.
abbrev pub candidate : Node → (Node → Bool) → Node → Bool
candidate target has n = not (n.id =s target.id) && has n

-- Lower is better: a node of the same pool before one of another, and in each online before not.
abbrev pub rank : Node → Node → ℕ
rank target n =
    if same_pool n target
    then (if is_online n.state then 0 else 1)
    else if is_online n.state
    then 2
    else 3

abbrev pub BestPeer : List Node → Node → (Node → Bool) → Option Node → Type 0
BestPeer nodes target has none = All (λ q. candidate target has q ≡ false) nodes
BestPeer nodes target has (some p) =
    (i : ℕ) × (get_elem? nodes i ≡ some p)
    × (candidate target has p ≡ true)
    × All (λ q. (candidate target has q ≡ false) ⊎ (rank target p ≤ rank target q)) nodes

everywhere : (P : Node → Type 0) → ((q : Node) → P q) → (nodes : List Node) → All P nodes
everywhere P f [] = tt
everywhere P f (n ∷ nodes) = (f n, everywhere P f nodes)

abbrev NoBetter : Node → (Node → Bool) → Node → Node → Type 0
NoBetter target has p q = (candidate target has q ≡ false) ⊎ (rank target p ≤ rank target q)

-- The rules on plain flags: those of the node that is picked, and those of another one.
near_first :
    (other has same online : Bool) (near : ℕ)
    → near ≤ 1
    → ((other && same && has) ≡ false) ⊎ (online ≡ false)
    → ((other && has) ≡ false)
      ⊎ (near ≤ (if same then (if online then 0 else 1) else if online then 2 else 3))
near_first other has same true near l (inl h) = ground (arith, l, h)
near_first other has same false near l h = inr (ground (arith, l))
near_first other has same true near l (inr h) = cc

far_first :
    (other has same online : Bool) (far : ℕ)
    → far ≤ 3
    → ((other && same && has) ≡ false)
    → ((other && not same && has) ≡ false) ⊎ (online ≡ false)
    → ((other && has) ≡ false)
      ⊎ (far ≤ (if same then (if online then 0 else 1) else if online then 2 else 3))
far_first true true true online far l h k = cc
far_first true true false true far l h (inl k) = cc
far_first true true false true far l h (inr k) = cc
far_first true true false false far l h k = inr l
far_first true false same online far l h k = inl refl
far_first false has same online far l h k = inl refl

far_online :
    (other has same online : Bool) (far : ℕ)
    → far ≤ 2
    → ((other && same && has) ≡ false)
    → ((other && has) ≡ false)
      ⊎ (far ≤ (if same then (if online then 0 else 1) else if online then 2 else 3))
far_online true true true online far l h = cc
far_online true true false true far l h = inr l
far_online true true false false far l h = inr (omega (arith, l))
far_online true false same online far l h = inl refl
far_online false has same online far l h = inl refl

same_scope :
    (target : Node) (has : Node → Bool) (nodes : List Node) (p : Node)
    → Picked (fitting target has true) nodes none (some p)
    → BestPeer nodes target has (some p)
same_scope target has nodes p (inl ((i, at, g), o)) = (
  i,
  at,
  ground (arith, g),
  everywhere (NoBetter target has p) (λ q. inr (ground (arith, g, o))) nodes,
)
same_scope target has nodes p (inr (k, inl f)) = cc
same_scope target has nodes p (inr (k, inr (i, at, g))) = (
  i,
  at,
  ground (arith, g),
  All-map
      (λ q h.
        near_first (not (q.id =s target.id)) (has q) (same_pool q target) (is_online q.state)
          (rank target p) (ground (arith, g)) h)
      nodes k,
)

All-both :
    (P Q : Node → Type 0) (nodes : List Node)
    → All P nodes
    → All Q nodes
    → All (λ n. P n × Q n) nodes
All-both P Q [] h k = tt
All-both P Q (n ∷ nodes) h k = ((h.0, k.0), All-both P Q nodes h.1 k.1)

other_scope :
    (target : Node) (has : Node → Bool) (nodes : List Node) (p : Node)
    → All (λ q. fitting target has true q ≡ false) nodes
    → Picked (fitting target has false) nodes none (some p)
    → BestPeer nodes target has (some p)
other_scope target has nodes p none_near (inl ((i, at, g), o)) = (
  i,
  at,
  ground (arith, g),
  All-map
      (λ q h.
        far_online (not (q.id =s target.id)) (has q) (same_pool q target) (is_online q.state)
          (rank target p) (ground (arith, g, o)) h)
      nodes none_near,
)
other_scope target has nodes p none_near (inr (k, inl f)) = cc
other_scope target has nodes p none_near (inr (k, inr (i, at, g))) = (
  i,
  at,
  ground (arith, g),
  All-map
      (λ q h.
        far_first (not (q.id =s target.id)) (has q) (same_pool q target) (is_online q.state)
          (rank target p) (ground (arith, g)) h.0 h.1)
      nodes (All-both _ _ nodes none_near k),
)

nothing_fits :
    (target : Node) (has : Node → Bool) (nodes : List Node)
    → All (λ q. fitting target has true q ≡ false) nodes
    → All (λ q. fitting target has false q ≡ false) nodes
    → All (λ q. candidate target has q ≡ false) nodes
nothing_fits target has nodes h k =
    All-map (λ q e. no_scope (not (q.id =s target.id)) (has q) (same_pool q target) e.0 e.1) nodes
      (All-both _ _ nodes h k)
  where
    no_scope :
        (other has same : Bool)
        → (other && same && has) ≡ false
        → (other && not same && has) ≡ false
        → (other && has) ≡ false
    no_scope true true true h k = cc
    no_scope true true false h k = cc
    no_scope true false same h k = refl
    no_scope false has same h k = refl

either_scope :
    (target : Node) (has : Node → Bool) (nodes : List Node) (near far : Option Node)
    → Picked (fitting target has true) nodes none near
    → Picked (fitting target has false) nodes none far
    → BestPeer nodes target has (or_scope near far)
either_scope target has nodes (some p) far h k = same_scope target has nodes p h
either_scope target has nodes none (some p) h k = other_scope target has nodes p h.1 k
either_scope target has nodes none none h k = nothing_fits target has nodes h.1 k.1

-- The peer that is picked is another node that has the file, and no node that has it ranks better;
-- none is picked only where no other node has the file.
pub pick_config_source_peer-BestPeer :
    (nodes : List Node) (target : Node) (has : Node → Bool)
    → BestPeer nodes target has (pick_config_source_peer nodes target has)
unfolding pick_config_source_peer
pick_config_source_peer-BestPeer nodes target has =
    either_scope target has nodes (pick_peer target has true nodes none)
      (pick_peer target has false nodes none) (pick_peer-Picked target has true nodes none)
      (pick_peer-Picked target has false nodes none)
