-- ===== src/Deploy/Topology.antt =====
-- The erasure topology of internal/deploy/params.go.
use bm.Base.{
  ℕ, ◌*◌, ◌/◌, ◌%◌, ◌≤◌, ◌≡◌, refl, sym, ap, subst, ◌∙◌, ◌⊎◌, inl, ◌↔◌, true, false, none, arith,
  if_both, length, ℤ, pos, is_zero, is_pos, pos_part,
}
use bm.Domain.{NewClusterDraft}
use bm.Deploy.Params.{
  DeployParams, supported_erasure_set_sizes, check_parity, best_size, default_parity_blocks,
  total_drive_count, default_set_size, resolved_set_size, effective_parity, validate_topology,
  with_parity, from_draft, draft_params, named_hosts, draft_params,
}
use bm.Deploy.Sizes.{BestSize, best_size_lem, default_parity_bounds}

module _ {Discovery : Type 0} where
  best_of : (p : DeployParams Discovery) → BestSize (total_drive_count p) (default_set_size p)
  unfolding default_set_size
  best_of p = best_size_lem (total_drive_count p)

  -- Where a size from 2 to 16 divides the number of drives, the default set size does so too, is at
  -- most 16, and is not smaller.
  pub default_set_size_largest :
      (p : DeployParams Discovery) (s : ℕ)
      → 2 ≤ s
      → s ≤ 16
      → total_drive_count p % s ≡ 0
      → (s ≤ default_set_size p)
        × (default_set_size p ≤ 16)
        × (total_drive_count p % default_set_size p ≡ 0)
  default_set_size_largest p s lo hi e =
      let best = best_of p in ground (arith, best, best.1 s lo hi e)

  -- What the topology check asks for: one drive has no parity; more drives are cut into sets of a
  -- supported size, with at least one parity block and at most half of a set.
  abbrev pub ValidTopology : DeployParams Discovery → Type 0
  ValidTopology p =
      ((total_drive_count p ≤ 1) × (is_zero p.topology.parity ≡ true))
      ⊎ ((2 ≤ total_drive_count p)
          × (((2 ≤ pos_part (resolved_set_size p)) × (pos_part (resolved_set_size p) ≤ 16))
              × ((total_drive_count p % pos_part (resolved_set_size p) ≡ 0)
                  × ((1 ≤ pos_part (effective_parity p))
                      × (pos_part (effective_parity p) ≤ pos_part (resolved_set_size p) / 2)))))

  -- The topology check accepts exactly the valid topologies.
  pub validate_topology_lem :
      (p : DeployParams Discovery) → (validate_topology p ≡ none) ↔ ValidTopology p
  unfolding validate_topology check_parity
  validate_topology_lem p = (λ e. ground (arith, e), λ h. ground (arith, h))

  abbrev reparity : DeployParams Discovery → ℤ → DeployParams Discovery
  reparity p z = record p { topology = record (p.topology) { parity = z } }

  total-reparity :
      (p : DeployParams Discovery) (z : ℤ) → total_drive_count (reparity p z) ≡ total_drive_count p
  unfolding total_drive_count
  total-reparity p z = refl

  default-reparity :
      (p : DeployParams Discovery) (z : ℤ) → default_set_size (reparity p z) ≡ default_set_size p
  unfolding default_set_size
  default-reparity p z = ap (λ n. best_size n supported_erasure_set_sizes 0) (total-reparity p z)

  resolved_default :
      (p : DeployParams Discovery)
      → is_pos p.topology.set_size ≡ false
      → resolved_set_size p ≡ pos (default_set_size p)
  unfolding resolved_set_size
  resolved_default p h = rw h refl

  effective_given :
      (p : DeployParams Discovery)
      → is_zero p.topology.parity ≡ false
      → effective_parity p ≡ p.topology.parity
  unfolding effective_parity
  effective_given p h = rw h refl

  effective_default :
      (p : DeployParams Discovery)
      → is_zero p.topology.parity ≡ true
      → 2 ≤ total_drive_count p
      → effective_parity p ≡ pos (default_parity_blocks (resolved_set_size p))
  unfolding effective_parity
  effective_default p h more = ground (arith, h, more)

  -- Given the default parity, a row of drives without a set size of its own is valid.
  reparity_valid :
      (p : DeployParams Discovery) (n b : ℕ)
      → is_pos p.topology.set_size ≡ false
      → 2 ≤ total_drive_count p
      → default_set_size p ≡ n
      → 2 ≤ n
      → n ≤ 16
      → total_drive_count p % n ≡ 0
      → 1 ≤ b
      → b ≤ n / 2
      → validate_topology (reparity p (pos b)) ≡ none
  reparity_valid p n b size more best lo hi e one half =
      let res : resolved_set_size (reparity p (pos b)) ≡ pos n =
        resolved_default (reparity p (pos b)) size ∙ ap pos (default-reparity p (pos b) ∙ best) in
      let eff : effective_parity (reparity p (pos b)) ≡ pos b =
        effective_given (reparity p (pos b)) (ground arith) in
      (validate_topology_lem (reparity p (pos b))).1
        (ground (arith, ap pos_part res, ap pos_part eff, total-reparity p (pos b)))

  reparity_default :
      (p : DeployParams Discovery)
      → is_zero p.topology.parity ≡ true
      → is_pos p.topology.set_size ≡ false
      → 2 ≤ total_drive_count p
      → (n : ℕ) → default_set_size p ≡ n
      → 2 ≤ n
      → n ≤ 16
      → total_drive_count p % n ≡ 0
      → validate_topology (reparity p (effective_parity p)) ≡ none
  reparity_default p parity size more n best lo hi e =
      let given : effective_parity p ≡ pos (default_parity_blocks (pos n)) =
        effective_default p parity more
        ∙ ap (λ z. pos (default_parity_blocks z)) (resolved_default p size ∙ ap pos best) in
      let blocks = default_parity_bounds n lo in
      subst (λ z. validate_topology (reparity p z) ≡ none) (sym given)
        (reparity_valid p n (default_parity_blocks (pos n)) size more best lo hi e blocks.0
          blocks.1)

  with_parity-accepted :
      (p : DeployParams Discovery) (s : ℕ)
      → is_zero p.topology.parity ≡ true
      → is_pos p.topology.set_size ≡ false
      → 2 ≤ s
      → s ≤ 16
      → total_drive_count p % s ≡ 0
      → validate_topology (with_parity p) ≡ none
  unfolding with_parity
  with_parity-accepted p s parity size lo hi e =
      let best = best_of p in
      if_both (λ q. validate_topology q ≡ none) _ _ p
        (λ more.
          reparity_default p parity size (ground (arith, more)) (default_set_size p) refl
            (ground (arith, best, best.1 s lo hi e)) (ground (arith, best, best.1 s lo hi e))
            (ground (arith, best, best.1 s lo hi e)))
        (λ few. (validate_topology_lem p).1 (inl (ground (arith, few, parity), parity)))

  -- A draft that names neither parity nor set size passes the topology check whenever some size from
  -- 2 to 16 divides its number of drives.
  pub from_draft-accepted :
      (d : NewClusterDraft Discovery) (s : ℕ)
      → is_zero d.topology.parity ≡ true
      → is_pos d.topology.set_size ≡ false
      → 2 ≤ s
      → s ≤ 16
      → (length (named_hosts d.hosts) * length d.topology.selected_mounts) % s ≡ 0
      → validate_topology (from_draft d) ≡ none
  unfolding from_draft draft_params total_drive_count
  from_draft-accepted d s parity size lo hi e =
      with_parity-accepted (draft_params d) s parity size lo hi e
