-- ===== src/Deploy/Sizes.antt =====
-- The sizes and parities of the erasure sets in internal/deploy/params.go, by their numbers alone.
use bm.Base.{
  ℕ, zero, suc, ◌/◌, ◌%◌, ◌≤◌, ◌≡◌, refl, ◌⊎◌, inl, inr, List, [], ◌∷◌, arith, ltb, ◌==◌,
  if◌then◌else◌, ◌&&◌, if_both, All, pos,
}
use bm.Deploy.Params.{supported_erasure_set_sizes, best_size, default_parity_blocks}

-- What the start value and the dividing sizes all have, the best size has.
best_size_one_of :
    (P : ℕ → Type 0) (total : ℕ) (sizes : List ℕ) (best : ℕ)
    → P best
    → All (λ s. total % s ≡ 0 → P s) sizes
    → P (best_size total sizes best)
unfolding best_size
best_size_one_of P total [] best h hs = h
best_size_one_of P total (s ∷ sizes) best h hs =
    best_size_one_of P total sizes _
      (if_both P (total % s == 0 && ltb best s) s best (λ e. hs.0 (ground (arith, e))) (λ e. h))
      hs.1

best_size_ge : (total : ℕ) (sizes : List ℕ) (best : ℕ) → best ≤ best_size total sizes best
unfolding best_size
best_size_ge total [] best = omega arith
best_size_ge total (s ∷ sizes) best =
    ground (arith, best_size_ge total sizes (if total % s == 0 && ltb best s then s else best))

best_size_largest :
    (total : ℕ) (sizes : List ℕ) (best : ℕ)
    → All (λ s. total % s ≡ 0 → s ≤ best_size total sizes best) sizes
unfolding best_size
best_size_largest total [] best = tt
best_size_largest total (s ∷ sizes) best = (
  λ e.
      ground
        (arith, e, best_size_ge total sizes (if total % s == 0 && ltb best s then s else best)),
  best_size_largest total sizes _,
)

-- Each size from 2 to 16 is in the list.
supported : (P : ℕ → Type 0) → All P supported_erasure_set_sizes → (s : ℕ) → 2 ≤ s → s ≤ 16 → P s
supported P h zero lo hi = absurd (omega arith)
supported P h (suc zero) lo hi = absurd (omega arith)
supported P h (suc (suc zero)) lo hi = h.0
supported P h (suc (suc (suc zero))) lo hi = h.1.0
supported P h (suc (suc (suc (suc zero)))) lo hi = h.1.1.0
supported P h (suc (suc (suc (suc (suc zero))))) lo hi = h.1.1.1.0
supported P h (suc (suc (suc (suc (suc (suc zero)))))) lo hi = h.1.1.1.1.0
supported P h (suc (suc (suc (suc (suc (suc (suc zero))))))) lo hi = h.1.1.1.1.1.0
supported P h (suc (suc (suc (suc (suc (suc (suc (suc zero)))))))) lo hi = h.1.1.1.1.1.1.0
supported P h (suc (suc (suc (suc (suc (suc (suc (suc (suc zero))))))))) lo hi = h.1.1.1.1.1.1.1.0
supported P h (suc (suc (suc (suc (suc (suc (suc (suc (suc (suc zero)))))))))) lo hi =
    h.1.1.1.1.1.1.1.1.0
supported P h (suc (suc (suc (suc (suc (suc (suc (suc (suc (suc (suc zero))))))))))) lo hi =
    h.1.1.1.1.1.1.1.1.1.0
supported P h (suc (suc (suc (suc (suc (suc (suc (suc (suc (suc (suc (suc zero)))))))))))) lo hi =
    h.1.1.1.1.1.1.1.1.1.1.0
supported P h (suc (suc (suc (suc (suc (suc (suc (suc (suc (suc (suc (suc (suc zero))))))))))))) lo
      hi =
    h.1.1.1.1.1.1.1.1.1.1.1.0
supported P h
      (suc (suc (suc (suc (suc (suc (suc (suc (suc (suc (suc (suc (suc (suc zero)))))))))))))) lo
      hi =
    h.1.1.1.1.1.1.1.1.1.1.1.1.0
supported P h
      (suc (suc (suc (suc (suc (suc (suc (suc (suc (suc (suc (suc (suc (suc (suc zero)))))))))))))))
      lo hi =
    h.1.1.1.1.1.1.1.1.1.1.1.1.1.0
supported P h
      (suc (
        suc
          (suc (suc (suc (suc (suc (suc (suc (suc (suc (suc (suc (suc (suc (suc zero))))))))))))))))
      lo hi =
    h.1.1.1.1.1.1.1.1.1.1.1.1.1.1.0
supported P h
      (suc (
        suc (
          suc
            (suc (suc (suc (suc (suc (suc (suc (suc (suc (suc (suc (suc (suc (suc n)))))))))))))))))
      lo hi =
    absurd (omega arith)

abbrev pub BestSize : ℕ → ℕ → Type 0
BestSize total best =
    ((best ≡ 0) ⊎ (((2 ≤ best) × (best ≤ 16)) × (total % best ≡ 0)))
    × ((s : ℕ) → 2 ≤ s → s ≤ 16 → total % s ≡ 0 → s ≤ best)

sizes_in_range :
    (Q : ℕ → Type 0) → ((s : ℕ) → 2 ≤ s → s ≤ 16 → Q s) → All Q supported_erasure_set_sizes
sizes_in_range Q h = (
  h 2 (omega arith) (omega arith),
  (
    h 3 (omega arith) (omega arith),
    (
      h 4 (omega arith) (omega arith),
      (
        h 5 (omega arith) (omega arith),
        (
          h 6 (omega arith) (omega arith),
          (
            h 7 (omega arith) (omega arith),
            (
              h 8 (omega arith) (omega arith),
              (
                h 9 (omega arith) (omega arith),
                (
                  h 10 (omega arith) (omega arith),
                  (
                    h 11 (omega arith) (omega arith),
                    (
                      h 12 (omega arith) (omega arith),
                      (
                        h 13 (omega arith) (omega arith),
                        (
                          h 14 (omega arith) (omega arith),
                          (
                            h 15 (omega arith) (omega arith),
                            (h 16 (omega arith) (omega arith), tt),
                          ),
                        ),
                      ),
                    ),
                  ),
                ),
              ),
            ),
          ),
        ),
      ),
    ),
  ),
)

SizeOrZero : ℕ → ℕ → Type 0
SizeOrZero total b = (b ≡ 0) ⊎ (((2 ≤ b) × (b ≤ 16)) × (total % b ≡ 0))

pub best_size_lem : (total : ℕ) → BestSize total (best_size total supported_erasure_set_sizes 0)
unfolding SizeOrZero
best_size_lem total = (
  best_size_one_of (SizeOrZero total) total supported_erasure_set_sizes 0 (inl refl)
      (sizes_in_range (λ s. total % s ≡ 0 → SizeOrZero total s) (λ s lo hi e. inr ((lo, hi), e))),
  supported (λ s. total % s ≡ 0 → s ≤ best_size total supported_erasure_set_sizes 0)
      (best_size_largest total supported_erasure_set_sizes 0),
)

pub default_parity_bounds :
    (n : ℕ) → 2 ≤ n → (1 ≤ default_parity_blocks (pos n)) × (default_parity_blocks (pos n) ≤ n / 2)
unfolding default_parity_blocks
default_parity_bounds n h = (ground arith, ground arith)
