-- ===== src/Deploy/Trim.antt =====
-- strings.TrimSpace, as internal/deploy/params.go uses it: a text that is trimmed stays as it is.
use mathlib.Core.List.{reverse, reverse-append, reverse-reverse}
use bm.Base.{◌≡◌, refl, sym, ap, ◌∙◌, subst, Bool, true, not, [], ◌∷◌, ◌++◌, Str, if_both, arith}
use bm.Deploy.Params.{is_space, trim_left, trim_space}

-- The first byte is no white space.
abbrev starts_solid : Str → Bool
starts_solid [] = true
starts_solid (c ∷ s) = not (is_space c)

trim_left-solid : (s : Str) → starts_solid (trim_left s) ≡ true
unfolding trim_left
trim_left-solid [] = refl
trim_left-solid (c ∷ s) =
    if_both (λ r. starts_solid r ≡ true) (is_space c) (trim_left s) (c ∷ s) (λ e. trim_left-solid s)
      (λ e. rw e refl)

solid-trim_left : (s : Str) → starts_solid s ≡ true → trim_left s ≡ s
unfolding trim_left
solid-trim_left [] h = refl
solid-trim_left (c ∷ s) h = ground (arith)

trim_left-suffix : (s : Str) → (p : Str) × (s ≡ p ++ trim_left s)
unfolding trim_left
trim_left-suffix [] = ([], refl)
trim_left-suffix (c ∷ s) =
    let (p, e) = trim_left-suffix s in
    if_both (λ r. (p : Str) × (c ∷ s ≡ p ++ r)) (is_space c) (trim_left s) (c ∷ s)
      (λ _. (c ∷ p, ap (λ r. c ∷ r) e)) (λ _. ([], refl))

solid_prefix : (a b : Str) → starts_solid (a ++ b) ≡ true → starts_solid a ≡ true
solid_prefix [] b h = refl
solid_prefix (c ∷ a) b h = h

-- Trimming a text twice is trimming it once.
pub trim_space-trim_space : (s : Str) → trim_space (trim_space s) ≡ trim_space s
unfolding trim_space
trim_space-trim_space s =
    let u = trim_left s in
    let r = trim_left (reverse u) in
    let (p, e) = trim_left-suffix (reverse u) in
    let parts : u ≡ reverse r ++ reverse p =
      sym (reverse-reverse u) ∙ ap reverse e ∙ reverse-append p r in
    let solid : starts_solid (reverse r) ≡ true =
      solid_prefix (reverse r) (reverse p)
        (subst (λ x. starts_solid x ≡ true) parts (trim_left-solid s)) in
    rw
      (
        solid-trim_left (reverse r) solid,
        reverse-reverse r,
        solid-trim_left r (trim_left-solid (reverse u)),
      )
      refl
