-- ===== src/Base/Text.antt =====
-- Go strings as lists of bytes: comparison, prefixes, and literals.
use Prim.Native.Nat.{ℕ}
use Prim.Native.Char.{code}
use Prim.Native.String.{String}
use mathlib.Core.Path.{◌≡◌, refl}
use mathlib.Core.Logic.{◌↔◌}
use mathlib.Core.Bool.{Bool, true, false, ◌&&◌}
use mathlib.Core.List.{List, [], ◌∷◌}
use native.Mathlib.Omega.{arith}
use bm.Base.Tests.{◌==◌}

abbrev pub Str : Type 0
Str = List ℕ

-- The bytes of an ASCII literal.
abbrev pub codes : String → Str
codes String.[] = []
codes (String.◌∷◌ c s) = code c ∷ codes s

infix 50 ◌=s◌
unfoldable pub ◌=s◌ : Str → Str → Bool
[] =s [] = true
[] =s (y ∷ ys) = false
(x ∷ xs) =s [] = false
(x ∷ xs) =s (y ∷ ys) = x == y && xs =s ys

pub str_iff : (s t : Str) → ((s =s t) ≡ true) ↔ (s ≡ t)
unfolding ◌=s◌
str_iff [] [] = (λ h. refl, λ h. refl)
str_iff [] (y ∷ ys) = (λ h. cc, λ h. cc)
str_iff (x ∷ xs) [] = (λ h. cc, λ h. cc)
str_iff (x ∷ xs) (y ∷ ys) = (λ h. ground (arith, str_iff xs ys), λ h. ground (arith, str_iff xs ys))

pub str_refl : (s : Str) → (s =s s) ≡ true
str_refl s = (str_iff s s).1 refl

abbrev pub is_empty {ℓ} : {A : Type ℓ} → List A → Bool
is_empty [] = true
is_empty (x ∷ xs) = false

-- strings.HasPrefix
unfoldable pub has_prefix : Str → Str → Bool
has_prefix s [] = true
has_prefix [] (p ∷ ps) = false
has_prefix (x ∷ xs) (p ∷ ps) = x == p && has_prefix xs ps
