-- ===== src/Base/Lists.antt =====
-- Lists measured and indexed by native numbers, under the library's names.
use Prim.Native.Nat.{ℕ, zero, suc, ◌+◌, ◌-◌}
use mathlib.Core.Path.{◌≡◌, subst}
use mathlib.Core.Bool.{Bool}
use mathlib.Core.List.{List, [], ◌∷◌, ◌++◌, map}
use mathlib.Core.Option.{Option, none, some}
use native.Mathlib.Omega.{arith}
use bm.Base.Tests.{if◌then◌else◌}

module _ {ℓ} {A : Type ℓ} where
  abbrev pub length : List A → ℕ
  length [] = 0
  length (x ∷ xs) = suc (length xs)

  abbrev pub get_elem? : List A → ℕ → Option A
  get_elem? [] i = none
  get_elem? (x ∷ xs) zero = some x
  get_elem? (x ∷ xs) (suc i) = get_elem? xs i

  -- A write out of bounds changes nothing.
  abbrev pub modify : List A → ℕ → (A → A) → List A
  modify [] i f = []
  modify (x ∷ xs) zero f = f x ∷ xs
  modify (x ∷ xs) (suc i) f = x ∷ modify xs i f

  abbrev pub drop : ℕ → List A → List A
  drop zero xs = xs
  drop (suc n) [] = []
  drop (suc n) (x ∷ xs) = drop n xs

  -- The elements that pass a Boolean test, in order.
  abbrev pub keep : (A → Bool) → List A → List A
  keep p [] = []
  keep p (x ∷ xs) = let rest = keep p xs in if p x then x ∷ rest else rest

  abbrev pub All {κ} : (A → Type κ) → List A → Type κ
  All P [] = Unit
  All P (x ∷ xs) = P x × All P xs

  pub length-append : (xs ys : List A) → length (xs ++ ys) ≡ length xs + length ys
  length-append [] ys = omega arith
  length-append (x ∷ xs) ys = omega (arith, length-append xs ys)

  pub length-drop : (n : ℕ) (xs : List A) → length (drop n xs) ≡ length xs - n
  length-drop zero xs = omega arith
  length-drop (suc n) [] = omega arith
  length-drop (suc n) (x ∷ xs) = omega (arith, length-drop n xs)

  pub All-map {κ μ} :
      {P : A → Type κ} {Q : A → Type μ} (f : (a : A) → P a → Q a) (xs : List A)
      → All P xs
      → All Q xs
  All-map f [] h = tt
  All-map f (x ∷ xs) h = (f x h.0, All-map f xs h.1)

  pub All-get_elem? {κ} :
      (P : A → Type κ) (xs : List A) (i : ℕ) (a : A) → All P xs → get_elem? xs i ≡ some a → P a
  All-get_elem? P [] i a h e = cc
  All-get_elem? P (x ∷ xs) zero a h e = subst P (cc) h.0
  All-get_elem? P (x ∷ xs) (suc i) a h e = All-get_elem? P xs i a h.1 e

module _ {ℓ κ} {A : Type ℓ} {B : Type κ} where
  pub get_elem?-map :
      (f : A → B) (xs : List A) (i : ℕ) (a : A)
      → get_elem? xs i ≡ some a
      → get_elem? (map f xs) i ≡ some (f a)
  get_elem?-map f [] i a e = cc
  get_elem?-map f (x ∷ xs) zero a e = cc
  get_elem?-map f (x ∷ xs) (suc i) a e = get_elem?-map f xs i a e

pub modify-All {ℓ κ} :
    {A : Type ℓ} (P : A → Type κ) (g : A → A) (kept : (a : A) → P a → P (g a)) (xs : List A) (i : ℕ)
    → All P xs
    → All P (modify xs i g)
modify-All P g kept [] i h = tt
modify-All P g kept (x ∷ xs) zero h = (kept x h.0, h.1)
modify-All P g kept (x ∷ xs) (suc i) h = (h.0, modify-All P g kept xs i h.1)

pub map-All {ℓ κ} :
    {A : Type ℓ} (P : A → Type κ) (g : A → A) (kept : (a : A) → P a → P (g a)) (xs : List A)
    → All P xs
    → All P (map g xs)
map-All P g kept [] h = tt
map-All P g kept (x ∷ xs) h = (kept x h.0, map-All P g kept xs h.1)

pub append-All {ℓ κ} :
    {A : Type ℓ} (P : A → Type κ) (xs : List A) (x : A) → All P xs → P x → All P (xs ++ (x ∷ []))
append-All P [] x h hx = (hx, tt)
append-All P (y ∷ xs) x h hx = (h.0, append-All P xs x h.1 hx)
