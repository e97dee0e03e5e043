-- ===== src/Credentials.antt =====
-- internal/credentials/credentials.go: the rules for the root user and the root password. A text is
-- a list of bytes; one that is no ASCII byte makes a rune outside of the ranges.
pub mod Examples
use bm.Base.{
  ℕ, ◌≡◌, ◌≤◌, ◌↔◌, refl, Bool, true, false, not, ◌&&◌, ◌||◌, Option, none, some, List, [], ◌∷◌,
  Str, leb, ltb, ◌==◌, if◌then◌else◌, length, All, arith,
}

pub data CredentialError : Type 0 where
  password_length password_bytes user_length user_bytes : CredentialError

unfoldable pub all_bytes : (ℕ → Bool) → Str → Bool
all_bytes good [] = true
all_bytes good (c ∷ s) = let rest = all_bytes good s in if good c then rest else false

abbrev printable : ℕ → Bool
printable c = not (ltb c 33 || ltb 126 c)

abbrev pub name_byte : ℕ → Bool
name_byte c =
    (leb 97 c && leb c 122)
    || (leb 65 c && leb c 90)
    || (leb 48 c && leb c 57)
    || c == 95
    || c == 45

unfoldable pub validate_root_password : Str → Option CredentialError
unfolding all_bytes
validate_root_password password =
    if ltb (length password) 8 || ltb 40 (length password)
    then some password_length
    else if all_bytes printable password
    then none
    else some password_bytes

unfoldable pub validate_root_user : Str → Option CredentialError
unfolding all_bytes
validate_root_user user =
    if ltb (length user) 3
    then some user_length
    else if all_bytes name_byte user
    then none
    else some user_bytes

all_bytes_iff : (good : ℕ → Bool) (s : Str) → (all_bytes good s ≡ true) ↔ All (λ c. good c ≡ true) s
unfolding all_bytes
all_bytes_iff good [] = (λ _. tt, λ _. refl)
all_bytes_iff good (c ∷ s) =
    let (there, back) = all_bytes_iff good s in
    (λ h. ground (arith, h, there), λ h. ground (arith, h, back h.1))

printable_bounds : (s : Str) → All (λ c. printable c ≡ true) s ↔ All (λ c. (33 ≤ c) × (c ≤ 126)) s
printable_bounds [] = (λ h. h, λ h. h)
printable_bounds (c ∷ s) =
    let (there, back) = printable_bounds s in
    (
      λ h. ((ground (arith, h.0), ground (arith, h.0)), there h.1),
      λ h. (ground (arith, h.0), back h.1),
    )

-- A root password is accepted just when it has 8 to 40 bytes, each of them from 33 to 126.
pub validate_root_password_iff :
    (password : Str)
    → (validate_root_password password ≡ none)
      ↔ ((8 ≤ length password) × (length password ≤ 40) × All (λ c. (33 ≤ c) × (c ≤ 126)) password)
unfolding validate_root_password
validate_root_password_iff s =
    let (there, back) = all_bytes_iff printable s in
    let (bounds, within) = printable_bounds s in
    (
      λ h. (ground (arith, h), ground (arith, h), bounds (there (ground (arith, h)))),
      λ (low, high, bytes). ground (arith, low, high, back (within bytes)),
    )
