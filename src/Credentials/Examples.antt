-- ===== src/Credentials/Examples.antt =====
-- A root password.
use bm.Base.{◌≡◌, ◌≤◌, ◌↔◌, none, codes, length, All}
use bm.Credentials.{validate_root_password, validate_root_password_iff}

validate_root_password_iff_example : (validate_root_password (codes "s3cret-pw") ≡ none) ↔ (
    (8 ≤ length (codes "s3cret-pw"))
    × (length (codes "s3cret-pw") ≤ 40)
    × All (λ c. (33 ≤ c) × (c ≤ 126)) (codes "s3cret-pw"))
validate_root_password_iff_example = validate_root_password_iff (codes "s3cret-pw")
