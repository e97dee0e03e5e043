-- ===== src/Store/Bucket.antt =====
-- A bbolt bucket, as its documentation describes it: keys in byte order, Put and Delete of one key.
use bm.Base.{
  ℕ, ◌≡◌, Bool, true, false, Option, none, some, List, [], ◌∷◌, Str, ◌=s◌, ltb, ◌==◌, ◌&&◌, ◌||◌,
  if◌then◌else◌, get_elem?, All, keep, not,
}

-- `bytes.Compare(s, t) < 0`
unfoldable pub str_lt : Str → Str → Bool
str_lt [] [] = false
str_lt [] (y ∷ ys) = true
str_lt (x ∷ xs) [] = false
str_lt (x ∷ xs) (y ∷ ys) = ltb x y || (x == y && str_lt xs ys)

-- Every key before all later ones.
abbrev pub Ascending {ℓ} : {V : Type ℓ} → List (Str × V) → Type ℓ
Ascending [] = Unit
Ascending ((k, v) ∷ rest) = All (λ e. str_lt k e.0 ≡ true) rest × Ascending rest

pub record Bucket (V : Type 0) : Type 1 where
  pub T : Type 0
  pub get : Str → T → Option V
  -- `none` is an error: a blank or too long key, or a value that is too large.
  pub put : Str → V → T → Option T
  pub delete : Str → T → Option T
  -- The pairs in the order of a cursor from First by Next, in a bucket that does not change.
  pub entries : T → List (Str × V)
  pub get-put :
      (k j : Str) (v : V) (t c : T)
      → put k v t ≡ some c
      → get j c ≡ (if k =s j then some v else get j t)
  pub get-delete :
      (k j : Str) (t c : T) → delete k t ≡ some c → get j c ≡ (if k =s j then none else get j t)
  -- A key that is stored fits, and may be written again.
  pub put_stored : (k : Str) (v w : V) (t : T) → get k t ≡ some w → (c : T) × (put k v t ≡ some c)
  -- In a writable transaction a Delete succeeds, also of a key that is not there.
  pub delete_total : (k : Str) (t : T) → (c : T) × (delete k t ≡ some c)
  pub entries_sound : (t : T) → All (λ e. get e.0 t ≡ some e.1) (entries t)
  pub entries_complete :
      (k : Str) (v : V) (t : T)
      → get k t ≡ some v
      → (i : ℕ) × (get_elem? (entries t) i ≡ some (k, v))
  pub entries_ascending : (t : T) → Ascending (entries t)
  pub entries-delete :
      (k : Str) (t c : T) → delete k t ≡ some c → entries c ≡ keep (λ e. not (k =s e.0)) (entries t)
