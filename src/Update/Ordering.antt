-- ===== src/Update/Ordering.antt =====
-- The order of release tags in internal/update/service.go.
use bm.Base.{
  zero, suc, ◌≡◌, refl, Bool, true, false, Option, none, some, [], ◌∷◌, Str, ℤ, pos, negsuc, arith,
  Bool-cases, inl, inr,
}
use bm.Store.Bucket.{str_lt}
use bm.Update.Tags.{
  ParsedReleaseTag, str_compare, compare_kinds, compare_parsed, compare_read, compare_release_tags,
  parse_release_tag,
}

abbrev pub neg : ℤ → ℤ
neg (pos zero) = pos 0
neg (pos (suc n)) = negsuc n
neg (negsuc n) = pos (suc n)

str_lt_asym : (s t : Str) → str_lt s t ≡ true → str_lt t s ≡ false
unfolding str_lt
str_lt_asym [] [] h = refl
str_lt_asym [] (y ∷ t) h = refl
str_lt_asym (x ∷ s) [] h = cc
str_lt_asym (x ∷ s) (y ∷ t) h = ground (arith, h, str_lt_asym s t)

str_compare_swap : (s t : Str) → str_compare t s ≡ neg (str_compare s t)
unfolding str_compare
str_compare_swap s t = elim (Bool-cases (str_lt s t)) [
  | inl e ↦ rw (e, str_lt_asym s t e) refl
  | inr e ↦ elim (Bool-cases (str_lt t s)) [ inl q ↦ rw (e, q) refl | inr q ↦ rw (e, q) refl ]
]

compare_kinds_swap :
    (ga sa gb sb : Bool) (c : ℤ)
    → compare_kinds gb sb ga sa (neg c) ≡ neg (compare_kinds ga sa gb sb c)
unfolding compare_kinds
compare_kinds_swap ga sa gb sb c = ground arith

compare_parsed_swap : (a b : ParsedReleaseTag) → compare_parsed b a ≡ neg (compare_parsed a b)
unfolding compare_parsed
compare_parsed_swap a b = ground (
  arith,
  str_compare_swap a.suffix b.suffix,
  compare_kinds_swap a.git_build a.stable b.git_build b.stable (str_compare a.suffix b.suffix),
)

compare_read_swap :
    (a b : Option ParsedReleaseTag) (c d : ℤ)
    → d ≡ neg c
    → compare_read b a d ≡ neg (compare_read a b c)
unfolding compare_read
compare_read_swap none none c d h = h
compare_read_swap (some a) none c d h = refl
compare_read_swap none (some b) c d h = refl
compare_read_swap (some a) (some b) c d h = compare_parsed_swap a b

-- Two tags compare as each other's opposite when they are swapped; so a tag is never newer than
-- itself, and of two tags at most one is newer than the other.
pub compare_release_tags-swap :
    (a b : Str) → compare_release_tags b a ≡ neg (compare_release_tags a b)
unfolding compare_release_tags
compare_release_tags-swap a b =
    compare_read_swap (parse_release_tag a) (parse_release_tag b) (str_compare a b)
      (str_compare b a) (str_compare_swap a b)
