-- ===== src/Update/Tags.antt =====
-- Release tags in internal/update/service.go: parseReleaseTag and compareReleaseTags.
use bm.Base.{
  ℕ, Bool, true, false, not, ◌&&◌, ◌||◌, Option, none, some, [], ◌∷◌, Str, codes, is_empty, ◌==◌,
  ltb, has_prefix, drop, length, if◌then◌else◌, ℤ, pos, negsuc,
}
use bm.Store.Bucket.{str_lt}
use bm.Clock.{parse_utc, ◌>>=◌}

pub record ParsedReleaseTag : Type 0 where
  pub timestamp : ℕ
  pub suffix : Str
  pub stable : Bool
  pub git_build : Bool

-- The text up to the first Z with it, and the text after it.
unfoldable pub cut_after_z : Str → Option (Str × Str)
cut_after_z [] = none
cut_after_z (c ∷ s) =
    let later = cut_after_z s in
    if c == 90
    then some (c ∷ [], s)
    else elim later [ none ↦ none | some (before, after) ↦ some (c ∷ before, after) ]

-- strings.Contains
unfoldable pub contains : Str → Str → Bool
unfolding has_prefix
contains [] part = is_empty part
contains (c ∷ s) part = has_prefix (c ∷ s) part || contains s part

unfoldable pub tagged : ℕ → Str → ParsedReleaseTag
unfolding has_prefix contains
tagged t remainder =
    if has_prefix remainder (codes "-")
      && contains remainder (codes "-g")
      && not (is_empty (drop 1 remainder))
    then record { timestamp = t; suffix = drop 1 remainder; stable = false; git_build = true }
    else if has_prefix remainder (codes ".")
    then record { timestamp = t; suffix = drop 1 remainder; stable = false; git_build = false }
    else record { timestamp = t; suffix = []; stable = true; git_build = false }

-- The text behind "RELEASE.".
unfoldable pub parse_stamp : Str → Option ParsedReleaseTag
unfolding cut_after_z tagged parse_utc
parse_stamp rest = do
  (stamp, remainder) ← cut_after_z rest
  t ← parse_utc 45 stamp
  some (tagged t remainder)

unfoldable pub parse_release_tag : Str → Option ParsedReleaseTag
unfolding parse_stamp has_prefix
parse_release_tag v =
    if has_prefix v (codes "RELEASE.")
    then parse_stamp (drop (length (codes "RELEASE.")) v)
    else none

-- strings.Compare
unfoldable pub str_compare : Str → Str → ℤ
unfolding str_lt
str_compare s t = if str_lt s t then negsuc 0 else if str_lt t s then pos 1 else pos 0

-- Two tags of the same time, on which of them are git builds and which are stable, and how their
-- suffixes compare.
unfoldable pub compare_kinds : Bool → Bool → Bool → Bool → ℤ → ℤ
compare_kinds git_a stable_a git_b stable_b suffixes =
    if (git_a && not git_b && stable_b) || (git_b && not git_a && stable_a)
    then pos 0
    else if stable_a && not stable_b
    then pos 1
    else if not stable_a && stable_b
    then negsuc 0
    else suffixes

unfoldable pub compare_parsed : ParsedReleaseTag → ParsedReleaseTag → ℤ
unfolding compare_kinds str_compare
compare_parsed a b =
    if ltb a.timestamp b.timestamp
    then negsuc 0
    else if ltb b.timestamp a.timestamp
    then pos 1
    else compare_kinds a.git_build a.stable b.git_build b.stable (str_compare a.suffix b.suffix)

unfoldable pub compare_read : Option ParsedReleaseTag → Option ParsedReleaseTag → ℤ → ℤ
unfolding compare_parsed
compare_read none none texts = texts
compare_read (some a) none texts = pos 1
compare_read none (some b) texts = negsuc 0
compare_read (some a) (some b) texts = compare_parsed a b

unfoldable pub compare_release_tags : Str → Str → ℤ
unfolding parse_release_tag compare_read str_compare
compare_release_tags a b =
    compare_read (parse_release_tag a) (parse_release_tag b) (str_compare a b)
