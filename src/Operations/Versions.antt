-- ===== src/Operations/Versions.antt =====
-- The version checks of internal/operations/orchestrated.go around an upgrade.
pub mod Target
pub mod Waiting
use bm.Base.{
  ℕ, suc, Bool, true, false, not, ◌&&◌, Option, none, some, List, [], ◌∷◌, Str, codes, is_empty,
  ltb, leb, length, ℤ, has_prefix, drop, if◌then◌else◌,
}
use bm.Domain.{NodeState}
use bm.Deploy.Params.{trim_space}
use bm.Clock.{parse_utc, parse_rfc3339}

-- Of `ServerInfoServer`, what the operations read.
pub record ServerInfoServer : Type 0 where
  pub endpoint : Str
  pub state : NodeState
  pub version : Str
  pub os : Str
  pub arch : Str

pub record ServerInfo : Type 0 where
  pub version : Str
  pub servers : List ServerInfoServer
  pub pools : ℤ
  pub raw : ℤ
  pub used : ℤ
  pub usable : ℤ

abbrev or_else : Option ℕ → Option ℕ → Option ℕ
or_else none o = o
or_else (some t) o = some t

-- The time behind a prefix that the text has.
abbrev behind : Str → Str → Option ℕ
behind prefix v = if has_prefix v prefix then parse_utc 45 (drop (length prefix) v) else none

unfoldable pub parse_comparable_version_time : Str → Option ℕ
unfolding trim_space parse_utc parse_rfc3339
parse_comparable_version_time text =
    let v = trim_space text in
    if is_empty v
    then none
    else or_else (parse_rfc3339 v) (
        or_else (behind (codes "RELEASE.") v)
          (or_else (behind (codes "DEVELOPMENT.") v) (parse_utc 45 v)))

pub data VersionError : Type 0 where
  no_servers : VersionError
  not_newer missing_version still_old uncomparable : Str → VersionError
  missing_servers : ℕ → ℕ → VersionError

abbrev version_time : ServerInfoServer → Option ℕ
version_time s = parse_comparable_version_time s.version

unfoldable pub newer_than_all : ℕ → List ServerInfoServer → Option VersionError
newer_than_all target [] = none
newer_than_all target (s ∷ servers) =
    let rest = newer_than_all target servers in
    elim (version_time s) [
      | none ↦ rest
      | some current ↦ if ltb current target then rest else some (not_newer s.endpoint)
    ]

-- `ensureVersionIsNewer`
unfoldable pub ensure_version_is_newer : ℕ → ServerInfo → Option VersionError
unfolding newer_than_all
ensure_version_is_newer target info =
    if is_empty info.servers then some no_servers else newer_than_all target info.servers

-- The first loop of `ensureVersionReachedTarget`.
unfoldable pub all_comparable : List ServerInfoServer → Option VersionError
all_comparable [] = none
all_comparable (s ∷ servers) =
    let rest = all_comparable servers in
    if is_empty (trim_space s.version)
    then rest
    else elim (parse_comparable_version_time (trim_space s.version)) [
      | some _ ↦ rest
      | none ↦ some (uncomparable s.endpoint)
    ]

-- The second loop.
unfoldable pub all_reached : ℕ → List ServerInfoServer → Option VersionError
all_reached target [] = none
all_reached target (s ∷ servers) =
    let rest = all_reached target servers in
    elim (version_time s) [
      | none ↦ some (missing_version s.endpoint)
      | some current ↦ if ltb current target then some (still_old s.endpoint) else rest
    ]

unfoldable pub ensure_version_reached_target : ℕ → ℕ → ServerInfo → Option VersionError
unfolding all_comparable all_reached
ensure_version_reached_target target expected info =
    if is_empty info.servers
    then some no_servers
    else if ltb 0 expected && ltb (length info.servers) expected
    then some (missing_servers (length info.servers) expected)
    else elim (all_comparable info.servers) [
      | some e ↦ some e
      | none ↦ all_reached target info.servers
    ]
