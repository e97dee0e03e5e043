-- ===== src/Discovery/Engine.antt =====
-- internal/discovery/engine.go: MinIO or Buckit, by the time in a version text.
use bm.Base.{ℕ, ◌*◌, Option, none, some, Str, codes, ltb, has_prefix, drop, length, if◌then◌else◌}
use bm.Domain.{ClusterEngine}
use bm.Deploy.Params.{trim_space}
use bm.Clock.{parse_utc, days}

-- strings.TrimPrefix
unfoldable pub trim_prefix : Str → Str → Str
unfolding has_prefix
trim_prefix s prefix = if has_prefix s prefix then drop (length prefix) s else s

-- The first of May 2026.
unfoldable pub engine_cutoff : ℕ
unfolding days
engine_cutoff = days 2026 5 1 * 86400000000000

abbrev or_else : Option ℕ → Option ℕ → Option ℕ
or_else none o = o
or_else (some t) o = some t

abbrev engine_of : Option ℕ → ClusterEngine
engine_of none = ClusterEngine.buckit
engine_of (some t) = if ltb t engine_cutoff then ClusterEngine.minio else ClusterEngine.buckit

unfoldable pub parse_engine : Str → ClusterEngine
unfolding trim_space trim_prefix parse_utc engine_cutoff
parse_engine version =
    let v = trim_prefix (trim_space version) (codes "RELEASE.") in
    engine_of (or_else (parse_utc 45 v) (parse_utc 58 v))
