-- ===== src/Operations/Versions/Target.antt =====
-- When the checks of internal/operations/orchestrated.go accept the versions of the servers.
use bm.Base.{
  ℕ, ◌≡◌, refl, ◌↔◌, ◌≤◌, ◌<◌, false, none, some, List, [], ◌∷◌, Str, is_empty, length, All, arith,
  Option-cases, sym, ◌∙◌, inl, inr, some-inj, if_both,
}
use bm.Deploy.Params.{trim_space}
use bm.Deploy.Trim.{trim_space-trim_space}
use bm.Operations.Versions.{
  ServerInfo, ServerInfoServer, parse_comparable_version_time, ensure_version_is_newer,
  ensure_version_reached_target, all_comparable, all_reached, newer_than_all,
}

-- The server reports a version that names a time, no earlier than the target.
abbrev pub Reached : ℕ → ServerInfoServer → Type 0
Reached target s = (t : ℕ) × (parse_comparable_version_time s.version ≡ some t) × (target ≤ t)

-- The target is later than what the server reports, where that names a time.
abbrev pub Outdated : ℕ → ServerInfoServer → Type 0
Outdated target s = (t : ℕ) → parse_comparable_version_time s.version ≡ some t → t < target

pub trimmed_version :
    (v : Str) → parse_comparable_version_time (trim_space v) ≡ parse_comparable_version_time v
unfolding parse_comparable_version_time
trimmed_version v = rw (trim_space-trim_space v) refl

all_comparable-Reached :
    (target : ℕ) (servers : List ServerInfoServer)
    → All (Reached target) servers
    → all_comparable servers ≡ none
unfolding all_comparable
all_comparable-Reached target [] h = refl
all_comparable-Reached target (s ∷ servers) ((t, e, l), h) =
    rw (trimmed_version s.version, e) (ground (arith, all_comparable-Reached target servers h))

all_reached_iff :
    (target : ℕ) (servers : List ServerInfoServer)
    → (all_reached target servers ≡ none) ↔ All (Reached target) servers
unfolding all_reached
all_reached_iff target [] = (λ _. tt, λ _. refl)
all_reached_iff target (s ∷ servers) =
    elim (Option-cases (parse_comparable_version_time s.version)) [
      | inl e ↦ rw e (λ h. cc h, λ ((t, q, l), h). cc (e, q))
      | inr (t, e) ↦ rw e (
        λ h. ((t, refl, ground (arith, h)), (all_reached_iff target servers).0 (ground (arith, h))),
        λ ((x, q, l), hs). ground (arith, some-inj q, l, (all_reached_iff target servers).1 hs),
      )
    ]

newer_than_all-none :
    (target : ℕ) (s : ServerInfoServer) (servers : List ServerInfoServer)
    → parse_comparable_version_time s.version ≡ none
    → newer_than_all target (s ∷ servers) ≡ newer_than_all target servers
unfolding newer_than_all
newer_than_all-none target s servers e = rw (newer_than_all, e) refl

newer_than_all_iff :
    (target : ℕ) (servers : List ServerInfoServer)
    → (newer_than_all target servers ≡ none) ↔ All (Outdated target) servers
unfolding newer_than_all
newer_than_all_iff target [] = (λ _. tt, λ _. refl)
newer_than_all_iff target (s ∷ servers) =
    elim (Option-cases (parse_comparable_version_time s.version)) [
      | inl e ↦
          let (there, back) = newer_than_all_iff target servers in
          let same = newer_than_all-none target s servers e in
          (λ h. (λ t q. cc (e, q), there (sym same ∙ h)), λ (_, hs). same ∙ back hs)
      | inr (t, e) ↦ rw e (
        λ h. (
          λ x q. ground (arith, some-inj q, h),
          (newer_than_all_iff target servers).0 (ground (arith, h)),
        ),
        λ (old, hs). ground (arith, old t refl, (newer_than_all_iff target servers).1 hs),
      )
    ]

-- The check before an upgrade passes just when the admin API reports a server, and the target is
-- later than every version that a server reports and that names a time.
pub ensure_version_is_newer_iff :
    (target : ℕ) (info : ServerInfo)
    → (ensure_version_is_newer target info ≡ none)
      ↔ (is_empty info.servers ≡ false × All (Outdated target) info.servers)
unfolding ensure_version_is_newer
ensure_version_is_newer_iff target info =
    if_both (λ r. (r ≡ none) ↔ (is_empty info.servers ≡ false × All (Outdated target) info.servers))
      (is_empty info.servers) _ _ (λ e. (λ h. cc h, λ (e', _). cc (e, e')))
      (λ e. (
        λ h. (e, (newer_than_all_iff target info.servers).0 h),
        λ (_, hs). (newer_than_all_iff target info.servers).1 hs,
      ))

-- The check after an upgrade passes just when the admin API reports a server, no fewer servers than
-- before the upgrade, and of each a version that names a time no earlier than the target's.
pub ensure_version_reached_target_iff :
    (target expected : ℕ) (info : ServerInfo)
    → (ensure_version_reached_target target expected info ≡ none) ↔ (
        is_empty info.servers ≡ false
        × (expected ≤ length info.servers)
        × All (Reached target) info.servers)
unfolding ensure_version_reached_target
ensure_version_reached_target_iff target expected info =
    let (there, back) = all_reached_iff target info.servers in
    (
      λ h. elim (Option-cases (all_comparable info.servers)) [
        | inl e ↦ ground (arith, e, h, there)
        | inr (x, e) ↦ ground (arith, e, h)
      ],
      λ (full, l, hs).
          ground (arith, full, l, back hs, all_comparable-Reached target info.servers hs),
    )
