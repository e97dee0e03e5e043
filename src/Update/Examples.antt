-- ===== src/Update/Examples.antt =====
-- Two release tags, an update to the newer one, and three tags that no order can sort.
use bm.Base.{◌≡◌, refl, none, codes, inr, pos, negsuc, Str, some}
use bm.Update.Tags.{compare_release_tags}
use bm.Update.Ordering.{neg, compare_release_tags-swap}
use bm.Update.Service.{ReleaseInfo, UpdateEnv, apply_update}
use bm.Update.Justified.{Justified, apply_update-Justified}

abbrev may : Str
may = codes "RELEASE.2026-05-01T00-00-00Z"

abbrev june : Str
june = codes "RELEASE.2026-06-01T00-00-00Z"

compare_release_tags-swap_example :
    compare_release_tags june may ≡ neg (compare_release_tags may june)
compare_release_tags-swap_example = compare_release_tags-swap may june

abbrev release : ReleaseInfo
release = record { version = june; download_url = codes "https://x"; sha256 = codes "00" }

abbrev env : UpdateEnv
env = record {
  current_version = may;
  target_path = λ later. inr (codes "/usr/bin/bm");
  binary = λ after. some may;
  fetch_latest = λ second. inr release;
  permission = λ later. none;
  public_key = codes "RWQ";
  download = λ url. none;
  load_signature = λ url. none;
  replace_binary = λ r. none;
}

apply_update-Justified_example : Justified env (apply_update env)
apply_update-Justified_example = apply_update-Justified env

-- A git build is as new as the stable tag of its time and older than a tag with a suffix, which is
-- older than the stable tag.
git_and_stable : compare_release_tags (codes "RELEASE.2026-05-01T00-00-00Z-3-gabc") may ≡ pos 0
unfolding compare_release_tags
git_and_stable = refl

git_and_hotfix :
    compare_release_tags
      (codes "RELEASE.2026-05-01T00-00-00Z-3-gabc")
      (codes "RELEASE.2026-05-01T00-00-00Z.hotfix")
    ≡ negsuc 0
unfolding compare_release_tags
git_and_hotfix = refl

hotfix_and_stable :
    compare_release_tags (codes "RELEASE.2026-05-01T00-00-00Z.hotfix") may ≡ negsuc 0
unfolding compare_release_tags
hotfix_and_stable = refl
