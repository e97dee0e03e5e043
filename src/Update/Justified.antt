-- ===== src/Update/Justified.antt =====
-- When `Service.Apply` of internal/update/service.go replaces the binary.
use bm.Base.{
  ◌≡◌, refl, Bool, true, false, not, ◌&&◌, Option, none, some, List, [], ◌∷◌, ◌⊎◌, inl, inr, Str,
  is_pos, is_empty, if◌then◌else◌, subst, sym, if_both, arith, All,
}
use bm.Update.Tags.{compare_release_tags}
use bm.Update.Service.{
  ReleaseInfo, Status, UpdateEnv, Applied, is_release_tag, installed_version, can_apply, status_of,
  check_release, check_path, check, steps_of, replaced, run_steps, install_release, apply_status,
  apply_update,
}

-- What the call that replaces the binary rests on: the release that the first fetch found is newer
-- than the installed one, the running program is a release, and the release of the second fetch is
-- downloaded, may be written, and has a signature where there is a key to check it with.
pub record Grounds (env : UpdateEnv) (r : ReleaseInfo) : Type 0 where
  pub first : ReleaseInfo
  pub found : env.fetch_latest false ≡ inr first
  pub newer :
      is_pos (
        compare_release_tags first.version
          (installed_version (env.binary false) env.current_version))
      ≡ true
  pub release : is_release_tag env.current_version ≡ true
  pub chosen : env.fetch_latest true ≡ inr r
  pub downloaded : env.download r.download_url ≡ none
  pub permitted : env.permission true ≡ none
  pub signed : (is_empty env.public_key ≡ true) ⊎ (env.load_signature r.download_url ≡ none)

-- With no release in the first place, the library that replaces the binary was not called.
abbrev pub Justified : UpdateEnv → Applied → Type 0
Justified env (none, inl e) = Unit
Justified env (none, inr a) = a.applied ≡ false
Justified env (some r, inl e) = Grounds env r × (env.replace_binary r ≡ some e)
Justified env (some r, inr a) =
    Grounds env r
    × (env.replace_binary r ≡ none)
    × (a.applied ≡ true)
    × (a.latest_version ≡ r.version)

-- The steps end with an error and nothing replaced, or with every one of them passed.
run_steps-cases :
    (steps : List (Option Str)) (done : Applied)
    → ((e : Str) × (run_steps steps done ≡ (none, inl e)))
      ⊎ ((run_steps steps done ≡ done) × All (λ e. e ≡ none) steps)
unfolding run_steps
run_steps-cases [] done = inr (refl, tt)
run_steps-cases (some e ∷ steps) done = inl (e, refl)
run_steps-cases (none ∷ steps) done = elim (run_steps-cases steps done) [
  | inl (e, q) ↦ inl (e, q)
  | inr (q, h) ↦ inr (q, (refl, h))
]

-- What the status says that lets an update go on.
abbrev Offered : UpdateEnv → Status → Type 0
Offered env s =
    (first : ReleaseInfo) × (env.fetch_latest false ≡ inr first)
    × ((s.update_available && s.can_apply) ≡ true
        → (is_pos (
              compare_release_tags first.version
                (installed_version (env.binary false) env.current_version))
            ≡ true)
          × (is_release_tag env.current_version ≡ true))

signature-passed :
    (env : UpdateEnv) (r : ReleaseInfo)
    → (if is_empty env.public_key then none else env.load_signature r.download_url) ≡ none
    → (is_empty env.public_key ≡ true) ⊎ (env.load_signature r.download_url ≡ none)
signature-passed env r h =
    if_both {A = Option Str}
      (λ o.
        o ≡ none → (is_empty env.public_key ≡ true) ⊎ (env.load_signature r.download_url ≡ none))
      (is_empty env.public_key) _ _ (λ e _. inl e) (λ _ q. inr q) h

replaced-Justified :
    (env : UpdateEnv) (s : Status) (r : ReleaseInfo) (o : Option Str)
    → env.replace_binary r ≡ o
    → Grounds env r
    → Justified env (replaced env s r o)
unfolding replaced
replaced-Justified env s r (some e) h g = (g, h)
replaced-Justified env s r none h g = (g, h, refl, refl)

install_release-Justified :
    (env : UpdateEnv) (s : Status) (o : Str ⊎ ReleaseInfo)
    → env.fetch_latest true ≡ o
    → Offered env s
    → (s.update_available && s.can_apply) ≡ true
    → Justified env (install_release env s o)
unfolding install_release
install_release-Justified env s (inl e) q h k = tt
install_release-Justified env s (inr r) q (first, found, why) k =
    elim (run_steps-cases (steps_of env r) (replaced env s r (env.replace_binary r))) [
      | inl (e, left) ↦ rw left tt
      | inr (left, (downloaded, (_, (permitted, (signed, _))))) ↦ subst (Justified env) (sym left) (
          replaced-Justified env s r (env.replace_binary r) refl (record {
            first = first;
            found = found;
            newer = (why k).0;
            release = (why k).1;
            chosen = q;
            downloaded = downloaded;
            permitted = permitted;
            signed = signature-passed env r signed;
          }))
    ]

apply_status-Justified :
    (env : UpdateEnv) (s : Status) → Offered env s → Justified env (apply_status env (inr s))
unfolding apply_status
apply_status-Justified env s h =
    if_both (Justified env) (s.restart_required && not s.update_available) _ _ (λ _. refl)
      (λ _.
        if_both (Justified env) (not s.update_available) _ _ (λ _. refl)
          (λ some_new.
            if_both (Justified env) (not s.can_apply) _ _ (λ _. tt)
              (λ may.
                install_release-Justified env s (env.fetch_latest true) refl h
                  (ground (arith, some_new, may)))))

both_true : (x y : Bool) → (x && (x && y)) ≡ true → (x ≡ true) × (y ≡ true)
both_true true true h = (refl, refl)
both_true true false h = cc
both_true false y h = cc

can_apply-release :
    (permission : Option Str) (path current : Str)
    → (can_apply permission path current).0 ≡ true
    → is_release_tag current ≡ true
unfolding can_apply
can_apply-release permission path current h =
    if_both {A = Bool × Str} (λ r. r.0 ≡ true → is_release_tag current ≡ true)
      (is_release_tag current) _ _ (λ e _. e) (λ _ q. cc (q)) h

status_of-Offered :
    (env : UpdateEnv) (path : Str) (r : ReleaseInfo)
    → env.fetch_latest false ≡ inr r
    → Offered env (status_of env path r)
unfolding status_of
status_of-Offered env path r h = (
  r,
  h,
  λ k.
      let (newer, may) = both_true _ _ k in
      (newer, can_apply-release (env.permission false) path env.current_version may),
)

check_release-Justified :
    (env : UpdateEnv) (path : Str) (o : Str ⊎ ReleaseInfo)
    → env.fetch_latest false ≡ o
    → Justified env (apply_status env (check_release env path o))
unfolding check_release apply_status
check_release-Justified env path (inl e) h = tt
check_release-Justified env path (inr r) h =
    apply_status-Justified env (status_of env path r) (status_of-Offered env path r h)

check_path-Justified :
    (env : UpdateEnv) (o : Str ⊎ Str) → Justified env (apply_status env (check_path env o))
unfolding check_path apply_status
check_path-Justified env (inl e) = tt
check_path-Justified env (inr path) = check_release-Justified env path (env.fetch_latest false) refl

-- The library that replaces the binary is called at most once, and only where the running program is a
-- release, the release that the first fetch found is newer than the installed one, and that of the
-- second fetch, which the library gets, is downloaded, may be written, and has its signature loaded
-- unless no public key is set. `Apply` then answers with the library's error, or that this release
-- was applied; without the call it answers with an error or that nothing was applied.
pub apply_update-Justified : (env : UpdateEnv) → Justified env (apply_update env)
unfolding apply_update check
apply_update-Justified env = check_path-Justified env (env.target_path false)
