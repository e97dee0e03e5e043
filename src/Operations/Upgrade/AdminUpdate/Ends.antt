-- ===== src/Operations/Upgrade/AdminUpdate/Ends.antt =====
-- How an upgrade of internal/operations by the admin API ends: no server reports an error, or the update
-- fails before any wait.
use bm.Base.{
  ℕ, ◌≡◌, refl, Bool, true, false, Option, none, some, List, [], ◌∷◌, ◌++◌, ◌⊎◌, inl, inr, Str,
  codes, is_empty, ltb, ◌+◌, ◌∙◌, ◌=s◌, ◌&&◌, not, if◌then◌else◌, if_both, All, arith, Bool-cases,
}
use bm.Store.Json.{Json}
use bm.Store.Bucket.{Bucket, str_lt}
use bm.Deploy.Params.{trim_space}
use bm.Domain.{Cluster}
use bm.Operations.Types.{
  Event, called, waited_cluster, server_update, Failure, update_failed, Env, World, load, RunCtx,
  note,
}
use bm.Operations.Versions.{parse_comparable_version_time}
use bm.Operations.Versions.Waiting.{WaitError, Converged, wait_server_versions_reached-Converged}
use bm.Operations.Hosts.{wait_cluster, is_well, refresh_cluster_row, rewrite}
use bm.Operations.Upgrade.{
  validate_engine_compat, upgrade_preflight, after_health, wait_versions_after, converged,
  awaiting_versions, minimum_version_convergence_budget, detailed,
}
use bm.Operations.Upgrade.AdminUpdate.{
  ServerUpdateResult, Binaries, resolve_binary_update_url, update_error, update_failures,
  insert_string, sort_strings, apply_server_update_status, concluded_update, after_status,
  after_update, after_url, after_update_check, after_update_compat, update_ctx,
  cluster_upgrade_by_admin_update,
}

-- No server reports an error.
abbrev pub Clean : List ServerUpdateResult → Type 0
Clean results = All (λ r. is_empty (trim_space r.error) ≡ true) results

no_failures :
    (results : List ServerUpdateResult) → is_empty (update_failures results) ≡ true → Clean results
unfolding update_failures update_error
no_failures [] e = tt
no_failures (r ∷ results) e = elim (Bool-cases (is_empty (trim_space r.error))) [
  | inl k ↦ (k, no_failures results (ground (arith, e, k)))
  | inr k ↦ absurd (ground (arith, e, k))
]

some_failures :
    (results : List ServerUpdateResult)
    → is_empty (update_failures results) ≡ false
    → ¬ Clean results
unfolding update_failures update_error
some_failures [] e h = cc
some_failures (r ∷ results) e (k, h) = some_failures results (ground (arith, e, k)) h

-- How often a text stands in a list.
abbrev pub occurs : Str → List Str → ℕ
occurs s [] = 0
occurs s (x ∷ xs) = (if x =s s then 1 else 0) + occurs s xs

-- How many servers report an error with a text: the host's name, and the error as it came.
abbrev pub said : Str → List ServerUpdateResult → ℕ
said s [] = 0
said s (r ∷ results) =
    (if not (is_empty (trim_space r.error)) && (r.host ++ codes ": " ++ r.error) =s s then 1 else 0)
    + said s results

-- The texts are those of the servers that report an error, each as often as they do.
abbrev pub Tells : List ServerUpdateResult → List Str → Type 0
Tells results names = (s : Str) → occurs s names ≡ said s results

occurs-insert_string :
    (s x : Str) (xs : List Str) → occurs s (insert_string x xs) ≡ occurs s (x ∷ xs)
unfolding insert_string
occurs-insert_string s x [] = refl
occurs-insert_string s x (y ∷ xs) =
    if_both (λ l. occurs s l ≡ occurs s (x ∷ y ∷ xs)) (str_lt y x) _ _
      (λ _. omega (arith, occurs-insert_string s x xs)) (λ _. refl)

occurs-sort_strings : (s : Str) (xs : List Str) → occurs s (sort_strings xs) ≡ occurs s xs
unfolding sort_strings
occurs-sort_strings s [] = refl
occurs-sort_strings s (x ∷ xs) =
    omega (arith, occurs-insert_string s x (sort_strings xs), occurs-sort_strings s xs)

occurs-update_failures :
    (s : Str) (results : List ServerUpdateResult)
    → occurs s (update_failures results) ≡ said s results
unfolding update_failures update_error
occurs-update_failures s [] = refl
occurs-update_failures s (r ∷ results) =
    if_both (λ l. occurs s l ≡ said s (r ∷ results)) (is_empty (trim_space r.error)) _ _
      (λ e. rw e (omega (arith, occurs-update_failures s results)))
      (λ e. rw e (omega (arith, occurs-update_failures s results)))

failures-Tells :
    (results : List ServerUpdateResult) → Tells results (sort_strings (update_failures results))
failures-Tells results s =
    occurs-sort_strings s (update_failures results) ∙ occurs-update_failures s results

abbrev pub reports : Failure → Bool
reports (update_failed names) = true
reports _ = false

module _ (b : Bucket (Json Cluster)) (env : Env) where
  -- That a wait after the events `es` has seen all servers at the target's version; `none` is a
  -- version without a time, which is not checked.
  abbrev pub Met : Option ℕ → ℕ → List Event → Type 0
  Met none expected es = Unit
  Met (some target) expected es = Converged target expected (env.version_attempts es)

  -- After the events `es`: a success where no server reports an error and a wait met the version, an
  -- error that reports servers, or one after a wait.
  abbrev pub UpdateEnd :
      List ServerUpdateResult → Option ℕ → ℕ → List Event → World b × Option Failure → Type 0
  UpdateEnd results target expected es (w, none) =
      Clean results × Met target expected w.events × (w.events ≡ es ++ (waited_cluster true ∷ []))
  UpdateEnd results target expected es (w, some f) =
      ((names : List Str) × (f ≡ update_failed names)
        × Tells results names
        × (Clean results → ⊥)
        × (w.events ≡ es))
      ⊎ ((reports f ≡ false)
          × Clean results
          × ((well : Bool) × (w.events ≡ es ++ (waited_cluster well ∷ []))))

  module _ (bin : Binaries) (id version : Str) (rc : RunCtx)
      (results : List ServerUpdateResult) where
    converged-UpdateEnd :
        (target expected : ℕ) (es : List Event) (w : World b) (o : Option WaitError)
        → Clean results
        → w.events ≡ es ++ (waited_cluster true ∷ [])
        → (o ≡ none → Converged target expected (env.version_attempts w.events))
        → UpdateEnd results
            (some target)
            expected
            es
            (concluded_update b env bin id version rc (converged b env w o))
    unfolding concluded_update refresh_cluster_row rewrite
    converged-UpdateEnd target expected es w (some e) h q k = inr (refl, h, (true, q))
    converged-UpdateEnd target expected es w none h q k = (h, k refl, q)

    wait_versions_after-UpdateEnd :
        (target : Option ℕ) (expected : ℕ) (es : List Event) (w : World b)
        → Clean results
        → w.events ≡ es ++ (waited_cluster true ∷ [])
        → UpdateEnd results target expected es
            (concluded_update b env bin id version rc (wait_versions_after b env target expected w))
    unfolding wait_versions_after concluded_update refresh_cluster_row rewrite
    wait_versions_after-UpdateEnd none expected es w h q = (h, tt, q)
    wait_versions_after-UpdateEnd (some target) expected es w h q =
        if_both {A = World b × Option Failure}
          (λ r.
            UpdateEnd results (some target) expected es
              (concluded_update b env bin id version rc r))
          (ltb (env.budget_left w.events) (minimum_version_convergence_budget 120000000000)) _ _
          (λ _. inr (refl, h, (true, q)))
          (λ _. converged-UpdateEnd target expected es (awaiting_versions b env w) _ h q (
            wait_server_versions_reached-Converged target expected (env.version_attempts w.events)))

    after_health-UpdateEnd :
        (target : Option ℕ) (expected : ℕ) (es : List Event) (r : World b × Option Str)
        → Clean results
        → r.0.events ≡ es ++ (waited_cluster (is_well b r.1) ∷ [])
        → UpdateEnd results target expected es
            (concluded_update b env bin id version rc (after_health b env target expected r))
    unfolding after_health concluded_update
    after_health-UpdateEnd target expected es (w, some e) h q = inr (refl, h, (false, q))
    after_health-UpdateEnd target expected es (w, none) h q =
        wait_versions_after-UpdateEnd target expected es w h q

    after_update-UpdateEnd :
        (target : Option ℕ) (expected : ℕ) (w : World b)
        → UpdateEnd results target expected w.events
            (after_update b env bin id version rc target expected w (inr results))
    unfolding after_update after_status apply_server_update_status wait_cluster
    after_update-UpdateEnd target expected w =
        elim (Bool-cases (is_empty (update_failures results))) [
          | inl e ↦
              rw (e)
                (after_health-UpdateEnd target expected w.events _ (no_failures results e) refl)
          | inr e ↦ rw (e) (inl (_, refl, failures-Tells results, some_failures results e, refl))
        ]

-- An upgrade by the admin API that the API answers with its servers' results ends without an error
-- only where no server reports one and a wait that began after the update and after the cluster was
-- healthy saw every server at the version; a version that names no time is not checked. It fails with
-- the texts of the servers' errors, before any wait, just when a server reports one.
pub cluster_upgrade_by_admin_update-UpdateEnd :
    (b : Bucket (Json Cluster)) (env : Env) (bin : Binaries) (id version url : Str) (w : World b)
    (rc : RunCtx) (expected : ℕ) (results : List ServerUpdateResult)
    → load b env id w ≡ inr rc
    → validate_engine_compat rc.cluster.engine ≡ none
    → upgrade_preflight b env (parse_comparable_version_time version) w ≡ inr expected
    → resolve_binary_update_url bin version (env.server_info w.events) ≡ inr url
    → bin.update w.events url ≡ inr results
    → UpdateEnd b env results
        (parse_comparable_version_time version)
        expected
        (w.events ++ (called (server_update url) ∷ []))
        (cluster_upgrade_by_admin_update b env bin id version w)
unfolding cluster_upgrade_by_admin_update update_ctx after_update_compat after_update_check
    after_url
cluster_upgrade_by_admin_update-UpdateEnd b env bin id version url w rc expected results loaded
      compat checked found answered =
    rw (loaded, compat, checked, found, answered)
      (after_update-UpdateEnd b env bin id version rc results
        (parse_comparable_version_time version) expected
        (note b (called (server_update url))
          (detailed b env (codes "Requesting cluster update") w)))
