-- ===== src/Operations/Upgrade/AdminUpdate.antt =====
-- `clusterUpgradeByAdminUpdateExecutor` of internal/operations/orchestrated.go: the servers replace
-- their own binaries. The URL of a binary and the answer to the request are arguments.
pub mod Ends
use bm.Base.{
  ℕ, Bool, Option, none, some, List, [], ◌∷◌, ◌++◌, ◌⊎◌, inl, inr, Str, codes, is_empty, ◌=s◌, not,
  ◌&&◌, ◌||◌, map, if◌then◌else◌,
}
use bm.Store.Json.{Json}
use bm.Store.Bucket.{Bucket, str_lt}
use bm.Domain.{Cluster}
use bm.Tasks.Types.{HostOpState, HostOpStatus}
use bm.Deploy.Params.{trim_space}
use bm.Migration.Hosts.{to_lower}
use bm.Operations.Types.{
  Event, called, server_update, Failure, admin_failed, server_info_failed, not_resolved,
  update_failed, Env, World, mutate, note, load, RunCtx,
}
use bm.Operations.Versions.{ServerInfoServer, parse_comparable_version_time}
use bm.Operations.Versions.Waiting.{Fetched, unavailable, info}
use bm.Operations.Progress.{item, concluded}
use bm.Operations.Hosts.{wait_cluster, refresh_cluster_row}
use bm.Operations.Upgrade.{validate_engine_compat, upgrade_preflight, after_health, detailed}

-- Of `admin.ServerUpdateResult`, what the executor reads.
pub record ServerUpdateResult : Type 0 where
  pub host : Str
  pub updated_version : Str
  pub error : Str

-- `deploy.ResolveBinaryURL`, and the answer to the request to update.
pub record Binaries : Type 0 where
  pub url : Str → Str → Str → Str ⊎ Str
  pub update : List Event → Str → Str ⊎ List ServerUpdateResult

-- The platform of the servers, given that of those before.
unfoldable pub platform_of :
    List ServerInfoServer → Option (Str × Str) → Failure ⊎ Option (Str × Str)
unfolding trim_space
platform_of [] seen = inr seen
platform_of (s ∷ servers) seen =
    let os = trim_space (to_lower s.os) in
    let arch = trim_space (to_lower s.arch) in
    let rest = platform_of servers (some (os, arch)) in
    if is_empty os || is_empty arch
    then inl (not_resolved (codes "server " ++ s.endpoint ++ codes " did not report os/arch"))
    else elim seen [
      | none ↦ rest
      | some (os', arch') ↦
          if os' =s os && arch' =s arch
          then rest
          else inl (
              not_resolved (
                codes "mixed platform inventory detected ("
                ++ os'
                ++ codes "/"
                ++ arch'
                ++ codes ", "
                ++ os
                ++ codes "/"
                ++ arch
                ++ codes ")"))
    ]

module _ (bin : Binaries) where
  abbrev not_found : Str ⊎ Str → Failure ⊎ Str
  not_found (inl e) = inl (not_resolved e)
  not_found (inr url) = inr url

  abbrev pub url_for : Str → Failure ⊎ Option (Str × Str) → Failure ⊎ Str
  url_for version (inl f) = inl f
  url_for version (inr none) = inl (not_resolved (codes "no servers reported by admin API"))
  url_for version (inr (some (os, arch))) = not_found (bin.url version os arch)

  unfoldable pub url_of_servers : Str → Fetched → Failure ⊎ Str
  unfolding platform_of
  url_of_servers version (unavailable e) = inl (server_info_failed e)
  url_of_servers version (info i) = url_for version (platform_of i.servers none)

  -- `resolveBinaryUpdateURL`
  unfoldable pub resolve_binary_update_url : Str → Fetched → Failure ⊎ Str
  unfolding url_of_servers trim_space
  resolve_binary_update_url version answer =
      let wanted = trim_space version in
      if is_empty wanted
      then inl (not_resolved (codes "version is required"))
      else url_of_servers wanted answer

-- Whether a server reports an error.
unfoldable pub update_error : ServerUpdateResult → Str
unfolding trim_space
update_error r = trim_space r.error

abbrev or_updated : Str → Str
or_updated detail = if is_empty detail then codes "updated" else detail

unfoldable pub update_row : ServerUpdateResult → HostOpStatus
unfolding update_error trim_space
update_row r = record {
  host_id = [];
  hostname = r.host;
  state = if is_empty (update_error r) then HostOpState.succeeded else HostOpState.failed;
  detail =
      if is_empty (update_error r)
      then or_updated (trim_space r.updated_version)
      else update_error r;
  duration = none;
}

unfoldable pub update_failures : List ServerUpdateResult → List Str
unfolding update_error
update_failures [] = []
update_failures (r ∷ results) =
    let rest = update_failures results in
    if is_empty (update_error r) then rest else (r.host ++ codes ": " ++ r.error) ∷ rest

-- `sort.Strings`
unfoldable pub insert_string : Str → List Str → List Str
unfolding str_lt
insert_string s [] = s ∷ []
insert_string s (x ∷ xs) =
    let rest = insert_string s xs in if str_lt x s then x ∷ rest else s ∷ x ∷ xs

unfoldable pub sort_strings : List Str → List Str
unfolding insert_string
sort_strings [] = []
sort_strings (s ∷ xs) = insert_string s (sort_strings xs)

module _ (b : Bucket (Json Cluster)) where
  -- `applyServerUpdateStatus`
  unfoldable pub apply_server_update_status :
      List ServerUpdateResult → World b → World b × Option Failure
  unfolding update_row update_failures sort_strings
  apply_server_update_status results w = (
    mutate b (λ p. record p { host_statuses = map update_row results }) w,
    (if is_empty (update_failures results)
        then none
        else some (update_failed (sort_strings (update_failures results)))),
  )

module _ (b : Bucket (Json Cluster)) (env : Env) (bin : Binaries) (id version : Str) where
  unfoldable pub concluded_update : RunCtx → World b × Option Failure → World b × Option Failure
  unfolding concluded refresh_cluster_row
  concluded_update rc (w, some f) = (w, some f)
  concluded_update rc (w, none) = (
    refresh_cluster_row b env id (
        mutate b
          (concluded (codes "Cluster upgrade complete") (
            item (codes "From") rc.cluster.version
            ∷ item (codes "To") version
            ∷ item (codes "Upgrade time") env.elapsed
            ∷ []))
          w),
    none,
  )

  unfoldable pub after_status :
      RunCtx → Option ℕ → ℕ → World b × Option Failure → World b × Option Failure
  unfolding concluded_update after_health wait_cluster
  after_status rc target expected (w, some f) = (w, some f)
  after_status rc target expected (w, none) = concluded_update rc (
      after_health b env target expected (
        wait_cluster b env (codes "2m0s") (detailed b env (codes "Waiting for cluster healthy") w)))

  unfoldable pub after_update :
      RunCtx → Option ℕ → ℕ → World b → Str ⊎ List ServerUpdateResult → World b × Option Failure
  unfolding after_status apply_server_update_status
  after_update rc target expected w (inl e) = (w, some (admin_failed e))
  after_update rc target expected w (inr results) =
      after_status rc target expected (apply_server_update_status b results w)

  unfoldable pub after_url :
      RunCtx → Option ℕ → ℕ → World b → Failure ⊎ Str → World b × Option Failure
  unfolding after_update
  after_url rc target expected w (inl f) = (w, some f)
  after_url rc target expected w (inr url) =
      let asked = detailed b env (codes "Requesting cluster update") w in
      after_update rc target expected (note b (called (server_update url)) asked)
        (bin.update w.events url)

  unfoldable pub after_update_check :
      RunCtx → Option ℕ → World b → Failure ⊎ ℕ → World b × Option Failure
  unfolding after_url resolve_binary_update_url
  after_update_check rc target w (inl f) = (w, some f)
  after_update_check rc target w (inr expected) =
      after_url rc target expected w
        (resolve_binary_update_url bin version (env.server_info w.events))

  unfoldable pub after_update_compat : RunCtx → World b → Option Failure → World b × Option Failure
  unfolding after_update_check upgrade_preflight parse_comparable_version_time
  after_update_compat rc w (some f) = (w, some f)
  after_update_compat rc w none =
      let target = parse_comparable_version_time version in
      after_update_check rc target w (upgrade_preflight b env target w)

  unfoldable pub update_ctx : World b → Failure ⊎ RunCtx → World b × Option Failure
  unfolding after_update_compat validate_engine_compat
  update_ctx w (inl f) = (w, some f)
  update_ctx w (inr rc) = after_update_compat rc w (validate_engine_compat rc.cluster.engine)

  unfoldable pub cluster_upgrade_by_admin_update : World b → World b × Option Failure
  unfolding update_ctx load
  cluster_upgrade_by_admin_update w = update_ctx w (load b env id w)
