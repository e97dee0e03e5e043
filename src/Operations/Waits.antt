-- ===== src/Operations/Waits.antt =====
-- The waits of internal/operations/helpers.go, over what each of their attempts meets. A list of
-- attempts goes up to the first that finds the deadline passed.
use bm.Base.{
  ℕ, Bool, true, false, not, ◌&&◌, Option, none, some, List, [], ◌∷◌, ◌++◌, Str, codes, is_empty,
  ◌==◌, if◌then◌else◌,
}
use bm.Clusters.Rollup.{is_online}
use bm.Operations.Versions.{ServerInfo, ServerInfoServer}
use bm.Operations.Versions.Waiting.{Fetched, unavailable, info}

-- The end of a command: no connection, a failure of the session, or an exit code with both outputs.
pub data SshAnswer : Type 0 where
  dial_failed run_failed : Str → SshAnswer
  exited : ℕ → Str → Str → SshAnswer

-- One attempt on a host: whether the deadline had passed before it, the answer, and whether it passed
-- in the pause after it.
pub record HostPoll : Type 0 where
  pub late : Bool
  pub answer : SshAnswer
  pub cut : Bool

abbrev exits_well : SshAnswer → Bool
exits_well (exited code out stderr) = code == 0
exits_well _ = false

-- A command that ran to its end, whatever its exit code.
abbrev ran_through : SshAnswer → Bool
ran_through (exited code out stderr) = true
ran_through _ = false

unfoldable pub poll_host : (SshAnswer → Bool) → List HostPoll → Bool
poll_host good [] = false
poll_host good (p ∷ polls) =
    let rest = poll_host good polls in
    if p.late then false else if good p.answer then true else if p.cut then false else rest

-- `waitHostHealthy`; the text of the time limit is an argument.
unfoldable pub wait_host_healthy : Str → Str → List HostPoll → Option Str
unfolding poll_host
wait_host_healthy limit hostname polls =
    if poll_host exits_well polls
    then none
    else some (hostname ++ codes " not healthy after " ++ limit)

-- `waitSSHReturn`
unfoldable pub wait_ssh_return : Str → Str → List HostPoll → Option Str
unfolding poll_host
wait_ssh_return limit hostname polls =
    if poll_host ran_through polls
    then none
    else some (hostname ++ codes " did not return SSH after " ++ limit)

pub record ClusterPoll : Type 0 where
  pub late : Bool
  pub ctx_error : Option Str
  pub answer : Fetched

unfoldable pub all_servers_online : List ServerInfoServer → Bool
all_servers_online [] = true
all_servers_online (s ∷ servers) = is_online s.state && all_servers_online servers

-- `allOnline`
unfoldable pub all_online : ServerInfo → Bool
unfolding all_servers_online
all_online i = not (is_empty i.servers) && all_servers_online i.servers

abbrev cluster_late : Str → Option Str → Str
cluster_late limit none = codes "cluster not healthy after " ++ limit
cluster_late limit (some e) =
    codes "admin API unavailable for " ++ limit ++ codes " while waiting for cluster healthy: " ++ e

abbrev or_else_text : Option Str → Str → Str
or_else_text none t = t
or_else_text (some s) t = s

-- `waitClusterHealthy`; the last argument is the error of the attempt before.
unfoldable pub wait_cluster_healthy : Str → List ClusterPoll → Option Str → Option Str
unfolding all_online
wait_cluster_healthy limit [] last = some (cluster_late limit last)
wait_cluster_healthy limit (p ∷ polls) last =
    let healthy = wait_cluster_healthy limit polls none in
    if p.late then some (or_else_text p.ctx_error (cluster_late limit last)) else elim p.answer [
      | unavailable e ↦ wait_cluster_healthy limit polls (some e)
      | info i ↦ if all_online i then none else healthy
    ]
