-- ===== src/Operations/Scoped/Counts.antt =====
-- What `hostSystemctlExecutor` of internal/operations/host_scoped.go reports, and the states of its hosts.
use bm.Base.{
  ℕ, ◌+◌, ◌≡◌, refl, Bool, false, Option, none, some, List, [], ◌∷◌, ◌++◌, ◌⊎◌, inl, inr, Str,
  codes, length, is_empty, if◌then◌else◌, if_both, ltb, arith, ◌=s◌,
}
use bm.Store.Json.{Json}
use bm.Store.Bucket.{Bucket}
use bm.Domain.{Cluster, Node}
use bm.Tasks.Types.{HostOpState, HostOpStatus}
use bm.Operations.Shell.{parse_load_state_loaded, sudo_systemctl, unit_name}
use bm.Operations.Types.{
  StepResult, output, step_failed, Failure, hosts_failed, Env, World, RunCtx, load, run_step,
  mutate,
}
use bm.Operations.Progress.{seed_host_statuses, concluded}
use bm.Operations.Hosts.{
  Tally, no_tally, each_host, wait_host, marked, refresh_cluster_row, rewrite,
}
use bm.Operations.Hosts.Statuses.{
  is_failed, is_succeeded, count, Tallied, modify_current, Marks, RowAt, Complete, counts_hosts,
  seeded-Complete,
}
use bm.Operations.Scoped.{
  after_verb_wait, after_verb, systemctl_host, systemctl_done, after_preflight, systemctl_targets,
  systemctl_ctx, host_systemctl, target_hosts, probe_units, unless_cut, after_unit_probe,
}

module _ (b : Bucket (Json Cluster)) (env : Env) (user verb unit : Str) (wait_healthy : Bool) where
  after_verb_wait-RowAt :
      (i : ℕ) (r : World b × Option Str) (xs rest : List HostOpStatus) (x : HostOpStatus)
      → length xs ≡ i
      → r.0.progress.host_statuses ≡ xs ++ (x ∷ rest)
      → RowAt b (after_verb_wait b env user verb unit wait_healthy i r) xs rest
  unfolding after_verb_wait
  after_verb_wait-RowAt i (w, some e) xs rest x l h =
      modify_current i xs rest x w.progress HostOpState.failed e l h
  after_verb_wait-RowAt i (w, none) xs rest x l h =
      modify_current i xs rest x w.progress HostOpState.succeeded (codes "done") l h

  after_verb-RowAt :
      (i : ℕ) (n : Node) (r : World b × StepResult) (xs rest : List HostOpStatus) (x : HostOpStatus)
      → length xs ≡ i
      → r.0.progress.host_statuses ≡ xs ++ (x ∷ rest)
      → RowAt b (after_verb b env user verb unit wait_healthy i n r) xs rest
  unfolding after_verb wait_host
  after_verb-RowAt i n (w, step_failed e) xs rest x l h =
      modify_current i xs rest x w.progress HostOpState.failed e l h
  after_verb-RowAt i n (w, output out) xs rest x l h =
      if_both (λ r. RowAt b r xs rest) wait_healthy _ _
        (λ _. after_verb_wait-RowAt i (wait_host b env (codes "1m0s") n w) xs rest x l h)
        (λ _. after_verb_wait-RowAt i (w, none) xs rest x l h)

  systemctl_host-Marks : Marks b (systemctl_host b env user verb unit wait_healthy)
  unfolding systemctl_host run_step
  systemctl_host-Marks i n w xs rest x l h =
      let v = marked b i HostOpState.running (codes "systemctl " ++ verb) w in
      let (y, left, _) =
        modify_current i xs rest x w.progress HostOpState.running (codes "systemctl " ++ verb) l
          h in
      after_verb-RowAt i n (run_step b env n (sudo_systemctl user (verb ++ codes " " ++ unit)) v) xs
        rest y l left

-- Without an error every host has succeeded. Where hosts have failed, the error tells how many of how
-- many, and the other ones have succeeded.
abbrev pub ReportedOn : ℕ → List HostOpStatus → Option Failure → Type 0
ReportedOn n xs none = (count is_failed xs ≡ 0) × (count is_succeeded xs ≡ n)
ReportedOn n xs (some f) =
    (counts_hosts f ≡ false)
    ⊎ ((k : ℕ) × (cause : Option Str) × (f ≡ hosts_failed k n cause)
        × (count is_failed xs ≡ k)
        × (k + count is_succeeded xs ≡ n))

abbrev pub Reported : {b : Bucket (Json Cluster)} → ℕ → World b × Option Failure → Type 0
Reported n (w, r) = ReportedOn n w.progress.host_statuses r

report_of :
    (n : ℕ) (t : Tally) (xs : List HostOpStatus)
    → Tallied xs t
    → length xs ≡ n
    → ReportedOn n xs (if ltb 0 t.failed then some (hosts_failed t.failed n none) else none)
report_of n t xs h l =
    if_both (ReportedOn n xs) (ltb 0 t.failed) _ _
      (λ e. inr (t.failed, none, refl, h.0, omega (arith, h.0, h.1, h.2, l)))
      (λ e. (ground (arith, e, h.0), ground (arith, e, h.0, h.1, h.2, l)))

module _ (b : Bucket (Json Cluster)) (env : Env) (id verb : Str) where
  systemctl_done-Reported :
      (n : ℕ) (r : World b × (Failure ⊎ Tally))
      → Complete b n r
      → Reported n (systemctl_done b env id verb n r)
  unfolding systemctl_done refresh_cluster_row rewrite concluded
  systemctl_done-Reported n (w, inl f) h = inl h
  systemctl_done-Reported n (w, inr t) h =
      if_both {A = World b}
        (λ v.
          ReportedOn n v.progress.host_statuses
            (if ltb 0 t.failed then some (hosts_failed t.failed n none) else none))
        (verb =s codes "stop") _ _ (λ _. report_of n t w.progress.host_statuses h.0 h.1)
        (λ _. report_of n t w.progress.host_statuses h.0 h.1)

  -- An error before any host is touched.
  abbrev Early : World b × Option Failure → Type 0
  Early (w, none) = Unit
  Early (w, some f) = counts_hosts f ≡ false

  after_preflight-Reported :
      (rc : RunCtx) (wait_healthy : Bool) (hosts : List Node) (r : World b × Option Failure)
      → Early r
      → Reported (length hosts) (after_preflight b env id rc verb wait_healthy hosts r)
  unfolding after_preflight
  after_preflight-Reported rc wait_healthy hosts (w, some f) k = inl k
  after_preflight-Reported rc wait_healthy hosts (w, none) k =
      systemctl_done-Reported (length hosts)
        (each_host b env
          (systemctl_host b env rc.ssh_creds.user verb (unit_name rc.cluster.engine) wait_healthy) 0
          hosts no_tally (mutate b (seed_host_statuses hosts) w))
        (seeded-Complete b env
          (systemctl_host b env rc.ssh_creds.user verb (unit_name rc.cluster.engine) wait_healthy)
          hosts w
          (systemctl_host-Marks b env rc.ssh_creds.user verb (unit_name rc.cluster.engine)
            wait_healthy))

  unless_cut-Early :
      (o : Option Str) (w : World b) (r : World b × Option Failure)
      → Early r
      → Early (unless_cut b env o w r)
  unless_cut-Early (some e) w r h = refl
  unless_cut-Early none w r h = h

  after_unit_probe-Early :
      (n : Node) (r : StepResult) (w : World b)
      (next : List Str → World b → World b × Option Failure) (missing : List Str)
      → ((m : List Str) → Early (next m w))
      → Early (after_unit_probe b env n r w next missing)
  after_unit_probe-Early n (step_failed e) w next missing h = refl
  after_unit_probe-Early n (output out) w next missing h =
      if_both Early (parse_load_state_loaded out) _ _ (λ _. h missing) (λ _. h _)

  probe_units-Early :
      (unit : Str) (hosts : List Node) (missing : List Str) (w : World b)
      → Early (probe_units b env unit hosts missing w)
  unfolding probe_units
  probe_units-Early unit [] missing w =
      if_both (λ r. Early (w, r)) (is_empty missing) _ _ (λ _. tt) (λ _. refl)
  probe_units-Early unit (n ∷ hosts) missing w = unless_cut-Early (env.ctx_error w.events) w _ (
      after_unit_probe-Early n _ _ (λ m v. probe_units b env unit hosts m v) missing
        (λ m. probe_units-Early unit hosts m _))

  systemctl_targets-Reported :
      (rc : RunCtx) (wait_healthy : Bool) (hosts : List Node) (w : World b)
      → Reported (length hosts) (systemctl_targets b env id rc verb wait_healthy w (inr hosts))
  unfolding systemctl_targets
  systemctl_targets-Reported rc wait_healthy [] w = inl refl
  systemctl_targets-Reported rc wait_healthy (n ∷ hosts) w =
      after_preflight-Reported rc wait_healthy (n ∷ hosts) _
        (probe_units-Early (unit_name rc.cluster.engine) (n ∷ hosts) [] w)

-- Of systemctl on a list of hosts: without an error every host's row says that it succeeded; an error
-- that counts failed hosts counts the rows that failed, and all other rows succeeded.
pub host_systemctl-Reported :
    (b : Bucket (Json Cluster)) (env : Env) (id verb : Str) (wait_healthy : Bool)
    (targets : List Str) (w : World b) (rc : RunCtx) (hosts : List Node)
    → load b env id w ≡ inr rc
    → target_hosts targets rc.nodes ≡ inr hosts
    → Reported (length hosts) (host_systemctl b env id verb wait_healthy targets w)
unfolding host_systemctl systemctl_ctx
host_systemctl-Reported b env id verb wait_healthy targets w rc hosts h k =
    rw (h, k) (systemctl_targets-Reported b env id verb rc wait_healthy hosts w)
