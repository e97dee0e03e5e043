-- ===== src/Operations/Start/Ends.antt =====
-- Starting or stopping a cluster comes to an end in every order of the goroutines' turns, and reports
-- what the rows say.
use bm.Base.{
  ℕ, zero, suc, ◌+◌, ◌≤◌, ◌<◌, ◌≡◌, refl, true, false, Option, none, some, List, [], ◌∷◌, inl, inr,
  Str, codes, ◌==◌, ltb, length, map, if_both, arith,
}
use bm.Store.Json.{Json}
use bm.Store.Bucket.{Bucket}
use bm.Domain.{Cluster, Node}
use bm.Operations.Shell.{unit_name}
use bm.Operations.Types.{Failure, hosts_failed, Env, World, RunCtx, load}
use bm.Tasks.Types.{HostOpStatus}
use bm.Operations.Progress.{pending_status, seed_host_statuses, concluded}
use bm.Operations.Hosts.{wait_cluster, refresh_cluster_row, rewrite}
use bm.Operations.Hosts.Statuses.{is_failed, is_succeeded, count}
use bm.Operations.Scoped.Counts.{ReportedOn, Reported}
use bm.Operations.Start.Turns.{Agrees, run_turns-Agrees, RowsOf, rows}
use bm.Operations.Start.{
  Phase, at_probe, at_command, ended, Fan, run_turns, all_ended, begun, start_ended, stop_ended,
  waited, fanned, after_start_wait, start_ctx, stop_ctx, start_cluster, stop_cluster_by_systemctl,
}
use bm.Operations.Start.Left.{turns_left, turns_of, run_turns-left, left_ended}

begun_left :
    (nodes : List Node) (turns : ℕ → ℕ)
    → ((i : ℕ) → i < length nodes → 2 ≤ turns i)
    → (j : ℕ) → turns_left (map (λ _. at_probe) nodes) j ≤ turns j
unfolding turns_left
begun_left [] turns h j = omega arith
begun_left (n ∷ nodes) turns h zero = h 0 (omega arith)
begun_left (n ∷ nodes) turns h (suc j) =
    begun_left nodes (λ i. turns (suc i)) (λ i l. h (suc i) (omega (arith, l))) j

begun_rows :
    (nodes : List Node)
    → RowsOf (map (λ _. at_probe) nodes) (map pending_status nodes)
      × (count is_failed (map pending_status nodes) ≡ 0)
      × (length (map {B = Phase} (λ _. at_probe) nodes) ≡ length nodes)
unfolding count
begun_rows [] = (tt, refl, refl)
begun_rows (n ∷ nodes) =
    let (h, c, l) = begun_rows nodes in ((refl, h), omega (arith, c), omega (arith, l))

ended_counts :
    (b : Bucket (Json Cluster)) (ps : List Phase) (rows : List HostOpStatus)
    → all_ended b ps ≡ true
    → RowsOf ps rows
    → count is_failed rows + count is_succeeded rows ≡ length ps
unfolding all_ended count
ended_counts b [] [] e h = refl
ended_counts b [] (r ∷ rows) e h = absurd h
ended_counts b (p ∷ ps) [] e h = absurd h
ended_counts b (ended ∷ ps) (r ∷ rows) e (inl k, h) =
    rw (k) (omega (arith, ended_counts b ps rows e h))
ended_counts b (ended ∷ ps) (r ∷ rows) e (inr k, h) =
    rw (k) (omega (arith, ended_counts b ps rows e h))
ended_counts b (at_probe ∷ ps) (r ∷ rows) e h = cc
ended_counts b (at_command ∷ ps) (r ∷ rows) e h = cc

module _ (b : Bucket (Json Cluster)) (env : Env) where
  -- Two turns of every goroutine bring all to their end, with rows that agree with the counts.
  run_turns_lem :
      (user verb text unit : Str) (nodes : List Node) (schedule : List ℕ) (w : World b)
      → ((i : ℕ) → i < length nodes → 2 ≤ turns_of i schedule)
      → let f = run_turns b env user verb text unit nodes schedule (begun b nodes w) in
        (all_ended b f.phases ≡ true) × Agrees b (length nodes) f
  unfolding seed_host_statuses
  run_turns_lem user verb text unit nodes schedule w h =
      let fair = begun_left nodes (λ j. turns_of j schedule) h in
      let start = begun_rows nodes in
      (
        left_ended b _ (λ j. omega (
          arith,
          run_turns-left b env user verb text unit nodes schedule (begun b nodes w) j start,
          fair j,
        )),
        run_turns-Agrees b env user verb text unit nodes schedule (length nodes) (begun b nodes w)
            start,
      )

  some_failed :
      (n : ℕ) (f : Fan b)
      → all_ended b f.phases ≡ true
      → Agrees b n f
      → ReportedOn n (rows b f) (some (hosts_failed f.failed n f.fail_err))
  some_failed n f e h =
      let c = ended_counts b f.phases (rows b f) e h.0 in
      inr (f.failed, f.fail_err, refl, h.1, omega (arith, c, h.1, h.2))

  none_failed :
      (n : ℕ) (f : Fan b)
      → all_ended b f.phases ≡ true
      → Agrees b n f
      → ltb 0 f.failed ≡ false
      → ReportedOn n (rows b f) none
  none_failed n f e h k =
      let c = ended_counts b f.phases (rows b f) e h.0 in
      (ground (arith, k, h.1), ground (arith, k, c, h.1, h.2))

  after_start_wait-Reported :
      (id : Str) (n skipped : ℕ) (r : World b × Option Str)
      → ReportedOn n r.0.progress.host_statuses none
      → Reported n (after_start_wait b env id n skipped r)
  unfolding refresh_cluster_row rewrite concluded
  after_start_wait-Reported id n skipped (w, some x) h = inl refl
  after_start_wait-Reported id n skipped (w, none) h = h

  start_ended-Reported :
      (id : Str) (n : ℕ) (f : Fan b)
      → all_ended b f.phases ≡ true
      → Agrees b n f
      → Reported n (start_ended b env id n f)
  unfolding start_ended wait_cluster
  start_ended-Reported id n f e h =
      if_both (Reported n) (ltb 0 f.failed) _ _ (λ _. some_failed n f e h)
        (λ k.
          if_both (Reported n) (f.skipped == n) _ _ (λ _. inl refl)
            (λ _.
              after_start_wait-Reported id n f.skipped (wait_cluster b env (codes "2m0s") f.world)
                (none_failed n f e h k)))

  stop_ended-Reported :
      (id : Str) (n : ℕ) (f : Fan b)
      → all_ended b f.phases ≡ true
      → Agrees b n f
      → Reported n (stop_ended b env id n f)
  unfolding stop_ended rewrite concluded
  stop_ended-Reported id n f e h =
      if_both (Reported n) (ltb 0 f.failed) _ _ (λ _. some_failed n f e h)
        (λ k.
          if_both (Reported n) (f.skipped == n) _ _ (λ _. inl refl) (λ _. none_failed n f e h k))

-- There is an answer, and its counts are those of the rows.
abbrev pub Answered : {b : Bucket (Json Cluster)} → ℕ → Option (World b × Option Failure) → Type 0
Answered {b} n o = (r : World b × Option Failure) × (o ≡ some r) × Reported n r

module _ (b : Bucket (Json Cluster)) (env : Env) where
  waited-Answered :
      (conclude : ℕ → Fan b → World b × Option Failure) (n : ℕ) (f : Fan b)
      → all_ended b f.phases ≡ true
      → Reported n (conclude n f)
      → Answered n (waited b conclude n f)
  waited-Answered conclude n f e h = (conclude n f, rw (e) refl, h)

  fanned-Answered :
      (conclude : ℕ → Fan b → World b × Option Failure) (verb text : Str) (schedule : List ℕ)
      (w : World b) (rc : RunCtx)
      → ((n : ℕ) (f : Fan b)
          → all_ended b f.phases ≡ true
          → Agrees b n f
          → Reported n (conclude n f))
      → ((i : ℕ) → i < length rc.nodes → 2 ≤ turns_of i schedule)
      → Answered (length rc.nodes) (fanned b conclude env verb text schedule w rc)
  fanned-Answered conclude verb text schedule w rc k h =
      let unit = unit_name rc.cluster.engine in
      let f =
        run_turns b env rc.ssh_creds.user verb text unit rc.nodes schedule (begun b rc.nodes w) in
      let (e, a) = run_turns_lem b env rc.ssh_creds.user verb text unit rc.nodes schedule w h in
      waited-Answered conclude (length rc.nodes) f e (k (length rc.nodes) f e a)

-- Where every goroutine gets at least two turns, in any order of all turns, starting and stopping a
-- cluster each give an answer. Without an error every host's row says that it succeeded; an error that
-- counts failed hosts counts the rows that failed, and all other rows succeeded.
pub start_and_stop-Answered :
    (b : Bucket (Json Cluster)) (env : Env) (id : Str) (schedule : List ℕ) (w : World b)
    (rc : RunCtx)
    → load b env id w ≡ inr rc
    → ((i : ℕ) → i < length rc.nodes → 2 ≤ turns_of i schedule)
    → Answered (length rc.nodes) (start_cluster b env id schedule w)
      × Answered (length rc.nodes) (stop_cluster_by_systemctl b env id schedule w)
unfolding start_cluster start_ctx stop_cluster_by_systemctl stop_ctx
start_and_stop-Answered b env id schedule w rc l h = rw (l) (
  fanned-Answered b env (start_ended b env id) (codes "start") (codes "started") schedule w rc
      (start_ended-Reported b env id) h,
  fanned-Answered b env (stop_ended b env id) (codes "stop") (codes "stopped") schedule w rc
      (stop_ended-Reported b env id) h,
)
