-- ===== src/Migration/Cutover/Course.antt =====
-- The order of the phases of a cutover in internal/migration/executor.go.
use bm.Base.{
  ℕ, ◌≡◌, refl, sym, ap, ◌∙◌, Bool, true, false, Option, none, some, List, [], ◌∷◌, ◌++◌, Str,
  length, ◌⊎◌, inl, inr, keep, is_empty, if_both, subst,
}
use bm.Store.{Result, ok, err, Error}
use bm.Store.Json.{Json}
use bm.Store.Bucket.{Bucket}
use bm.Domain.{HostRow, Cluster}
use bm.Clusters.Repo.{ClusterDb}
use bm.Migration.Types.{Server, CutoverParams, MigrationBody, from_migration_body}
use bm.Migration.Hosts.{is_up, online_hosts, Partition, no_host_online, parted, partition_hosts}
use bm.Migration.Cutover.Defs.{
  World, fan_out, auto_rollback, rolled_back, after_flip, flip_read, after_verify, after_switch,
  after_pre_stage, run_phases, with_hosts, with_creds, checked, decoded_body, execute,
}
use bm.Migration.Cutover.Env.{
  pre_stage, switch, stop_buckit, start_minio, Call, fans_out, waits_online, Env, Failure,
  flip_failed, verify_failed, switch_failed, pre_stage_failed, distinct, verify_outcome,
}

-- The hosts that a cutover attempts: those that ServerInfo shows online, or all where it has no answer.
abbrev pub chosen : Option (List Server) → List HostRow → List HostRow
chosen none hosts = hosts
chosen (some servers) hosts = keep (λ h. is_up (online_hosts servers) h) hosts

abbrev pub chosen_for : Env → Option MigrationBody → List HostRow
chosen_for env none = []
chosen_for env (some body) = chosen env.servers (from_migration_body body).hosts

chosen_parted :
    (servers : Option (List Server)) (hosts attempted : List HostRow) (skipped : List Str)
    → partition_hosts servers hosts ≡ parted attempted skipped
    → attempted ≡ chosen servers hosts
unfolding partition_hosts
chosen_parted none hosts attempted skipped h = cc
chosen_parted (some servers) hosts attempted skipped h =
    if_both (λ p. p ≡ parted attempted skipped → attempted ≡ chosen (some servers) hosts)
      (is_empty (online_hosts servers)) _ _ (λ _ e. cc) (λ _ e. cc) h

-- What a cutover of the hosts does, phase by phase, and whether it comes to the flip of the engine. A
-- phase runs on all of the hosts, and only after the phases before it have succeeded on all.
pub data Course (env : Env) (hosts : List HostRow) : List Call → Bool → Type 0 where
  refused : Course env hosts [] false
  not_staged :
      (e : Str)
      → (env.run_phase pre_stage hosts).error ≡ some e
      → Course env hosts (fans_out pre_stage hosts ∷ []) false
  not_switched :
      (e : Str)
      → (env.run_phase pre_stage hosts).error ≡ none
      → (env.run_phase switch hosts).error ≡ some e
      → Course env hosts
          (fans_out pre_stage hosts
            ∷ fans_out switch hosts
            ∷ fans_out stop_buckit hosts
            ∷ fans_out start_minio hosts
            ∷ [])
          false
  not_verified :
      (e : Str)
      → (env.run_phase pre_stage hosts).error ≡ none
      → (env.run_phase switch hosts).error ≡ none
      → verify_outcome env hosts ≡ some e
      → Course env hosts
          (fans_out pre_stage hosts
            ∷ fans_out switch hosts
            ∷ waits_online hosts
            ∷ fans_out stop_buckit hosts
            ∷ fans_out start_minio hosts
            ∷ [])
          false
  verified :
      (env.run_phase pre_stage hosts).error ≡ none
      → (env.run_phase switch hosts).error ≡ none
      → verify_outcome env hosts ≡ none
      → Course env hosts
          (fans_out pre_stage hosts ∷ fans_out switch hosts ∷ waits_online hosts ∷ [])
          true

pub snoc : {A : Type 0} (xs ys : List A) (y : A) → (xs ++ ys) ++ (y ∷ []) ≡ xs ++ (ys ++ (y ∷ []))
snoc [] ys y = refl
snoc (x ∷ xs) ys y = ap (λ l. x ∷ l) (snoc xs ys y)

pub append_nil : {A : Type 0} (xs : List A) → xs ++ [] ≡ xs
append_nil [] = refl
append_nil (x ∷ xs) = ap (λ l. x ∷ l) (append_nil xs)

module _ (b : Bucket (Json Cluster)) where
  -- Short of the flip the clusters stay as they are, and the cutover fails. At the flip only its own
  -- error is left.
  abbrev pub Kept : Bool → World b → World b × Option Failure → Type 0
  Kept true w x = (x.1 ≡ none) ⊎ ((e : Error) × (x.1 ≡ some (flip_failed e)))
  Kept false w x = (x.0.clusters ≡ w.clusters) × (e : Failure) × (x.1 ≡ some e)

  abbrev pub Followed : Env → List HostRow → World b → World b × Option Failure → Type 0
  Followed env hosts w x =
      (calls : List Call) × (flipped : Bool) × (x.0.calls ≡ w.calls ++ calls)
      × Course env hosts calls flipped
      × Kept flipped w x

  written_calls :
      (env : Env) (params : CutoverParams) (n k : ℕ) (w : World b) (db : ClusterDb b)
      (answer : Result (Unit {0}))
      → (after_flip b env params n k (record w { clusters = db }, answer)).0.calls ≡ w.calls
  unfolding after_flip
  written_calls env params n k w db (err e) = refl
  written_calls env params n k w db (ok u) = refl

  flip_calls :
      (env : Env) (params : CutoverParams) (n k : ℕ) (x : Result Cluster) (w : World b)
      → (after_flip b env params n k (flip_read b env params x w)).0.calls ≡ w.calls
  unfolding flip_read after_flip
  flip_calls env params n k (err e) w = refl
  flip_calls env params n k (ok c) w = written_calls env params n k w _ _

  end_of_flip :
      (env : Env) (params : CutoverParams) (n k : ℕ) (x : World b × Result (Unit {0})) (w : World b)
      → Kept true w (after_flip b env params n k x)
  unfolding after_flip
  end_of_flip env params n k (v, err e) w = inr (e, refl)
  end_of_flip env params n k (v, ok u) w = inl refl

  rolled_back_same :
      (hosts attempted : List HostRow) (cause : Failure) (start_error stop_error : Option Str)
      (w : World b)
      → ((rolled_back b hosts attempted cause start_error stop_error w).calls ≡ w.calls)
        × ((rolled_back b hosts attempted cause start_error stop_error w).clusters ≡ w.clusters)
  unfolding rolled_back
  rolled_back_same hosts attempted cause (some e) stop_error w = (refl, refl)
  rolled_back_same hosts attempted cause none (some e) w = (refl, refl)
  rolled_back_same hosts attempted cause none none w = (refl, refl)

  -- The calls and the clusters after a rollback.
  rollback_calls :
      (env : Env) (hosts attempted : List HostRow) (cause : Failure) (w : World b)
      → ((auto_rollback b env hosts attempted cause w).0.calls
          ≡ (w.calls ++ (fans_out stop_buckit attempted ∷ []))
            ++ (fans_out start_minio attempted ∷ []))
        × ((auto_rollback b env hosts attempted cause w).0.clusters ≡ w.clusters)
        × ((auto_rollback b env hosts attempted cause w).1 ≡ some cause)
  unfolding auto_rollback fan_out
  rollback_calls env hosts attempted cause w =
      let (calls, clusters) = rolled_back_same hosts attempted cause _ _ _ in
      (calls, clusters, refl)

  -- A rollback after the calls `before`.
  rollback_follows :
      (env : Env) (hosts attempted : List HostRow) (cause : Failure) (w w' : World b)
      (before : List Call)
      → w'.calls ≡ w.calls ++ before
      → w'.clusters ≡ w.clusters
      → Course env attempted
          (before ++ (fans_out stop_buckit attempted ∷ fans_out start_minio attempted ∷ []))
          false
      → Followed env attempted w (auto_rollback b env hosts attempted cause w')
  rollback_follows env hosts attempted cause w w' before at same course =
      let (calls, clusters, failed) = rollback_calls env hosts attempted cause w' in
      (
        _,
        false,
        calls
            ∙ ap
                (λ l.
                  (l ++ (fans_out stop_buckit attempted ∷ []))
                  ++ (fans_out start_minio attempted ∷ []))
                at
            ∙ ap (λ l. l ++ (fans_out start_minio attempted ∷ [])) (snoc w.calls before _)
            ∙ snoc w.calls _ _
            ∙ ap (λ l. w.calls ++ l) (snoc before _ _),
        course,
        (clusters ∙ same, cause, failed),
      )

  module _ (env : Env) (params : CutoverParams) (attempted : List HostRow) (skipped : List Str)
      (w : World b) where
    verify_follows :
        (o : Option Str) (w' : World b)
        → verify_outcome env attempted ≡ o
        → w'.calls
          ≡ w.calls
            ++ (fans_out pre_stage attempted
                ∷ fans_out switch attempted
                ∷ waits_online attempted
                ∷ [])
        → w'.clusters ≡ w.clusters
        → (env.run_phase pre_stage attempted).error ≡ none
        → (env.run_phase switch attempted).error ≡ none
        → Followed env attempted w (after_verify b env params attempted skipped o w')
    unfolding after_verify
    verify_follows (some e) w' seen at same staged switched =
        rollback_follows env params.hosts attempted (verify_failed e) w w' _ at same
          (not_verified e staged switched seen)
    verify_follows none w' seen at same staged switched = (
      _,
      true,
      flip_calls env params (length attempted) (distinct skipped) _ _ ∙ at,
      verified staged switched seen,
      end_of_flip env params (length attempted) (distinct skipped) _ w,
    )

    switch_follows :
        (o : Option Str) (w' : World b)
        → (env.run_phase switch attempted).error ≡ o
        → w'.calls ≡ w.calls ++ (fans_out pre_stage attempted ∷ fans_out switch attempted ∷ [])
        → w'.clusters ≡ w.clusters
        → (env.run_phase pre_stage attempted).error ≡ none
        → Followed env attempted w (after_switch b env params attempted skipped o w')
    unfolding after_switch
    switch_follows (some e) w' seen at same staged =
        rollback_follows env params.hosts attempted (switch_failed e) w w' _ at same
          (not_switched e staged seen)
    switch_follows none w' seen at same staged =
        verify_follows (verify_outcome env attempted) _ refl
          (ap (λ l. l ++ (waits_online attempted ∷ [])) at ∙ snoc w.calls _ _) same staged seen

    stage_follows :
        (o : Option Str) (w' : World b)
        → (env.run_phase pre_stage attempted).error ≡ o
        → w'.calls ≡ w.calls ++ (fans_out pre_stage attempted ∷ [])
        → w'.clusters ≡ w.clusters
        → Followed env attempted w (after_pre_stage b env params attempted skipped o w')
    unfolding after_pre_stage fan_out
    stage_follows (some e) w' seen at same =
        (_, false, at, not_staged e seen, (same, pre_stage_failed e, refl))
    stage_follows none w' seen at same =
        switch_follows (env.run_phase switch attempted).error _ refl
          (ap (λ l. l ++ (fans_out switch attempted ∷ [])) at ∙ snoc w.calls _ _) same seen

    run_follows : Followed env attempted w (run_phases b env params attempted skipped w)
    unfolding run_phases fan_out
    run_follows = stage_follows (env.run_phase pre_stage attempted).error _ refl refl refl

  refused_follows :
      (env : Env) (hosts : List HostRow) (w : World b) (e : Failure)
      → Followed env hosts w (w, some e)
  refused_follows env hosts w e = ([], false, sym (append_nil w.calls), refused, (refl, e, refl))

  hosts_follow :
      (env : Env) (params : CutoverParams) (p : Partition) (w : World b)
      → partition_hosts env.servers params.hosts ≡ p
      → Followed env (chosen env.servers params.hosts) w (with_hosts b env params p w)
  unfolding with_hosts
  hosts_follow env params no_host_online w found = refused_follows env _ w _
  hosts_follow env params (parted [] skipped) w found = refused_follows env _ w _
  hosts_follow env params (parted (h ∷ hosts) skipped) w found =
      subst (λ l. Followed env l w (run_phases b env params (h ∷ hosts) skipped w))
        (chosen_parted env.servers params.hosts (h ∷ hosts) skipped found)
        (run_follows env params (h ∷ hosts) skipped w)

  creds_follow :
      (env : Env) (params : CutoverParams) (o : Option Str) (w : World b)
      → Followed env (chosen env.servers params.hosts) w (with_creds b env params o w)
  unfolding with_creds
  creds_follow env params (some e) w = refused_follows env _ w _
  creds_follow env params none w =
      hosts_follow env params (partition_hosts env.servers params.hosts) w refl

  checked_follows :
      (env : Env) (params : CutoverParams) (o : Option Str) (w : World b)
      → Followed env (chosen env.servers params.hosts) w (checked b env params o w)
  unfolding checked
  checked_follows env params (some e) w = refused_follows env _ w _
  checked_follows env params none w = creds_follow env params env.creds_error w

  body_follows :
      (env : Env) (o : Option MigrationBody) (w : World b)
      → Followed env (chosen_for env o) w (decoded_body b env o w)
  unfolding decoded_body
  body_follows env none w = refused_follows env _ w _
  body_follows env (some body) w = checked_follows env (from_migration_body body) _ w

  -- Whatever the hosts and the cluster answer, a cutover runs its phases in one of five orders: none;
  -- pre-stage alone, which fails; pre-stage and switch, which fails, or these and the wait for the
  -- hosts, which fails, each followed by the stop of Buckit and then the start of MinIO; or all three
  -- with success. Each phase is called on the hosts of the parameters that ServerInfo shows online,
  -- or on all of them where it has no answer. Only the last order comes to the flip of the engine:
  -- the others leave the clusters as they are and fail. Where the flip itself fails, nothing is
  -- rolled back.
  pub execute-Followed :
      (env : Env) (w : World b) → Followed env (chosen_for env env.body) w (execute b env w)
  unfolding execute
  execute-Followed env w = body_follows env env.body w
