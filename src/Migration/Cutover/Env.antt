-- ===== src/Migration/Cutover/Env.antt =====
-- What a cutover of internal/migration/executor.go meets, and what it writes where.
use bm.Base.{
  ℕ, ◌+◌, zero, suc, Bool, Option, none, some, List, [], ◌∷◌, ◌++◌, Str, codes, is_empty,
  if◌then◌else◌,
}
use bm.Store.{Error, Outcome}
use bm.Domain.{HostRow, Cluster, ClusterEngine}
use bm.Tasks.Types.{HostOpState, HostOpStatus, SummaryItem, OperationProgress}
use bm.Migration.Types.{StepEvent, Server, CutoverParams, MigrationBody, itoa}
use bm.Migration.Hosts.{mem_str, Poll, wait_online}

-- The phases that the installer runs on every host in parallel.
pub data HostPhase : Type 0 where
  pre_stage switch stop_buckit start_minio : HostPhase

pub data Call : Type 0 where
  fans_out : HostPhase → List HostRow → Call
  waits_online : List HostRow → Call

-- What a phase does: the events of its hosts in the order in which they come, and the first error.
pub record PhaseRun : Type 0 where
  pub events : List StepEvent
  pub error : Option Str

-- Of `Verify`, what goes into the summary.
pub record Verified : Type 0 where
  pub buckets_ok : ℕ
  pub buckets_total : ℕ
  pub nodes_ok : ℕ
  pub nodes_total : ℕ
  pub smoke_ok : Bool
  pub failure_note : Str

-- Of `body`, none is a text that does not decode. `verify_error` is an admin client that is missing,
-- `late` the text of the error at the deadline.
pub record Env : Type 0 where
  pub body : Option MigrationBody
  pub known_version : Str → Bool
  pub creds_error : Option Str
  pub servers : Option (List Server)
  pub run_phase : HostPhase → List HostRow → PhaseRun
  pub verify_error : Option Str
  pub polls : List Poll
  pub late : Str
  pub reads_in_time : Bool
  pub write : Outcome
  pub now : ℕ
  pub snapshot_version : Option Str
  pub verified : Verified

pub data Failure : Type 0 where
  undecodable_params no_hosts_online : Failure
  invalid no_creds probe_failed pre_stage_failed switch_failed verify_failed : Str → Failure
  flip_failed : Error → Failure

-- The text of the errors that end in a rollback.
abbrev pub cause_text : Failure → Str
cause_text (switch_failed e) = codes "switch failed: " ++ e
cause_text (verify_failed e) = codes "verify failed: " ++ e
cause_text _ = []

-- An em dash in UTF-8.
abbrev pub dash : Str
dash = 226 ∷ 128 ∷ 148 ∷ []

-- The size of a set that is given by a list.
unfoldable pub distinct : List Str → ℕ
unfolding mem_str
distinct [] = 0
distinct (s ∷ rest) = (if mem_str s rest then 0 else 1) + distinct rest

abbrev pub at_step : Str → OperationProgress → OperationProgress
at_step text p = record p { current_step = text }

-- `statuses`: a host that is skipped says so from the start.
unfoldable pub seed : List Str → List HostRow → List HostOpStatus
unfolding mem_str
seed skipped [] = []
seed skipped (h ∷ hosts) =
    let rest = seed skipped hosts in
    (if mem_str h.id skipped
      then record {
        host_id = h.id;
        hostname = h.hostname;
        state = HostOpState.skipped;
        detail =
            codes "Offline at cutover start "
            ++ dash
            ++ codes " stays on MinIO. Re-run migration on this host once it's back online.";
        duration = none;
      }
      else record {
        host_id = h.id;
        hostname = h.hostname;
        state = HostOpState.pending;
        detail = [];
        duration = none;
      })
    ∷ rest

unfoldable pub migrated : CutoverParams → ℕ → Option Str → Cluster → Cluster
migrated params now snapshot_version c = record c {
  engine = ClusterEngine.buckit;
  name = if is_empty params.name then c.name else params.name;
  description = if is_empty params.description then c.description else params.description;
  version = params.target_version;
  last_fetched_at = some now;
  last_activity_at = now;
  migrated_from = some (record {
    product = codes "minio";
    version = elim snapshot_version [ none ↦ [] | some v ↦ v ];
    finalized_at = now;
  });
}

abbrev pub item : Str → Str → SummaryItem
item label value = record { label = label; value = value }

-- The summary of a cutover that is complete.
unfoldable pub completed : CutoverParams → ℕ → ℕ → Verified → OperationProgress → OperationProgress
unfolding itoa
completed params n_migrated n_skipped v p = record p {
  detail = codes "Migration complete";
  summary =
      p.summary
      ++ (item (codes "Hosts migrated") (itoa n_migrated) ∷ [])
      ++ skipped n_skipped
      ++ (item (codes "Buckit version") params.target_version
          ∷ item (codes "Buckets") (itoa v.buckets_ok ++ codes " / " ++ itoa v.buckets_total)
          ∷ item (codes "Nodes reporting") (itoa v.nodes_ok ++ codes " / " ++ itoa v.nodes_total)
          ∷ item (codes "Smoke test") (if v.smoke_ok then codes "ok" else codes "fail")
          ∷ []);
  failure_note = if is_empty v.failure_note then p.failure_note else v.failure_note;
}
  where
    skipped : ℕ → List SummaryItem
    skipped zero = []
    skipped (suc n) = item (codes "Hosts skipped (offline)") (itoa (suc n)) ∷ []

-- The third phase: the admin client, then the polls.
unfoldable pub verify_outcome : Env → List HostRow → Option Str
unfolding wait_online
verify_outcome env attempted = elim env.verify_error [
  | some e ↦ some e
  | none ↦ wait_online env.late attempted env.polls
]
