-- ===== src/Tasks/Orchestrator/Types.antt =====
-- The data of internal/tasks/orchestrator.go, and the entries that it writes to the history.
use bm.Base.{
  Bool, true, false, not, ◌&&◌, Option, none, some, [], Str, codes, ◌=s◌, is_empty, if◌then◌else◌,
  sub_ℕ,
}
use bm.Store.{Error}
use bm.Tasks.Types.{
  Time, OperationState, OperationProgress, OperationResult, HistoryEntry, DispatchRequest,
}
use bm.Tasks.Hub.Defs.{Hub}

-- Why `Dispatch` and `Cancel` refuse.
pub data Refusal : Type 0 where
  unknown_kind cluster_id_required cluster_busy no_id task_not_found not_running : Refusal
  invalid : Str → Refusal
  history_insert : Error → Refusal

pub data Answer (A : Type 0) : Type 0 where
  done : A → Answer A
  refused : Refusal → Answer A

-- `Validate` of an executor, which returns the text of its error. What `Execute` does shows as
-- steps on the hub, and at its end as an error or none.
pub record Executor : Type 0 where
  pub validate : DispatchRequest → Option Str

abbrev pub Registry : Type 0
Registry = Str → Option Executor

pub record RunState : Type 0 where
  pub hub : Hub
  pub canceled : Bool
  pub cluster_id : Str
  pub started_at : Time

-- Where a goroutine of `executeRun` stands: in the executor; past the write of the history row with
-- the final state; past the close of the hub; past the sweep; past the deferred unlock.
pub data Phase : Type 0 where
  executing : Phase
  recorded : OperationProgress → Phase
  closed swept released : Phase

pub record Proc : Type 0 where
  pub cluster_id : Str
  pub phase : Phase

abbrev pub is_released : Phase → Bool
is_released released = true
is_released _ = false

-- A goroutine that holds its cluster's lock.
abbrev pub holds : Str → Option Proc → Bool
holds c none = false
holds c (some p) = p.cluster_id =s c && not (is_released p.phase)

abbrev pub set_at {ℓ} : {A : Type ℓ} → (Str → A) → Str → A → Str → A
set_at f k a j = if k =s j then a else f j

unfoldable pub or_default : Str → Str → Str
or_default v fallback = if is_empty v then fallback else v

unfoldable pub snapshot_result : OperationProgress → OperationResult
snapshot_result p = record {
  state = p.state;
  detail = p.detail;
  summary = p.summary;
  host_statuses = p.host_statuses;
  failure_note = p.failure_note;
}

-- The switch of `executeRun`: a canceled context comes before the executor's error.
unfoldable pub final_state : Str → Bool → Option Str → OperationProgress → OperationProgress
unfolding or_default
final_state task_id canceled (some e) p =
    if canceled
    then record p {
      task_id = task_id;
      state = OperationState.canceled;
      failure_note = or_default p.failure_note (codes "canceled");
    }
    else record p {
      task_id = task_id;
      state = OperationState.failed;
      failure_note = or_default p.failure_note e;
    }
final_state task_id canceled none p =
    if canceled
    then record p {
      task_id = task_id;
      state = OperationState.canceled;
      failure_note = or_default p.failure_note (codes "canceled");
    }
    else record p { task_id = task_id; state = OperationState.succeeded }

-- The mutator with which `executeRun` closes its history row.
unfoldable pub close_row : OperationProgress → Time → Time → HistoryEntry → HistoryEntry
unfolding snapshot_result
close_row final ended started e = record e {
  status = final.state;
  duration = some (sub_ℕ ended started);
  failure_note = final.failure_note;
  result = some (snapshot_result final);
}

unfoldable pub new_entry : Str → Time → DispatchRequest → HistoryEntry
unfolding or_default
new_entry task_id now req = record {
  id = task_id;
  at = now;
  op_kind = req.kind;
  op_label = or_default req.op_label req.kind;
  cluster_id = req.cluster_id;
  cluster_name = or_default req.cluster_name req.cluster_id;
  host_scope = req.host_scope;
  status = OperationState.running;
  duration = none;
  failure_note = [];
  result = none;
}
