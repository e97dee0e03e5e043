-- ===== src/Tasks/Types.antt =====
-- The wire types of internal/tasks/types.go.
-- Instants are nanoseconds with 0 for Go's zero `time.Time`; a duration is kept in nanoseconds,
-- from which the source computes its seconds as a float64.
use bm.Base.{ℕ, Bool, true, false, Option, List, Str, ◌=s◌, ℤ}

abbrev pub Time : Type 0
Time = ℕ

-- `OperationState` is a Go string: the four constants, and whatever else a caller writes.
pub data OperationState : Type 0 where
  running succeeded failed canceled : OperationState
  other : Str → OperationState

unfoldable pub is_terminal : OperationState → Bool
is_terminal succeeded = true
is_terminal failed = true
is_terminal canceled = true
is_terminal _ = false

-- Go's `==` on two states.
unfoldable pub same_state : OperationState → OperationState → Bool
same_state running running = true
same_state succeeded succeeded = true
same_state failed failed = true
same_state canceled canceled = true
same_state (other s) (other t) = s =s t
same_state _ _ = false

pub data HostOpState : Type 0 where
  pending running succeeded failed skipped : HostOpState

pub record HostOpStatus : Type 0 where
  pub host_id : Str
  pub hostname : Str
  pub state : HostOpState
  pub detail : Str
  pub duration : Option ℤ

pub record OpEvent : Type 0 where
  pub ts : Time
  pub level : Str
  pub text : Str

pub record SummaryItem : Type 0 where
  pub label : Str
  pub value : Str

pub record OperationProgress : Type 0 where
  pub task_id : Str
  pub state : OperationState
  pub current_step : Str
  pub current : Option ℕ
  pub total : Option ℕ
  pub detail : Str
  pub failure_note : Str
  pub host_statuses : List HostOpStatus
  pub summary : List SummaryItem
  pub events : List OpEvent

pub record OperationResult : Type 0 where
  pub state : OperationState
  pub detail : Str
  pub summary : List SummaryItem
  pub host_statuses : List HostOpStatus
  pub failure_note : Str

pub record HostScope : Type 0 where
  pub hostnames : List Str
  pub count : ℕ

pub record HistoryEntry : Type 0 where
  pub id : Str
  pub at : Time
  pub op_kind : Str
  pub op_label : Str
  pub cluster_id : Str
  pub cluster_name : Str
  pub host_scope : Option HostScope
  pub status : OperationState
  pub duration : Option ℤ
  pub failure_note : Str
  pub result : Option OperationResult

pub record DispatchRequest : Type 0 where
  pub cluster_id : Str
  pub kind : Str
  pub params : Str
  pub target_host_ids : List Str
  pub cluster_name : Str
  pub op_label : Str
  pub host_scope : Option HostScope
