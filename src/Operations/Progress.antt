-- ===== src/Operations/Progress.antt =====
-- The progress of an operation: seedHostStatuses and setHostState of internal/operations/orchestrated.go.
use bm.Base.{
  ℕ, suc, Bool, true, false, Option, none, some, List, [], Str, if◌then◌else◌, length, modify, map,
}
use bm.Domain.{Node}
use bm.Tasks.Types.{HostOpState, HostOpStatus, SummaryItem, OperationProgress}

abbrev pub pending_status : Node → HostOpStatus
pending_status n = record {
  host_id = n.id;
  hostname = n.hostname;
  state = HostOpState.pending;
  detail = [];
  duration = none;
}

unfoldable pub seed_host_statuses : List Node → OperationProgress → OperationProgress
seed_host_statuses nodes p = record p {
  host_statuses = map pending_status nodes;
  total = some (length nodes);
  current = some 0;
}

abbrev is_final : HostOpState → Bool
is_final HostOpState.succeeded = true
is_final HostOpState.failed = true
is_final _ = false

abbrev or_zero : Option ℕ → ℕ
or_zero none = 0
or_zero (some n) = n

abbrev pub with_state : HostOpState → Str → HostOpStatus → HostOpStatus
with_state st detail s = record s { state = st; detail = detail }

unfoldable pub set_host_state : ℕ → HostOpState → Str → OperationProgress → OperationProgress
set_host_state i st detail p = record p {
  host_statuses = modify p.host_statuses i (with_state st detail);
  current = if is_final st then some (suc (or_zero p.current)) else p.current;
}

abbrev pub item : Str → Str → SummaryItem
item label value = record { label = label; value = value }

unfoldable pub concluded : Str → List SummaryItem → OperationProgress → OperationProgress
concluded detail summary p = record p { detail = detail; summary = summary }
