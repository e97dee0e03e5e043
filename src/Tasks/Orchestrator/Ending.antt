-- ===== src/Tasks/Orchestrator/Ending.antt =====
-- How an operation ends in internal/tasks/orchestrator.go: the state that goes to its history row
-- and to its subscribers, and the answers of `Cancel`.
use bm.Base.{Bool, true, false, Option, none, some, Str, codes}
use bm.Store.Bucket.{Bucket}
use bm.Tasks.Types.{OperationState, OperationProgress, HistoryEntry}
use bm.Tasks.Hub.Defs.{snapshot}
use bm.Tasks.History.Defs.{Json}
use bm.Tasks.Orchestrator.Types.{RunState, or_default, final_state}

-- The outcome of a run: canceled before all else, then the executor's error.
abbrev pub ending : Bool → Option Str → OperationState
ending true exec_err = OperationState.canceled
ending false (some e) = OperationState.failed
ending false none = OperationState.succeeded

-- The note that goes with it: the executor's own, or else "canceled" or the error's text.
abbrev pub ending_note : Bool → Option Str → Str → Str
ending_note true exec_err note = or_default note (codes "canceled")
ending_note false (some e) note = or_default note e
ending_note false none note = note

module _ (b : Bucket (Json HistoryEntry)) where
  abbrev pub final_of : Str → RunState → Option Str → OperationProgress
  final_of id rs exec_err = final_state id rs.canceled exec_err (snapshot rs.hub)
