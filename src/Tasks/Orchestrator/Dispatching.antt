-- ===== src/Tasks/Orchestrator/Dispatching.antt =====
-- What `Dispatch` of internal/tasks/orchestrator.go does, on each of its ways out.
use bm.Base.{◌≡◌, ◌⊎◌, true, false, Option, some, Str}
use bm.Store.{Outcome, ok}
use bm.Store.Bucket.{Bucket}
use bm.Tasks.Types.{Time, HistoryEntry, DispatchRequest}
use bm.Tasks.Hub.Defs.{new_hub}
use bm.Tasks.History.Defs.{Json, insert}
use bm.Tasks.Orchestrator.Defs.{Manager}
use bm.Tasks.Orchestrator.Types.{Refusal, Answer, done, refused, executing, set_at, new_entry}

module _ (b : Bucket (Json HistoryEntry)) where
  -- A refusal leaves the locks, the runs and the goroutines as they were. A dispatch that is
  -- accepted has found the cluster free, holds its lock, and has put a running row in the history,
  -- a live hub in the runs and one goroutine, all under the new id.
  abbrev pub Dispatched :
      Option Str → DispatchRequest → Time → Outcome → Manager b → Manager b × Answer Str → Type 0
  Dispatched new_id req now o m (m', answer) =
      ((r : Refusal) × (answer ≡ refused r)
        × ((c : Str) → m'.locks c ≡ m.locks c)
        × (m'.procs ≡ m.procs)
        × (m'.runs ≡ m.runs))
      ⊎ ((id : Str) × (answer ≡ done id)
          × (new_id ≡ some id)
          × (m.locks req.cluster_id ≡ false)
          × (insert b (new_entry id now req) o m.history ≡ (m'.history, ok tt))
          × (m'.locks ≡ set_at m.locks req.cluster_id true)
          × (m'.procs
              ≡ set_at m.procs id
                  (some (record { cluster_id = req.cluster_id; phase = executing })))
          × (m'.runs
              ≡ set_at m.runs id (
                  some (record {
                    hub = new_hub id;
                    canceled = false;
                    cluster_id = req.cluster_id;
                    started_at = now;
                  }))))
