-- ===== src/Tasks/Orchestrator/Defs.antt =====
-- The manager of internal/tasks/orchestrator.go: dispatch, the run of an executor, cancel.
-- A Go map is a function; `locks` says which cluster mutexes are held. `procs` holds the goroutines
-- that run `executeRun`, each at one of the points between which other goroutines may run.
use bm.Base.{ℕ, Bool, true, false, Option, none, some, List, Str, is_empty, ◌==◌, if◌then◌else◌}
use bm.Store.{Result, ok, err, Outcome}
use bm.Store.Bucket.{Bucket}
use bm.Tasks.Types.{
  Time, OperationState, is_terminal, OperationProgress, HistoryEntry, DispatchRequest,
}
use bm.Tasks.Hub.Defs.{Hub, new_hub, snapshot, close_after_terminal, shutdown}
use bm.Tasks.History.Defs.{Json, Db, insert, update_entry, clear, sweep}
use bm.Tasks.Orchestrator.Types.{
  Answer, Refusal, Executor, Phase, Proc, Registry, RunState, close_row, closed, cluster_busy,
  cluster_id_required, done, executing, final_state, history_insert, invalid, new_entry, no_id,
  not_running, recorded, refused, released, set_at, swept, task_not_found, unknown_kind,
}

module _ (b : Bucket (Json HistoryEntry)) where
  pub record Manager : Type 0 where
    pub history : Db b
    pub locks : Str → Bool
    pub runs : Str → Option RunState
    pub procs : Str → Option Proc

  -- `putRun` and the `go` statement.
  unfoldable pub spawn : Str → DispatchRequest → Time → Manager → Manager
  spawn id req now m = record m {
    runs = set_at m.runs id (
        some (record {
          hub = new_hub id;
          canceled = false;
          cluster_id = req.cluster_id;
          started_at = now;
        }));
    procs = set_at m.procs id (some (record { cluster_id = req.cluster_id; phase = executing }));
  }

  unfoldable pub after_insert :
      Str → DispatchRequest → Time → Manager → Db b × Result (Unit {0}) → Manager × Answer Str
  unfolding spawn
  after_insert id req now m (db, err e) = (
    record m { history = db; locks = set_at m.locks req.cluster_id false },
    refused (history_insert e),
  )
  after_insert id req now m (db, ok _) = (spawn id req now (record m { history = db }), done id)

  -- With the lock of the cluster taken.
  unfoldable pub with_lock :
      Option Str → DispatchRequest → Time → Outcome → Manager → Manager × Answer Str
  unfolding after_insert new_entry
  with_lock none req now o m =
      (record m { locks = set_at m.locks req.cluster_id false }, refused no_id)
  with_lock (some id) req now o m =
      after_insert id req now m (insert b (new_entry id now req) o m.history)

  -- `TryLock` of the mutex of a cluster: nothing comes between its test and its write.
  unfoldable pub try_lock : Str → Manager → Option Manager
  try_lock c m =
      let taken = record m { locks = set_at m.locks c true } in
      if m.locks c then none else some taken

  unfoldable pub after_try :
      Option Str
      → DispatchRequest
      → Time
      → Outcome
      → Manager
      → Option Manager
      → Manager × Answer Str
  unfolding with_lock
  after_try new_id req now o m none = (m, refused cluster_busy)
  after_try new_id req now o m (some taken) = with_lock new_id req now o taken

  unfoldable pub take_lock :
      Option Str → DispatchRequest → Time → Outcome → Manager → Manager × Answer Str
  unfolding after_try try_lock
  take_lock new_id req now o m = after_try new_id req now o m (try_lock req.cluster_id m)

  -- What refuses a request before the lock.
  unfoldable pub checked : Option Executor → DispatchRequest → Option Refusal
  checked none req = some unknown_kind
  checked (some exec) req =
      if is_empty req.cluster_id
      then some cluster_id_required
      else elim (exec.validate req) [ none ↦ none | some e ↦ some (invalid e) ]

  unfoldable pub unless_refused :
      Option Refusal
      → Option Str
      → DispatchRequest
      → Time
      → Outcome
      → Manager
      → Manager × Answer Str
  unfolding take_lock
  unless_refused (some r) new_id req now o m = (m, refused r)
  unless_refused none new_id req now o m = take_lock new_id req now o m

  -- `Dispatch`, where no other goroutine runs in between; its steps for themselves are in Steps. The
  -- new task id is the environment's, or none where its randomness fails.
  unfoldable pub dispatch :
      Registry → Option Str → DispatchRequest → Time → Outcome → Manager → Manager × Answer Str
  unfolding unless_refused checked
  dispatch registry new_id req now o m =
      unless_refused (checked (registry req.kind) req) new_id req now o m

  unfoldable pub on_hub : (Hub → Hub) → Str → Manager → Manager
  on_hub f id m = elim (m.runs id) [
    | none ↦ m
    | some rs ↦ record m { runs = set_at m.runs id (some (record rs { hub = f rs.hub })) }
  ]

  -- `Cancel`.
  unfoldable pub cancel_run : Str → Option RunState → Manager → Manager × Answer (Unit {0})
  cancel_run id none m = (m, refused task_not_found)
  cancel_run id (some rs) m =
      if is_terminal (snapshot rs.hub).state
      then (m, refused not_running)
      else (record m { runs = set_at m.runs id (some (record rs { canceled = true })) }, done tt)

  unfoldable pub cancel : Str → Manager → Manager × Answer (Unit {0})
  unfolding cancel_run is_terminal
  cancel id m = cancel_run id (m.runs id) m

  -- `Snapshot`.
  unfoldable pub snapshot_of : Str → Manager → Answer OperationProgress
  snapshot_of id m = elim (m.runs id) [
    | none ↦ refused task_not_found
    | some rs ↦ done (snapshot rs.hub)
  ]

  unfoldable pub set_phase : Str → Proc → Phase → Manager → Manager
  set_phase id p ph m = record m { procs = set_at m.procs id (some (record p { phase = ph })) }

  -- The executor returns, and the final state goes to the history row. An error of that write is
  -- only printed.
  unfoldable pub finish :
      Str → Option Str → Time → Outcome → Proc → Option RunState → Manager → Manager
  unfolding set_phase final_state close_row
  finish id exec_err ended o p none m = m
  finish id exec_err ended o p (some rs) m =
      let final = final_state id rs.canceled exec_err (snapshot rs.hub) in
      let (db, answer) = update_entry b id (close_row final ended rs.started_at) o m.history in
      set_phase id p (recorded final) (record m { history = db })

  -- `rs.cancel()`
  unfoldable pub mark_canceled : Str → Manager → Manager
  mark_canceled id m = elim (m.runs id) [
    | none ↦ m
    | some rs ↦ record m { runs = set_at m.runs id (some (record rs { canceled = true })) }
  ]

  unfoldable pub unlock : Str → Manager → Manager
  unlock c m = record m { locks = set_at m.locks c false }

  -- One point of `executeRun` to the next. The deferred calls run at the end, the last one first.
  unfoldable pub advance :
      Str → Option Str → Time → List Str → Outcome → Proc → Phase → Manager → Manager
  unfolding finish on_hub set_phase mark_canceled unlock
  advance id exec_err now walk o p executing m = finish id exec_err now o p (m.runs id) m
  advance id exec_err now walk o p (recorded final) m =
      set_phase id p closed (on_hub (close_after_terminal final) id m)
  advance id exec_err now walk o p closed m =
      set_phase id p swept (record m { history = (sweep b walk o m.history).0 })
  advance id exec_err now walk o p swept m =
      set_phase id p released (unlock p.cluster_id (mark_canceled id m))
  advance id exec_err now walk o p released m = m

  unfoldable pub proceed : Str → Option Str → Time → List Str → Outcome → Manager → Manager
  unfolding advance
  proceed id exec_err now walk o m = elim (m.procs id) [
    | none ↦ m
    | some p ↦ advance id exec_err now walk o p p.phase m
  ]

  -- `removeRun`, some time after the close.
  unfoldable pub remove_run : Str → Manager → Manager
  remove_run id m = record m { runs = set_at m.runs id none }

  -- `RecordImmediate`.
  unfoldable pub immediate : Str → Time → HistoryEntry → HistoryEntry
  immediate id now e = record e {
    id = if is_empty e.id then id else e.id;
    at = if e.at == 0 then now else e.at;
    status = if is_terminal e.status then e.status else OperationState.succeeded;
  }

  unfoldable pub record_immediate :
      Str → Time → HistoryEntry → Outcome → Manager → Manager × Result (Unit {0})
  unfolding immediate is_terminal
  record_immediate id now e o m =
      let (db, answer) = insert b (immediate id now e) o m.history in
      (record m { history = db }, answer)

  unfoldable pub clear_history : Time → Outcome → Manager → Manager × Result ℕ
  clear_history before o m =
      let (db, answer) = clear b before o m.history in (record m { history = db }, answer)

  -- `Shutdown`: every run is canceled and its hub torn down.
  unfoldable pub shutdown_all : Manager → Manager
  shutdown_all m = record m {
    runs = λ id. elim (m.runs id) [
      | none ↦ none
      | some rs ↦ some (record rs { canceled = true; hub = shutdown rs.hub })
    ];
  }
