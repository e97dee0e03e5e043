-- ===== src/Tasks/Orchestrator/Steps.antt =====
-- The steps of all goroutines around the manager of internal/tasks/orchestrator.go, in any order. A call
-- of `Dispatch` takes three: up to TryLock; the new task id with the insert of the history row; and what
-- follows the answer of that insert, up to the `go` statement or the unlock.
use bm.Base.{◌≡◌, refl, subst, sym, str_refl, Bool, true, false, Option, none, some, List, Str}
use bm.Store.{Result, ok, err, Outcome}
use bm.Store.Bucket.{Bucket}
use bm.Tasks.Types.{Time, HistoryEntry, DispatchRequest}
use bm.Tasks.Hub.Defs.{HubStep, teardown, hub_step}
use bm.Tasks.History.Defs.{Json, Db, insert}
use bm.Tasks.Orchestrator.Types.{
  Proc, Refusal, Registry, set_at, new_entry, closed, executing, recorded, released, swept,
}
use bm.Tasks.Orchestrator.Defs.{
  Manager, dispatch, spawn, after_try, take_lock, unless_refused, with_lock, after_insert, try_lock,
  checked, on_hub, cancel, proceed, remove_run, record_immediate, clear_history, shutdown_all,
}

-- A call of `Dispatch` that holds its cluster's lock: before the insert, and behind it with its answer.
pub data Call : Type 0 where
  locked : DispatchRequest → Call
  inserted : DispatchRequest → Str → Time → Result (Unit {0}) → Call

abbrev pub called_for : Call → Str
called_for (locked req) = req.cluster_id
called_for (inserted req id now answer) = req.cluster_id

module _ (b : Bucket (Json HistoryEntry)) where
  -- What the goroutines of the process do, in any order.
  pub data Action : Type 0 where
    begins : Str → DispatchRequest → Action
    inserts : Str → Option Str → Time → Outcome → Action
    starts : Str → Action
    works : Str → HubStep → Action
    proceeds : Str → Option Str → Time → List Str → Outcome → Action
    cancels : Str → Action
    tears_down : Str → Action
    removes : Str → Action
    records_immediate : Str → Time → HistoryEntry → Outcome → Action
    clears_history : Time → Outcome → Action
    shuts_down : Action

  -- The manager, and the calls of `Dispatch` that hold a lock, each under a name of its own.
  pub record State : Type 0 where
    pub manager : Manager b
    pub calls : Str → Option Call

  abbrev pub on_manager : (Manager b → Manager b) → State → State
  on_manager f s = record s { manager = f s.manager }

  unfoldable pub lock_for : Option Refusal → DispatchRequest → Manager b → Option (Manager b)
  unfolding try_lock
  lock_for (some r) req m = none
  lock_for none req m = try_lock b req.cluster_id m

  unfoldable pub begin_call : Str → DispatchRequest → State → Option (Manager b) → State
  begin_call g req s none = s
  begin_call g req s (some m) = record { manager = m; calls = set_at s.calls g (some (locked req)) }

  unfoldable pub insert_call : Str → Option Str → Time → Outcome → State → Option Call → State
  unfolding with_lock new_entry
  insert_call g (some id) now o s (some (locked req)) =
      let (db, answer) = insert b (new_entry id now req) o s.manager.history in
      record {
        manager = record s.manager { history = db };
        calls = set_at s.calls g (some (inserted req id now answer));
      }
  insert_call g none now o s (some (locked req)) = record {
    manager = (with_lock b none req now o s.manager).0;
    calls = set_at s.calls g none;
  }
  insert_call g new_id now o s (some (inserted req id at answer)) = s
  insert_call g new_id now o s none = s

  unfoldable pub start_call : Str → State → Option Call → State
  unfolding after_insert
  start_call g s (some (inserted req id now answer)) = record {
    manager = (after_insert b id req now s.manager (s.manager.history, answer)).0;
    calls = set_at s.calls g none;
  }
  start_call g s (some (locked req)) = s
  start_call g s none = s

  unfoldable pub act : Registry → State → Action → State
  unfolding checked
  act registry s (begins g req) =
      begin_call g req s (lock_for (checked b (registry req.kind) req) req s.manager)
  act registry s (inserts g new_id now o) = insert_call g new_id now o s (s.calls g)
  act registry s (starts g) = start_call g s (s.calls g)
  act registry s (works id t) = on_manager (on_hub b (λ h. hub_step h t) id) s
  act registry s (proceeds id exec_err now walk o) = on_manager (proceed b id exec_err now walk o) s
  act registry s (cancels id) = on_manager (λ m. (cancel b id m).0) s
  act registry s (tears_down id) = on_manager (on_hub b teardown id) s
  act registry s (removes id) = on_manager (remove_run b id) s
  act registry s (records_immediate id now e o) =
      on_manager (λ m. (record_immediate b id now e o m).0) s
  act registry s (clears_history before o) = on_manager (λ m. (clear_history b before o m).0) s
  act registry s shuts_down = on_manager (shutdown_all b) s

  abbrev past_close : Option Proc → Bool
  past_close none = false
  past_close (some p) = elim p.phase [
    | executing ↦ false
    | recorded final ↦ false
    | closed ↦ true
    | swept ↦ true
    | released ↦ true
  ]

  abbrev pub Fresh : Manager b → Option Call → Type 0
  Fresh m (some (inserted req id now answer)) = (m.procs id ≡ none) × (m.runs id ≡ none)
  Fresh m (some (locked req)) = Unit
  Fresh m none = Unit

  -- A call has a name of its own, and a new task id is not in use; a run is taken down or dropped by
  -- the goroutines that its own `executeRun` starts when it closes the hub.
  abbrev pub Allowed : State → Action → Type 0
  Allowed s (begins g req) = s.calls g ≡ none
  Allowed s (starts g) = Fresh s.manager (s.calls g)
  Allowed s (tears_down id) = past_close (s.manager.procs id) ≡ true
  Allowed s (removes id) = past_close (s.manager.procs id) ≡ true
  Allowed s _ = Unit

  abbrev pub init : Db b → Manager b
  init db = record { history = db; locks = λ _. false; runs = λ _. none; procs = λ _. none }

  abbrev pub init_state : Db b → State
  init_state db = record { manager = init db; calls = λ _. none }

  pub data Reach (registry : Registry) (db : Db b) : State → Type 0 where
    start : Reach registry db (init_state db)
    next :
        {s : State} (a : Action)
        → Reach registry db s
        → Allowed s a
        → Reach registry db (act registry s a)

  -- The last two steps, and all three, with no other ones between.
  abbrev inserted_start : Str → Option Str → Time → Outcome → State → Option Call → Manager b
  inserted_start g new_id now o s x =
      (start_call g (insert_call g new_id now o s x)
        ((insert_call g new_id now o s x).calls g)).manager

  abbrev insert_start : Str → Option Str → Time → Outcome → State → Manager b
  insert_start g new_id now o s = inserted_start g new_id now o s (s.calls g)

  start_lem :
      (id : Str) (req : DispatchRequest) (now : Time) (m : Manager b) (x : Db b × Result (Unit {0}))
      → (after_insert b id req now (record m { history = x.0 }) x).0
        ≡ (after_insert b id req now m x).0
  unfolding after_insert spawn
  start_lem id req now m (db, err e) = refl
  start_lem id req now m (db, ok u) = refl

  insert_start_lem :
      (g : Str) (new_id : Option Str) (req : DispatchRequest) (now : Time) (o : Outcome) (s : State)
      → s.calls g ≡ some (locked req)
      → insert_start g new_id now o s ≡ (with_lock b new_id req now o s.manager).0
  unfolding insert_call start_call with_lock
  insert_start_lem g none req now o s e =
      subst (λ x. inserted_start g none now o s x ≡ (with_lock b none req now o s.manager).0)
        (sym e) (rw (inserted_start, str_refl g) refl)
  insert_start_lem g (some id) req now o s e =
      subst
        (λ x. inserted_start g (some id) now o s x ≡ (with_lock b (some id) req now o s.manager).0)
        (sym e)
        (rw (inserted_start, str_refl g)
          (start_lem id req now s.manager (insert b (new_entry id now req) o s.manager.history)))

  idle_call :
      (g : Str) (new_id : Option Str) (now : Time) (o : Outcome) (s : State)
      → s.calls g ≡ none
      → insert_start g new_id now o s ≡ s.manager
  unfolding insert_call start_call
  idle_call g none now o s e =
      subst (λ x. inserted_start g none now o s x ≡ s.manager) (sym e)
        (subst (λ x. (start_call g s x).manager ≡ s.manager) (sym e) refl)
  idle_call g (some id) now o s e =
      subst (λ x. inserted_start g (some id) now o s x ≡ s.manager) (sym e)
        (subst (λ x. (start_call g s x).manager ≡ s.manager) (sym e) refl)

  tried :
      (g : Str) (new_id : Option Str) (req : DispatchRequest) (now : Time) (o : Outcome) (s : State)
      (x : Option (Manager b))
      → s.calls g ≡ none
      → insert_start g new_id now o (begin_call g req s x)
        ≡ (after_try b new_id req now o s.manager x).0
  unfolding begin_call after_try
  tried g new_id req now o s none e = idle_call g new_id now o s e
  tried g new_id req now o s (some m) e =
      insert_start_lem g new_id req now o _ (rw (str_refl g) refl)

  by_check :
      (g : Str) (new_id : Option Str) (req : DispatchRequest) (now : Time) (o : Outcome) (s : State)
      (r : Option Refusal)
      → s.calls g ≡ none
      → insert_start g new_id now o (begin_call g req s (lock_for r req s.manager))
        ≡ (unless_refused b r new_id req now o s.manager).0
  unfolding begin_call lock_for unless_refused take_lock
  by_check g new_id req now o s (some r) e = idle_call g new_id now o s e
  by_check g new_id req now o s none e =
      tried g new_id req now o s (try_lock b req.cluster_id s.manager) e

  -- The three steps of a call, with no other ones between, are those of `dispatch`.
  pub begin_insert_start :
      (registry : Registry) (g : Str) (new_id : Option Str) (req : DispatchRequest) (now : Time)
      (o : Outcome) (s : State)
      → s.calls g ≡ none
      → (act registry
          (act registry (act registry s (begins g req)) (inserts g new_id now o))
          (starts g)).manager
        ≡ (dispatch b registry new_id req now o s.manager).0
  unfolding act dispatch
  begin_insert_start registry g new_id req now o s e =
      by_check g new_id req now o s (checked b (registry req.kind) req) e
