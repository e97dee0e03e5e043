-- ===== src/Tasks/Orchestrator/Exclusion.antt =====
-- The cluster locks of internal/tasks/orchestrator.go and the goroutines that hold them.
use bm.Base.{
  ◌≡◌, refl, ◌∙◌, ap, false, Option, none, some, List, Str, str_iff, arith, Option-cases, inl, inr,
  if_both,
}
use bm.Store.{Outcome, ok, err}
use bm.Store.Bucket.{Bucket}
use bm.Tasks.Types.{Time, HistoryEntry, DispatchRequest, is_terminal}
use bm.Tasks.History.Defs.{Json, Db}
use bm.Tasks.Hub.Defs.{Hub, snapshot, close_after_terminal}
use bm.Tasks.Orchestrator.Defs.{
  Manager, checked, try_lock, with_lock, after_insert, spawn, on_hub, cancel, advance, proceed,
  remove_run, record_immediate, clear_history, shutdown_all, cancel_run, mark_canceled, finish,
}
use bm.Tasks.Orchestrator.Steps.{
  Call, locked, inserted, State, lock_for, begin_call, insert_call, start_call, Fresh, init_state,
  Action, begins, inserts, starts, works, proceeds, cancels, tears_down, removes, records_immediate,
  clears_history, shuts_down, act, Allowed, Reach, start, next,
}
use bm.Tasks.Orchestrator.Types.{
  Answer, Refusal, Registry, Phase, executing, recorded, closed, swept, released, Proc, holds,
  set_at, is_released, RunState,
}
use bm.Tasks.Orchestrator.Owning.{
  Locks, Procs, Calls, Owned, Owned-begin, Owned-end, Owned-start, Owned-same, Owned-release,
}

module _ (b : Bucket (Json HistoryEntry)) where
  abbrev OwnedBy : Calls → Manager b → Type 0
  OwnedBy calls m = Owned m.locks m.procs calls

  abbrev OwnedIn : State b → Type 0
  OwnedIn s = OwnedBy s.calls s.manager

  -- A step on the hub of a run leaves all else.
  pub on_hub_frame :
      (f : Hub → Hub) (id : Str) (m : Manager b)
      → ((on_hub b f id m).locks ≡ m.locks)
        × ((on_hub b f id m).procs ≡ m.procs)
        × ((on_hub b f id m).history ≡ m.history)
  unfolding on_hub
  on_hub_frame f id m = ground arith

  mark_canceled_frame :
      (id : Str) (m : Manager b)
      → ((mark_canceled b id m).locks ≡ m.locks) × ((mark_canceled b id m).procs ≡ m.procs)
  unfolding mark_canceled
  mark_canceled_frame id m = ground arith

  on_hub-Owned :
      (f : Hub → Hub) (id : Str) (calls : Calls) (m : Manager b)
      → OwnedBy calls m
      → OwnedBy calls (on_hub b f id m)
  on_hub-Owned f id calls m v =
      let (l, p, _) = on_hub_frame f id m in
      Owned-same (λ c. ap (λ (g : Locks). g c) l) (λ c i. ap (λ (g : Procs). holds c (g i)) p)
        (λ c g. refl) v

  cancel-Owned :
      (id : Str) (calls : Calls) (m : Manager b) → OwnedBy calls m → OwnedBy calls (cancel b id m).0
  unfolding cancel
  cancel-Owned id calls m v = by_run (m.runs id)
    where
      by_run : (r : Option RunState) → OwnedBy calls (cancel_run b id r m).0
      by_run none = v
      by_run (some rs) =
          if_both (λ (x : Manager b × Answer (Unit {0})). OwnedBy calls x.0)
            (is_terminal (snapshot rs.hub).state) _ _ (λ _. v) (λ _. v)

  holds-set_phase :
      (procs : Procs) (id : Str) (p : Proc) (ph : Phase) (c j : Str)
      → procs id ≡ some p
      → is_released ph ≡ is_released p.phase
      → holds c (set_at procs id (some (record p { phase = ph })) j) ≡ holds c (procs j)
  holds-set_phase procs id p ph c j here e = ground (arith, here, e, str_iff id j)

  advance-Owned :
      (calls : Calls) (id : Str) (exec_err : Option Str) (now : Time) (walk : List Str)
      (o : Outcome) (p : Proc) (ph : Phase) (m : Manager b)
      → m.procs id ≡ some p
      → p.phase ≡ ph
      → OwnedBy calls m
      → OwnedBy calls (advance b id exec_err now walk o p ph m)
  unfolding advance
  advance-Owned calls id exec_err now walk o p executing m here e v = by_run (m.runs id)
    where
      by_run : (r : Option RunState) → OwnedBy calls (finish b id exec_err now o p r m)
      by_run none = v
      by_run (some rs) =
          Owned-same (λ c. refl) (λ c j. holds-set_phase m.procs id p _ c j here (rw e refl))
            (λ c g. refl) v
  advance-Owned calls id exec_err now walk o p (recorded final) m here e v =
      let (l, q, _) = on_hub_frame (close_after_terminal final) id m in
      Owned-same (λ c. ap (λ (g : Locks). g c) l)
        (λ c j.
          ap (λ (g : Procs). holds c (set_at g id (some (record p { phase = closed })) j)) q
          ∙ holds-set_phase m.procs id p closed c j here (rw e refl))
        (λ c g. refl) v
  advance-Owned calls id exec_err now walk o p closed m here e v =
      Owned-same (λ c. refl) (λ c j. holds-set_phase m.procs id p swept c j here (rw e refl))
        (λ c g. refl) v
  advance-Owned calls id exec_err now walk o p swept m here e v =
      let (l, q) = mark_canceled_frame id m in
      Owned-same (λ c. ap (λ (g : Locks). set_at g p.cluster_id false c) l)
        (λ c j.
          ap (λ (g : Procs). holds c (set_at g id (some (record p { phase = released })) j)) q)
        (λ c g. refl) (Owned-release m.locks m.procs calls id p here (rw e refl) v)
  advance-Owned calls id exec_err now walk o p released m here e v = v

  proceed-Owned :
      (calls : Calls) (id : Str) (exec_err : Option Str) (now : Time) (walk : List Str)
      (o : Outcome) (m : Manager b)
      → OwnedBy calls m
      → OwnedBy calls (proceed b id exec_err now walk o m)
  unfolding proceed
  proceed-Owned calls id exec_err now walk o m v = elim (Option-cases (m.procs id)) [
    | inl e ↦ rw (proceed, e) v
    | inr (p, e) ↦ rw (proceed, e) (advance-Owned calls id exec_err now walk o p p.phase m e refl v)
  ]

  begin_call-Owned :
      (g : Str) (req : DispatchRequest) (s : State b) (x : Option Refusal)
      → s.calls g ≡ none
      → OwnedBy s.calls s.manager
      → OwnedIn (begin_call b g req s (lock_for b x req s.manager))
  unfolding begin_call lock_for try_lock
  begin_call-Owned g req s (some r) idle v = v
  begin_call-Owned g req s none idle v =
      if_both {A = Option (Manager b)} (λ m. OwnedIn (begin_call b g req s m))
        (s.manager.locks req.cluster_id) _ _ (λ _. v)
        (λ free. Owned-begin s.manager.locks s.manager.procs s.calls g req free idle v)

  insert_call-Owned :
      (g : Str) (new_id : Option Str) (now : Time) (o : Outcome) (s : State b) (x : Option Call)
      → s.calls g ≡ x
      → OwnedIn s
      → OwnedIn (insert_call b g new_id now o s x)
  unfolding insert_call with_lock
  insert_call-Owned g (some id) now o s (some (locked req)) here v =
      Owned-same (λ c. refl) (λ c i. refl) (λ c h. ground (arith, here, str_iff g h)) v
  insert_call-Owned g none now o s (some (locked req)) here v =
      Owned-end s.manager.locks s.manager.procs s.calls g (locked req) here v
  insert_call-Owned g (some id) now o s (some (inserted req i at answer)) here v = v
  insert_call-Owned g none now o s (some (inserted req i at answer)) here v = v
  insert_call-Owned g (some id) now o s none here v = v
  insert_call-Owned g none now o s none here v = v

  start_call-Owned :
      (g : Str) (s : State b) (x : Option Call)
      → s.calls g ≡ x
      → Fresh b s.manager x
      → OwnedIn s
      → OwnedIn (start_call b g s x)
  unfolding start_call after_insert spawn
  start_call-Owned g s (some (inserted req id now (ok u))) here new v =
      Owned-start s.manager.locks s.manager.procs s.calls g id (inserted req id now (ok u)) here
        new.0 v
  start_call-Owned g s (some (inserted req id now (err e))) here new v =
      Owned-end s.manager.locks s.manager.procs s.calls g (inserted req id now (err e)) here v
  start_call-Owned g s (some (locked req)) here new v = v
  start_call-Owned g s none here new v = v

  act-Owned :
      (registry : Registry) (s : State b) (a : Action b)
      → Allowed b s a
      → OwnedIn s
      → OwnedIn (act b registry s a)
  unfolding act remove_run record_immediate clear_history shutdown_all
  act-Owned registry s (begins g req) h v =
      begin_call-Owned g req s (checked b (registry req.kind) req) h v
  act-Owned registry s (inserts g new_id now o) h v =
      insert_call-Owned g new_id now o s (s.calls g) refl v
  act-Owned registry s (starts g) h v = start_call-Owned g s (s.calls g) refl h v
  act-Owned registry s (works id t) h v = on_hub-Owned _ id s.calls s.manager v
  act-Owned registry s (proceeds id exec_err now walk o) h v =
      proceed-Owned s.calls id exec_err now walk o s.manager v
  act-Owned registry s (cancels id) h v = cancel-Owned id s.calls s.manager v
  act-Owned registry s (tears_down id) h v = on_hub-Owned _ id s.calls s.manager v
  act-Owned registry s (removes id) h v = v
  act-Owned registry s (records_immediate id now e o) h v = v
  act-Owned registry s (clears_history before o) h v = v
  act-Owned registry s shuts_down h v = v

  Owned-init : (db : Db b) → OwnedIn (init_state b db)
  Owned-init db = record {
    held = λ c id h. cc;
    held_by_call = λ c g h. cc;
    alone = λ c i j h k. cc;
    one_call = λ c i j h k. cc;
    apart = λ c i g h. refl;
    owner = λ c h. cc;
  }

  -- In every state that the goroutines of the process can reach from an idle manager, whatever they
  -- do and in whatever order, where a call of `Dispatch` takes its lock, inserts its row and starts its
  -- goroutine in three steps between which others may run: a goroutine of `executeRun` that has not
  -- yet unlocked, and a call of `Dispatch` between its lock and its end, hold the lock of their
  -- cluster; no two of them have the same cluster; and a lock that is held belongs to one. Task ids
  -- that are made are new, and a run is taken down or dropped only after its `executeRun` has closed
  -- the hub.
  pub Reach-Owned :
      (registry : Registry) (db : Db b) {s : State b}
      → Reach b registry db s
      → Owned s.manager.locks s.manager.procs s.calls
  Reach-Owned registry db start = Owned-init db
  Reach-Owned registry db (next {s = s} a r h) =
      act-Owned registry s a h (Reach-Owned registry db r)
