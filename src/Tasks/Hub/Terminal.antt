-- ===== src/Tasks/Hub/Terminal.antt =====
-- The end of a hub's life in internal/tasks/hub.go: the terminal frame, the grace period, the
-- teardown.
use bm.Base.{◌≡◌, true, false, List, [], ◌∷◌, arith}
use bm.Tasks.Types.{OperationProgress}
use bm.Tasks.Hub.Defs.{
  Hub, HubStep, subscribes, unsubscribes, receives, subscribe, unsubscribe, publish_state,
  mutate_state, publish_event, close_after_terminal, teardown, shutdown, snapshot, receive,
  hub_step, hub_run,
}

-- The snapshot and the flag of a hub that is shut.
abbrev Frozen : OperationProgress → Hub → Type 0
Frozen p h = (h.closed ≡ true) × (snapshot h ≡ p)

step-Frozen : (p : OperationProgress) (h : Hub) (s : HubStep) → Frozen p h → Frozen p (hub_step h s)
unfolding hub_step subscribe unsubscribe receive publish_state mutate_state publish_event
    close_after_terminal shutdown teardown snapshot
step-Frozen p h subscribes v = v
step-Frozen p h (unsubscribes i) v = v
step-Frozen p h (receives i) v = v
step-Frozen p h _ v = ground arith

run-Frozen :
    (p : OperationProgress) (h : Hub) (steps : List HubStep)
    → Frozen p h
    → Frozen p (hub_run h steps)
unfolding hub_run
run-Frozen p h [] v = v
run-Frozen p h (s ∷ rest) v = run-Frozen p (hub_step h s) rest (step-Frozen p h s v)

teardown-Frozen : (h : Hub) → Frozen (snapshot h) (teardown h)
unfolding teardown snapshot
teardown-Frozen h = ground arith

-- Once a hub is shut, nothing that happens later, a second terminal state, a new subscriber or an
-- executor's late update included, changes the snapshot it was shut with or opens it again.
pub shut_is_final :
    (h : Hub) (steps : List HubStep)
    → ((hub_run (teardown h) steps).closed ≡ true)
      × (snapshot (hub_run (teardown h) steps) ≡ snapshot h)
shut_is_final h steps = run-Frozen (snapshot h) (teardown h) steps (teardown-Frozen h)

-- In the grace period between the terminal frame and the teardown the hub still accepts updates:
-- a second terminal state replaces the first, and so does a late update of the executor.
pub terminal_replaced_in_grace :
    (first second : OperationProgress) (fn : OperationProgress → OperationProgress) (h : Hub)
    → h.closed ≡ false
    → (snapshot (close_after_terminal second (close_after_terminal first h)) ≡ second)
      × (snapshot (mutate_state fn (close_after_terminal first h)) ≡ fn first)
unfolding close_after_terminal mutate_state snapshot
terminal_replaced_in_grace first second fn h e = ground arith
