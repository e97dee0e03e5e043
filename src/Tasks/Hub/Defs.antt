-- ===== src/Tasks/Hub/Defs.antt =====
-- The state and the methods of internal/tasks/hub.go.
use bm.Base.{
  ℕ, ◌+◌, Bool, true, false, none, List, [], ◌∷◌, ◌++◌, map, Str, ltb, ◌==◌, if◌then◌else◌, length,
  modify,
}
use bm.Tasks.Types.{Time, OperationState, OpEvent, OperationProgress}

pub data Frame : Type 0 where
  state_frame : OperationProgress → Frame
  event_frame : OpEvent → Frame

abbrev pub subscriber_buffer : ℕ
subscriber_buffer = 256

pub record Subscription : Type 0 where
  pub buffer : List Frame
  pub received : List Frame
  pub member : Bool
  pub closes : ℕ

pub record Hub : Type 0 where
  pub state : OperationProgress
  pub subs : List Subscription
  pub closed : Bool
  -- calls of `close(h.closeCh)`
  pub signals : ℕ

unfoldable pub new_hub : Str → Hub
new_hub task_id = record {
  state = record {
    task_id = task_id;
    state = OperationState.running;
    current_step = [];
    current = none;
    total = none;
    detail = [];
    failure_note = [];
    host_statuses = [];
    summary = [];
    events = [];
  };
  subs = [];
  closed = false;
  signals = 0;
}

-- `delete(h.subs, sub); close(sub.ch)`
unfoldable pub drop_sub : Subscription → Subscription
drop_sub s = record s { member = false; closes = s.closes + 1 }

-- One turn of the loop of `fanout`: a full channel is dropped.
unfoldable pub offer : Frame → Subscription → Subscription
unfolding drop_sub
offer f s =
    if s.member
    then (if ltb (length s.buffer) subscriber_buffer
        then record s { buffer = s.buffer ++ (f ∷ []) }
        else drop_sub s)
    else s

unfoldable pub fanout : Frame → Hub → Hub
unfolding offer
fanout f h = record h { subs = map (offer f) h.subs }

-- The channel of a subscription to a hub that is already shut is closed at once.
unfoldable pub subscribe : Hub → Hub
subscribe h = record h { subs = h.subs ++ (sub ∷ []) }
  where
    sub : Subscription
    sub =
        if h.closed
        then record { buffer = []; received = []; member = false; closes = 1 }
        else record { buffer = state_frame h.state ∷ []; received = []; member = true; closes = 0 }

unfoldable pub leave : Subscription → Subscription
unfolding drop_sub
leave s = if s.member then drop_sub s else s

unfoldable pub unsubscribe : ℕ → Hub → Hub
unfolding leave
unsubscribe i h = record h { subs = modify h.subs i leave }

unfoldable pub snapshot : Hub → OperationProgress
snapshot h = h.state

unfoldable pub publish_state : OperationProgress → Hub → Hub
unfolding fanout
publish_state state h =
    if h.closed then h else fanout (state_frame state) (record h { state = state })

unfoldable pub mutate_state : (OperationProgress → OperationProgress) → Hub → Hub
unfolding fanout
mutate_state fn h =
    if h.closed then h else fanout (state_frame (fn h.state)) (record h { state = fn h.state })

-- `now` stamps an event that has no time of its own.
unfoldable pub stamp : Time → OpEvent → OpEvent
stamp now ev = if ev.ts == 0 then record ev { ts = now } else ev

unfoldable pub append_event : OpEvent → OperationProgress → OperationProgress
append_event ev p = record p { events = p.events ++ (ev ∷ []) }

unfoldable pub publish_event : Time → OpEvent → Hub → Hub
unfolding fanout
publish_event now ev h =
    let e = stamp now ev in
    if h.closed then h else fanout (event_frame e) (record h { state = append_event e h.state })

-- The part of `CloseAfterTerminal` that runs at once; `shutdown` follows after the grace period, or
-- when `Shutdown` signals it.
unfoldable pub close_after_terminal : OperationProgress → Hub → Hub
unfolding fanout
close_after_terminal final h =
    if h.closed then h else fanout (state_frame final) (record h { state = final })

-- `shutdown`: closes every channel of the map and empties it.
unfoldable pub teardown : Hub → Hub
unfolding leave
teardown h = if h.closed then h else record h { closed = true; subs = map leave h.subs }

-- `Shutdown`, at process exit.
unfoldable pub shutdown : Hub → Hub
unfolding teardown
shutdown h = teardown (record h { signals = h.signals + 1 })

-- The reader of a subscription takes the frame at the front of its channel, also after the close.
unfoldable pub take_front : List Frame → Subscription → Subscription
take_front [] s = s
take_front (f ∷ rest) s = record s { buffer = rest; received = s.received ++ (f ∷ []) }

unfoldable pub take_frame : Subscription → Subscription
unfolding take_front
take_frame s = take_front s.buffer s

unfoldable pub receive : ℕ → Hub → Hub
unfolding take_frame
receive i h = record h { subs = modify h.subs i take_frame }

-- What happens to a hub, in any order.
pub data HubStep : Type 0 where
  subscribes : HubStep
  unsubscribes : ℕ → HubStep
  receives : ℕ → HubStep
  publishes_state : OperationProgress → HubStep
  mutates_state : (OperationProgress → OperationProgress) → HubStep
  publishes_event : Time → OpEvent → HubStep
  closes_terminal : OperationProgress → HubStep
  tears_down : HubStep
  shuts_down : HubStep

unfoldable pub hub_step : Hub → HubStep → Hub
hub_step h subscribes = subscribe h
hub_step h (unsubscribes i) = unsubscribe i h
hub_step h (receives i) = receive i h
hub_step h (publishes_state p) = publish_state p h
hub_step h (mutates_state fn) = mutate_state fn h
hub_step h (publishes_event now ev) = publish_event now ev h
hub_step h (closes_terminal p) = close_after_terminal p h
hub_step h tears_down = teardown h
hub_step h shuts_down = shutdown h

unfoldable pub hub_run : Hub → List HubStep → Hub
hub_run h [] = h
hub_run h (s ∷ rest) = hub_run (hub_step h s) rest
