-- ===== src/Tasks/Hub/Order.antt =====
-- What the subscribers of internal/tasks/hub.go have been sent, against the hub's snapshot.
use mathlib.Core.List.{append_assoc}
use bm.Base.{
  ℕ, ◌≡◌, refl, sym, ap, ◌∙◌, true, some, List, [], ◌∷◌, ◌++◌, map, Str, arith, if◌then◌else◌,
  if_both, subst, ◌+◌, get_elem?, All, All-get_elem?, modify-All, map-All, append-All,
}
use bm.Tasks.Types.{OperationProgress}
use bm.Tasks.Hub.Defs.{
  Frame, state_frame, event_frame, Subscription, Hub, HubStep, subscribes, unsubscribes, receives,
  publishes_state, mutates_state, publishes_event, closes_terminal, tears_down, shuts_down, new_hub,
  snapshot, offer, fanout, subscribe, leave, unsubscribe, stamp, append_event, publish_state,
  mutate_state, publish_event, close_after_terminal, teardown, shutdown, take_front, take_frame,
  receive, hub_step, hub_run,
}

-- All frames put on the channel of a subscription, oldest first.
abbrev pub stream : Subscription → List Frame
stream s = s.received ++ s.buffer

-- A client that keeps a snapshot: a state frame replaces it, an event frame appends to its events.
unfoldable pub replay : OperationProgress → List Frame → OperationProgress
replay p [] = p
replay p (state_frame q ∷ rest) = replay q rest
replay p (event_frame e ∷ rest) = replay (append_event e p) rest

abbrev pub show : OperationProgress → Frame → OperationProgress
show p (state_frame q) = q
show p (event_frame e) = append_event e p

pub replay-append :
    (p : OperationProgress) (fs : List Frame) (f : Frame)
    → replay p (fs ++ (f ∷ [])) ≡ show (replay p fs) f
unfolding replay
replay-append p [] (state_frame q) = refl
replay-append p [] (event_frame e) = refl
replay-append p (state_frame q ∷ fs) f = replay-append q fs f
replay-append p (event_frame e ∷ fs) f = replay-append (append_event e p) fs f

-- A member of the map has been sent enough to rebuild `state`.
abbrev pub Synced : OperationProgress → OperationProgress → Subscription → Type 0
Synced p state s = s.member ≡ true → replay p (stream s) ≡ state

offer-Synced :
    (p state : OperationProgress) (f : Frame) (s : Subscription)
    → Synced p state s
    → Synced p (show state f) (offer f s)
unfolding offer
offer-Synced p state f s h m =
    ground (arith, h, replay-append p (stream s) f, append_assoc s.received s.buffer (f ∷ []))

fanout-Synced :
    (p state : OperationProgress) (f : Frame) (subs : List Subscription)
    → All (Synced p state) subs
    → All (Synced p (show state f)) (map (offer f) subs)
fanout-Synced p state f [] h = tt
fanout-Synced p state f (s ∷ subs) h =
    (offer-Synced p state f s h.0, fanout-Synced p state f subs h.1)

leave-Synced :
    (p state : OperationProgress) (s : Subscription) → Synced p state s → Synced p state (leave s)
unfolding leave
leave-Synced p state s h m = ground (arith, h)

take_front-stream :
    (b : List Frame) (s : Subscription)
    → s.buffer ≡ b
    → (stream (take_front b s) ≡ stream s) × ((take_front b s).member ≡ s.member)
unfolding take_front
take_front-stream [] s e = (refl, refl)
take_front-stream (f ∷ rest) s e = (rw e (append_assoc s.received (f ∷ []) rest), refl)

-- A reader moves a frame from the channel to what it has, and changes nothing else.
pub take_frame-stream :
    (s : Subscription) → (stream (take_frame s) ≡ stream s) × ((take_frame s).member ≡ s.member)
unfolding take_frame
take_frame-stream s = take_front-stream s.buffer s refl

take_frame-Synced :
    (p state : OperationProgress) (s : Subscription)
    → Synced p state s
    → Synced p state (take_frame s)
take_frame-Synced p state s h m =
    let (same, kept) = take_frame-stream s in ap (replay p) same ∙ h (sym kept ∙ m)

abbrev pub InSync : OperationProgress → Hub → Type 0
InSync p h = All (Synced p h.state) h.subs

publish-InSync :
    (p q : OperationProgress) (f : Frame) (h : Hub)
    → show h.state f ≡ q
    → InSync p h
    → InSync p (if h.closed then h else fanout f (record h { state = q }))
unfolding fanout
publish-InSync p q f h e v =
    if_both (InSync p) h.closed h (fanout f (record h { state = q })) (λ _. v)
      (λ _.
        subst (λ t. All (Synced p t) (map (offer f) h.subs)) e (fanout-Synced p h.state f h.subs v))

teardown-InSync : (p : OperationProgress) (h : Hub) → InSync p h → InSync p (teardown h)
unfolding teardown
teardown-InSync p h v =
    if_both (InSync p) h.closed h _ (λ _. v)
      (λ _. map-All _ leave (leave-Synced p h.state) h.subs v)

-- Each step leaves the members in sync with the state that it leaves.
step-InSync : (p : OperationProgress) (h : Hub) (s : HubStep) → InSync p h → InSync p (hub_step h s)
unfolding hub_step subscribe unsubscribe receive publish_state mutate_state publish_event
    close_after_terminal shutdown replay
step-InSync p h subscribes v =
    append-All _ h.subs _ v (if_both (Synced p h.state) h.closed _ _ (λ _ m. cc) (λ _ m. refl))
step-InSync p h (unsubscribes i) v = modify-All _ leave (leave-Synced p h.state) h.subs i v
step-InSync p h (receives i) v = modify-All _ take_frame (take_frame-Synced p h.state) h.subs i v
step-InSync p h (publishes_state q) v = publish-InSync p q (state_frame q) h refl v
step-InSync p h (mutates_state fn) v =
    publish-InSync p (fn h.state) (state_frame (fn h.state)) h refl v
step-InSync p h (publishes_event now ev) v =
    publish-InSync p _ (event_frame (stamp now ev)) h refl v
step-InSync p h (closes_terminal q) v = publish-InSync p q (state_frame q) h refl v
step-InSync p h tears_down v = teardown-InSync p h v
step-InSync p h shuts_down v = teardown-InSync p (record h { signals = h.signals + 1 }) v

run-InSync :
    (p : OperationProgress) (h : Hub) (steps : List HubStep)
    → InSync p h
    → InSync p (hub_run h steps)
unfolding hub_run
run-InSync p h [] v = v
run-InSync p h (s ∷ rest) v = run-InSync p (hub_step h s) rest (step-InSync p h s v)

-- After any history of a hub, a client that applies the frames sent to a subscription which is
-- still in the map, whatever snapshot the client starts from, arrives at the hub's own snapshot.
pub replay-stream :
    (p : OperationProgress) (task_id : Str) (steps : List HubStep) (i : ℕ) (s : Subscription)
    → get_elem? (hub_run (new_hub task_id) steps).subs i ≡ some s
    → s.member ≡ true
    → replay p (stream s) ≡ snapshot (hub_run (new_hub task_id) steps)
unfolding new_hub snapshot
replay-stream p task_id steps i s e m =
    All-get_elem? (Synced p (hub_run (new_hub task_id) steps).state) _ i s
      (run-InSync p (new_hub task_id) steps tt) e m
