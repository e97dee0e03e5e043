-- ===== src/Tasks/Hub/Channels.antt =====
-- The channels of internal/tasks/hub.go: how often each is closed, and how full it gets.
use bm.Base.{
  ℕ, ◌+◌, ◌≤◌, ◌≡◌, refl, Bool, true, false, List, [], ◌∷◌, map, Str, arith, if◌then◌else◌, if_both,
  length, length-append, get_elem?, All, All-get_elem?, modify-All, map-All, append-All, some,
  subst,
}
use bm.Tasks.Types.{OperationProgress}
use bm.Tasks.Hub.Defs.{
  Frame, state_frame, event_frame, Subscription, Hub, HubStep, subscribes, unsubscribes, receives,
  publishes_state, mutates_state, publishes_event, closes_terminal, tears_down, shuts_down, new_hub,
  subscriber_buffer, offer, fanout, subscribe, leave, unsubscribe, stamp, publish_state,
  mutate_state, publish_event, close_after_terminal, teardown, shutdown, take_front, take_frame,
  receive, hub_step, hub_run,
}

-- A subscription of a hub that is shut or not.
pub record IsSound (closed : Bool) (s : Subscription) : Type 0 where
  pub live : s.member ≡ true → (s.closes ≡ 0) × (closed ≡ false)
  pub gone : s.member ≡ false → s.closes ≡ 1
  pub bounded : length s.buffer ≤ subscriber_buffer

offer-IsSound : (c : Bool) (f : Frame) (s : Subscription) → IsSound c s → IsSound c (offer f s)
unfolding offer
offer-IsSound c f s v = ground (arith, length-append s.buffer (f ∷ []))

leave-IsSound : (c d : Bool) (s : Subscription) → IsSound c s → IsSound d (leave s)
unfolding leave
leave-IsSound c d s v = ground arith

take_front-IsSound :
    (c : Bool) (b : List Frame) (s : Subscription)
    → s.buffer ≡ b
    → IsSound c s
    → IsSound c (take_front b s)
unfolding take_front
take_front-IsSound c [] s e v = v
take_front-IsSound c (f ∷ rest) s e v = record {
  live = v.live;
  gone = v.gone;
  bounded = shorter (subst (λ l. length l ≤ subscriber_buffer) e v.bounded);
}
  where
    shorter : length (f ∷ rest) ≤ subscriber_buffer → length rest ≤ subscriber_buffer
    shorter h = omega arith

take_frame-IsSound : (c : Bool) (s : Subscription) → IsSound c s → IsSound c (take_frame s)
unfolding take_frame
take_frame-IsSound c s v = take_front-IsSound c s.buffer s refl v

abbrev pub AllSound : Hub → Type 0
AllSound h = All (IsSound h.closed) h.subs

publish-AllSound :
    (q : OperationProgress) (f : Frame) (h : Hub)
    → AllSound h
    → AllSound (if h.closed then h else fanout f (record h { state = q }))
unfolding fanout
publish-AllSound q f h v =
    if_both AllSound h.closed h _ (λ _. v)
      (λ _. map-All _ (offer f) (offer-IsSound h.closed f) h.subs v)

teardown-subs :
    (c : Bool) (subs : List Subscription)
    → All (IsSound c) subs
    → All (IsSound true) (map leave subs)
teardown-subs c [] v = tt
teardown-subs c (s ∷ subs) v = (leave-IsSound c true s v.0, teardown-subs c subs v.1)

teardown-AllSound : (h : Hub) → AllSound h → AllSound (teardown h)
unfolding teardown
teardown-AllSound h v =
    if_both AllSound h.closed h _ (λ _. v) (λ _. teardown-subs h.closed h.subs v)

step-AllSound : (h : Hub) (s : HubStep) → AllSound h → AllSound (hub_step h s)
unfolding hub_step subscribe unsubscribe receive publish_state mutate_state publish_event
    close_after_terminal shutdown
step-AllSound h subscribes v =
    append-All _ h.subs _ v
      (if_both (IsSound h.closed) h.closed _ _ (λ _. ground arith) (λ e. ground arith))
step-AllSound h (unsubscribes i) v = modify-All _ leave (leave-IsSound h.closed h.closed) h.subs i v
step-AllSound h (receives i) v = modify-All _ take_frame (take_frame-IsSound h.closed) h.subs i v
step-AllSound h (publishes_state q) v = publish-AllSound q (state_frame q) h v
step-AllSound h (mutates_state fn) v = publish-AllSound (fn h.state) _ h v
step-AllSound h (publishes_event now ev) v = publish-AllSound _ (event_frame (stamp now ev)) h v
step-AllSound h (closes_terminal q) v = publish-AllSound q _ h v
step-AllSound h tears_down v = teardown-AllSound h v
step-AllSound h shuts_down v = teardown-AllSound (record h { signals = h.signals + 1 }) v

run-AllSound : (h : Hub) (steps : List HubStep) → AllSound h → AllSound (hub_run h steps)
unfolding hub_run
run-AllSound h [] v = v
run-AllSound h (s ∷ rest) v = run-AllSound (hub_step h s) rest (step-AllSound h s v)

-- After any history of a hub: a subscription in the map has an open channel, and the hub is not
-- shut; a subscription that has left the map, by unsubscribing, for falling behind or at the end,
-- has had its channel closed exactly once; and no channel holds more than 256 frames.
pub hub_run-IsSound :
    (task_id : Str) (steps : List HubStep) (i : ℕ) (s : Subscription)
    → get_elem? (hub_run (new_hub task_id) steps).subs i ≡ some s
    → IsSound (hub_run (new_hub task_id) steps).closed s
unfolding new_hub
hub_run-IsSound task_id steps i s e =
    All-get_elem? (IsSound (hub_run (new_hub task_id) steps).closed) _ i s
      (run-AllSound (new_hub task_id) steps tt) e
