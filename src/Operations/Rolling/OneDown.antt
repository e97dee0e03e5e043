-- ===== src/Operations/Rolling/OneDown.antt =====
-- A rolling restart never takes a second host down before the first is healthy again.
use bm.Base.{
  ℕ, ◌≡◌, refl, ◌≢◌, sym, ◌∙◌, Bool, true, false, Option, none, some, List, [], ◌∷◌, ◌++◌, ◌⊎◌, inl,
  inr, Str, ◌=s◌, str_refl, codes, if◌then◌else◌, if_both,
}
use bm.Store.Json.{Json}
use bm.Store.Bucket.{Bucket}
use bm.Domain.{Cluster, Node}
use bm.Operations.Shell.{
  sudo_systemctl, load_state_probe_command, parse_load_state_loaded, unit_name,
}
use bm.Operations.Types.{
  Event, ran, waited_host, StepResult, output, step_failed, run_step, Failure, Env, World, RunCtx,
}
use bm.Operations.Hosts.{wait_host, is_well}
use bm.Operations.Hosts.Loops.{Ended, Finished, each_host-Finished}
use bm.Operations.Rolling.{
  after_wait, after_restart, after_probe, restart_host, restarted, with_ctx, rolling_restart,
}
use bm.Operations.Types.{load}
use bm.Operations.Hosts.{Tally, no_tally, refresh_cluster_row, rewrite}
use bm.Base.{◌==◌, length}

-- The host that is down: restarted, and not seen healthy since. `none` where a host is restarted
-- while another is down.
pub data Down : Type 0 where
  nobody : Down
  host : Str → Down
  two_hosts : Down

-- One event, with the command that restarts a host.
unfoldable pub turn : Str → Event → Down → Down
turn restart (ran id cmd) nobody = if cmd =s restart then host id else nobody
turn restart (ran id cmd) (host j) = if cmd =s restart then two_hosts else host j
turn restart (waited_host id true) (host j) = if id =s j then nobody else host j
turn restart _ d = d

unfoldable pub down : Str → List Event → Down → Down
unfolding turn
down restart [] d = d
down restart (e ∷ es) d = down restart es (turn restart e d)

down-append :
    (restart : Str) (es fs : List Event) (d : Down)
    → down restart (es ++ fs) d ≡ down restart fs (down restart es d)
unfolding down
down-append restart [] fs d = refl
down-append restart (e ∷ es) fs d = down-append restart es fs (turn restart e d)

down-snoc :
    (restart : Str) (es : List Event) (e : Event) (d x : Down)
    → down restart es d ≡ x
    → down restart (es ++ (e ∷ [])) d ≡ turn restart e x
unfolding down
down-snoc restart es e d x h = rw (down-append restart es (e ∷ []) d, h) refl

-- The probe of a unit is no restart.
probe_no_restart :
    (user args unit : Str) → (load_state_probe_command unit =s sudo_systemctl user args) ≡ false
unfolding load_state_probe_command sudo_systemctl ◌=s◌
probe_no_restart user args unit =
    if_both (λ r. (load_state_probe_command unit =s r) ≡ false) (user =s codes "root") _ _
      (λ _. refl) (λ _. refl)

one_of_two : (well : Bool) (id : Str) → (if well then nobody else host id) ≢ two_hosts
one_of_two true id e = cc
one_of_two false id e = cc

nobody_two : nobody ≢ two_hosts
nobody_two e = cc

host_two : (id : Str) → host id ≢ two_hosts
host_two id e = cc

module _ (b : Bucket (Json Cluster)) (env : Env) (user unit : Str) where
  abbrev restart : Str
  restart = sudo_systemctl user (codes "restart " ++ unit)

  turn_restart : (id : Str) → turn restart (ran id restart) nobody ≡ host id
  unfolding turn
  turn_restart id = rw (str_refl restart) refl

  turn_waited :
      (id : Str) (well : Bool)
      → turn restart (waited_host id well) (host id) ≡ (if well then nobody else host id)
  unfolding turn
  turn_waited id true = rw (str_refl id) refl
  turn_waited id false = refl

  turn_probe : (id : Str) → turn restart (ran id (load_state_probe_command unit)) nobody ≡ nobody
  unfolding turn
  turn_probe id = rw (probe_no_restart user (codes "restart " ++ unit) unit) refl

  abbrev NobodyDown : World b → Type 0
  NobodyDown w = down restart w.events nobody ≡ nobody

  -- At most one host is down, and never were two.
  abbrev AtMostOneDown : World b → Type 0
  AtMostOneDown w = down restart w.events nobody ≢ two_hosts

  after_wait-Ended :
      (i : ℕ) (n : Node) (r : World b × Option Str)
      → AtMostOneDown r.0
      → (r.1 ≡ none → NobodyDown r.0)
      → Ended b NobodyDown AtMostOneDown (after_wait b env user unit i n r)
  unfolding after_wait
  after_wait-Ended i n (w, some e) h k = h
  after_wait-Ended i n (w, none) h k = k refl

  abbrev Awaited : Node → World b → Type 0
  Awaited n w = down restart w.events nobody ≡ host n.id

  NobodyDown-AtMostOneDown : (w : World b) → NobodyDown w → AtMostOneDown w
  NobodyDown-AtMostOneDown w h e = nobody_two (sym h ∙ e)

  Awaited-AtMostOneDown : (n : Node) (w : World b) → Awaited n w → AtMostOneDown w
  Awaited-AtMostOneDown n w h e = host_two n.id (sym h ∙ e)

  -- After the wait for a host that was restarted.
  down-wait_host :
      (n : Node) (w : World b)
      → Awaited n w
      → down restart (wait_host b env (codes "1m0s") n w).0.events nobody
        ≡ (if is_well b (wait_host b env (codes "1m0s") n w).1 then nobody else host n.id)
  unfolding wait_host
  down-wait_host n w h =
      down-snoc restart w.events (waited_host n.id _) nobody (host n.id) h
      ∙ turn_waited n.id (is_well b (wait_host b env (codes "1m0s") n w).1)

  after_restart-Ended :
      (i : ℕ) (n : Node) (w : World b) (r : StepResult)
      → Awaited n w
      → Ended b NobodyDown AtMostOneDown (after_restart b env user unit i n (w, r))
  unfolding after_restart
  after_restart-Ended i n w (step_failed e) h = Awaited-AtMostOneDown n w h
  after_restart-Ended i n w (output out) h =
      let q = down-wait_host n w h in
      after_wait-Ended i n (wait_host b env (codes "1m0s") n w)
        (λ e. one_of_two (is_well b (wait_host b env (codes "1m0s") n w).1) n.id (sym q ∙ e))
        (λ e. q ∙ (rw e refl))

  after_probe-Ended :
      (i : ℕ) (n : Node) (w : World b) (r : StepResult)
      → NobodyDown w
      → Ended b NobodyDown AtMostOneDown (after_probe b env user unit i n (w, r))
  unfolding after_probe run_step
  after_probe-Ended i n w (step_failed e) h = NobodyDown-AtMostOneDown w h
  after_probe-Ended i n w (output out) h =
      if_both (Ended b NobodyDown AtMostOneDown) (parse_load_state_loaded out) _ _
        (λ _.
          after_restart-Ended i n _ _
            (down-snoc restart w.events (ran n.id restart) nobody nobody h ∙ turn_restart n.id))
        (λ _. h)

  restart_host-Ended :
      (i : ℕ) (n : Node) (w : World b)
      → NobodyDown w
      → Ended b NobodyDown AtMostOneDown (restart_host b env user unit i n w)
  unfolding restart_host run_step
  restart_host-Ended i n w h = after_probe-Ended i n _ _ (
      down-snoc restart w.events (ran n.id (load_state_probe_command unit)) nobody nobody h
      ∙ turn_probe n.id)

abbrev pub restart_of : RunCtx → Str
restart_of rc = sudo_systemctl rc.ssh_creds.user (codes "restart " ++ unit_name rc.cluster.engine)

-- No host is left down by a success, and by a failure at most one.
abbrev pub LeftDown : {b : Bucket (Json Cluster)} → Str → World b × Option Failure → Type 0
LeftDown restart (w, none) = down restart w.events nobody ≡ nobody
LeftDown restart (w, some f) = down restart w.events nobody ≢ two_hosts

restarted-LeftDown :
    (b : Bucket (Json Cluster)) (env : Env) (id : Str) (rc : RunCtx)
    (r : World b × (Failure ⊎ Tally))
    → Finished b
        (λ w. down (restart_of rc) w.events nobody ≡ nobody)
        (λ w. down (restart_of rc) w.events nobody ≢ two_hosts)
        r
    → LeftDown (restart_of rc) (restarted b env id rc r)
unfolding restarted refresh_cluster_row rewrite
restarted-LeftDown b env id rc (w, inl f) h = h
restarted-LeftDown b env id rc (w, inr t) h =
    if_both (LeftDown (restart_of rc)) (t.skipped == length rc.nodes) _ _
      (λ _ e. nobody_two (sym h ∙ e)) (λ _. h)

-- A rolling restart never restarts a host while another one is down, that is restarted and not yet
-- seen healthy; a success leaves no host down, and a failure at most one.
pub rolling_restart-LeftDown :
    (b : Bucket (Json Cluster)) (env : Env) (id : Str) (w : World b) (rc : RunCtx)
    → load b env id w ≡ inr rc
    → w.events ≡ []
    → LeftDown (restart_of rc) (rolling_restart b env id w)
unfolding rolling_restart with_ctx down
rolling_restart-LeftDown b env id w rc h start = rw h (
    restarted-LeftDown b env id rc _ (
      each_host-Finished b _ _ env _
        (λ v q. NobodyDown-AtMostOneDown b env rc.ssh_creds.user (unit_name rc.cluster.engine) v q)
        (restart_host-Ended b env rc.ssh_creds.user (unit_name rc.cluster.engine)) 0 rc.nodes
        no_tally _ (rw start refl)))
