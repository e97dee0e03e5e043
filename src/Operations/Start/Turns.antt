-- ===== src/Operations/Start/Turns.antt =====
-- The goroutines of internal/operations/orchestrated.go that start or stop a cluster: in any order of
-- their turns the rows and the counts agree, and two turns of each bring all to their end.
use bm.Base.{
  ℕ, zero, suc, ◌+◌, ◌≡◌, refl, ap, ◌∙◌, subst, Bool, false, Option, none, some, List, [], ◌∷◌,
  ◌++◌, ◌⊎◌, inl, inr, Str, codes, length, modify, get_elem?, if◌then◌else◌, if_both, arith,
  some-inj,
}
use bm.Store.Json.{Json}
use bm.Store.Bucket.{Bucket}
use bm.Domain.{Cluster, Node}
use bm.Tasks.Types.{HostOpState, HostOpStatus}
use bm.Operations.Shell.{parse_load_state_loaded}
use bm.Operations.Types.{StepResult, output, step_failed, Env, run_step}
use bm.Operations.Progress.{set_host_state, with_state}
use bm.Operations.Hosts.Statuses.{is_failed, count}
use bm.Operations.Start.{
  Phase, at_probe, at_command, ended, Fan, goes_to, fails, probe_answered, command_answered,
  turn_of, turn_at, run_turns,
}

-- The row of a goroutine in a phase.
abbrev pub RowOf : Phase → HostOpStatus → Type 0
RowOf at_probe s = s.state ≡ HostOpState.pending
RowOf at_command s = s.state ≡ HostOpState.running
RowOf ended s = (s.state ≡ HostOpState.failed) ⊎ (s.state ≡ HostOpState.succeeded)

abbrev pub RowsOf : List Phase → List HostOpStatus → Type 0
RowsOf [] [] = Unit
RowsOf (p ∷ ps) (s ∷ rows) = RowOf p s × RowsOf ps rows
RowsOf [] (s ∷ rows) = ⊥
RowsOf (p ∷ ps) [] = ⊥

-- What one write to a row does to a count.
count-modify :
    (good : HostOpState → Bool) (rows : List HostOpStatus) (i : ℕ) (s : HostOpStatus)
    (st : HostOpState) (detail : Str)
    → get_elem? rows i ≡ some s
    → count good (modify rows i (with_state st detail)) + (if good s.state then 1 else 0)
      ≡ count good rows + (if good st then 1 else 0)
unfolding count
count-modify good [] i s st detail e = cc
count-modify good (r ∷ rows) zero s st detail e = rw (ap (λ x. x.state) (some-inj e)) (omega arith)
count-modify good (r ∷ rows) (suc i) s st detail e =
    omega (arith, count-modify good rows i s st detail e)

row_at :
    (ps : List Phase) (rows : List HostOpStatus) (i : ℕ) (p : Phase)
    → RowsOf ps rows
    → get_elem? ps i ≡ some p
    → (s : HostOpStatus) × (get_elem? rows i ≡ some s) × RowOf p s
row_at [] rows i p h e = cc
row_at (q ∷ ps) [] i p h e = absurd h
row_at (q ∷ ps) (r ∷ rows) zero p h e = (r, refl, subst (λ x. RowOf x r) (some-inj e) h.0)
row_at (q ∷ ps) (r ∷ rows) (suc i) p h e = row_at ps rows i p h.1 e

rows_after :
    (ps : List Phase) (rows : List HostOpStatus) (i : ℕ) (p : Phase) (st : HostOpState)
    (detail : Str)
    → ((s : HostOpStatus) → RowOf p (with_state st detail s))
    → RowsOf ps rows
    → RowsOf (modify ps i (λ _. p)) (modify rows i (with_state st detail))
rows_after [] [] i p st detail k h = tt
rows_after [] (r ∷ rows) i p st detail k h = absurd h
rows_after (q ∷ ps) [] i p st detail k h = absurd h
rows_after (q ∷ ps) (r ∷ rows) zero p st detail k h = (k r, h.1)
rows_after (q ∷ ps) (r ∷ rows) (suc i) p st detail k h =
    (h.0, rows_after ps rows i p st detail k h.1)

length-modify : (ps : List Phase) (i : ℕ) (g : Phase → Phase) → length (modify ps i g) ≡ length ps
length-modify [] i g = refl
length-modify (p ∷ ps) zero g = refl
length-modify (p ∷ ps) (suc i) g = ap suc (length-modify ps i g)

module _ (b : Bucket (Json Cluster)) where
  abbrev pub rows : Fan b → List HostOpStatus
  rows f = f.world.progress.host_statuses

  -- Every row is that of its goroutine's phase, and the failed rows are counted.
  abbrev pub Agrees : ℕ → Fan b → Type 0
  Agrees n f =
      RowsOf f.phases (rows f) × (count is_failed (rows f) ≡ f.failed) × (length f.phases ≡ n)

  -- A phase whose row is in no final state.
  abbrev Unfinished : Phase → Type 0
  Unfinished p = (p ≡ at_probe) ⊎ (p ≡ at_command)

  row_so_far :
      (n : ℕ) (f : Fan b) (i : ℕ) (p : Phase)
      → Agrees n f
      → get_elem? f.phases i ≡ some p
      → Unfinished p
      → (s : HostOpStatus) × (get_elem? (rows f) i ≡ some s) × (is_failed s.state ≡ false)
  row_so_far n f i p (h, c, l) e o =
      let (s, at, r) = row_at f.phases (rows f) i p h e in (s, at, not_failed p s o r)
    where
      not_failed :
          (p : Phase) (s : HostOpStatus) → Unfinished p → RowOf p s → is_failed s.state ≡ false
      not_failed at_probe s o r = rw r refl
      not_failed at_command s o r = rw r refl
      not_failed ended s (inl o) r = cc
      not_failed ended s (inr o) r = cc

  goes_to-Agrees :
      (n : ℕ) (f : Fan b) (i : ℕ) (p phase : Phase) (st : HostOpState) (detail : Str)
      → Agrees n f
      → get_elem? f.phases i ≡ some p
      → Unfinished p
      → ((s : HostOpStatus) → RowOf phase (with_state st detail s))
      → is_failed st ≡ false
      → Agrees n (goes_to b i phase st detail f)
  unfolding set_host_state
  goes_to-Agrees n f i p phase st detail (h, c, l) e o k q =
      let (s, at, r) = row_so_far n f i p (h, c, l) e o in
      (
        rows_after f.phases (rows f) i phase st detail k h,
        ground (arith, count-modify is_failed (rows f) i s st detail at, r, q, c),
        length-modify f.phases i _ ∙ l,
      )

  fails-Agrees :
      (n : ℕ) (f : Fan b) (i : ℕ) (p : Phase) (e' : Str)
      → Agrees n f
      → get_elem? f.phases i ≡ some p
      → Unfinished p
      → Agrees n (fails b i e' f)
  unfolding set_host_state
  fails-Agrees n f i p e' (h, c, l) e o =
      let (s, at, r) = row_so_far n f i p (h, c, l) e o in
      (
        rows_after f.phases (rows f) i ended HostOpState.failed e' (λ s'. inl refl) h,
        ground (arith, count-modify is_failed (rows f) i s HostOpState.failed e' at, r, c),
        length-modify f.phases i _ ∙ l,
      )

  module _ (env : Env) (user verb text unit : Str) where
    probe_answered-Agrees :
        (n : ℕ) (f : Fan b) (i : ℕ) (r : StepResult)
        → Agrees n f
        → get_elem? f.phases i ≡ some at_probe
        → Agrees n (probe_answered b env user verb text unit i r f)
    unfolding probe_answered
    probe_answered-Agrees n f i (step_failed x) h e = fails-Agrees n f i at_probe x h e (inl refl)
    probe_answered-Agrees n f i (output out) h e =
        if_both {A = Fan b} (Agrees n) (parse_load_state_loaded out) _ _
          (λ _.
            goes_to-Agrees n f i at_probe at_command HostOpState.running
              (codes "systemctl " ++ verb) h e (inl refl) (λ s. refl) refl)
          (λ _.
            goes_to-Agrees n f i at_probe ended HostOpState.succeeded
              (codes "skipped: " ++ unit ++ codes " not installed") h e (inl refl) (λ s. inr refl)
              refl)

    command_answered-Agrees :
        (n : ℕ) (f : Fan b) (i : ℕ) (r : StepResult)
        → Agrees n f
        → get_elem? f.phases i ≡ some at_command
        → Agrees n (command_answered b env user verb text unit i r f)
    unfolding command_answered
    command_answered-Agrees n f i (step_failed x) h e =
        fails-Agrees n f i at_command x h e (inr refl)
    command_answered-Agrees n f i (output out) h e =
        goes_to-Agrees n f i at_command ended HostOpState.succeeded text h e (inr refl)
          (λ s. inr refl) refl

    turn_of-Agrees :
        (n : ℕ) (f : Fan b) (i : ℕ) (node : Node) (p : Phase)
        → Agrees n f
        → get_elem? f.phases i ≡ some p
        → Agrees n (turn_of b env user verb text unit i node p f)
    unfolding turn_of run_step
    turn_of-Agrees n f i node at_probe h e = probe_answered-Agrees n _ i _ h e
    turn_of-Agrees n f i node at_command h e = command_answered-Agrees n _ i _ h e
    turn_of-Agrees n f i node ended h e = h

    pub turn_at-Agrees :
        (n : ℕ) (f : Fan b) (i : ℕ) (node : Option Node) (p : Option Phase)
        → Agrees n f
        → get_elem? f.phases i ≡ p
        → Agrees n (turn_at b env user verb text unit i node p f)
    turn_at-Agrees n f i (some node) (some p) h e = turn_of-Agrees n f i node p h e
    turn_at-Agrees n f i (some node) none h e = h
    turn_at-Agrees n f i none p h e = h

    pub run_turns-Agrees :
        (nodes : List Node) (schedule : List ℕ) (n : ℕ) (f : Fan b)
        → Agrees n f
        → Agrees n (run_turns b env user verb text unit nodes schedule f)
    unfolding run_turns
    run_turns-Agrees nodes [] n f h = h
    run_turns-Agrees nodes (i ∷ schedule) n f h =
        run_turns-Agrees nodes schedule n _
          (turn_at-Agrees n f i (get_elem? nodes i) (get_elem? f.phases i) h refl)
