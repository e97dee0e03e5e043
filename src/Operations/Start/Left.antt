-- ===== src/Operations/Start/Left.antt =====
-- How many turns the goroutines of internal/operations/orchestrated.go that start or stop a cluster have
-- left: each turn of a goroutine takes one of its own.
use bm.Base.{
  ℕ, zero, suc, ◌+◌, ◌-◌, ◌≤◌, ◌≡◌, refl, sym, ap, ◌∙◌, subst, true, Option, none, some, List, [],
  ◌∷◌, ◌++◌, Str, codes, ◌==◌, length, modify, get_elem?, if◌then◌else◌, if_both, arith, some-inj,
  ==_iff,
}
use bm.Store.Json.{Json}
use bm.Store.Bucket.{Bucket}
use bm.Domain.{Cluster, Node}
use bm.Operations.Shell.{parse_load_state_loaded, load_state_probe_command, sudo_systemctl}
use bm.Operations.Types.{StepResult, output, step_failed, Env, run_step}
use bm.Operations.Start.Turns.{Agrees, turn_at-Agrees}
use bm.Operations.Start.{
  Phase, at_probe, at_command, ended, Fan, probe_answered, command_answered, sent, turn_of, turn_at,
  run_turns, all_ended,
}

-- How many turns a goroutine has before it.
abbrev rank : Phase → ℕ
rank at_probe = 2
rank at_command = 1
rank ended = 0

unfoldable pub turns_left : List Phase → ℕ → ℕ
turns_left [] i = 0
turns_left (p ∷ ps) zero = rank p
turns_left (p ∷ ps) (suc i) = turns_left ps i

-- How many turns of a schedule are those of a goroutine.
unfoldable pub turns_of : ℕ → List ℕ → ℕ
turns_of i [] = 0
turns_of i (j ∷ schedule) = (if j == i then 1 else 0) + turns_of i schedule

left-modify :
    (ps : List Phase) (i j : ℕ) (q : Phase)
    → turns_left (modify ps i (λ _. q)) j ≤ (if i == j then rank q else turns_left ps j)
unfolding turns_left
left-modify [] i j q = ground arith
left-modify (p ∷ ps) zero zero q = omega arith
left-modify (p ∷ ps) zero (suc j) q = ground arith
left-modify (p ∷ ps) (suc i) zero q = ground arith
left-modify (p ∷ ps) (suc i) (suc j) q = ground (arith, left-modify ps i j q)

left_at : (ps : List Phase) (i : ℕ) (p : Phase) → get_elem? ps i ≡ some p → turns_left ps i ≡ rank p
unfolding turns_left
left_at [] i p e = cc
left_at (q ∷ ps) zero p e = ap rank (some-inj e)
left_at (q ∷ ps) (suc i) p e = left_at ps i p e

left_none : (ps : List Phase) (i : ℕ) → get_elem? ps i ≡ none → turns_left ps i ≡ 0
unfolding turns_left
left_none [] i e = refl
left_none (q ∷ ps) zero e = cc
left_none (q ∷ ps) (suc i) e = left_none ps i e

none_too :
    (nodes : List Node) (ps : List Phase) (i : ℕ)
    → length nodes ≡ length ps
    → get_elem? nodes i ≡ none
    → get_elem? ps i ≡ none
none_too nodes [] i l e = refl
none_too [] (p ∷ ps) i l e = cc
none_too (n ∷ nodes) (p ∷ ps) zero l e = cc
none_too (n ∷ nodes) (p ∷ ps) (suc i) l e = none_too nodes ps i (omega (arith, l)) e

module _ (b : Bucket (Json Cluster)) (env : Env) (user verb text unit : Str) where
  -- A turn leaves its goroutine one turn less, and no other one more.
  abbrev Turned : ℕ → Fan b → Fan b → Type 0
  Turned i f g =
      (j : ℕ)
      → turns_left g.phases j
        ≤ (if i == j then turns_left f.phases j - 1 else turns_left f.phases j)

  moved :
      (i : ℕ) (f : Fan b) (p q : Phase) (j : ℕ)
      → get_elem? f.phases i ≡ some p
      → rank q ≤ rank p - 1
      → turns_left (modify f.phases i (λ _. q)) j
        ≤ (if i == j then turns_left f.phases j - 1 else turns_left f.phases j)
  moved i f p q j e l = ground (arith, left-modify f.phases i j q, left_at f.phases i p e, l, at_j)
    where
      at_j : (i == j) ≡ true → turns_left f.phases j ≡ rank p
      at_j k =
          subst (λ x. turns_left f.phases x ≡ rank p) ((==_iff i j).0 k) (left_at f.phases i p e)

  probe_answered-Turned :
      (i : ℕ) (r : StepResult) (f : Fan b)
      → get_elem? f.phases i ≡ some at_probe
      → Turned i f (probe_answered b env user verb text unit i r f)
  unfolding probe_answered
  probe_answered-Turned i (step_failed x) f e = λ j. moved i f at_probe ended j e (omega arith)
  probe_answered-Turned i (output out) f e =
      if_both {A = Fan b} (Turned i f) (parse_load_state_loaded out) _ _
        (λ e'. λ j. moved i f at_probe at_command j e (omega arith))
        (λ e'. λ j. moved i f at_probe ended j e (omega arith))

  command_answered-Turned :
      (i : ℕ) (r : StepResult) (f : Fan b)
      → get_elem? f.phases i ≡ some at_command
      → Turned i f (command_answered b env user verb text unit i r f)
  unfolding command_answered
  command_answered-Turned i (step_failed x) f e = λ j. moved i f at_command ended j e (omega arith)
  command_answered-Turned i (output out) f e = λ j. moved i f at_command ended j e (omega arith)

  still-Turned : (i : ℕ) (f : Fan b) → turns_left f.phases i ≡ 0 → Turned i f f
  still-Turned i f h j = ground (arith, at_j)
    where
      at_j : (i == j) ≡ true → turns_left f.phases j ≡ 0
      at_j k = subst (λ x. turns_left f.phases x ≡ 0) ((==_iff i j).0 k) h

  none-Turned : (i : ℕ) (f : Fan b) → get_elem? f.phases i ≡ none → Turned i f f
  none-Turned i f e = still-Turned i f (left_none f.phases i e)

  turn_of-Turned :
      (i : ℕ) (n : Node) (p : Phase) (f : Fan b)
      → get_elem? f.phases i ≡ some p
      → Turned i f (turn_of b env user verb text unit i n p f)
  unfolding turn_of
  turn_of-Turned i n at_probe f e =
      let cmd = load_state_probe_command unit in
      probe_answered-Turned i (run_step b env n cmd f.world).1
        (sent b env user verb text unit n cmd f) e
  turn_of-Turned i n at_command f e =
      let cmd = sudo_systemctl user (verb ++ codes " " ++ unit) in
      command_answered-Turned i (run_step b env n cmd f.world).1
        (sent b env user verb text unit n cmd f) e
  turn_of-Turned i n ended f e = still-Turned i f (left_at f.phases i ended e)

  turn_at-Turned :
      (i : ℕ) (n : Option Node) (p : Option Phase) (f : Fan b)
      → get_elem? f.phases i ≡ p
      → (n ≡ none → p ≡ none)
      → Turned i f (turn_at b env user verb text unit i n p f)
  turn_at-Turned i (some n) (some p) f e k = turn_of-Turned i n p f e
  turn_at-Turned i (some n) none f e k = none-Turned i f e
  turn_at-Turned i none p f e k = none-Turned i f (e ∙ k refl)

  -- After a schedule a goroutine has that many turns less.
  pub run_turns-left :
      (nodes : List Node) (schedule : List ℕ) (f : Fan b) (j : ℕ)
      → Agrees b (length nodes) f
      → turns_left (run_turns b env user verb text unit nodes schedule f).phases j
        ≤ turns_left f.phases j - turns_of j schedule
  unfolding run_turns turns_of
  run_turns-left nodes [] f j h = omega arith
  run_turns-left nodes (i ∷ schedule) f j h =
      let n = get_elem? nodes i in
      let p = get_elem? f.phases i in
      let now = turn_at-Turned i n p f refl (none_too nodes f.phases i (sym h.2)) j in
      let later =
        run_turns-left nodes schedule (turn_at b env user verb text unit i n p f) j
          (turn_at-Agrees b env user verb text unit (length nodes) f i n p h refl) in
      ground (arith, later, now)

pub left_ended :
    (b : Bucket (Json Cluster)) (ps : List Phase)
    → ((j : ℕ) → turns_left ps j ≤ 0)
    → all_ended b ps ≡ true
unfolding turns_left all_ended
left_ended b [] h = refl
left_ended b (ended ∷ ps) h = left_ended b ps (λ j. h (suc j))
left_ended b (at_probe ∷ ps) h = absurd (omega (arith, h 0))
left_ended b (at_command ∷ ps) h = absurd (omega (arith, h 0))
