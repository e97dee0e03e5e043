-- ===== src/Operations/Hosts/Statuses.antt =====
-- The statuses of the hosts in a loop of internal/operations: every host that the loop has passed is
-- in the final state that its body ended in, and the rest wait.
use bm.Base.{
  ℕ, ◌+◌, suc, ◌≡◌, refl, sym, ap, ◌∙◌, subst, Bool, true, false, Option, none, some, List, [], ◌∷◌,
  ◌++◌, ◌⊎◌, inl, inr, Str, if◌then◌else◌, length, modify, length-append, map, arith,
}
use mathlib.Core.List.{append-nil}
use bm.Store.Json.{Json}
use bm.Store.Bucket.{Bucket}
use bm.Domain.{Cluster, Node}
use bm.Tasks.Types.{HostOpState, HostOpStatus, OperationProgress}
use bm.Operations.Types.{Failure, hosts_failed, Env, World, mutate}
use bm.Operations.Progress.{seed_host_statuses, pending_status, set_host_state, with_state}
use bm.Operations.Hosts.{
  HostEnd, passed, skipped, failed, broke, Tally, no_tally, after_host, unless_over, each_host,
}

modify-append :
    {A : Type 0} (xs : List A) (y : A) (ys : List A) (f : A → A)
    → modify (xs ++ (y ∷ ys)) (length xs) f ≡ xs ++ (f y ∷ ys)
modify-append [] y ys f = refl
modify-append (x ∷ xs) y ys f = ap (λ r. x ∷ r) (modify-append xs y ys f)

append_snoc :
    {A : Type 0} (xs : List A) (y : A) (ys : List A) → xs ++ (y ∷ ys) ≡ (xs ++ (y ∷ [])) ++ ys
append_snoc [] y ys = refl
append_snoc (x ∷ xs) y ys = ap (λ r. x ∷ r) (append_snoc xs y ys)

abbrev pub is_failed : HostOpState → Bool
is_failed HostOpState.failed = true
is_failed _ = false

abbrev pub is_succeeded : HostOpState → Bool
is_succeeded HostOpState.succeeded = true
is_succeeded _ = false

-- How many hosts are in a state.
unfoldable pub count : (HostOpState → Bool) → List HostOpStatus → ℕ
count p [] = 0
count p (s ∷ rest) = (if p s.state then 1 else 0) + count p rest

count-snoc :
    (p : HostOpState → Bool) (xs : List HostOpStatus) (y : HostOpStatus)
    → count p (xs ++ (y ∷ [])) ≡ count p xs + (if p y.state then 1 else 0)
unfolding count
count-snoc p [] y = omega arith
count-snoc p (x ∷ xs) y = omega (arith, count-snoc p xs y)

-- The statuses are those of a tally.
abbrev pub Tallied : List HostOpStatus → Tally → Type 0
Tallied xs t =
    (count is_failed xs ≡ t.failed)
    × (count is_succeeded xs ≡ t.passed + t.skipped)
    × (length xs ≡ t.passed + t.skipped + t.failed)

abbrev pub state_of : HostEnd → HostOpState
state_of passed = HostOpState.succeeded
state_of skipped = HostOpState.succeeded
state_of failed = HostOpState.failed
state_of (broke x e) = HostOpState.failed

-- A write to the row of the current host.
pub modify_current :
    (i : ℕ) (xs rest : List HostOpStatus) (x : HostOpStatus) (p : OperationProgress)
    (st : HostOpState) (detail : Str)
    → length xs ≡ i
    → p.host_statuses ≡ xs ++ (x ∷ rest)
    → (y : HostOpStatus) × ((set_host_state i st detail p).host_statuses ≡ xs ++ (y ∷ rest))
      × (y.state ≡ st)
unfolding set_host_state
modify_current i xs rest x p st detail l e =
    (with_state st detail x, rw (e, sym l) (modify-append xs x rest (with_state st detail)), refl)

-- An error that tells how many hosts failed.
abbrev pub counts_hosts : Failure → Bool
counts_hosts (hosts_failed k n cause) = true
counts_hosts _ = false

module _ (b : Bucket (Json Cluster)) where
  -- The row behind `xs` holds the state of the body's end, and the other rows are as they were.
  abbrev pub RowAt : World b × HostEnd → List HostOpStatus → List HostOpStatus → Type 0
  RowAt r xs rest =
      (y : HostOpStatus) × (r.0.progress.host_statuses ≡ xs ++ (y ∷ rest))
      × (y.state ≡ state_of r.1)

  abbrev pub Marks : (ℕ → Node → World b → World b × HostEnd) → Type 0
  Marks body =
      (i : ℕ) (n : Node) (w : World b) (xs rest : List HostOpStatus) (x : HostOpStatus)
      → length xs ≡ i
      → w.progress.host_statuses ≡ xs ++ (x ∷ rest)
      → RowAt (body i n w) xs rest

  -- A loop that came to its end has marked all of `n` hosts.
  abbrev pub Complete : ℕ → World b × (Failure ⊎ Tally) → Type 0
  Complete n (w, inl f) = counts_hosts f ≡ false
  Complete n (w, inr t) = Tallied w.progress.host_statuses t × (length w.progress.host_statuses ≡ n)

  unless_over-Complete :
      (n : ℕ) (o : Option Str) (w : World b) (r : World b × (Failure ⊎ Tally))
      → Complete n r
      → Complete n (unless_over b o w r)
  unless_over-Complete n (some e) w r h = refl
  unless_over-Complete n none w r h = h

  -- The loop's own step, on what a body has left.
  after_host-Complete :
      (n : ℕ) (r : World b × HostEnd) (t : Tally)
      (next : Tally → World b → World b × (Failure ⊎ Tally)) (xs rest : List HostOpStatus)
      (y : HostOpStatus)
      → Tallied xs t
      → r.0.progress.host_statuses ≡ xs ++ (y ∷ rest)
      → y.state ≡ state_of r.1
      → ((u : Tally) (w : World b)
          → w.progress.host_statuses ≡ (xs ++ (y ∷ [])) ++ rest
          → Tallied (xs ++ (y ∷ [])) u
          → Complete n (next u w))
      → Complete n (after_host b r t next)
  unfolding after_host
  after_host-Complete n (w, broke name cause) t next xs rest y h e s k = refl
  after_host-Complete n (w, passed) t next xs rest y h e s k = k _ w (e ∙ append_snoc xs y rest) (
    rw (count-snoc is_failed xs y, s, h.0) (omega arith),
    rw (count-snoc is_succeeded xs y, s, h.1) (omega arith),
    omega (arith, length-append xs (y ∷ []), h.2),
  )
  after_host-Complete n (w, skipped) t next xs rest y h e s k = k _ w (e ∙ append_snoc xs y rest) (
    rw (count-snoc is_failed xs y, s, h.0) (omega arith),
    rw (count-snoc is_succeeded xs y, s, h.1) (omega arith),
    omega (arith, length-append xs (y ∷ []), h.2),
  )
  after_host-Complete n (w, failed) t next xs rest y h e s k = k _ w (e ∙ append_snoc xs y rest) (
    rw (count-snoc is_failed xs y, s, h.0) (omega arith),
    rw (count-snoc is_succeeded xs y, s, h.1) (omega arith),
    omega (arith, length-append xs (y ∷ []), h.2),
  )

  pub each_host-Complete :
      (env : Env) (body : ℕ → Node → World b → World b × HostEnd)
      → Marks body
      → (i : ℕ) (nodes : List Node) (t : Tally) (w : World b) (xs : List HostOpStatus)
      → length xs ≡ i
      → Tallied xs t
      → w.progress.host_statuses ≡ xs ++ map pending_status nodes
      → Complete (length xs + length nodes) (each_host b env body i nodes t w)
  unfolding each_host
  each_host-Complete env body m i [] t w xs l h e =
      let same = e ∙ append-nil xs in
      (subst (λ r. Tallied r t) (sym same) h, omega (arith, ap length same))
  each_host-Complete env body m i (n ∷ nodes) t w xs l h e =
      let (y, left, state) = m i n w xs (map pending_status nodes) (pending_status n) l e in
      let longer = length-append xs (y ∷ []) in
      unless_over-Complete (length xs + suc (length nodes)) (env.ctx_error w.events) w _ (
        after_host-Complete (length xs + suc (length nodes)) (body i n w) t _ xs
          (map pending_status nodes) y h left state
          (λ u v q k.
            subst (λ m'. Complete m' (each_host b env body (suc i) nodes u v))
              (omega (arith, longer))
              (each_host-Complete env body m (suc i) nodes u v (xs ++ (y ∷ []))
                (omega (arith, longer, l)) k q)))

  -- A loop over all of the hosts whose rows were set to waiting before it.
  pub seeded-Complete :
      (env : Env) (body : ℕ → Node → World b → World b × HostEnd) (nodes : List Node) (w : World b)
      → Marks body
      → Complete
          (length nodes)
          (each_host b env body 0 nodes no_tally (mutate b (seed_host_statuses nodes) w))
  unfolding seed_host_statuses count
  seeded-Complete env body nodes w m =
      subst
        (λ n.
          Complete n
            (each_host b env body 0 nodes no_tally (mutate b (seed_host_statuses nodes) w)))
        (omega arith)
        (each_host-Complete env body m 0 nodes no_tally (mutate b (seed_host_statuses nodes) w) []
          refl (refl, omega arith, omega arith) refl)
