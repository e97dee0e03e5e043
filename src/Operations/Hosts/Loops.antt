-- ===== src/Operations/Hosts/Loops.antt =====
-- What the loops of internal/operations keep: of the world, and of the statuses of the hosts.
use bm.Base.{ℕ, suc, Option, none, some, List, [], ◌∷◌, ◌⊎◌, inl, inr, Str}
use bm.Store.Json.{Json}
use bm.Store.Bucket.{Bucket}
use bm.Domain.{Cluster, Node}
use bm.Operations.Types.{Failure, host_failed, interrupted, Env, World}
use bm.Operations.Hosts.{
  HostEnd, passed, skipped, failed, broke, Tally, after_host, unless_over, each_host,
}

module _ (b : Bucket (Json Cluster)) where
  -- `P` where the loop goes on, `Q` where it ends with an error.
  abbrev pub Ended : (World b → Type 0) → (World b → Type 0) → World b × HostEnd → Type 0
  Ended P Q (w, broke x e) = Q w
  Ended P Q (w, passed) = P w
  Ended P Q (w, skipped) = P w
  Ended P Q (w, failed) = P w

  abbrev pub Finished :
      (World b → Type 0) → (World b → Type 0) → World b × (Failure ⊎ Tally) → Type 0
  Finished P Q (w, inl f) = Q w
  Finished P Q (w, inr t) = P w

  after_host-Finished :
      (P Q : World b → Type 0) (r : World b × HostEnd) (t : Tally)
      (next : Tally → World b → World b × (Failure ⊎ Tally))
      → Ended P Q r
      → ((u : Tally) (w : World b) → P w → Finished P Q (next u w))
      → Finished P Q (after_host b r t next)
  unfolding after_host
  after_host-Finished P Q (w, broke x e) t next h k = h
  after_host-Finished P Q (w, passed) t next h k = k _ w h
  after_host-Finished P Q (w, skipped) t next h k = k _ w h
  after_host-Finished P Q (w, failed) t next h k = k _ w h

  unless_over-Finished :
      (P Q : World b → Type 0) (o : Option Str) (w : World b) (r : World b × (Failure ⊎ Tally))
      → Q w
      → Finished P Q r
      → Finished P Q (unless_over b o w r)
  unless_over-Finished P Q (some e) w r h k = h
  unless_over-Finished P Q none w r h k = k

  pub each_host-Finished :
      (P Q : World b → Type 0) (env : Env) (body : ℕ → Node → World b → World b × HostEnd)
      (weaker : (w : World b) → P w → Q w)
      (kept : (i : ℕ) (n : Node) (w : World b) → P w → Ended P Q (body i n w)) (i : ℕ)
      (nodes : List Node) (t : Tally) (w : World b)
      → P w
      → Finished P Q (each_host b env body i nodes t w)
  unfolding each_host
  each_host-Finished P Q env body weaker kept i [] t w h = h
  each_host-Finished P Q env body weaker kept i (n ∷ nodes) t w h =
      unless_over-Finished P Q (env.ctx_error w.events) w _ (weaker w h) (
        after_host-Finished P Q (body i n w) t (each_host b env body (suc i) nodes) (kept i n w h)
          (each_host-Finished P Q env body weaker kept (suc i) nodes))

  -- The error of a loop is that of the task's context, or of one host.
  abbrev pub Caused : (Failure → Type 0) → World b × (Failure ⊎ Tally) → Type 0
  Caused P (w, inl f) = P f
  Caused P (w, inr t) = Unit

  after_host-Caused :
      (P : Failure → Type 0) (r : World b × HostEnd) (t : Tally)
      (next : Tally → World b → World b × (Failure ⊎ Tally))
      → ((name cause : Str) → P (host_failed name cause))
      → ((u : Tally) (w : World b) → Caused P (next u w))
      → Caused P (after_host b r t next)
  unfolding after_host
  after_host-Caused P (w, broke name cause) t next h k = h name cause
  after_host-Caused P (w, passed) t next h k = k _ w
  after_host-Caused P (w, skipped) t next h k = k _ w
  after_host-Caused P (w, failed) t next h k = k _ w

  unless_over-Caused :
      (P : Failure → Type 0) (o : Option Str) (w : World b) (r : World b × (Failure ⊎ Tally))
      → ((e : Str) → P (interrupted e))
      → Caused P r
      → Caused P (unless_over b o w r)
  unless_over-Caused P (some e) w r h k = h e
  unless_over-Caused P none w r h k = k

  pub each_host-Caused :
      (P : Failure → Type 0) (env : Env) (body : ℕ → Node → World b → World b × HostEnd)
      → ((e : Str) → P (interrupted e))
      → ((name cause : Str) → P (host_failed name cause))
      → (i : ℕ) (nodes : List Node) (t : Tally) (w : World b)
      → Caused P (each_host b env body i nodes t w)
  unfolding each_host
  each_host-Caused P env body h k i [] t w = tt
  each_host-Caused P env body h k i (n ∷ nodes) t w =
      unless_over-Caused P (env.ctx_error w.events) w _ h (
        after_host-Caused P (body i n w) t (each_host b env body (suc i) nodes) k
          (each_host-Caused P env body h k (suc i) nodes))
