-- ===== src/Tasks/Orchestrator/Owning.antt =====
-- Who holds the cluster locks of internal/tasks/orchestrator.go: what taking, handing on and releasing a
-- lock does to the holders.
use bm.Base.{
  ◌≡◌, sym, ◌∙◌, Bool, true, false, Option, none, some, Str, ◌=s◌, str_iff, str_refl, arith,
  Bool-cases, inl, inr, ◌⊎◌,
}
use bm.Tasks.Types.{DispatchRequest}
use bm.Tasks.Orchestrator.Steps.{Call, called_for, locked}
use bm.Tasks.Orchestrator.Types.{executing, released, Proc, holds, set_at, is_released}

abbrev pub Locks : Type 0
Locks = Str → Bool

abbrev pub Procs : Type 0
Procs = Str → Option Proc

abbrev pub Calls : Type 0
Calls = Str → Option Call

-- A call of `Dispatch` that holds the lock of a cluster.
abbrev pub calling : Str → Option Call → Bool
calling c none = false
calling c (some call) = called_for call =s c

-- The locks that are held are those of the goroutines of `executeRun` in flight and of the calls of
-- `Dispatch` that have not come to their end, one for each cluster.
pub record Owned (locks : Str → Bool) (procs : Str → Option Proc) (calls : Str → Option Call)
    : Type 0 where
  pub held : (c id : Str) → holds c (procs id) ≡ true → locks c ≡ true
  pub held_by_call : (c g : Str) → calling c (calls g) ≡ true → locks c ≡ true
  pub alone : (c i j : Str) → holds c (procs i) ≡ true → holds c (procs j) ≡ true → i ≡ j
  pub one_call : (c g h : Str) → calling c (calls g) ≡ true → calling c (calls h) ≡ true → g ≡ h
  pub apart : (c id g : Str) → holds c (procs id) ≡ true → calling c (calls g) ≡ false
  pub owner :
      (c : Str)
      → locks c ≡ true
      → ((id : Str) × (holds c (procs id) ≡ true)) ⊎ ((g : Str) × (calling c (calls g) ≡ true))

-- A call takes a lock that is free.
pub Owned-begin :
    (locks : Locks) (procs : Procs) (calls : Calls) (g : Str) (req : DispatchRequest)
    → locks req.cluster_id ≡ false
    → calls g ≡ none
    → Owned locks procs calls
    → Owned (set_at locks req.cluster_id true) procs (set_at calls g (some (locked req)))
Owned-begin locks procs calls g req free idle v = record {
  held = λ d j h. ground (arith, v.held d j h);
  held_by_call = λ d j h. ground (arith, h, v.held_by_call d j);
  alone = v.alone;
  one_call = λ d i j h k. ground (
    arith,
    h,
    k,
    free,
    v.held_by_call d i,
    v.held_by_call d j,
    v.one_call d i j,
    str_iff req.cluster_id d,
    str_iff g i,
    str_iff g j,
  );
  apart = λ d i j h.
      ground (arith, free, v.held d i h, v.apart d i j h, str_iff req.cluster_id d, str_iff g j);
  owner = λ d h. elim (Bool-cases (req.cluster_id =s d)) [
    | inl same ↦ inr (g, rw (str_refl g) same)
    | inr ne ↦ elim (v.owner d (ground (arith, h, ne))) [
      | inl p ↦ inl p
      | inr (i, q) ↦ inr (i, ground (arith, q, idle, str_iff g i))
    ]
  ];
}

-- A call ends without a goroutine, and gives its lock back.
pub Owned-end :
    (locks : Locks) (procs : Procs) (calls : Calls) (g : Str) (call : Call)
    → calls g ≡ some call
    → Owned locks procs calls
    → Owned (set_at locks (called_for call) false) procs (set_at calls g none)
Owned-end locks procs calls g call here v = record {
  held = λ d j h. ground (arith, here, v.held d j h, v.apart d j g h, str_iff (called_for call) d);
  held_by_call = λ d j h. ground (
    arith,
    h,
    here,
    v.held_by_call d j,
    v.one_call d j g,
    str_iff (called_for call) d,
    str_iff g j,
  );
  alone = v.alone;
  one_call = λ d i j h k. ground (arith, h, k, v.one_call d i j, str_iff g i, str_iff g j);
  apart = λ d i j h. ground (arith, v.apart d i j h, str_iff g j);
  owner = λ d h. elim (v.owner d (ground (arith, h))) [
    | inl p ↦ inl p
    | inr (i, q) ↦ inr (i, ground (arith, q, h, here, str_iff g i, str_iff (called_for call) d))
  ];
}

-- A call hands its lock on to the goroutine that it starts.
pub Owned-start :
    (locks : Locks) (procs : Procs) (calls : Calls) (g id : Str) (call : Call)
    → calls g ≡ some call
    → procs id ≡ none
    → Owned locks procs calls
    → Owned locks
        (set_at procs id (some (record { cluster_id = called_for call; phase = executing })))
        (set_at calls g none)
Owned-start locks procs calls g id call here new v = record {
  held = λ d j h. ground (arith, h, here, v.held d j, v.held_by_call d g, str_iff id j);
  held_by_call = λ d j h. ground (arith, h, v.held_by_call d j, str_iff g j);
  alone = λ d i j h k.
      ground (
        arith,
        h,
        k,
        here,
        v.apart d i g,
        v.apart d j g,
        v.alone d i j,
        str_iff id i,
        str_iff id j,
      );
  one_call = λ d i j h k. ground (arith, h, k, v.one_call d i j, str_iff g i, str_iff g j);
  apart = λ d i j h. ground (
    arith,
    h,
    here,
    v.apart d i j,
    v.one_call d g j,
    str_iff id i,
    str_iff g j,
    str_iff (called_for call) d,
  );
  owner = λ d h. elim (v.owner d h) [
    | inl (i, q) ↦ inl (i, ground (arith, q, new, str_iff id i))
    | inr (j, q) ↦ elim (Bool-cases (g =s j)) [
      | inl same ↦ inl (id, rw (str_refl id) (ground (arith, q, here, (str_iff g j).0 same)))
      | inr ne ↦ inr (j, ground (arith, q, ne))
    ]
  ];
}

pub Owned-same :
    {locks locks' : Locks} {procs procs' : Procs} {calls calls' : Calls}
    → ((c : Str) → locks' c ≡ locks c)
    → ((c id : Str) → holds c (procs' id) ≡ holds c (procs id))
    → ((c g : Str) → calling c (calls' g) ≡ calling c (calls g))
    → Owned locks procs calls
    → Owned locks' procs' calls'
Owned-same l p q v = record {
  held = λ c id h. l c ∙ v.held c id (sym (p c id) ∙ h);
  held_by_call = λ c g h. l c ∙ v.held_by_call c g (sym (q c g) ∙ h);
  alone = λ c i j h k. v.alone c i j (sym (p c i) ∙ h) (sym (p c j) ∙ k);
  one_call = λ c i j h k. v.one_call c i j (sym (q c i) ∙ h) (sym (q c j) ∙ k);
  apart = λ c i g h. q c g ∙ v.apart c i g (sym (p c i) ∙ h);
  owner = λ c h. elim (v.owner c (sym (l c) ∙ h)) [
    | inl (id, e) ↦ inl (id, p c id ∙ e)
    | inr (g, e) ↦ inr (g, q c g ∙ e)
  ];
}

pub Owned-release :
    (locks : Locks) (procs : Procs) (calls : Calls) (id : Str) (p : Proc)
    → procs id ≡ some p
    → is_released p.phase ≡ false
    → Owned locks procs calls
    → Owned
        (set_at locks p.cluster_id false)
        (set_at procs id (some (record p { phase = released })))
        calls
Owned-release locks procs calls id p here live v = record {
  held = λ d j h.
      ground
        (arith, h, here, live, v.held d j, v.alone d j id, str_iff p.cluster_id d, str_iff id j);
  held_by_call = λ d g h.
      ground (arith, h, here, live, v.held_by_call d g h, v.apart d id g, str_iff p.cluster_id d);
  alone = λ d i j h k. ground (arith, h, k, v.alone d i j, str_iff id i, str_iff id j);
  one_call = v.one_call;
  apart = λ d i g h. ground (arith, h, v.apart d i g, str_iff id i);
  owner = λ d h. elim (v.owner d (ground (arith, h))) [
    | inl (i, q) ↦ inl (i, ground (arith, q, h, here, str_iff id i, str_iff p.cluster_id d))
    | inr q ↦ inr q
  ];
}
