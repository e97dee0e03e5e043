-- ===== src/Operations/Creds.antt =====
-- The credentials with which internal/operations dials a host (resolvedCreds of helpers.go), for a
-- cluster whose saved credentials passed Validate of internal/sshconfig.
use bm.Base.{
  ◌≡◌, Bool, true, not, ◌&&◌, Option, none, some, List, [], ◌∷◌, Str, ◌=s◌, is_empty, All, arith,
  Option-cases, inl, inr, some-inj, if_both, subst,
}
use bm.Store.Assoc.{lookup}
use bm.Domain.{SshCreds, SshOverrides}
use bm.Ssh.Config.{merge, validate_resolved}
use bm.Ssh.Saved.{
  ClusterSshConfig, validate_creds, validate_override, validate_overrides, validate_config,
}
use bm.Operations.Types.{RunCtx, resolved_creds}

abbrev filled : Option Str → Bool
filled none = true
filled (some s) = not (is_empty s)

-- No override sets a user, a key path or a password to the empty text.
abbrev pub no_blank : SshOverrides → Bool
no_blank o = filled o.user && filled o.key_path && filled o.password

abbrev Accepted : SshOverrides → Type 0
Accepted o = (validate_override o ≡ none) × (no_blank o ≡ true)

overrides_pass :
    (overrides : List (Str × SshOverrides))
    → validate_overrides overrides ≡ none
    → All (λ e. no_blank e.1 ≡ true) overrides
    → All (λ e. Accepted e.1) overrides
unfolding validate_overrides
overrides_pass [] h k = tt
overrides_pass ((id, o) ∷ rest) h k = elim (Option-cases (validate_override o)) [
  | inl e ↦ ((e, k.0), overrides_pass rest (ground (arith, e, h)) k.1)
  | inr (x, e) ↦ absurd (ground (arith, e, h))
]

lookup_All :
    (P : SshOverrides → Type 0) (id : Str) (t : List (Str × SshOverrides)) (o : SshOverrides)
    → All (λ e. P e.1) t
    → lookup id t ≡ some o
    → P o
unfolding lookup
lookup_All P id [] o h e = absurd (cc (e))
lookup_All P id ((j, v) ∷ t) o h e =
    if_both (λ r. r ≡ some o → P o) (j =s id) (some v) (lookup id t)
      (λ _ q. subst P (some-inj q) h.0) (λ _ q. lookup_All P id t o h.1 q) e

cluster_valid : (c : SshCreds) → validate_creds c ≡ none → validate_resolved (merge c none) ≡ none
unfolding validate_creds validate_resolved merge
cluster_valid c h = ground (arith, h)

override_valid :
    (c : SshCreds) (o : SshOverrides)
    → validate_creds c ≡ none
    → Accepted o
    → validate_resolved (merge c (some o)) ≡ none
unfolding validate_creds validate_override validate_resolved merge
override_valid c o h (v, f) = ground (arith, h, v, f)

abbrev pub saved_config : RunCtx → ClusterSshConfig
saved_config rc = record { ssh = rc.ssh_creds; overrides = rc.ssh_overrides }

-- Where the credentials of a cluster pass the check that saves them, and no override sets a user, a
-- key path or a password to the empty text, the credentials of every host pass the check of a dial.
pub resolved_creds-valid :
    (rc : RunCtx) (id : Str)
    → validate_config (saved_config rc) ≡ none
    → All (λ e. no_blank e.1 ≡ true) rc.ssh_overrides
    → validate_resolved (resolved_creds rc id) ≡ none
unfolding resolved_creds validate_config
resolved_creds-valid rc id h k = elim (Option-cases (validate_creds rc.ssh_creds)) [
  | inr (x, e) ↦ absurd (ground (arith, e, h))
  | inl e ↦ elim (Option-cases (lookup id rc.ssh_overrides)) [
    | inl q ↦ rw q (cluster_valid rc.ssh_creds e)
    | inr (o, q) ↦ rw q (
        override_valid rc.ssh_creds o e (
          lookup_All Accepted id rc.ssh_overrides o
            (overrides_pass rc.ssh_overrides (ground (arith, e, h)) k) q))
  ]
]
