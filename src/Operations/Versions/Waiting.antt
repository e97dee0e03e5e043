-- ===== src/Operations/Versions/Waiting.antt =====
-- `waitServerVersionsReached` of internal/operations/orchestrated.go, over what each attempt meets.
-- What it tells the log after every fifth attempt is left out.
use bm.Base.{
  ℕ, ◌≡◌, refl, ◌≤◌, Bool, false, Option, none, some, List, [], ◌∷◌, Str, is_empty, length, All,
  if◌then◌else◌, get_elem?, suc, ◌⊎◌, inl, inr, if_both,
}
use bm.Operations.Versions.{
  ServerInfo, VersionError, no_servers, not_newer, missing_version, still_old, uncomparable,
  missing_servers, ensure_version_reached_target,
}
use bm.Operations.Versions.Target.{Reached, ensure_version_reached_target_iff}

pub data Fetched : Type 0 where
  unavailable : Str → Fetched
  info : ServerInfo → Fetched

-- One turn of the loop: whether its own deadline has passed or the context of the task has ended,
-- the error of that context at that time and after the answer, and the answer of the admin API.
pub record Attempt : Type 0 where
  pub late : Bool
  pub ctx_error : Option Str
  pub answer : Fetched
  pub ctx_after : Option Str

pub data WaitError : Type 0 where
  interrupted : Str → WaitError
  timed_out : Option VersionError → Option Str → WaitError
  never : VersionError → WaitError

abbrev or_interrupted : Option Str → Option WaitError → Option WaitError
or_interrupted (some e) o = some (interrupted e)
or_interrupted none o = o

-- A server whose version names no time ends the wait at once; any other error is tried again.
unfoldable pub after_check :
    Option Str → Option VersionError → (VersionError → Option WaitError) → Option WaitError
after_check ctx_after none again = or_interrupted ctx_after none
after_check ctx_after (some (uncomparable s)) again = some (never (uncomparable s))
after_check ctx_after (some no_servers) again = again no_servers
after_check ctx_after (some (not_newer s)) again = again (not_newer s)
after_check ctx_after (some (missing_version s)) again = again (missing_version s)
after_check ctx_after (some (still_old s)) again = again (still_old s)
after_check ctx_after (some (missing_servers m n)) again = again (missing_servers m n)

unfoldable pub after_answer :
    ℕ
    → ℕ
    → Option Str
    → Fetched
    → (Option VersionError → Option Str → Option WaitError)
    → Option VersionError
    → Option Str
    → Option WaitError
unfolding after_check ensure_version_reached_target
after_answer target expected ctx_after (unavailable e) again last_version last_fetch =
    again last_version (some e)
after_answer target expected ctx_after (info i) again last_version last_fetch =
    after_check ctx_after (ensure_version_reached_target target expected i)
      (λ e. again (some e) last_fetch)

-- The attempts up to the first that finds the deadline passed, which is the last of the list.
unfoldable pub wait_versions :
    ℕ → ℕ → List Attempt → Option VersionError → Option Str → Option WaitError
unfolding after_answer
wait_versions target expected [] last_version last_fetch = some (timed_out last_version last_fetch)
wait_versions target expected (a ∷ attempts) last_version last_fetch =
    if a.late
    then or_interrupted a.ctx_error (some (timed_out last_version last_fetch))
    else after_answer target expected a.ctx_after a.answer (wait_versions target expected attempts)
        last_version last_fetch

-- `waitServerVersionsReached`
unfoldable pub wait_server_versions_reached : ℕ → ℕ → List Attempt → Option WaitError
unfolding wait_versions
wait_server_versions_reached target expected attempts =
    wait_versions target expected attempts none none

-- What ends the wait well: an answer in which every server has the target's version.
pub record Converged (target expected : ℕ) (attempts : List Attempt) : Type 0 where
  pub turn : ℕ
  pub at : Attempt
  pub servers : ServerInfo
  pub met : get_elem? attempts turn ≡ some at
  pub in_time : at.late ≡ false
  pub answered : at.answer ≡ info servers
  pub full : is_empty servers.servers ≡ false
  pub all_there : expected ≤ length servers.servers
  pub reached : All (Reached target) servers.servers

later :
    (target expected : ℕ) (a : Attempt) (attempts : List Attempt)
    → Converged target expected attempts
    → Converged target expected (a ∷ attempts)
later target expected a attempts c = record {
  turn = suc c.turn;
  at = c.at;
  servers = c.servers;
  met = c.met;
  in_time = c.in_time;
  answered = c.answered;
  full = c.full;
  all_there = c.all_there;
  reached = c.reached;
}

-- Without an error the wait has come to its end here, or at a later attempt.
abbrev Settled : ℕ → ℕ → Fetched → (Option VersionError → Option Str → Option WaitError) → Type 0
Settled target expected answer again =
    ((i : ServerInfo) × (answer ≡ info i)
      × (ensure_version_reached_target target expected i ≡ none))
    ⊎ ((v : Option VersionError) × (f : Option Str) × (again v f ≡ none))

after_check-none :
    (ctx_after : Option Str) (e : Option VersionError) (again : VersionError → Option WaitError)
    → after_check ctx_after e again ≡ none
    → (e ≡ none) ⊎ ((x : VersionError) × (again x ≡ none))
unfolding after_check
after_check-none ctx_after none again h = inl refl
after_check-none ctx_after (some (uncomparable s)) again h = cc
after_check-none ctx_after (some no_servers) again h = inr (no_servers, h)
after_check-none ctx_after (some (not_newer s)) again h = inr (not_newer s, h)
after_check-none ctx_after (some (missing_version s)) again h = inr (missing_version s, h)
after_check-none ctx_after (some (still_old s)) again h = inr (still_old s, h)
after_check-none ctx_after (some (missing_servers m n)) again h = inr (missing_servers m n, h)

after_answer-Settled :
    (target expected : ℕ) (ctx_after : Option Str) (answer : Fetched)
    (again : Option VersionError → Option Str → Option WaitError) (v : Option VersionError)
    (f : Option Str)
    → after_answer target expected ctx_after answer again v f ≡ none
    → Settled target expected answer again
unfolding after_answer
after_answer-Settled target expected ctx_after (unavailable e) again v f h = inr (v, some e, h)
after_answer-Settled target expected ctx_after (info i) again v f h =
    elim (after_check-none ctx_after (ensure_version_reached_target target expected i)
      (λ e. again (some e) f) h) [ inl e ↦ inl (i, refl, e) | inr (x, e) ↦ inr (some x, f, e) ]

or_interrupted-some :
    {P : Type 0} (c : Option Str) (e : WaitError) → or_interrupted c (some e) ≡ none → P
or_interrupted-some none e h = cc
or_interrupted-some (some x) e h = cc

met_now :
    (target expected : ℕ) (a : Attempt) (attempts : List Attempt)
    → a.late ≡ false
    → (i : ServerInfo) → a.answer ≡ info i
    → ensure_version_reached_target target expected i ≡ none
    → Converged target expected (a ∷ attempts)
met_now target expected a attempts early i answered e =
    let (full, all_there, reached) = (ensure_version_reached_target_iff target expected i).0 e in
    record {
      turn = 0;
      at = a;
      servers = i;
      met = refl;
      in_time = early;
      answered = answered;
      full = full;
      all_there = all_there;
      reached = reached;
    }

wait_versions-Converged :
    (target expected : ℕ) (attempts : List Attempt) (v : Option VersionError) (f : Option Str)
    → wait_versions target expected attempts v f ≡ none
    → Converged target expected attempts
unfolding wait_versions
wait_versions-Converged target expected [] v f h = cc
wait_versions-Converged target expected (a ∷ attempts) v f h =
    if_both (λ r. r ≡ none → Converged target expected (a ∷ attempts)) a.late
      (or_interrupted a.ctx_error (some (timed_out v f)))
      (after_answer target expected a.ctx_after a.answer (wait_versions target expected attempts) v
        f)
      (λ late e. or_interrupted-some a.ctx_error (timed_out v f) e)
      (λ early e.
        elim (after_answer-Settled target expected a.ctx_after a.answer
          (wait_versions target expected attempts) v f e) [
            | inl (i, answered, q) ↦ met_now target expected a attempts early i answered q
            | inr (v', f', q) ↦
                later target expected a attempts
                  (wait_versions-Converged target expected attempts v' f' q)
          ])
      h

-- The wait for the servers ends without an error only on an answer before the deadline in which no
-- server is missing and every server reports the version of the target or a later one.
pub wait_server_versions_reached-Converged :
    (target expected : ℕ) (attempts : List Attempt)
    → wait_server_versions_reached target expected attempts ≡ none
    → Converged target expected attempts
unfolding wait_server_versions_reached
wait_server_versions_reached-Converged target expected attempts h =
    wait_versions-Converged target expected attempts none none h
