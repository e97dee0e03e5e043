-- ===== src/Migration/Hosts.antt =====
-- The host rows of a migration: their states in the progress of its task, and which are online.
-- internal/migration/executor.go (partitionHosts, makeEmitter, waitAttemptedOnline) and
-- hostnameFromMinioEndpoint of internal/migration/snapshot.go. Names are compared in ASCII lower case.
use bm.Base.{
  ℕ, ◌+◌, suc, Bool, true, false, not, ◌&&◌, ◌||◌, Option, none, some, List, [], ◌∷◌, ◌++◌, map,
  Str, codes, ◌=s◌, is_empty, leb, ◌==◌, if◌then◌else◌, modify, keep,
}
use bm.Domain.{HostRow, NodeState}
use bm.Tasks.Types.{HostOpState, HostOpStatus, OperationProgress}
use bm.Migration.Types.{StepEvent, stage_text, stage_to_host_state, Server}

-- `hostIdx`: of two rows with the same id the later one.
index_from : ℕ → List HostRow → Str → Option ℕ
index_from i [] id = none
index_from i (h ∷ hosts) id =
    let later = index_from (suc i) hosts id in
    elim later [ some j ↦ some j | none ↦ if h.id =s id then some i else none ]

unfoldable pub index_of : List HostRow → Str → Option ℕ
unfolding index_from
index_of hosts id = index_from 0 hosts id

abbrev pub with_status : HostOpState → Str → HostOpStatus → HostOpStatus
with_status st detail s = record s { state = st; detail = detail }

abbrev pub status_at : Option ℕ → HostOpState → Str → OperationProgress → OperationProgress
status_at none st detail p = p
status_at (some i) st detail p = record p {
  host_statuses = modify p.host_statuses i (with_status st detail);
}

abbrev step_at : Option ℕ → Str → OperationProgress → OperationProgress
step_at none text p = p
step_at (some i) text p = record p { current_step = text }

-- `makeEmitter`, without its log line.
unfoldable pub emit : List HostRow → StepEvent → OperationProgress → OperationProgress
unfolding index_of stage_to_host_state
emit hosts ev p =
    let i = index_of hosts ev.host_id in
    step_at i (ev.hostname ++ codes ": " ++ stage_text ev.stage)
      (status_at i (stage_to_host_state ev.stage) ev.detail p)

unfoldable pub emit_all : List HostRow → List StepEvent → OperationProgress → OperationProgress
unfolding emit
emit_all hosts [] p = p
emit_all hosts (ev ∷ evs) p = emit_all hosts evs (emit hosts ev p)

-- The loops that give each of `some_hosts` a final state.
unfoldable pub mark_all :
    List HostRow → List HostRow → HostOpState → Str → OperationProgress → OperationProgress
unfolding index_of
mark_all hosts [] st detail p = p
mark_all hosts (h ∷ some_hosts) st detail p =
    mark_all hosts some_hosts st detail (status_at (index_of hosts h.id) st detail p)

abbrev lower_byte : ℕ → ℕ
lower_byte c = if leb 65 c && leb c 90 then c + 32 else c

abbrev pub to_lower : Str → Str
to_lower s = map lower_byte s

-- The text behind the first "://", or the whole text.
after_scheme : Str → Str → Str
after_scheme whole [] = whole
after_scheme whole (c ∷ s) =
    let later = after_scheme whole s in
    elim s [ d ∷ e ∷ rest ↦ if c == 58 && d == 47 && e == 47 then rest else later | _ ↦ later ]

cut_at : ℕ → Str → Str
cut_at c [] = []
cut_at c (d ∷ s) = let rest = cut_at c s in if d == c then [] else d ∷ rest

unfoldable pub hostname_from_minio_endpoint : Str → Str
unfolding after_scheme cut_at
hostname_from_minio_endpoint ep = cut_at 58 (cut_at 47 (after_scheme ep ep))

abbrev is_online : NodeState → Bool
is_online NodeState.online = true
is_online _ = false

-- The set of the hosts that a ServerInfo answer shows online.
unfoldable pub online_hosts : List Server → List Str
unfolding hostname_from_minio_endpoint
online_hosts [] = []
online_hosts (s ∷ servers) =
    let rest = online_hosts servers in
    let host = hostname_from_minio_endpoint s.endpoint in
    if is_online s.state && not (is_empty host) then to_lower host ∷ rest else rest

unfoldable pub mem_str : Str → List Str → Bool
mem_str s [] = false
mem_str s (t ∷ ts) = t =s s || mem_str s ts

unfoldable pub is_up : List Str → HostRow → Bool
unfolding mem_str
is_up online h = mem_str (to_lower h.hostname) online

pub data Partition : Type 0 where
  no_host_online : Partition
  parted : List HostRow → List Str → Partition

-- `partitionHosts`; `none` where there is no admin client or ServerInfo fails.
unfoldable pub partition_hosts : Option (List Server) → List HostRow → Partition
unfolding online_hosts is_up
partition_hosts none hosts = parted hosts []
partition_hosts (some servers) hosts =
    let online = online_hosts servers in
    if is_empty online
    then no_host_online
    else parted (keep (is_up online) hosts)
        (map (λ h. h.id) (keep (λ h. not (is_up online h)) hosts))

-- One turn of the loop of `waitAttemptedOnline`: the context's error before it, the answer of
-- ServerInfo, and the context's error during the pause.
pub record Poll : Type 0 where
  pub ctx_error : Option Str
  pub servers : Option (List Server)
  pub interrupted : Option Str

unfoldable pub all_up : Option (List Server) → List HostRow → Bool
unfolding online_hosts is_up
all_up none hosts = false
all_up (some servers) [] = true
all_up (some servers) (h ∷ hosts) = is_up (online_hosts servers) h && all_up (some servers) hosts

-- The polls up to the first after the deadline; `late` is the text of its error.
unfoldable pub wait_online : Str → List HostRow → List Poll → Option Str
unfolding all_up
wait_online late hosts [] = some late
wait_online late hosts (p ∷ []) = elim p.ctx_error [
  | some e ↦ some e
  | none ↦ if all_up p.servers hosts then none else some late
]
wait_online late hosts (p ∷ q ∷ polls) =
    let rest = wait_online late hosts (q ∷ polls) in
    elim p.ctx_error [
      | some e ↦ some e
      | none ↦
          if all_up p.servers hosts
          then none
          else elim p.interrupted [ some e ↦ some e | none ↦ rest ]
    ]
