-- ===== src/Deploy/Params.antt =====
-- internal/deploy/params.go: the parameters of a deploy, their defaults, and the erasure topology.
-- Texts are trimmed of ASCII white space only.
use mathlib.Core.List.{reverse}
use bm.Base.{
  ℕ, ◌*◌, ◌/◌, ◌%◌, Bool, not, ◌&&◌, ◌||◌, Option, none, some, List, [], ◌∷◌, Str, codes, is_empty,
  leb, ltb, ◌==◌, if◌then◌else◌, length, ℤ, pos, is_zero, is_pos, pos_part,
}
use bm.Domain.{HostRow, Topology, Credentials, TlsConfig, ApiPorts, SshCreds, NewClusterDraft}

abbrev pub is_space : ℕ → Bool
is_space c = c == 32 || (leb 9 c && leb c 13)

unfoldable pub trim_left : Str → Str
trim_left [] = []
trim_left (c ∷ s) = let rest = trim_left s in if is_space c then rest else c ∷ s

-- strings.TrimSpace
unfoldable pub trim_space : Str → Str
unfolding trim_left
trim_space s = reverse (trim_left (reverse (trim_left s)))

-- strings.ReplaceAll(s, "\r\n", "\n")
unfoldable pub normalize_line_endings : Str → Str
normalize_line_endings [] = []
normalize_line_endings (c ∷ []) = c ∷ []
normalize_line_endings (c ∷ d ∷ s) =
    let joined = 10 ∷ normalize_line_endings s in
    let kept = c ∷ normalize_line_endings (d ∷ s) in if c == 13 && d == 10 then joined else kept

pub record DeployParams (Discovery : Type 0) : Type 0 where
  pub name : Str
  pub description : Str
  pub version : Str
  pub custom_url : Str
  pub credentials : Credentials
  pub api : ApiPorts
  pub region : Str
  pub server_url : Str
  pub hosts : List HostRow
  pub ssh : SshCreds
  pub tls : TlsConfig
  pub discovery : Discovery
  pub topology : Topology
  pub persist_ssh : Bool

abbrev pub supported_erasure_set_sizes : List ℕ
supported_erasure_set_sizes = 2 ∷ 3 ∷ 4 ∷ 5 ∷ 6 ∷ 7 ∷ 8 ∷ 9 ∷ 10 ∷ 11 ∷ 12 ∷ 13 ∷ 14 ∷ 15 ∷ 16 ∷ []

-- The loop of `defaultSetSize`.
unfoldable pub best_size : ℕ → List ℕ → ℕ → ℕ
best_size total [] best = best
best_size total (size ∷ sizes) best =
    best_size total sizes (if total % size == 0 && ltb best size then size else best)

unfoldable pub default_parity_blocks : ℤ → ℕ
default_parity_blocks set_size =
    if leb (pos_part set_size) 1
    then 0
    else if leb (pos_part set_size) 3
    then 1
    else if leb (pos_part set_size) 5
    then 2
    else if leb (pos_part set_size) 7
    then 3
    else 4

abbrev default_port : ℤ → ℕ → ℤ
default_port port fallback = if is_zero port then pos fallback else port

-- The loop over the hosts in `FromDraft`: rows without a name go, port 0 becomes 22.
unfoldable pub named_hosts : List HostRow → List HostRow
unfolding trim_space
named_hosts [] = []
named_hosts (h ∷ hosts) =
    let rest = named_hosts hosts in
    if is_empty (trim_space h.hostname)
    then rest
    else record h { port = default_port h.port 22 } ∷ rest

unfoldable pub normalize_tls : TlsConfig → TlsConfig
unfolding normalize_line_endings
normalize_tls t = record t {
  cert_pem = normalize_line_endings t.cert_pem;
  key_pem = normalize_line_endings t.key_pem;
  ca_bundle_pem = normalize_line_endings t.ca_bundle_pem;
}

pub data TopologyError : Type 0 where
  parity_without_drives : TopologyError
  unsupported_set_size : ℤ → ℕ → TopologyError
  parity_out_of_range : ℕ → ℤ → TopologyError

unfoldable pub check_parity : ℕ → ℤ → ℤ → Option TopologyError
check_parity max_parity set_size parity =
    if not (is_pos parity) || ltb max_parity (pos_part parity)
    then some (parity_out_of_range max_parity set_size)
    else none

module _ {Discovery : Type 0} where
  unfoldable pub total_drive_count : DeployParams Discovery → ℕ
  total_drive_count p = length p.hosts * length p.topology.selected_mounts

  unfoldable pub default_set_size : DeployParams Discovery → ℕ
  unfolding best_size total_drive_count
  default_set_size p = best_size (total_drive_count p) supported_erasure_set_sizes 0

  unfoldable pub resolved_set_size : DeployParams Discovery → ℤ
  resolved_set_size p =
      if is_pos p.topology.set_size then p.topology.set_size else pos (default_set_size p)

  unfoldable pub effective_parity : DeployParams Discovery → ℤ
  effective_parity p =
      if not (is_zero p.topology.parity) || leb (total_drive_count p) 1
      then p.topology.parity
      else pos (default_parity_blocks (resolved_set_size p))

  unfoldable pub validate_topology : DeployParams Discovery → Option TopologyError
  unfolding check_parity
  validate_topology p =
      let total = total_drive_count p in
      let set_size = resolved_set_size p in
      let size = pos_part set_size in
      if leb total 1
      then (if is_zero p.topology.parity then none else some parity_without_drives)
      else if ltb size 2 || ltb 16 size || not (total % size == 0)
      then some (unsupported_set_size set_size total)
      else check_parity (size / 2) set_size (effective_parity p)

  unfoldable pub draft_params : NewClusterDraft Discovery → DeployParams Discovery
  unfolding named_hosts trim_space normalize_tls
  draft_params d = record {
    name = trim_space d.name;
    description = d.description;
    version = d.version;
    custom_url = d.custom_url;
    credentials = d.credentials;
    api = record {
      port = default_port d.api.port 9000;
      console_port = default_port d.api.console_port 9001;
    };
    region = if is_empty d.region then codes "us-east-1" else d.region;
    server_url = d.server_url;
    hosts = named_hosts d.hosts;
    ssh = d.ssh;
    tls = normalize_tls d.tls;
    discovery = d.discovery;
    topology = d.topology;
    persist_ssh = d.persist_ssh;
  }

  -- A draft with more than one drive and no parity gets the default.
  unfoldable pub with_parity : DeployParams Discovery → DeployParams Discovery
  with_parity p =
      if ltb 1 (total_drive_count p) && is_zero p.topology.parity
      then record p { topology = record (p.topology) { parity = effective_parity p } }
      else p

  unfoldable pub from_draft : NewClusterDraft Discovery → DeployParams Discovery
  unfolding draft_params with_parity
  from_draft d = with_parity (draft_params d)
