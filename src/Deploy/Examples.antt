-- ===== src/Deploy/Examples.antt =====
-- A deploy of four hosts with two drives each.
use bm.Base.{◌≤◌, ◌%◌, ◌≡◌, refl, ◌↔◌, true, false, none, [], ◌∷◌, Str, codes, pos, arith}
use bm.Domain.{HostRow, HostProbeState, NewClusterDraft, Topology, AuthMethod, TlsMode}
use bm.Deploy.Params.{
  named_hosts, total_drive_count, default_set_size, draft_params, from_draft, validate_topology,
  trim_space, trim_left,
}
use bm.Deploy.Topology.{
  ValidTopology, default_set_size_largest, validate_topology_lem, from_draft-accepted,
}

abbrev host : Str → HostRow
host name = record {
  id = name;
  hostname = name;
  port = pos 0;
  probe = HostProbeState.reachable;
  ssh_override = none;
}

abbrev layout : Topology
layout = record {
  set_size = pos 0;
  parity = pos 0;
  data_volume_mode = codes "auto";
  selected_mounts = codes "/d1" ∷ codes "/d2" ∷ [];
  custom_data_volume_paths = [];
}

abbrev draft : NewClusterDraft (Unit {0})
draft = record {
  name = codes " prod ";
  description = [];
  version = codes "v1";
  custom_url = [];
  credentials = record { root_user = codes "admin"; root_password = codes "secret123" };
  api = record { port = pos 0; console_port = pos 0 };
  region = [];
  server_url = [];
  hosts =
      host (codes "n1")
      ∷ host (codes "n2")
      ∷ host (codes " ")
      ∷ host (codes "n3")
      ∷ host (codes "n4")
      ∷ [];
  ssh = record {
    auth_method = AuthMethod.agent;
    user = codes "root";
    port = pos 22;
    key_path = [];
    key_passphrase = [];
    password = [];
    sudo = false;
  };
  tls = record { mode = TlsMode.off; cert_pem = []; key_pem = []; ca_bundle_pem = [] };
  discovery = tt;
  topology = layout;
  persist_ssh = true;
}

from_draft-accepted_example : validate_topology (from_draft draft) ≡ none
unfolding named_hosts trim_space trim_left
from_draft-accepted_example = from_draft-accepted draft 4 refl refl (omega arith) (omega arith) refl

validate_topology_lem_example :
    (validate_topology (from_draft draft) ≡ none) ↔ ValidTopology (from_draft draft)
validate_topology_lem_example = validate_topology_lem (from_draft draft)

default_set_size_largest_example :
    (4 ≤ default_set_size (draft_params draft))
    × (default_set_size (draft_params draft) ≤ 16)
    × (total_drive_count (draft_params draft) % default_set_size (draft_params draft) ≡ 0)
unfolding draft_params total_drive_count named_hosts trim_space trim_left
default_set_size_largest_example =
    default_set_size_largest (draft_params draft) 4 (omega arith) (omega arith) refl
