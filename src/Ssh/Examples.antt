-- ===== src/Ssh/Examples.antt =====
-- Saved credentials of two clusters, those of one of them in memory.
use bm.Base.{◌≡◌, refl, true, some, [], ◌∷◌, Str, codes, pos, ◌=s◌, if◌then◌else◌}
use bm.Store.{ok, err, not_found, prompt, update}
use bm.Store.Assoc.{assoc}
use bm.Store.Encrypted.{put_encrypted, seal, put_sealed_tx}
use bm.Domain.{AuthMethod}
use bm.Ssh.Saved.{
  ClusterSshConfig, SavedConfig, SshRepo, get_ssh, put_ssh, put_valid, put_done, delete_ssh,
  delete_tx, validate_config, validate_creds, validate_overrides,
}
use bm.Ssh.Saved.Lookups.{get_ssh-put_ssh, get_ssh-delete_ssh}

abbrev config : Str → ClusterSshConfig
config user = record {
  ssh = record {
    auth_method = AuthMethod.agent;
    user = user;
    port = pos 22;
    key_path = [];
    key_passphrase = [];
    password = [];
    sudo = true;
  };
  overrides = [];
}

unfoldable no_rows : (assoc SavedConfig).T
unfolding assoc
no_rows = []

abbrev repo : SshRepo (assoc SavedConfig)
repo = record { memory = (codes "c1", config (codes "ops")) ∷ []; disk = some no_rows }

get_ssh-put_ssh_example :
    get_ssh
      (assoc SavedConfig)
      (codes "c1")
      true
      (put_ssh (assoc SavedConfig) (codes "c1") (config (codes "root")) (some 7) prompt repo).0
    ≡ (if codes "c1" =s codes "c1"
        then ok (config (codes "root"))
        else get_ssh (assoc SavedConfig) (codes "c1") true repo)
get_ssh-put_ssh_example =
    get_ssh-put_ssh (assoc SavedConfig) (codes "c1") (codes "c1") (config (codes "root")) (some 7)
      prompt repo
      (unfold put_ssh put_valid validate_config validate_creds validate_overrides put_done
          put_encrypted seal put_sealed_tx update assoc no_rows in
        refl)

get_ssh-delete_ssh_example :
    get_ssh
      (assoc SavedConfig)
      (codes "c1")
      true
      (delete_ssh (assoc SavedConfig) (codes "c1") prompt repo).0
    ≡ (if codes "c1" =s codes "c1"
        then err not_found
        else get_ssh (assoc SavedConfig) (codes "c1") true repo)
get_ssh-delete_ssh_example =
    get_ssh-delete_ssh (assoc SavedConfig) (codes "c1") (codes "c1") prompt repo
      (unfold delete_ssh delete_tx update assoc no_rows in refl)
