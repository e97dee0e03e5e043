-- ===== src/Ssh/Saved.antt =====
-- internal/sshconfig/sshconfig.go: the saved credentials of the clusters, some of them in memory only.
pub mod Lookups
use bm.Base.{ℕ, Bool, true, false, Option, none, some, List, [], ◌∷◌, Str, is_empty, if◌then◌else◌}
use bm.Store.{
  Error, not_found, undecodable, bucket_missing, bucket_error, Result, ok, err, Outcome, update,
  ◌>>=◌, or_fail,
}
use bm.Store.Bucket.{Bucket}
use bm.Store.Json.{Json, json, malformed}
use bm.Store.Assoc.{lookup, without}
use bm.Store.Encrypted.{Sealed, put_encrypted, get_encrypted}
use bm.Domain.{AuthMethod, SshCreds, SshOverrides}
use bm.Ssh.Config.{
  SshError, user_required, key_path_required, password_required, unsupported_auth_method,
}

-- The overrides are a Go map; the list has them in the order in which a loop meets them.
pub record ClusterSshConfig : Type 0 where
  pub ssh : SshCreds
  pub overrides : List (Str × SshOverrides)

pub data ConfigError : Type 0 where
  cluster_default : SshError → ConfigError
  override : Str → SshError → ConfigError

abbrev check_method : AuthMethod → SshCreds → Option SshError
check_method AuthMethod.key c = if is_empty c.key_path then some key_path_required else none
check_method AuthMethod.password c = if is_empty c.password then some password_required else none
check_method AuthMethod.agent c = none
check_method (AuthMethod.unsupported m) c = some (unsupported_auth_method m)

unfoldable pub validate_creds : SshCreds → Option SshError
validate_creds c = if is_empty c.user then some user_required else check_method c.auth_method c

-- No value or a blank one.
abbrev blank : Option Str → Bool
blank none = true
blank (some s) = is_empty s

unfoldable pub validate_override : SshOverrides → Option SshError
validate_override o = elim o.auth_method [
  | none ↦ none
  | some AuthMethod.key ↦ if blank o.key_path then some key_path_required else none
  | some AuthMethod.password ↦ if blank o.password then some password_required else none
  | some AuthMethod.agent ↦ none
  | some (AuthMethod.unsupported m) ↦ some (unsupported_auth_method m)
]

unfoldable pub validate_overrides : List (Str × SshOverrides) → Option ConfigError
unfolding validate_override
validate_overrides [] = none
validate_overrides ((id, o) ∷ rest) =
    let later = validate_overrides rest in
    elim (validate_override o) [ some e ↦ some (override id e) | none ↦ later ]

unfoldable pub validate_config : ClusterSshConfig → Option ConfigError
unfolding validate_creds validate_overrides
validate_config cfg = elim (validate_creds cfg.ssh) [
  | some e ↦ some (cluster_default e)
  | none ↦ validate_overrides cfg.overrides
]

pub data SaveError : Type 0 where
  invalid_config : ConfigError → SaveError
  not_stored : Error → SaveError

abbrev pub save_error : Result (Unit {0}) → Option SaveError
save_error (ok _) = none
save_error (err e) = some (not_stored e)

-- What the bytes of the bucket are: the sealing of a JSON text.
abbrev pub SavedConfig : Type 0
SavedConfig = Sealed (Json ClusterSshConfig)

module _ (b : Bucket SavedConfig) where
  -- `none` where the bucket is missing.
  pub record SshRepo : Type 0 where
    pub memory : List (Str × ClusterSshConfig)
    pub disk : Option b.T

  unfoldable pub decoded_config : Option (Json ClusterSshConfig) → Result ClusterSshConfig
  decoded_config none = err not_found
  decoded_config (some (malformed raw)) = err undecodable
  decoded_config (some (json cfg)) = ok cfg

  unfoldable pub found :
      Option ClusterSshConfig → Result (Option (Json ClusterSshConfig)) → Result ClusterSshConfig
  unfolding decoded_config
  found (some cfg) stored = ok cfg
  found none stored = stored >>= decoded_config

  unfoldable pub get_ssh : Str → Bool → SshRepo → Result ClusterSshConfig
  unfolding found get_encrypted lookup
  get_ssh id in_time r = found (lookup id r.memory) (get_encrypted b id in_time r.disk)

  -- The end of `Put`: the copy in memory goes only when the disk has the new one.
  unfoldable pub put_done :
      Str → SshRepo → Option b.T × Result (Unit {0}) → SshRepo × Option SaveError
  put_done id r (disk, err e) = (record r { disk = disk }, some (not_stored e))
  put_done id r (disk, ok _) = (record { memory = without id r.memory; disk = disk }, none)

  unfoldable pub put_valid :
      Option ConfigError
      → Str
      → ClusterSshConfig
      → Option ℕ
      → Outcome
      → SshRepo
      → SshRepo × Option SaveError
  unfolding put_done put_encrypted
  put_valid (some e) id cfg iv o r = (r, some (invalid_config e))
  put_valid none id cfg iv o r = put_done id r (put_encrypted b id (json cfg) iv o r.disk)

  unfoldable pub put_ssh :
      Str → ClusterSshConfig → Option ℕ → Outcome → SshRepo → SshRepo × Option SaveError
  unfolding validate_config put_valid
  put_ssh id cfg iv o r = put_valid (validate_config cfg) id cfg iv o r

  unfoldable pub remember :
      Option ConfigError → Str → ClusterSshConfig → SshRepo → SshRepo × Option SaveError
  remember (some e) id cfg r = (r, some (invalid_config e))
  remember none id cfg r = (record r { memory = (id, cfg) ∷ without id r.memory }, none)

  unfoldable pub put_in_memory : Str → ClusterSshConfig → SshRepo → SshRepo × Option SaveError
  unfolding validate_config remember
  put_in_memory id cfg r = remember (validate_config cfg) id cfg r

  unfoldable pub delete_tx : Str → Option b.T → Result (Option b.T × Unit {0})
  delete_tx id none = err bucket_missing
  delete_tx id (some t) = do u ← or_fail (b.delete id t) bucket_error; ok (some u, tt)

  unfoldable pub delete_ssh : Str → Outcome → SshRepo → SshRepo × Option SaveError
  unfolding delete_tx update
  delete_ssh id o r =
      let (disk, answer) = update o (delete_tx id) r.disk in
      (record { memory = without id r.memory; disk = disk }, save_error answer)
