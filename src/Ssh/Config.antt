-- ===== src/Ssh/Config.antt =====
-- internal/ssh/config.go: the credentials of a cluster, merged with the overrides of one host.
use bm.Base.{Bool, Option, none, some, Str, is_empty, if◌then◌else◌}
use bm.Domain.{AuthMethod, SshCreds, SshOverrides}

pub record Resolved : Type 0 where
  pub auth_method : AuthMethod
  pub user : Str
  pub key_path : Str
  pub key_passphrase : Str
  pub password : Str
  pub sudo : Bool

pub data SshError : Type 0 where
  user_required key_path_required password_required : SshError
  unsupported_auth_method : Str → SshError

-- A field that is set wins; one that is not inherits.
abbrev pub or_inherit {ℓ} : {A : Type ℓ} → Option A → A → A
or_inherit none a = a
or_inherit (some b) a = b

abbrev pub cluster_creds : SshCreds → Resolved
cluster_creds c = record {
  auth_method = c.auth_method;
  user = c.user;
  key_path = c.key_path;
  key_passphrase = c.key_passphrase;
  password = c.password;
  sudo = c.sudo;
}

unfoldable pub merge : SshCreds → Option SshOverrides → Resolved
merge c none = cluster_creds c
merge c (some o) = record {
  auth_method = or_inherit o.auth_method c.auth_method;
  user = or_inherit o.user c.user;
  key_path = or_inherit o.key_path c.key_path;
  key_passphrase = or_inherit o.key_passphrase c.key_passphrase;
  password = or_inherit o.password c.password;
  sudo = or_inherit o.sudo c.sudo;
}

-- Agent authentication needs SSH_AUTH_SOCK, which is checked at dial time.
abbrev check_auth : AuthMethod → Resolved → Option SshError
check_auth AuthMethod.key r = if is_empty r.key_path then some key_path_required else none
check_auth AuthMethod.password r = if is_empty r.password then some password_required else none
check_auth AuthMethod.agent r = none
check_auth (AuthMethod.unsupported m) r = some (unsupported_auth_method m)

-- `Resolved.Validate`
unfoldable pub validate_resolved : Resolved → Option SshError
validate_resolved r = if is_empty r.user then some user_required else check_auth r.auth_method r
