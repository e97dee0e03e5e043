-- ===== src/Ssh/Saved/Lookups.antt =====
-- What Get of internal/sshconfig/sshconfig.go finds after a Put, a PutInMemory or a Delete.
use bm.Base.{
  ℕ, ◌≡◌, refl, Bool, true, false, Option, none, some, Str, ◌=s◌, if◌then◌else◌, Bool-cases, inl,
  inr,
}
use bm.Store.{update, Result, ok, err, not_found, Outcome}
use bm.Store.Bucket.{Bucket}
use bm.Store.Assoc.{lookup, without, lookup-without}
use bm.Store.Encrypted.{put_encrypted, get_encrypted, get_encrypted-put_encrypted}
use bm.Ssh.Saved.{
  ClusterSshConfig, SavedConfig, SshRepo, get_ssh, put_ssh, put_done, put_valid, found, remember,
  ConfigError, put_in_memory, delete_ssh, delete_tx, save_error, validate_config, decoded_config,
}
use bm.Store.Json.{Json, json}

module _ (b : Bucket SavedConfig) where
  put_done-none :
      (id : Str) (r : SshRepo b) (a : Option b.T × Result (Unit {0}))
      → (put_done b id r a).1 ≡ none
      → (a.1 ≡ ok tt)
        × ((put_done b id r a).0 ≡ record { memory = without id r.memory; disk = a.0 })
  unfolding put_done
  put_done-none id r (disk, err e) h = cc
  put_done-none id r (disk, ok u) h = (refl, refl)

  found_if :
      (same : Bool) (cfg : ClusterSshConfig) (held : Option ClusterSshConfig)
      (stored : Result (Option (Json ClusterSshConfig)))
      → found b (if same then none else held) (if same then ok (some (json cfg)) else stored)
        ≡ (if same then ok cfg else found b held stored)
  unfolding found decoded_config
  found_if true cfg held stored = refl
  found_if false cfg held stored = refl

  found_unless :
      (same : Bool) (held : Option ClusterSshConfig)
      (stored : Result (Option (Json ClusterSshConfig)))
      → found b (if same then none else held) (if same then ok none else stored)
        ≡ (if same then err not_found else found b held stored)
  unfolding found decoded_config
  found_unless true held stored = refl
  found_unless false held stored = refl

  put_valid-stored :
      (e : Option ConfigError) (id : Str) (cfg : ClusterSshConfig) (iv : Option ℕ) (o : Outcome)
      (r : SshRepo b)
      → (put_valid b e id cfg iv o r).1 ≡ none
      → ((put_encrypted b id (json cfg) iv o r.disk).1 ≡ ok tt)
        × ((put_valid b e id cfg iv o r).0 ≡ record {
          memory = without id r.memory;
          disk = (put_encrypted b id (json cfg) iv o r.disk).0;
        })
  unfolding put_valid
  put_valid-stored (some e) id cfg iv o r h = cc
  put_valid-stored none id cfg iv o r h =
      put_done-none id r (put_encrypted b id (json cfg) iv o r.disk) h

  -- After a Put that succeeds, Get finds the new credentials of that cluster, also where older ones
  -- were in memory, and of every other cluster what it found before.
  pub get_ssh-put_ssh :
      (id j : Str) (cfg : ClusterSshConfig) (iv : Option ℕ) (o : Outcome) (r : SshRepo b)
      → (put_ssh b id cfg iv o r).1 ≡ none
      → (get_ssh b j true (put_ssh b id cfg iv o r).0
          ≡ (if id =s j then ok cfg else get_ssh b j true r))
  unfolding get_ssh put_ssh
  get_ssh-put_ssh id j cfg iv o r h =
      let (good, left) = put_valid-stored (validate_config cfg) id cfg iv o r h in
      rw
        (
          left,
          lookup-without id j r.memory,
          get_encrypted-put_encrypted b id j (json cfg) iv o r.disk good,
        )
        (found_if (id =s j) cfg (lookup j r.memory) (get_encrypted b j true r.disk))

  get_ssh-remember :
      (e : Option ConfigError) (id j : Str) (cfg : ClusterSshConfig) (r : SshRepo b)
      → (remember b e id cfg r).1 ≡ none
      → (get_ssh b j true (remember b e id cfg r).0
          ≡ (if id =s j then ok cfg else get_ssh b j true r))
  unfolding remember get_ssh lookup found
  get_ssh-remember (some e) id j cfg r h = cc
  get_ssh-remember none id j cfg r h = elim (Bool-cases (id =s j)) [
    | inl e ↦ rw e refl
    | inr e ↦ rw (e, lookup-without id j r.memory, e) refl
  ]

  -- The same of PutInMemory.
  pub get_ssh-put_in_memory :
      (id j : Str) (cfg : ClusterSshConfig) (r : SshRepo b)
      → (put_in_memory b id cfg r).1 ≡ none
      → (get_ssh b j true (put_in_memory b id cfg r).0
          ≡ (if id =s j then ok cfg else get_ssh b j true r))
  unfolding get_ssh put_in_memory
  get_ssh-put_in_memory id j cfg r h = get_ssh-remember (validate_config cfg) id j cfg r h

  get_encrypted-delete_tx :
      (id j : Str) (disk : Option b.T) (o : Outcome)
      → (update o (delete_tx b id) disk).1 ≡ ok tt
      → get_encrypted b j true (update o (delete_tx b id) disk).0
        ≡ (if id =s j then ok none else get_encrypted b j true disk)
  unfolding delete_tx update get_encrypted
  get_encrypted-delete_tx id j none Outcome.prompt h = cc
  get_encrypted-delete_tx id j none Outcome.commit_fails h = cc
  get_encrypted-delete_tx id j none (Outcome.timed_out true) h = cc
  get_encrypted-delete_tx id j none (Outcome.timed_out false) h = cc
  get_encrypted-delete_tx id j (some t) Outcome.prompt h =
      let (u, e) = b.delete_total id t in
      rw (e, b.get-delete id j t u e)
        elim (Bool-cases (id =s j)) [ inl same ↦ rw same refl | inr ne ↦ rw ne refl ]
  get_encrypted-delete_tx id j (some t) Outcome.commit_fails h =
      let (u, e) = b.delete_total id t in cc (e, h)
  get_encrypted-delete_tx id j (some t) (Outcome.timed_out true) h =
      let (u, e) = b.delete_total id t in cc (e, h)
  get_encrypted-delete_tx id j (some t) (Outcome.timed_out false) h = cc

  save_error-none : (a : Result (Unit {0})) → save_error a ≡ none → a ≡ ok tt
  save_error-none (ok u) h = refl
  save_error-none (err e) h = cc

  -- After a Delete that succeeds, Get finds no credentials of that cluster, and of every other
  -- cluster what it found before.
  pub get_ssh-delete_ssh :
      (id j : Str) (o : Outcome) (r : SshRepo b)
      → (delete_ssh b id o r).1 ≡ none
      → (get_ssh b j true (delete_ssh b id o r).0
          ≡ (if id =s j then err not_found else get_ssh b j true r))
  unfolding get_ssh delete_ssh
  get_ssh-delete_ssh id j o r h =
      rw
        (
          lookup-without id j r.memory,
          get_encrypted-delete_tx id j r.disk o
              (save_error-none (update o (delete_tx b id) r.disk).1 h),
        )
        (found_unless (id =s j) (lookup j r.memory) (get_encrypted b j true r.disk))
