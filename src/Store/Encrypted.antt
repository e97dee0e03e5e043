-- ===== src/Store/Encrypted.antt =====
-- PutEncrypted and GetEncrypted of internal/store/store.go. AES-GCM is not part of the program: a
-- stored text is the sealing of a value under a nonce with the store's key, or a text that does not open.
use bm.Base.{
  ℕ, Bool, Option, none, some, Str, ◌≡◌, ◌=s◌, if◌then◌else◌, refl, true, false, Bool-cases,
  Option-cases, inl, inr,
}
use bm.Store.{
  bucket_missing, bucket_error, seal_error, open_error, Result, ok, err, ◌>>=◌, or_fail, Outcome,
  update, view,
}
use bm.Store.Bucket.{Bucket}

pub data Sealed (A : Type 0) : Type 0 where
  sealed : ℕ → A → Sealed A
  unopened : Str → Sealed A

-- A random nonce, or none where the random source fails.
unfoldable pub seal : {A : Type 0} → Option ℕ → A → Result (Sealed A)
seal none a = err seal_error
seal (some nonce) a = ok (sealed nonce a)

unfoldable pub unseal : {A : Type 0} → Option (Sealed A) → Result (Option A)
unseal none = ok none
unseal (some (sealed nonce a)) = ok (some a)
unseal (some (unopened raw)) = err open_error

module _ {A : Type 0} (b : Bucket (Sealed A)) where
  unfoldable pub put_sealed_tx : Str → Sealed A → Option b.T → Result (Option b.T × Unit {0})
  put_sealed_tx key s none = err bucket_missing
  put_sealed_tx key s (some t) = do u ← or_fail (b.put key s t) bucket_error; ok (some u, tt)

  unfoldable pub put_encrypted :
      Str → A → Option ℕ → Outcome → Option b.T → Option b.T × Result (Unit {0})
  unfolding seal put_sealed_tx update
  put_encrypted key a nonce o db = elim (seal nonce a) [
    | err e ↦ (db, err e)
    | ok s ↦ update o (put_sealed_tx key s) db
  ]

  unfoldable pub get_sealed_tx : Str → Option b.T → Result (Option (Sealed A))
  get_sealed_tx key none = err bucket_missing
  get_sealed_tx key (some t) = ok (b.get key t)

  unfoldable pub get_encrypted : Str → Bool → Option b.T → Result (Option A)
  unfolding unseal get_sealed_tx view
  get_encrypted key in_time db = view in_time (get_sealed_tx key) db >>= unseal

  -- What an answer of `put_encrypted` without an error has done.
  pub put_encrypted-stored :
      (key : Str) (a : A) (nonce : Option ℕ) (o : Outcome) (db : Option b.T)
      → (put_encrypted key a nonce o db).1 ≡ ok tt
      → (n : ℕ) × (t : b.T) × (u : b.T) × (db ≡ some t)
        × ((put_encrypted key a nonce o db).0 ≡ some u)
        × (b.put key (sealed n a) t ≡ some u)
  unfolding put_encrypted
  put_encrypted-stored key a none o db h = cc
  put_encrypted-stored key a (some n) Outcome.commit_fails none h = cc
  put_encrypted-stored key a (some n) Outcome.commit_fails (some t) h =
      elim (Option-cases (b.put key (sealed n a) t)) [ inl e ↦ cc (e, h) | inr (u, e) ↦ cc (e, h) ]
  put_encrypted-stored key a (some n) (Outcome.timed_out true) db h = cc
  put_encrypted-stored key a (some n) (Outcome.timed_out false) db h = cc
  put_encrypted-stored key a (some n) Outcome.prompt none h = cc
  put_encrypted-stored key a (some n) Outcome.prompt (some t) h =
      elim (Option-cases (b.put key (sealed n a) t)) [
        | inl e ↦ cc (e, h)
        | inr (u, e) ↦ (n, t, u, refl, rw e refl, e)
      ]

  pub get_encrypted-put_encrypted :
      (key j : Str) (a : A) (nonce : Option ℕ) (o : Outcome) (db : Option b.T)
      → (put_encrypted key a nonce o db).1 ≡ ok tt
      → (get_encrypted j true (put_encrypted key a nonce o db).0
          ≡ (if key =s j then ok (some a) else get_encrypted j true db))
  unfolding get_encrypted
  get_encrypted-put_encrypted key j a nonce o db h =
      let (n, t, u, held, left, stored) = put_encrypted-stored key a nonce o db h in
      rw (left, held, b.get-put key j (sealed n a) t u stored)
        elim (Bool-cases (key =s j)) [ inl e ↦ rw e refl | inr e ↦ rw e refl ]
