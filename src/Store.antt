-- ===== src/Store.antt =====
-- internal/store/store.go: transactions over the bbolt file, without the encrypted buckets.
-- A bucket is an interface (`Store.Bucket`), since bbolt is not part of the program.
pub mod Bucket
pub mod Json
pub mod Assoc
pub mod Encrypted
use bm.Base.{Bool, true, false, Option, none, some}

-- `bucket_error` is an error of bbolt's Put or Delete, `io_error` one of its commit, and `deadline`
-- that of the context of `runTxn`.
pub data Error : Type 0 where
  id_required bucket_missing exists not_found undecodable bucket_error seal_error open_error
        io_error deadline :
      Error

pub data Result {ℓ} (A : Type ℓ) : Type ℓ where
  ok : A → Result A
  err : Error → Result A

infixl 5 ◌>>=◌
abbrev pub ◌>>=◌ {ℓ κ} : {A : Type ℓ} {B : Type κ} → Result A → (A → Result B) → Result B
ok a >>= f = f a
err e >>= f = err e

abbrev pub or_fail {ℓ} : {A : Type ℓ} → Option A → Error → Result A
or_fail none e = err e
or_fail (some a) e = ok a

-- What the environment makes of a write transaction: it ends in time, its commit fails, or the
-- deadline passes first. The goroutine that runs the transaction is not stopped by the deadline, so
-- the transaction may still be applied.
pub data Outcome : Type 0 where
  prompt commit_fails : Outcome
  timed_out : Bool → Outcome

module _ {S A : Type 0} where
  -- bbolt rolls back where the function returns an error.
  abbrev committed : S → Result (S × A) → S
  committed s (ok (s', a)) = s'
  committed s (err e) = s

  abbrev answer : Result (S × A) → Result A
  answer (ok (s', a)) = ok a
  answer (err e) = err e

  abbrev unless_io : Result (S × A) → Result A
  unless_io (ok (s', a)) = err io_error
  unless_io (err e) = err e

  -- `Update`, by way of `runTxn`.
  unfoldable pub update : Outcome → (S → Result (S × A)) → S → S × Result A
  update prompt fn s = (committed s (fn s), answer (fn s))
  update commit_fails fn s = (s, unless_io (fn s))
  update (timed_out true) fn s = (committed s (fn s), err deadline)
  update (timed_out false) fn s = (s, err deadline)

  -- `View`; the flag says whether the read ends in time.
  unfoldable pub view : Bool → (S → Result A) → S → Result A
  view true fn s = fn s
  view false fn s = err deadline
