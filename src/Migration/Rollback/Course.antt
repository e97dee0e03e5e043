-- ===== src/Migration/Rollback/Course.antt =====
-- The order of the phases of a rollback in internal/migration/rollback.go.
use bm.Base.{◌≡◌, Bool, true, false, Option, none, some, List, [], ◌∷◌, ◌++◌, Str, ◌⊎◌, keep}
use bm.Store.{Error}
use bm.Store.Json.{Json}
use bm.Store.Bucket.{Bucket}
use bm.Domain.{HostRow, Cluster}
use bm.Migration.Types.{MigrationBody, from_migration_body}
use bm.Migration.Cutover.Defs.{World}
use bm.Migration.Cutover.Env.{stop_buckit, start_minio, Call, fans_out}
use bm.Migration.Rollback.Defs.{
  RollbackEnv, RollbackFailure, revert_failed, Probed, interrupted, probed,
}

-- Whether a host may still run Buckit: where its probe fails or says so.
abbrev pub may_run_buckit : Option Bool → Bool
may_run_buckit none = true
may_run_buckit (some active) = active

-- The hosts that a rollback has to bring back.
abbrev pub wanted : RollbackEnv → List HostRow → List HostRow
wanted env hosts = keep (λ h. may_run_buckit (env.active h)) hosts

abbrev pub wanted_for : RollbackEnv → Option MigrationBody → List HostRow
wanted_for env none = []
wanted_for env (some body) = wanted env (from_migration_body body).hosts

abbrev Wanted : RollbackEnv → List HostRow → Probed → Type 0
Wanted env hosts (interrupted name e) = Unit
Wanted env hosts (probed targets skipped) = targets ≡ wanted env hosts

-- What a rollback of the targets does with them, and whether it comes to the revert of the engine.
pub data RollbackCourse (env : RollbackEnv) (targets : List HostRow)
    : List Call → Bool → Type 0 where
  untouched : RollbackCourse env targets [] false
  not_stopped :
      (e : Str)
      → (env.run_phase stop_buckit targets).error ≡ some e
      → RollbackCourse env targets (fans_out stop_buckit targets ∷ []) false
  not_started :
      (e : Str)
      → (env.run_phase stop_buckit targets).error ≡ none
      → (env.run_phase start_minio targets).error ≡ some e
      → RollbackCourse env targets
          (fans_out stop_buckit targets ∷ fans_out start_minio targets ∷ [])
          false
  started :
      (env.run_phase stop_buckit targets).error ≡ none
      → (env.run_phase start_minio targets).error ≡ none
      → RollbackCourse env targets
          (fans_out stop_buckit targets ∷ fans_out start_minio targets ∷ [])
          true

module _ (b : Bucket (Json Cluster)) where
  abbrev pub Unreverted : Bool → World b → World b × Option RollbackFailure → Type 0
  Unreverted true w x = (x.1 ≡ none) ⊎ ((e : Error) × (x.1 ≡ some (revert_failed e)))
  Unreverted false w x = x.0.clusters ≡ w.clusters

  abbrev pub RolledBack :
      RollbackEnv → List HostRow → World b → World b × Option RollbackFailure → Type 0
  RolledBack env targets w x =
      (calls : List Call) × (reverted : Bool) × (x.0.calls ≡ w.calls ++ calls)
      × RollbackCourse env targets calls reverted
      × Unreverted reverted w x
