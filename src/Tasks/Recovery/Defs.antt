-- ===== src/Tasks/Recovery/Defs.antt =====
-- internal/tasks/recovery.go: rows left running by a process that ended are marked failed.
use bm.Base.{ℕ, Bool, Option, none, some, List, [], ◌∷◌, Str, codes, length, sub_ℕ}
use bm.Store.{Error, Result, ok, err, Outcome}
use bm.Store.Bucket.{Bucket}
use bm.Tasks.Types.{Time, OperationState, HistoryEntry}
use bm.Tasks.History.Defs.{Json, Db, HistoryFilter, list, update_entry}

abbrev pub recover_note : Str
recover_note = codes "bm process restarted mid-op"

abbrev pub running_filter : HistoryFilter
running_filter = record {
  status = OperationState.running;
  cluster_id = [];
  since = 0;
  until = 0;
  limit = 0;
}

-- The mutator for a row that was listed with the instant `at`.
unfoldable pub mark_failed : Time → Time → HistoryEntry → HistoryEntry
mark_failed now at e = record e {
  status = OperationState.failed;
  failure_note = recover_note;
  duration = some (sub_ℕ now at);
  result = some (record {
    state = OperationState.failed;
    detail = [];
    summary = [];
    host_statuses = [];
    failure_note = recover_note;
  });
}

module _ (b : Bucket (Json HistoryEntry)) where
  abbrev after : Db b × Result (Unit {0}) → (Db b → Db b × Option Error) → Db b × Option Error
  after (db, ok _) rest = rest db
  after (db, err e) rest = (db, some e)

  -- The first error ends the loop; the outcome of each write is the environment's.
  unfoldable pub recover_rows :
      Time → (Str → Outcome) → List HistoryEntry → Db b → Db b × Option Error
  recover_rows now outcome [] db = (db, none)
  recover_rows now outcome (r ∷ rest) db =
      after (update_entry b r.id (mark_failed now r.at) (outcome r.id) db)
        (recover_rows now outcome rest)

  counted : Db b × Option Error → ℕ → Db b × Result ℕ
  counted (db, none) n = (db, ok n)
  counted (db, some e) n = (db, err e)

  recover_listed : Time → (Str → Outcome) → Db b → Result (List HistoryEntry) → Db b × Result ℕ
  unfolding recover_rows counted
  recover_listed now outcome db (err e) = (db, err e)
  recover_listed now outcome db (ok rows) = counted (recover_rows now outcome rows db) (length rows)

  unfoldable pub recover_in_flight : Time → Bool → (Str → Outcome) → Db b → Db b × Result ℕ
  unfolding recover_listed
  recover_in_flight now in_time outcome db =
      recover_listed now outcome db (list b running_filter in_time db)
