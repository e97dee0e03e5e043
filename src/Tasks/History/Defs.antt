-- ===== src/Tasks/History/Defs.antt =====
-- The operations of internal/tasks/history.go on the history bucket.
-- A stored value is the JSON text of an entry, or a text that does not decode.
use bm.Base.{
  ℕ, ◌+◌, ◌-◌, Bool, true, false, not, ◌&&◌, Option, none, some, List, [], ◌∷◌, Str, ◌=s◌, is_empty,
  leb, ltb, ◌==◌, if◌then◌else◌, length,
}
use mathlib.Core.List.{reverse}
use bm.Store.{
  id_required, bucket_missing, exists, not_found, undecodable, bucket_error, Result, ok, err, ◌>>=◌,
  or_fail, Outcome, update, view,
}
use bm.Store.Bucket.{Bucket}
pub use bm.Store.Json.{Json, json, malformed}
use bm.Tasks.Types.{Time, OperationState, other, same_state, HistoryEntry}

abbrev pub history_row_cap : ℕ
history_row_cap = 1000

-- Of `status` the empty string, of the times 0, and of `limit` 0 mean no bound.
pub record HistoryFilter : Type 0 where
  pub status : OperationState
  pub cluster_id : Str
  pub since : Time
  pub until : Time
  pub limit : ℕ

abbrev no_state : OperationState → Bool
no_state (other []) = true
no_state _ = false

unfoldable pub matches : HistoryFilter → HistoryEntry → Bool
unfolding same_state ◌=s◌
matches f e =
    if not (no_state f.status) && not (same_state e.status f.status)
    then false
    else if not (is_empty f.cluster_id) && not (e.cluster_id =s f.cluster_id)
    then false
    else if not (f.since == 0) && ltb e.at f.since
    then false
    else if not (f.until == 0) && ltb f.until e.at
    then false
    else true

-- The loop of `List`, over the values from the last key to the first; `out` counts the rows found.
unfoldable pub list_loop : HistoryFilter → ℕ → List (Str × Json HistoryEntry) → List HistoryEntry
list_loop f out [] = []
list_loop f out ((k, malformed raw) ∷ rest) = list_loop f out rest
list_loop f out ((k, json e) ∷ rest) =
    let skip = list_loop f out rest in
    let last = leb f.limit (out + 1) && not (f.limit == 0) in
    let more = list_loop f (out + 1) rest in
    if matches f e then (if last then e ∷ [] else e ∷ more) else skip

-- The rows that `Clear` deletes: all, or those before a time.
unfoldable pub wiped : Time → Json HistoryEntry → Bool
wiped before (malformed raw) = before == 0
wiped before (json e) = if before == 0 then true else ltb e.at before

unfoldable pub keys_to_clear : Time → List (Str × Json HistoryEntry) → List Str
unfolding wiped
keys_to_clear before [] = []
keys_to_clear before ((k, v) ∷ rest) =
    let keys = keys_to_clear before rest in if wiped before v then k ∷ keys else keys

module _ (b : Bucket (Json HistoryEntry)) where
  -- The database as far as the history goes; `none` where the bucket is missing.
  abbrev pub Db : Type 0
  Db = Option b.T

  abbrev put_row : Str → HistoryEntry → b.T → Result (Db × Unit {0})
  put_row id e t = do c ← or_fail (b.put id (json e) t) bucket_error; ok (some c, tt)

  insert_tx : HistoryEntry → Db → Result (Db × Unit {0})
  insert_tx e none = err bucket_missing
  insert_tx e (some t) = elim (b.get e.id t) [ some _ ↦ err exists | none ↦ put_row e.id e t ]

  unfoldable pub insert : HistoryEntry → Outcome → Db → Db × Result (Unit {0})
  unfolding insert_tx update
  insert e o db = if is_empty e.id then (db, err id_required) else update o (insert_tx e) db

  update_found :
      Str
      → (HistoryEntry → HistoryEntry)
      → Option (Json HistoryEntry)
      → b.T
      → Result (Db × Unit {0})
  update_found id mutator none t = err not_found
  update_found id mutator (some (malformed raw)) t = err undecodable
  update_found id mutator (some (json e)) t = put_row id (record (mutator e) { id = id }) t

  update_tx : Str → (HistoryEntry → HistoryEntry) → Db → Result (Db × Unit {0})
  unfolding update_found
  update_tx id mutator none = err bucket_missing
  update_tx id mutator (some t) = update_found id mutator (b.get id t) t

  unfoldable pub update_entry :
      Str → (HistoryEntry → HistoryEntry) → Outcome → Db → Db × Result (Unit {0})
  unfolding update_tx update
  update_entry id mutator o db = update o (update_tx id mutator) db

  decoded : Option (Json HistoryEntry) → Result HistoryEntry
  decoded none = err not_found
  decoded (some (malformed raw)) = err undecodable
  decoded (some (json e)) = ok e

  get_tx : Str → Db → Result HistoryEntry
  unfolding decoded
  get_tx id none = err bucket_missing
  get_tx id (some t) = decoded (b.get id t)

  unfoldable pub get : Str → Bool → Db → Result HistoryEntry
  unfolding get_tx view
  get id in_time db = view in_time (get_tx id) db

  list_tx : HistoryFilter → Db → Result (List HistoryEntry)
  unfolding list_loop
  list_tx f none = err bucket_missing
  list_tx f (some t) = ok (list_loop f 0 (reverse (b.entries t)))

  unfoldable pub list : HistoryFilter → Bool → Db → Result (List HistoryEntry)
  unfolding list_tx view
  list f in_time db = view in_time (list_tx f) db

  -- `for _, k := range toDel { b.Delete(k) }`
  unfoldable pub delete_all : List Str → b.T → Result b.T
  delete_all [] t = ok t
  delete_all (k ∷ ks) t = or_fail (b.delete k t) bucket_error >>= delete_all ks

  unfoldable pub clear_tx : Time → Db → Result (Db × ℕ)
  unfolding delete_all keys_to_clear
  clear_tx before none = err bucket_missing
  clear_tx before (some t) = do
    let keys = keys_to_clear before (b.entries t)
    c ← delete_all keys t
    ok (some c, length keys)

  unfoldable pub clear : Time → Outcome → Db → Db × Result ℕ
  unfolding clear_tx update
  clear before o db = update o (clear_tx before) db

  -- The loop of `Sweep` deletes while its cursor walks, so the keys that the cursor yields are an
  -- argument: bbolt leaves open what Next returns after a change.
  unfoldable pub sweep_loop : List Str → ℕ → ℕ → b.T → Result (b.T × ℕ)
  sweep_loop [] to_del deleted t = ok (t, deleted)
  sweep_loop (k ∷ walk) to_del deleted t =
      let rest = (do
        c ← or_fail (b.delete k t) bucket_error
        sweep_loop walk to_del (deleted + 1) c) in
      if ltb deleted to_del then rest else ok (t, deleted)

  unfoldable pub sweep_tx : List Str → Db → Result (Db × ℕ)
  unfolding sweep_loop
  sweep_tx walk none = err bucket_missing
  sweep_tx walk (some t) =
      let count = length (b.entries t) in
      if leb count history_row_cap
      then ok (some t, 0)
      else do (c, deleted) ← sweep_loop walk (count - history_row_cap) 0 t; ok (some c, deleted)

  unfoldable pub sweep : List Str → Outcome → Db → Db × Result ℕ
  unfolding sweep_tx update
  sweep walk o db = update o (sweep_tx walk) db
