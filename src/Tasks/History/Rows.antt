-- ===== src/Tasks/History/Rows.antt =====
-- What an operation of internal/tasks/history.go does to the rows, key by key.
use bm.Base.{
  ◌≡◌, refl, true, none, some, Str, ◌=s◌, str_refl, arith, if◌then◌else◌, Option-cases, inl, inr,
}
use bm.Store.{ok, prompt}
use bm.Store.Bucket.{Bucket}
use bm.Tasks.Types.{HistoryEntry}
use bm.Tasks.History.Defs.{Json, json, Db, insert, update_entry, get}

module _ (b : Bucket (Json HistoryEntry)) where
  -- A row that is there and decodes is replaced by the mutated one, under its own id.
  pub update_entry_lem :
      (id : Str) (mutator : HistoryEntry → HistoryEntry) (e : HistoryEntry) (t : b.T)
      → b.get id t ≡ some (json e)
      → (c : b.T) × (update_entry b id mutator prompt (some t) ≡ (some c, ok tt))
        × ((j : Str)
            → b.get j c
              ≡ (if id =s j then some (json (record (mutator e) { id = id })) else b.get j t))
  unfolding update_entry
  update_entry_lem id mutator e t h =
      let (c, stored) = b.put_stored id (json (record (mutator e) { id = id })) (json e) t h in
      (c, rw (h, stored) refl, λ j. b.get-put id j _ t c stored)

  -- An insert that succeeds has found no row and put one.
  pub insert_inv :
      (e : HistoryEntry) (t : b.T) (db : Db b)
      → insert b e prompt (some t) ≡ (db, ok tt)
      → (c : b.T) × (db ≡ some c) × (b.get e.id t ≡ none) × (b.put e.id (json e) t ≡ some c)
  unfolding insert
  insert_inv e t db h = elim (Option-cases (b.put e.id (json e) t)) [
    | inl refused ↦ absurd (ground (arith, refused))
    | inr (c, stored) ↦ (c, ground (arith, stored), ground (arith, stored), stored)
  ]

  -- A row that was inserted is read back, was not there before, and no other row has changed.
  pub get-insert :
      (e : HistoryEntry) (t : b.T) (db : Db b)
      → insert b e prompt (some t) ≡ (db, ok tt)
      → (get b e.id true db ≡ ok e)
        × (b.get e.id t ≡ none)
        × ((j : Str) → get b j true db ≡ (if e.id =s j then ok e else get b j true (some t)))
  unfolding get
  get-insert e t db h =
      let (c, same, absent, stored) = insert_inv e t db h in
      (
        rw (same, get, b.get-put e.id e.id (json e) t c stored, str_refl e.id) refl,
        absent,
        λ j. rw (same, get, b.get-put e.id j (json e) t c stored) (ground (arith)),
      )
