-- ===== src/Tasks/Recovery/Touch.antt =====
-- What the loop of internal/tasks/recovery.go makes of one row, and of a list of rows.
use bm.Base.{
  codes, sub_ℕ, ◌≡◌, ◌⊎◌, refl, ◌∙◌, ap, subst, Bool, true, false, Option, none, some, List, [],
  ◌∷◌, Str, ◌=s◌, str_iff, arith, if◌then◌else◌, Bool-cases, inl, inr, All, All-map, keep,
}
use bm.Store.{prompt}
use bm.Store.Bucket.{Bucket}
use bm.Tasks.Types.{Time, OperationState, same_state, HistoryEntry}
use bm.Tasks.History.Defs.{Json, json, malformed}
use bm.Tasks.History.Rows.{update_entry_lem}
use bm.Tasks.History.Listing.{readable}
use bm.Tasks.Recovery.Defs.{mark_failed, recover_rows}

pub Row : Type 0
Row = Option (Json HistoryEntry)

-- A row is stored under its entry's own id.
abbrev pub WellKeyed : (b : Bucket (Json HistoryEntry)) → b.T → Type 0
WellKeyed b t = (k : Str) (e : HistoryEntry) → b.get k t ≡ some (json e) → e.id ≡ k

abbrev pub is_running : HistoryEntry → Bool
is_running e = same_state e.status OperationState.running

-- A running row after a restart at the instant `now`.
abbrev pub interrupted : Time → HistoryEntry → HistoryEntry
interrupted now e = record e {
  status = OperationState.failed;
  failure_note = codes "bm process restarted mid-op";
  duration = some (sub_ℕ now e.at);
  result = some (record {
    state = OperationState.failed;
    detail = [];
    summary = [];
    host_statuses = [];
    failure_note = codes "bm process restarted mid-op";
  });
}

-- What recovery makes of a row.
abbrev pub recovered : Time → Option (Json HistoryEntry) → Option (Json HistoryEntry)
recovered now none = none
recovered now (some (malformed raw)) = some (malformed raw)
recovered now (some (json e)) = some (json (if is_running e then interrupted now e else e))

abbrev pub running_rows : (b : Bucket (Json HistoryEntry)) → b.T → List HistoryEntry
running_rows b t = keep is_running (readable (b.entries t))

abbrev pub touch : Time → HistoryEntry → Option (Json HistoryEntry) → Option (Json HistoryEntry)
touch now r none = none
touch now r (some (malformed raw)) = some (malformed raw)
touch now r (some (json e)) = some (json (record (mark_failed now r.at e) { id = r.id }))

abbrev pub touch_at :
    Time → Str → HistoryEntry → Option (Json HistoryEntry) → Option (Json HistoryEntry)
touch_at now j r o = if r.id =s j then touch now r o else o

abbrev pub touch_all :
    Time → Str → List HistoryEntry → Option (Json HistoryEntry) → Option (Json HistoryEntry)
touch_all now j [] o = o
touch_all now j (r ∷ rest) o = touch_all now j rest (touch_at now j r o)

module _ (b : Bucket (Json HistoryEntry)) (now : Time) where
  abbrev pub Present : List HistoryEntry → b.T → Type 0
  Present rows t = All (λ r. (e : HistoryEntry) × (b.get r.id t ≡ some (json e))) rows

  pub Present-step :
      (r : HistoryEntry) (e : HistoryEntry) (rows : List HistoryEntry) (t c : b.T)
      → b.get r.id t ≡ some (json e)
      → ((j : Str) → b.get j c ≡ touch_at now j r (b.get j t))
      → Present rows t
      → Present rows c
  Present-step r e [] t c found step h = tt
  Present-step r e (q ∷ rows) t c found step h = (kept, Present-step r e rows t c found step h.1)
    where
      kept : (x : HistoryEntry) × (b.get q.id c ≡ some (json x))
      kept = elim (Bool-cases (r.id =s q.id)) [
        | inl same ↦
            (record (mark_failed now r.at h.0.0) { id = r.id }, step q.id ∙ rw (same, h.0.1) refl)
        | inr ne ↦ (h.0.0, step q.id ∙ rw ne h.0.1)
      ]

  pub update-touch :
      (r : HistoryEntry) (e : HistoryEntry) (t c : b.T) (j : Str)
      → b.get r.id t ≡ some (json e)
      → b.get j c ≡ (
          if r.id =s j
          then some (json (record (mark_failed now r.at e) { id = r.id }))
          else b.get j t)
      → b.get j c ≡ touch_at now j r (b.get j t)
  update-touch r e t c j found h = elim (Bool-cases (r.id =s j)) [
    | inl same ↦
        let here : b.get j t ≡ some (json e) =
          subst (λ k. b.get k t ≡ some (json e)) ((str_iff r.id j).0 same) found in
        h ∙ rw (same, here) refl
    | inr ne ↦ h ∙ rw ne refl
  ]

  pub recover_rows_lem :
      (rows : List HistoryEntry) (t : b.T)
      → Present rows t
      → (c : b.T) × (recover_rows b now (λ _. prompt) rows (some t) ≡ (some c, none))
        × ((j : Str) → b.get j c ≡ touch_all now j rows (b.get j t))
  unfolding recover_rows
  recover_rows_lem [] t h = (t, refl, λ j. refl)
  recover_rows_lem (r ∷ rest) t h =
      let (e, found) = h.0 in
      let (t', done, rows) = update_entry_lem b r.id (mark_failed now r.at) e t found in
      let step : (j : Str) → b.get j t' ≡ touch_at now j r (b.get j t) =
        λ j. update-touch r e t t' j found (rows j) in
      let (c, ran, all) = recover_rows_lem rest t' (Present-step r e rest t t' found step h.1) in
      (c, rw done ran, λ j. all j ∙ ap (touch_all now j rest) (step j))

-- A row that is marked stays as it is when it is marked again from the same listing.
pub touch_all_marked :
    (now : Time) (j : Str) (rows : List HistoryEntry) (e : HistoryEntry)
    → All (λ r. r.id =s j ≡ true → r ≡ e) rows
    → touch_all now j rows (some (json (mark_failed now e.at e)))
      ≡ some (json (mark_failed now e.at e))
unfolding mark_failed
touch_all_marked now j [] e h = refl
touch_all_marked now j (r ∷ rows) e h =
    let later = touch_all_marked now j rows e h.1 in
    elim (Bool-cases (r.id =s j)) [ inl same ↦ rw (same, h.0 same) later | inr ne ↦ rw ne later ]

-- The rows listed under `j`, if any, are the row that stands there.
pub touch_all_listed :
    (now : Time) (j : Str) (rows : List HistoryEntry) (e : HistoryEntry)
    → All (λ r. r.id =s j ≡ true → (r ≡ e) × (is_running e ≡ true)) rows
    → ((touch_all now j rows (some (json e)) ≡ some (json (mark_failed now e.at e)))
        × (is_running e ≡ true))
      ⊎ ((touch_all now j rows (some (json e)) ≡ some (json e)) × All (λ r. r.id =s j ≡ false) rows)
unfolding mark_failed
touch_all_listed now j [] e h = inr (refl, tt)
touch_all_listed now j (r ∷ rows) e h =
    let later = touch_all_listed now j rows e h.1 in
    elim (Bool-cases (r.id =s j)) [
      | inl same ↦ inl (
        rw (same, (h.0 same).0)
            (touch_all_marked now j rows e (All-map (λ q g i. (g i).0) rows h.1)),
        (h.0 same).1,
      )
      | inr ne ↦ rw ne (ground (arith, later, ne))
    ]

pub touch_all_absent :
    (now : Time) (j : Str) (rows : List HistoryEntry) (o : Option (Json HistoryEntry))
    → ((r : HistoryEntry) → touch now r o ≡ o)
    → touch_all now j rows o ≡ o
touch_all_absent now j [] o h = refl
touch_all_absent now j (r ∷ rows) o h = elim (Bool-cases (r.id =s j)) [
  | inl same ↦ rw (same, h r) (touch_all_absent now j rows o h)
  | inr ne ↦ rw ne (touch_all_absent now j rows o h)
]
