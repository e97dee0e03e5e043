-- ===== src/Tasks/Recovery/Marks.antt =====
-- What the recovery of internal/tasks/recovery.go does to the history.
use mathlib.Core.List.{reverse, reverse-cons, reverse-reverse}
use mathlib.Core.Path.{fun_ext}
use bm.Base.{
  ◌≡◌, refl, sym, ◌∙◌, ap, subst, true, false, Option, none, some, List, [], ◌∷◌, Str, ◌=s◌,
  str_iff, Bool-cases, inl, inr, length, All, All-map, All-get_elem?, keep, append-All, if_both,
}
use bm.Store.{ok, prompt}
use bm.Store.Bucket.{Bucket}
use bm.Tasks.Types.{Time, HistoryEntry}
use bm.Tasks.History.Defs.{Json, json, malformed, matches}
use bm.Tasks.History.Listing.{readable, list_lem}
use bm.Tasks.Recovery.Defs.{running_filter, mark_failed, recover_in_flight}
use bm.Tasks.Recovery.Touch.{
  Present, WellKeyed, is_running, recover_rows_lem, recovered, touch_all, touch_all_absent,
  touch_all_listed,
}

module _ (b : Bucket (Json HistoryEntry)) (now : Time) (t : b.T) (keyed : WellKeyed b t) where
  -- The rows that are listed stand in the bucket under their ids, and are running.
  listed_sound :
      (l : List (Str × Json HistoryEntry))
      → All (λ e. b.get e.0 t ≡ some e.1) l
      → All
          (λ r. (b.get r.id t ≡ some (json r)) × (is_running r ≡ true))
          (keep is_running (readable l))
  listed_sound [] h = tt
  listed_sound ((k, malformed raw) ∷ l) h = listed_sound l h.1
  listed_sound ((k, json e) ∷ l) h =
      let later = listed_sound l h.1 in
      if_both (All _) (is_running e) _ _
        (λ run. ((subst (λ i. b.get i t ≡ some (json e)) (sym (keyed k e h.0)) h.0, run), later))
        (λ _. later)

-- An entry under the id `j` is not running.
abbrev Quiet : Str → Str × Json HistoryEntry → Type 0
Quiet j (k, malformed raw) = Unit
Quiet j (k, json e) = e.id =s j ≡ true → is_running e ≡ false

-- A running row is listed.
listed_complete :
    (j : Str) (l : List (Str × Json HistoryEntry))
    → All (λ r. r.id =s j ≡ false) (keep is_running (readable l))
    → All (Quiet j) l
listed_complete j [] h = tt
listed_complete j ((k, malformed raw) ∷ l) h = (tt, listed_complete j l h)
listed_complete j ((k, json e) ∷ l) h = elim (Bool-cases (is_running e)) [
  | inl run ↦ (λ same. cc ((rw run at h).0), listed_complete j l (rw run at h).1)
  | inr idle ↦ (λ same. idle, listed_complete j l (rw idle at h))
]

module _ {ℓ κ} {A : Type ℓ} (P : A → Type κ) where
  All-reverse : (xs : List A) → All P xs → All P (reverse xs)
  All-reverse [] h = tt
  All-reverse (x ∷ xs) h =
      rw (reverse-cons x xs) (append-All P (reverse xs) x (All-reverse xs h.1) h.0)

  reverse-All : (xs : List A) → All P (reverse xs) → All P xs
  reverse-All xs h = subst (All P) (reverse-reverse xs) (All-reverse (reverse xs) h)

matches_running : (e : HistoryEntry) → matches running_filter e ≡ is_running e
unfolding matches
matches_running e = elim (Bool-cases (is_running e)) [
  | inl run ↦ rw run refl
  | inr idle ↦ rw idle refl
]

-- The rows that recovery lists: those that are running, from the last key to the first.
abbrev pub listed : (b : Bucket (Json HistoryEntry)) → b.T → List HistoryEntry
listed b t = keep is_running (readable (reverse (b.entries t)))

module _ (b : Bucket (Json HistoryEntry)) (now : Time) (t : b.T) (keyed : WellKeyed b t) where
  listed-Present : Present b now (listed b t) t
  listed-Present =
      All-map (λ r h. (r, h.0)) (listed b t)
        (listed_sound b now t keyed _ (All-reverse _ (b.entries t) (b.entries_sound t)))

  touched :
      (j : Str) (o : Option (Json HistoryEntry))
      → b.get j t ≡ o
      → touch_all now j (listed b t) o ≡ recovered now o
  unfolding mark_failed
  touched j none h = touch_all_absent now j (listed b t) none (λ r. refl)
  touched j (some (malformed raw)) h = touch_all_absent now j (listed b t) _ (λ r. refl)
  touched j (some (json e)) h =
      elim (touch_all_listed now j (listed b t) e (All-map same_row (listed b t) sound)) [
        | inl (marked, run) ↦ rw run marked
        | inr (kept, unlisted) ↦ rw (idle unlisted) kept
      ]
    where
      sound : All (λ r. (b.get r.id t ≡ some (json r)) × (is_running r ≡ true)) (listed b t)
      sound = listed_sound b now t keyed _ (All-reverse _ (b.entries t) (b.entries_sound t))

      same_row :
          (r : HistoryEntry)
          → (b.get r.id t ≡ some (json r)) × (is_running r ≡ true)
          → r.id =s j ≡ true
          → (r ≡ e) × (is_running e ≡ true)
      same_row r g i =
          let here : b.get j t ≡ some (json r) =
            subst (λ k. b.get k t ≡ some (json r)) ((str_iff r.id j).0 i) g.0 in
          let same : r ≡ e = cc (here, h) in (same, subst (λ x. is_running x ≡ true) same g.1)

      idle : All (λ r. r.id =s j ≡ false) (listed b t) → is_running e ≡ false
      idle u =
          let (i, at) = b.entries_complete j (json e) t h in
          All-get_elem? (Quiet j) (b.entries t) i (j, json e)
            (reverse-All (Quiet j) (b.entries t) (listed_complete j _ u)) at
            ((str_iff e.id j).1 (keyed j e h))

  -- Where every row stands under its own id and every access ends in time, recovery succeeds and
  -- returns the number of running rows; each running row is failed with the recovery note, a
  -- duration up to now and a result that says the same; every other row is as it was.
  pub recover_in_flight_lem :
      (c : b.T) × (recover_in_flight b now true (λ _. prompt) (some t)
        ≡ (some c, ok (length (listed b t))))
      × ((j : Str) → b.get j c ≡ recovered now (b.get j t))
  unfolding recover_in_flight
  recover_in_flight_lem =
      let same : keep (matches running_filter) (readable (reverse (b.entries t))) ≡ listed b t =
        ap (λ p. keep p (readable (reverse (b.entries t)))) (fun_ext matches_running) in
      let (c, ran, all) = recover_rows_lem b now (listed b t) t listed-Present in
      (c, rw (list_lem b running_filter t, same, ran) refl, λ j. all j ∙ touched j (b.get j t) refl)
