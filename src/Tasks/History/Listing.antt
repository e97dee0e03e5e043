-- ===== src/Tasks/History/Listing.antt =====
-- What `List` of internal/tasks/history.go returns, against a description with no loop.
use mathlib.Core.List.{reverse}
use bm.Base.{ℕ, zero, suc, ◌+◌, ◌≡◌, refl, true, some, List, [], ◌∷◌, Str, arith, keep}
use bm.Store.{ok}
use bm.Store.Bucket.{Bucket}
use bm.Tasks.Types.{HistoryEntry}
use bm.Tasks.History.Defs.{Json, json, malformed, HistoryFilter, matches, list_loop, list}

abbrev take {ℓ} : {A : Type ℓ} → ℕ → List A → List A
take zero xs = []
take (suc n) [] = []
take (suc n) (x ∷ xs) = x ∷ take n xs

-- The entries of the rows that decode.
abbrev pub readable : List (Str × Json HistoryEntry) → List HistoryEntry
readable [] = []
readable ((k, json e) ∷ rest) = e ∷ readable rest
readable ((k, malformed raw) ∷ rest) = readable rest

-- The first `limit` elements; a limit of 0 is none.
abbrev pub limited {ℓ} : {A : Type ℓ} → ℕ → List A → List A
limited zero xs = xs
limited (suc n) xs = take (suc n) xs

list_loop_unlimited :
    (f : HistoryFilter) (out : ℕ) (rows : List (Str × Json HistoryEntry))
    → f.limit ≡ 0
    → list_loop f out rows ≡ keep (matches f) (readable rows)
unfolding list_loop
list_loop_unlimited f out [] h = refl
list_loop_unlimited f out ((k, malformed raw) ∷ rest) h = list_loop_unlimited f out rest h
list_loop_unlimited f out ((k, json e) ∷ rest) h =
    ground (arith, list_loop_unlimited f out rest h, list_loop_unlimited f (out + 1) rest h)

list_loop_limited :
    (f : HistoryFilter) (left out : ℕ) (rows : List (Str × Json HistoryEntry))
    → f.limit ≡ out + suc left
    → list_loop f out rows ≡ take (suc left) (keep (matches f) (readable rows))
unfolding list_loop
list_loop_limited f left out [] h = refl
list_loop_limited f left out ((k, malformed raw) ∷ rest) h = list_loop_limited f left out rest h
list_loop_limited f zero out ((k, json e) ∷ rest) h =
    ground (arith, list_loop_limited f zero out rest h)
list_loop_limited f (suc left) out ((k, json e) ∷ rest) h =
    let later : f.limit ≡ out + 1 + suc left = omega arith in
    ground (
      arith,
      list_loop_limited f (suc left) out rest h,
      list_loop_limited f left (out + 1) rest later,
    )

list_loop_lem :
    (f : HistoryFilter) (n : ℕ) (rows : List (Str × Json HistoryEntry))
    → f.limit ≡ n
    → list_loop f 0 rows ≡ limited n (keep (matches f) (readable rows))
list_loop_lem f zero rows h = list_loop_unlimited f 0 rows h
list_loop_lem f (suc n) rows h = list_loop_limited f n 0 rows (omega arith)

-- A read in time returns the entries that decode and pass every bound of the filter, from the last
-- key to the first, and of these the first `limit` where the limit is not 0.
pub list_lem :
    (b : Bucket (Json HistoryEntry)) (f : HistoryFilter) (t : b.T)
    → list b f true (some t)
      ≡ ok (limited f.limit (keep (matches f) (readable (reverse (b.entries t)))))
unfolding list
list_lem b f t = rw (list_loop_lem f f.limit (reverse (b.entries t)) refl) refl
