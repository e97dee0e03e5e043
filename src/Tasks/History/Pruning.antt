-- ===== src/Tasks/History/Pruning.antt =====
-- What `Clear` and `Sweep` of internal/tasks/history.go leave of the history.
use bm.Base.{
  ℕ, zero, suc, ◌+◌, ◌-◌, ◌≤◌, ◌≡◌, refl, sym, ◌∙◌, ap, Bool, true, false, not, ◌||◌, some, List,
  [], ◌∷◌, Str, ◌=s◌, str_iff, str_refl, arith, if◌then◌else◌, Bool-cases, inl, inr, leb, length,
  subst, All, All-map, keep, ◌⊎◌,
}
use native.Mathlib.Nat.{zero-add}
use bm.Store.{ok, prompt}
use bm.Store.Bucket.{Bucket, str_lt, Ascending}
use bm.Tasks.Types.{Time, HistoryEntry}
use bm.Tasks.History.Defs.{
  Json, clear, wiped, keys_to_clear, sweep, history_row_cap, delete_all, sweep_loop,
}

abbrev Rows : Type 0
Rows = List (Str × Json HistoryEntry)

abbrev pub take {ℓ} : {A : Type ℓ} → ℕ → List A → List A
take zero xs = []
take (suc n) [] = []
take (suc n) (x ∷ xs) = x ∷ take n xs

abbrev pub mem_str : Str → List Str → Bool
mem_str k [] = false
mem_str k (x ∷ xs) = x =s k || mem_str k xs

str_lt_ne : (a b : Str) → str_lt a b ≡ true → (a =s b) ≡ false
unfolding str_lt ◌=s◌
str_lt_ne [] [] h = cc
str_lt_ne [] (y ∷ b) h = refl
str_lt_ne (x ∷ a) [] h = cc
str_lt_ne (x ∷ a) (y ∷ b) h = ground (arith, str_lt_ne a b)

keep_ext {ℓ} :
    {A : Type ℓ} (p q : A → Bool) (xs : List A) → All (λ a. p a ≡ q a) xs → keep p xs ≡ keep q xs
keep_ext p q [] h = refl
keep_ext p q (x ∷ xs) h = rw h.0 (rw (keep_ext p q xs h.1) refl)

keep-keep {ℓ} :
    {A : Type ℓ} (p q r : A → Bool) (xs : List A)
    → ((a : A) → r a ≡ (if q a then p a else false))
    → keep p (keep q xs) ≡ keep r xs
keep-keep p q r [] h = refl
keep-keep p q r (x ∷ xs) h = ground (arith, h x, keep-keep p q r xs h)

keep-All {ℓ} : {A : Type ℓ} (p : A → Bool) (xs : List A) → All (λ a. p a ≡ true) xs → keep p xs ≡ xs
keep-All p [] h = refl
keep-All p (x ∷ xs) h = rw h.0 (rw (keep-All p xs h.1) refl)

not_cleared :
    (before : Time) (k : Str) (l : Rows)
    → All (λ e. str_lt k e.0 ≡ true) l
    → mem_str k (keys_to_clear before l) ≡ false
unfolding keys_to_clear
not_cleared before k [] h = refl
not_cleared before k ((j, v) ∷ l) h =
    ground (arith, not_cleared before k l h.1, str_lt_ne k j h.0, str_iff k j, str_iff j k)

cleared_exact :
    (before : Time) (l : Rows)
    → Ascending l
    → All (λ e. not (mem_str e.0 (keys_to_clear before l)) ≡ not (wiped before e.1)) l
unfolding keys_to_clear
cleared_exact before [] h = tt
cleared_exact before ((k, v) ∷ l) h = (
  ground (arith, not_cleared before k l h.0, str_refl k),
  later l h.0 (cleared_exact before l h.1),
)
  where
    rest : List Str
    rest = keys_to_clear before l

    later :
        (u : Rows)
        → All (λ e. str_lt k e.0 ≡ true) u
        → All (λ e. not (mem_str e.0 rest) ≡ not (wiped before e.1)) u
        → All
            (λ e.
              not (mem_str e.0 (if wiped before v then k ∷ rest else rest))
              ≡ not (wiped before e.1))
            u
    later [] a g = tt
    later ((j, w) ∷ u) a g = (ground (arith, str_lt_ne k j a.0, g.0), later u a.1 g.1)

length-keys_to_clear :
    (before : Time) (l : Rows)
    → length (keys_to_clear before l) ≡ length (keep (λ e. wiped before e.1) l)
unfolding keys_to_clear
length-keys_to_clear before [] = refl
length-keys_to_clear before ((k, v) ∷ l) = ground (arith, length-keys_to_clear before l)

none_cleared : (l : Rows) → All (λ e. not (mem_str e.0 []) ≡ true) l
none_cleared [] = tt
none_cleared (x ∷ l) = (refl, none_cleared l)

module _ (b : Bucket (Json HistoryEntry)) where
  all_deleted :
      (ks : List Str) (t : b.T)
      → (c : b.T) × (delete_all b ks t ≡ ok c)
        × (b.entries c ≡ keep (λ e. not (mem_str e.0 ks)) (b.entries t))
  unfolding delete_all
  all_deleted [] t = (t, refl, sym (keep-All _ (b.entries t) (none_cleared (b.entries t))))
  all_deleted (k ∷ ks) t =
      let (t', gone) = b.delete_total k t in
      let (c, done, rows) = all_deleted ks t' in
      (
        c,
        rw gone done,
        rows
            ∙ ap (keep (λ e. not (mem_str e.0 ks))) (b.entries-delete k t t' gone)
            ∙ keep-keep _ _ _ (b.entries t) (λ e. ground arith),
      )

  -- A prompt `Clear` succeeds, deletes exactly the rows that the time bound picks (with the zero
  -- time every row, malformed ones included), keeps the others in their order, and returns how
  -- many it deleted.
  pub clear_lem :
      (before : Time) (t : b.T)
      → (c : b.T) × (clear b before prompt (some t)
          ≡ (some c, ok (length (keep (λ e. wiped before e.1) (b.entries t)))))
        × (b.entries c ≡ keep (λ e. not (wiped before e.1)) (b.entries t))
  unfolding clear
  clear_lem before t =
      let (c, done, rows) = all_deleted (keys_to_clear before (b.entries t)) t in
      (
        c,
        rw (done, length-keys_to_clear before (b.entries t)) refl,
        rows
            ∙ keep_ext _ _ (b.entries t)
                (cleared_exact before (b.entries t) (b.entries_ascending t)),
      )

  -- A delete takes at most one row away.
  one_dropped :
      (k : Str) (l : Rows) → Ascending l → length l ≤ length (keep (λ e. not (k =s e.0)) l) + 1
  one_dropped k [] asc = omega arith
  one_dropped k ((j, v) ∷ l) asc = elim (Bool-cases (k =s j)) [
    | inl same ↦
        let left : keep (λ e. not (k =s e.0)) l ≡ l = keep-All _ l (
          All-map
            (λ e h.
              ap not
                (subst (λ x. (x =s e.0) ≡ false) (sym ((str_iff k j).0 same)) (str_lt_ne j e.0 h)))
            l asc.0) in
        rw (same, left) (omega arith)
    | inr ne ↦ rw ne (omega (arith, one_dropped k l asc.1))
  ]

  -- What a loop of a sweep that may delete `n` rows does, whatever keys its cursor yields.
  abbrev Swept : List Str → ℕ → b.T → ℕ → b.T → Type 0
  Swept walk n t d c =
      (d ≤ n)
      × ((d ≡ n) ⊎ (d ≡ length walk))
      × (b.entries c ≡ keep (λ e. not (mem_str e.0 (take d walk))) (b.entries t))
      × (length (b.entries t) ≤ length (b.entries c) + d)

  no_turn : (walk : List Str) (n : ℕ) (t : b.T) → (0 ≡ n) ⊎ (0 ≡ length walk) → Swept walk n t 0 t
  no_turn walk n t h =
      (omega arith, h, sym (keep-All _ (b.entries t) (none_cleared (b.entries t))), omega arith)

  loop-Swept :
      (walk : List Str) (n deleted : ℕ) (t : b.T)
      → (c : b.T) × (d : ℕ) × (sweep_loop b walk (deleted + n) deleted t ≡ ok (c, deleted + d))
        × Swept walk n t d c
  unfolding sweep_loop
  loop-Swept [] n deleted t = (t, 0, ground arith, no_turn [] n t (inr refl))
  loop-Swept (k ∷ walk) zero deleted t = (t, 0, ground arith, no_turn (k ∷ walk) zero t (inl refl))
  loop-Swept (k ∷ walk) (suc n) deleted t =
      let (t', gone) = b.delete_total k t in
      let (c, d, done, (few, all, rows, left)) = loop-Swept walk n (deleted + 1) t' in
      let shift : deleted + suc n ≡ deleted + 1 + n = omega arith in
      let back : deleted + 1 + d ≡ deleted + suc d = omega arith in
      let fewer : length (b.entries t) ≤ length (b.entries t') + 1 =
        subst (λ l. length (b.entries t) ≤ length l + 1) (sym (b.entries-delete k t t' gone))
          (one_dropped k (b.entries t) (b.entries_ascending t)) in
      (
        c,
        suc d,
        rw shift (rw gone (ground (arith, done, back))),
        (
          omega (arith, few),
          elim all [ inl e ↦ inl (ap suc e) | inr e ↦ inr (ap suc e) ],
          rows
              ∙ ap (keep (λ e. not (mem_str e.0 (take d walk)))) (b.entries-delete k t t' gone)
              ∙ keep-keep _ _ _ (b.entries t) (λ e. ground arith),
          omega (arith, left, fewer),
        ),
      )

  -- Whatever keys the cursor of a prompt `Sweep` yields while rows are deleted under it: the sweep
  -- succeeds and returns how many of these keys, from the first on, it has deleted; that is all of
  -- them, or as many as there are rows over 1000; the rows that are left are those under no deleted
  -- key, in their order; and they are 1000 at least, or all where there are no more.
  pub sweep_lem :
      (walk : List Str) (t : b.T)
      → let over = length (b.entries t) - history_row_cap in
        (c : b.T) × (d : ℕ) × (sweep b walk prompt (some t) ≡ (some c, ok d))
        × (d ≤ over)
        × ((d ≡ over) ⊎ (d ≡ length walk))
        × (b.entries c ≡ keep (λ e. not (mem_str e.0 (take d walk))) (b.entries t))
        × (length (b.entries t) ≤ length (b.entries c) + over)
  unfolding sweep
  sweep_lem walk t = elim (Bool-cases (leb (length (b.entries t)) history_row_cap)) [
    | inl few ↦
        let none_over : length (b.entries t) - history_row_cap ≡ 0 = ground arith in
        let (small, all, rows, left) =
          no_turn walk (length (b.entries t) - history_row_cap) t (inl (sym none_over)) in
        (t, 0, rw few refl, small, all, rows, omega arith)
    | inr many ↦
        let n : ℕ = length (b.entries t) - history_row_cap in
        let (c, d, done, (small, all, rows, left)) = loop-Swept walk n 0 t in
        let ran : sweep_loop b walk n 0 t ≡ ok (c, d) =
          subst (λ m. sweep_loop b walk m 0 t ≡ ok (c, d)) (zero-add n)
            (subst (λ m. sweep_loop b walk (0 + n) 0 t ≡ ok (c, m)) (zero-add d) done) in
        (c, d, rw (many, ran) refl, small, all, rows, omega (arith, left, small))
  ]
