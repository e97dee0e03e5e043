-- ===== src/Store/Assoc.antt =====
-- A bucket in memory, which shows that the interface can be met: a list of pairs, newest first.
use bm.Base.{
  ℕ, suc, ◌≡◌, refl, ◌∙◌, sym, Bool, true, false, Option, none, some, List, [], ◌∷◌, Str, ◌=s◌,
  str_iff, str_refl, arith, if◌then◌else◌, Bool-cases, inl, inr, get_elem?, All, All-map, keep, not,
  if_both, ap, some-inj,
}
use bm.Store.Bucket.{Bucket, str_lt, Ascending}

str_lt_trans : (a b c : Str) → str_lt a b ≡ true → str_lt b c ≡ true → str_lt a c ≡ true
unfolding str_lt
str_lt_trans [] [] c h k = cc
str_lt_trans [] (y ∷ b) [] h k = cc
str_lt_trans [] (y ∷ b) (z ∷ c) h k = refl
str_lt_trans (x ∷ a) [] c h k = cc
str_lt_trans (x ∷ a) (y ∷ b) [] h k = cc
str_lt_trans (x ∷ a) (y ∷ b) (z ∷ c) h k = ground (arith, str_lt_trans a b c)

str_lt_total : (a b : Str) → (a =s b) ≡ false → str_lt a b ≡ false → str_lt b a ≡ true
unfolding str_lt ◌=s◌
str_lt_total [] [] e h = cc
str_lt_total [] (y ∷ b) e h = cc
str_lt_total (x ∷ a) [] e h = refl
str_lt_total (x ∷ a) (y ∷ b) e h = ground (arith, str_lt_total a b)

str_lt_ne : (a b : Str) → str_lt a b ≡ true → (a =s b) ≡ false
unfolding str_lt ◌=s◌
str_lt_ne [] [] h = cc
str_lt_ne [] (y ∷ b) h = refl
str_lt_ne (x ∷ a) [] h = cc
str_lt_ne (x ∷ a) (y ∷ b) h = ground (arith, str_lt_ne a b)

=s_comm : (j k : Str) → (j =s k) ≡ false → (k =s j) ≡ false
=s_comm j k h = ground (arith, str_iff j k, str_iff k j)

module _ {V : Type 0} where
  unfoldable pub lookup : Str → List (Str × V) → Option V
  lookup j [] = none
  lookup j ((k, v) ∷ rest) = if k =s j then some v else lookup j rest

  pub without : Str → List (Str × V) → List (Str × V)
  without j [] = []
  without j ((k, v) ∷ rest) = let t = without j rest in if k =s j then t else (k, v) ∷ t

  pub insert : Str → V → List (Str × V) → List (Str × V)
  insert k v [] = (k, v) ∷ []
  insert k v ((j, w) ∷ rest) =
      if k =s j
      then (k, v) ∷ rest
      else (if str_lt k j then (k, v) ∷ (j, w) ∷ rest else (j, w) ∷ insert k v rest)

  pub sorted : List (Str × V) → List (Str × V)
  sorted [] = []
  sorted ((k, v) ∷ rest) = insert k v (sorted rest)

  pub lookup-without :
      (k j : Str) (t : List (Str × V))
      → lookup j (without k t) ≡ (if k =s j then none else lookup j t)
  unfolding lookup without
  lookup-without k j [] = ground arith
  lookup-without k j ((i, v) ∷ t) =
      ground (arith, lookup-without k j t, str_iff i k, str_iff i j, str_iff k j)

  lookup-insert :
      (k j : Str) (v : V) (t : List (Str × V))
      → lookup j (insert k v t) ≡ (if k =s j then some v else lookup j t)
  unfolding lookup insert
  lookup-insert k j v [] = refl
  lookup-insert k j v ((i, w) ∷ t) =
      ground (arith, lookup-insert k j v t, str_iff k i, str_iff i j, str_iff k j)

  lookup-sorted : (j : Str) (t : List (Str × V)) → lookup j (sorted t) ≡ lookup j t
  unfolding lookup sorted
  lookup-sorted j [] = refl
  lookup-sorted j ((k, v) ∷ t) = lookup-insert k j v (sorted t) ∙ ground (arith, lookup-sorted j t)

  insert-All :
      (P : Str × V → Type 0) (k : Str) (v : V) (t : List (Str × V))
      → P (k, v)
      → All P t
      → All P (insert k v t)
  unfolding insert
  insert-All P k v [] h hs = (h, tt)
  insert-All P k v ((j, w) ∷ t) h hs = elim (Bool-cases (k =s j)) [
    | inl e ↦ rw e (h, hs.1)
    | inr e ↦ elim (Bool-cases (str_lt k j)) [
      | inl l ↦ rw (e, l) (h, hs)
      | inr l ↦ rw (e, l) (hs.0, insert-All P k v t h hs.1)
    ]
  ]

  insert-Ascending : (k : Str) (v : V) (t : List (Str × V)) → Ascending t → Ascending (insert k v t)
  unfolding insert
  insert-Ascending k v [] h = (tt, tt)
  insert-Ascending k v ((j, w) ∷ t) h = elim (Bool-cases (k =s j)) [
    | inl e ↦ rw e (subst_keys ((str_iff k j).0 e) h.0, h.1)
    | inr e ↦ elim (Bool-cases (str_lt k j)) [
      | inl l ↦ rw (e, l) ((l, All-map (λ x q. str_lt_trans k j x.0 l q) t h.0), h)
      | inr l ↦
          rw (e, l)
            (
              insert-All (λ x. str_lt j x.0 ≡ true) k v t (str_lt_total k j e l) h.0,
              insert-Ascending k v t h.1,
            )
    ]
  ]
    where
      subst_keys : k ≡ j → All (λ x. str_lt j x.0 ≡ true) t → All (λ x. str_lt k x.0 ≡ true) t
      subst_keys q hs = rw q hs

  pub sorted-Ascending : (t : List (Str × V)) → Ascending (sorted t)
  unfolding sorted
  sorted-Ascending [] = tt
  sorted-Ascending ((k, v) ∷ t) = insert-Ascending k v (sorted t) (sorted-Ascending t)

  found_below :
      (k : Str) (v : V) (t u : List (Str × V))
      → All (λ e. str_lt k e.0 ≡ true) u
      → All (λ e. lookup e.0 t ≡ some e.1) u
      → All (λ e. lookup e.0 ((k, v) ∷ t) ≡ some e.1) u
  unfolding lookup
  found_below k v t [] h s = tt
  found_below k v t ((j, w) ∷ u) h s = (rw (str_lt_ne k j h.0) s.0, found_below k v t u h.1 s.1)

  Ascending-lookup : (t : List (Str × V)) → Ascending t → All (λ e. lookup e.0 t ≡ some e.1) t
  Ascending-lookup [] h = tt
  Ascending-lookup ((k, v) ∷ t) h =
      (unfold lookup in rw (str_refl k) refl, found_below k v t t h.0 (Ascending-lookup t h.1))

  pub sorted_sound : (t : List (Str × V)) → All (λ e. lookup e.0 t ≡ some e.1) (sorted t)
  sorted_sound t =
      All-map (λ e q. sym (lookup-sorted e.0 t) ∙ q) (sorted t)
        (Ascending-lookup (sorted t) (sorted-Ascending t))

  lookup_complete :
      (k : Str) (v : V) (t : List (Str × V))
      → lookup k t ≡ some v
      → (i : ℕ) × (get_elem? t i ≡ some (k, v))
  unfolding lookup
  lookup_complete k v [] h = cc
  lookup_complete k v ((j, w) ∷ t) h = elim (Bool-cases (j =s k)) [
    | inl e ↦ (0, ground (arith, str_iff j k))
    | inr e ↦ let (i, q) = lookup_complete k v t (ground arith) in (suc i, q)
  ]

  pub sorted_complete :
      (k : Str) (v : V) (t : List (Str × V))
      → lookup k t ≡ some v
      → (i : ℕ) × (get_elem? (sorted t) i ≡ some (k, v))
  sorted_complete k v t h = lookup_complete k v (sorted t) (lookup-sorted k t ∙ h)

  abbrev others : Str → List (Str × V) → List (Str × V)
  others k = keep (λ e. not (k =s e.0))

  others-insert_self : (k : Str) (v : V) (t : List (Str × V)) → others k (insert k v t) ≡ others k t
  unfolding insert
  others-insert_self k v [] = rw (str_refl k) refl
  others-insert_self k v ((j, w) ∷ t) = ground (arith, str_refl k, others-insert_self k v t)

  insert_below :
      (k : Str) (v : V) (t : List (Str × V))
      → All (λ e. str_lt k e.0 ≡ true) t
      → insert k v t ≡ (k, v) ∷ t
  unfolding insert
  insert_below k v [] h = refl
  insert_below k v ((j, w) ∷ t) h = rw (str_lt_ne k j h.0, h.0) refl

  keep-All :
      (P : Str × V → Type 0) (p : Str × V → Bool) (t : List (Str × V)) → All P t → All P (keep p t)
  keep-All P p [] h = tt
  keep-All P p (x ∷ t) h =
      if_both (All P) (p x) _ _ (λ _. (h.0, keep-All P p t h.1)) (λ _. keep-All P p t h.1)

  others-insert_ne :
      (k j : Str) (v : V) (t : List (Str × V))
      → (k =s j) ≡ false
      → Ascending t
      → others k (insert j v t) ≡ insert j v (others k t)
  unfolding insert
  others-insert_ne k j v [] e h = ground arith
  others-insert_ne k j v ((i, w) ∷ t) e h =
      ground (arith, e, str_iff j i, others-insert_ne k j v t e h.1, front)
    where
      front : str_lt j i ≡ true → insert j v (others k t) ≡ (j, v) ∷ others k t
      front l =
          insert_below j v (others k t)
            (keep-All _ _ t (All-map (λ x q. str_lt_trans j i x.0 l q) t h.0))

  pub others-sorted : (k : Str) (t : List (Str × V)) → sorted (without k t) ≡ others k (sorted t)
  unfolding sorted without
  others-sorted k [] = refl
  others-sorted k ((j, v) ∷ t) = elim (Bool-cases (j =s k)) [
    | inl same ↦
        rw (same, (str_iff j k).0 same)
          (others-sorted k t ∙ sym (others-insert_self k v (sorted t)))
    | inr ne ↦ rw ne (
        ap (insert j v) (others-sorted k t)
        ∙ sym (others-insert_ne k j v (sorted t) (=s_comm j k ne) (sorted-Ascending t)))
  ]

-- The bucket that keeps its pairs newest first, and sorts them for a cursor.
unfoldable pub assoc : (V : Type 0) → Bucket V
unfolding lookup without insert sorted
assoc V = record {
  T = List (Str × V);
  get = lookup;
  put = λ k v t. some ((k, v) ∷ t);
  delete = λ k t. some (without k t);
  entries = sorted;
  get-put = λ k j v t c h. cc (ap (lookup j) (some-inj h));
  get-delete = λ k j t c h. sym (ap (lookup j) (some-inj h)) ∙ lookup-without k j t;
  put_stored = λ k v w t h. ((k, v) ∷ t, refl);
  delete_total = λ k t. (without k t, refl);
  entries_sound = sorted_sound;
  entries_complete = sorted_complete;
  entries_ascending = sorted-Ascending;
  entries-delete = λ k t c h. ap sorted (sym (some-inj h)) ∙ others-sorted k t;
}
