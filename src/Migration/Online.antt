-- ===== src/Migration/Online.antt =====
-- Which hosts a cutover attempts, and what its wait for them shows: internal/migration/executor.go.
use bm.Base.{
  Bool, false, Option, zero, ◌⊎◌, sym, ap, some-inj, subst, ℕ, suc, ◌+◌, ◌≡◌, refl, inl, inr, true,
  not, none, some, List, [], ◌∷◌, map, Str, arith, if_both, Bool-cases, length, get_elem?, All,
  keep, is_empty,
}
use bm.Domain.{HostRow}
use bm.Migration.Types.{Server}
use bm.Migration.Hosts.{online_hosts, is_up, Partition, no_host_online, parted, partition_hosts}

abbrev ids : List HostRow → List Str
ids hosts = map (λ h. h.id) hosts

each_counted :
    (p : HostRow → Bool) (hosts : List HostRow)
    → length (keep p hosts) + length (ids (keep (λ h. not (p h)) hosts)) ≡ length hosts
each_counted p [] = omega arith
each_counted p (h ∷ hosts) = ground (arith, each_counted p hosts)

kept_pass : (p : HostRow → Bool) (hosts : List HostRow) → All (λ h. p h ≡ true) (keep p hosts)
kept_pass p [] = tt
kept_pass p (h ∷ hosts) =
    if_both (All (λ g. p g ≡ true)) (p h) _ _ (λ e. (e, kept_pass p hosts)) (λ _. kept_pass p hosts)

-- Whether a cutover attempts a host: one that ServerInfo shows online, or any where it has no answer.
abbrev pub is_attempted : Option (List Server) → HostRow → Bool
is_attempted none h = true
is_attempted (some servers) h = is_up (online_hosts servers) h

abbrev pub In {ℓ} : {A : Type ℓ} → A → List A → Type ℓ
In x xs = (i : ℕ) × (get_elem? xs i ≡ some x)

-- Each host is attempted or has its id among the skipped ones, as the answer of ServerInfo says.
abbrev pub Placed : Option (List Server) → List HostRow → List Str → HostRow → Type 0
Placed servers attempted skipped h =
    (is_attempted servers h ≡ true × In h attempted)
    ⊎ (is_attempted servers h ≡ false × In h.id skipped)

In-later {ℓ} : {A : Type ℓ} (x y : A) (xs : List A) → In x xs → In x (y ∷ xs)
In-later x y xs (i, e) = (suc i, e)

kept-In :
    (p : HostRow → Bool) (hosts : List HostRow) (i : ℕ) (h : HostRow)
    → get_elem? hosts i ≡ some h
    → p h ≡ true
    → In h (keep p hosts)
kept-In p [] i h at e = cc
kept-In p (g ∷ hosts) zero h at e =
    subst (λ x. In x (keep p (g ∷ hosts))) (some-inj at)
      (rw (subst (λ x. p x ≡ true) (sym (some-inj at)) e) (0, refl))
kept-In p (g ∷ hosts) (suc i) h at e =
    if_both (In h) (p g) _ _ (λ _. In-later h g (keep p hosts) (kept-In p hosts i h at e))
      (λ _. kept-In p hosts i h at e)

left-In :
    (p : HostRow → Bool) (hosts : List HostRow) (i : ℕ) (h : HostRow)
    → get_elem? hosts i ≡ some h
    → p h ≡ false
    → In h.id (ids (keep (λ g. not (p g)) hosts))
left-In p hosts i h at e =
    map-In (keep (λ g. not (p g)) hosts) h
      (kept-In (λ g. not (p g)) hosts i h at (ground (arith, e)))
  where
    map-In : (hosts : List HostRow) (h : HostRow) → In h hosts → In h.id (ids hosts)
    map-In [] h (i, e) = cc
    map-In (g ∷ hosts) h (zero, e) =
        (0, ap (λ (o : Option HostRow). elim o [ none ↦ none | some x ↦ some x.id ]) e)
    map-In (g ∷ hosts) h (suc i, e) = In-later h.id g.id (ids hosts) (map-In hosts h (i, e))

each_at :
    (P : HostRow → Type 0) (hosts : List HostRow)
    → ((i : ℕ) (h : HostRow) → get_elem? hosts i ≡ some h → P h)
    → All P hosts
each_at P [] f = tt
each_at P (h ∷ hosts) f = (f 0 h refl, each_at P hosts (λ i. f (suc i)))

abbrev Parted : Option (List Server) → List HostRow → Partition → Type 0
Parted servers hosts no_host_online = Unit
Parted servers hosts (parted attempted skipped) =
    All (λ h. is_attempted servers h ≡ true) attempted
    × All (Placed servers attempted skipped) hosts
    × (length attempted + length skipped ≡ length hosts)

kept_parted :
    (servers : Option (List Server)) (hosts : List HostRow)
    → Parted servers hosts (
        parted
          (keep (is_attempted servers) hosts)
          (ids (keep (λ h. not (is_attempted servers h)) hosts)))
kept_parted servers hosts = (
  kept_pass (is_attempted servers) hosts,
  each_at _ hosts (λ i h at. elim (Bool-cases (is_attempted servers h)) [
    | inl e ↦ inl (e, kept-In (is_attempted servers) hosts i h at e)
    | inr e ↦ inr (e, left-In (is_attempted servers) hosts i h at e)
  ]),
  each_counted (is_attempted servers) hosts,
)

keep_every : (hosts : List HostRow) → keep (λ h. true) hosts ≡ hosts
keep_every [] = refl
keep_every (h ∷ hosts) = ap (λ l. h ∷ l) (keep_every hosts)

keep_nothing : (hosts : List HostRow) → keep (λ h. false) hosts ≡ []
keep_nothing [] = refl
keep_nothing (h ∷ hosts) = keep_nothing hosts

partition_hosts-Parted :
    (servers : Option (List Server)) (hosts : List HostRow)
    → Parted servers hosts (partition_hosts servers hosts)
unfolding partition_hosts
partition_hosts-Parted none hosts =
    subst (λ l. Parted none hosts (parted l [])) (keep_every hosts)
      (subst (λ l. Parted none hosts (parted (keep (λ h. true) hosts) (ids l))) (keep_nothing hosts)
        (kept_parted none hosts))
partition_hosts-Parted (some servers) hosts =
    if_both (Parted (some servers) hosts) (is_empty (online_hosts servers)) _ _ (λ _. tt)
      (λ _. kept_parted (some servers) hosts)

-- Where a cutover parts its hosts, it attempts those that ServerInfo shows online, or all where
-- ServerInfo has no answer, and no other; each of the other ones has its id among the skipped ones;
-- and each host row is counted once.
pub partition_hosts_lem :
    (servers : Option (List Server)) (hosts attempted : List HostRow) (skipped : List Str)
    → partition_hosts servers hosts ≡ parted attempted skipped
    → All (λ h. is_attempted servers h ≡ true) attempted
      × All (Placed servers attempted skipped) hosts
      × (length attempted + length skipped ≡ length hosts)
partition_hosts_lem servers hosts attempted skipped h =
    subst (Parted servers hosts) h (partition_hosts-Parted servers hosts)
