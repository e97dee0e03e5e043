-- ===== src/Update/Service.antt =====
-- `Service.Check` and `Service.Apply` of internal/update/service.go. The network, the files and the
-- library that replaces the binary are an argument.
use bm.Base.{
  ℕ, Bool, true, false, not, ◌&&◌, ◌||◌, Option, none, some, List, [], ◌∷◌, ◌++◌, ◌⊎◌, inl, inr,
  Str, codes, ◌=s◌, is_empty, ◌==◌, leb, if◌then◌else◌, is_pos, drop, has_prefix,
}
use bm.Clock.{is_digit, ◌>>=◌}
use bm.Credentials.{name_byte}
use bm.Update.Tags.{contains, compare_release_tags}

-- A place of a pattern: any digit, or one byte.
pub data Place : Type 0 where
  digit : Place
  byte : ℕ → Place

abbrev fits : Place → ℕ → Bool
fits digit c = is_digit c
fits (byte d) c = c == d

abbrev bytes : Str → List Place
bytes [] = []
bytes (c ∷ s) = byte c ∷ bytes s

-- `RELEASE\.\d{4}-\d{2}-\d{2}T\d{2}-\d{2}-\d{2}Z`
abbrev stamp_places : List Place
stamp_places =
    bytes (codes "RELEASE.")
    ++ (digit
        ∷ digit
        ∷ digit
        ∷ digit
        ∷ byte 45
        ∷ digit
        ∷ digit
        ∷ byte 45
        ∷ digit
        ∷ digit
        ∷ byte 84
        ∷ digit
        ∷ digit
        ∷ byte 45
        ∷ digit
        ∷ digit
        ∷ byte 45
        ∷ digit
        ∷ digit
        ∷ byte 90
        ∷ [])

-- What was matched, and the rest.
unfoldable pub match_places : List Place → Str → Option (Str × Str)
match_places [] s = some ([], s)
match_places (p ∷ ps) [] = none
match_places (p ∷ ps) (c ∷ s) =
    let rest = match_places ps s in
    if fits p c then elim rest [ none ↦ none | some (m, r) ↦ some (c ∷ m, r) ] else none

unfoldable pub take_run : (ℕ → Bool) → Str → Str × Str
take_run good [] = ([], [])
take_run good (c ∷ s) = let (m, r) = take_run good s in if good c then (c ∷ m, r) else ([], c ∷ s)

abbrev suffix_byte : ℕ → Bool
suffix_byte c = name_byte c || c == 46

-- `\.[A-Za-z0-9._-]+`, or nothing.
unfoldable pub match_suffix : Str → Str
unfolding take_run
match_suffix [] = []
match_suffix (c ∷ s) =
    let (m, _) = take_run suffix_byte s in if c == 46 && not (is_empty m) then c ∷ m else []

-- The leftmost match of a pattern for a place in the text.
unfoldable pub find_match : (Str → Option Str) → Str → Option Str
find_match at [] = at []
find_match at (c ∷ s) =
    let later = find_match at s in elim (at (c ∷ s)) [ some m ↦ some m | none ↦ later ]

-- `releaseTagRegex` at one place.
unfoldable pub release_tag_at : Str → Option Str
unfolding match_places match_suffix
release_tag_at s = do (stamp, rest) ← match_places stamp_places s; some (stamp ++ match_suffix rest)

abbrev hex_byte : ℕ → Bool
hex_byte c = is_digit c || (leb 97 c && leb c 102)

-- `(?:-dirty)?`
abbrev dirty : Str → Str
dirty s = if has_prefix s (codes "-dirty") then codes "-dirty" else []

-- `-g[0-9a-f]+(?:-dirty)?`
unfoldable pub match_commit : Str → Option Str
unfolding take_run has_prefix
match_commit s =
    let (m, rest) = take_run hex_byte (drop 2 s) in
    if has_prefix s (codes "-g") && not (is_empty m)
    then some (codes "-g" ++ m ++ dirty rest)
    else none

-- `-\d+-g[0-9a-f]+(?:-dirty)?`, or nothing.
unfoldable pub match_build : Str → Str
unfolding take_run match_commit
match_build [] = []
match_build (c ∷ s) =
    let (m, rest) = take_run is_digit s in
    if c == 45 && not (is_empty m)
    then elim (match_commit rest) [ none ↦ [] | some t ↦ c ∷ m ++ t ]
    else []

-- `binaryVersionRegex` at one place.
unfoldable pub binary_version_at : Str → Option Str
unfolding match_places match_suffix match_build
binary_version_at s = do
  (stamp, rest) ← match_places stamp_places s
  some (stamp ++ (if is_empty (match_suffix rest) then match_build rest else match_suffix rest))

unfoldable pub is_release_tag : Str → Bool
unfolding find_match release_tag_at
is_release_tag v = elim (find_match release_tag_at v) [ none ↦ false | some _ ↦ true ]

pub record ReleaseInfo : Type 0 where
  pub version : Str
  pub download_url : Str
  pub sha256 : Str

pub record Status : Type 0 where
  pub current_version : Str
  pub installed_version : Str
  pub latest_version : Str
  pub update_available : Bool
  pub download_url : Str
  pub can_apply : Bool
  pub reason : Str
  pub restart_required : Bool

pub record ApplyResult : Type 0 where
  pub applied : Bool
  pub current_version : Str
  pub installed_version : Str
  pub latest_version : Str
  pub restart_required : Bool
  pub message : Str

-- A sum is an error or an answer. Of a function of a Bool, `false` is what `Check` meets, and `true`
-- what `Apply` meets after it: the pointer to the newest release may move between, and the binary, its
-- path and what stops a write to it may change. `public_key` is the answer of minisignPublicKey, and
-- `replace_binary` the error of the library that checks and replaces the binary.
pub record UpdateEnv : Type 0 where
  pub current_version : Str
  pub target_path : Bool → Str ⊎ Str
  pub binary : Bool → Option Str
  pub fetch_latest : Bool → Str ⊎ ReleaseInfo
  pub permission : Bool → Option Str
  pub download : Str → Option Str
  pub public_key : Str
  pub load_signature : Str → Option Str
  pub replace_binary : ReleaseInfo → Option Str

unfoldable pub installed_version : Option Str → Str → Str
unfolding contains find_match binary_version_at
installed_version none fallback = fallback
installed_version (some content) fallback =
    if not (is_empty fallback) && contains content fallback
    then fallback
    else elim (find_match binary_version_at content) [ none ↦ fallback | some tag ↦ tag ]

unfoldable pub can_apply : Option Str → Str → Str → Bool × Str
unfolding is_release_tag
can_apply permission path current =
    if is_release_tag current
    then elim permission [
      | none ↦ (true, [])
      | some e ↦ (false, codes "Cannot write the bm binary at " ++ path ++ codes ": " ++ e)
    ]
    else (false, codes "Development build; download the new binary and restart bm web manually.")

abbrev restart_due : Str → Str → Bool
restart_due installed current = not (is_empty installed) && not (installed =s current)

abbrev restart_text : Bool → Str → Str
restart_text true installed =
    codes "Update already installed on disk. Restart bm web to use " ++ installed ++ codes "."
restart_text false installed = []

-- `Check`, once the release is known.
unfoldable pub status_of : UpdateEnv → Str → ReleaseInfo → Status
unfolding installed_version can_apply compare_release_tags
status_of env path r =
    let installed = installed_version (env.binary false) env.current_version in
    let due = restart_due installed env.current_version in
    let newer = is_pos (compare_release_tags r.version installed) in
    let (may, why) = can_apply (env.permission false) path env.current_version in
    record {
      current_version = env.current_version;
      installed_version = installed;
      latest_version = r.version;
      update_available = newer;
      download_url = r.download_url;
      can_apply = newer && may;
      reason = if newer && not (is_empty why) then why else restart_text due installed;
      restart_required = due;
    }

unfoldable pub check_release : UpdateEnv → Str → Str ⊎ ReleaseInfo → Str ⊎ Status
unfolding status_of
check_release env path (inl e) = inl e
check_release env path (inr r) = inr (status_of env path r)

unfoldable pub check_path : UpdateEnv → Str ⊎ Str → Str ⊎ Status
unfolding check_release
check_path env (inl e) = inl e
check_path env (inr path) = check_release env path (env.fetch_latest false)

unfoldable pub check : UpdateEnv → Str ⊎ Status
unfolding check_path
check env = check_path env (env.target_path false)

abbrev pub not_applied : Status → Str → ApplyResult
not_applied s message = record {
  applied = false;
  current_version = s.current_version;
  installed_version = s.installed_version;
  latest_version = s.latest_version;
  restart_required = s.restart_required;
  message = message;
}

abbrev pub installed_result : UpdateEnv → Status → ReleaseInfo → ApplyResult
installed_result env s r =
    let installed = installed_version (env.binary true) s.current_version in
    record {
      applied = true;
      current_version = s.current_version;
      installed_version = installed;
      latest_version = r.version;
      restart_required = restart_due installed s.current_version;
      message =
          codes "Update installed on disk. Restart bm web to use version "
          ++ r.version
          ++ codes ".";
    }

-- The release that the library was asked to put in place of the binary, and the answer. The library may
-- fail after it has moved the file, so an error of its own says nothing of the binary.
abbrev pub Applied : Type 0
Applied = Option ReleaseInfo × (Str ⊎ ApplyResult)

abbrev path_error : Str ⊎ Str → Option Str
path_error (inl e) = some e
path_error (inr path) = none

abbrev signature_error : UpdateEnv → ReleaseInfo → Option Str
signature_error env r = if is_empty env.public_key then none else env.load_signature r.download_url

-- The steps from the second fetch to the replacement: each may end the update with an error.
abbrev pub steps_of : UpdateEnv → ReleaseInfo → List (Option Str)
steps_of env r =
    env.download r.download_url
    ∷ path_error (env.target_path true)
    ∷ env.permission true
    ∷ signature_error env r
    ∷ []

unfoldable pub run_steps : List (Option Str) → Applied → Applied
run_steps [] done = done
run_steps (some e ∷ steps) done = (none, inl e)
run_steps (none ∷ steps) done = run_steps steps done

unfoldable pub replaced : UpdateEnv → Status → ReleaseInfo → Option Str → Applied
unfolding installed_version
replaced env s r (some e) = (some r, inl e)
replaced env s r none = (some r, inr (installed_result env s r))

unfoldable pub install_release : UpdateEnv → Status → Str ⊎ ReleaseInfo → Applied
unfolding run_steps replaced
install_release env s (inl e) = (none, inl e)
install_release env s (inr r) = run_steps (steps_of env r) (replaced env s r (env.replace_binary r))

unfoldable pub apply_status : UpdateEnv → Str ⊎ Status → Applied
unfolding install_release
apply_status env (inl e) = (none, inl e)
apply_status env (inr s) =
    if s.restart_required && not s.update_available
    then (none, inr (not_applied s s.reason))
    else if not s.update_available
    then (none, inr (not_applied s (codes "Already up to date.")))
    else if not s.can_apply
    then (none, inl s.reason)
    else install_release env s (env.fetch_latest true)

unfoldable pub apply_update : UpdateEnv → Applied
unfolding apply_status check
apply_update env = apply_status env (check env)
