-- ===== src/Operations/Shell.antt =====
-- The command lines that internal/operations sends to a host: helpers.go (unitName, healthProbeCommand)
-- and orchestrated.go (sudoSystemctl, sudoBash, shellQuote, the probe of a unit). A text is a list of
-- bytes, and a loop over its runes reads a byte that starts none as U+FFFD.
pub mod Quoting
use bm.Base.{
  ℕ, zero, suc, Option, none, some, ◌&&◌, leb, ltb, true, false, Bool, List, [], ◌∷◌, ◌++◌, Str,
  codes, ◌=s◌, is_empty, ◌==◌, if◌then◌else◌,
}
use bm.Domain.{ClusterEngine}
use bm.Deploy.Params.{trim_space}

abbrev pub within : ℕ → ℕ → ℕ → Bool
within low high c = leb low c && leb c high

-- Whether as many bytes follow as a rune has left; the bounds are those of the first of them.
unfoldable pub continues : ℕ → ℕ → ℕ → Str → Bool
continues low high zero s = true
continues low high (suc n) [] = false
continues low high (suc n) (d ∷ s) = within low high d && continues 128 191 n s

abbrev tail_if : Bool → ℕ → Option ℕ
tail_if ok n = if ok then some n else none

-- How many bytes of UTF-8 follow the first one of a rune, or none where no rune starts.
unfoldable pub rune_tail : ℕ → Str → Option ℕ
unfolding continues
rune_tail c s =
    if ltb c 128
    then some 0
    else if within 194 223 c
    then tail_if (continues 128 191 1 s) 1
    else if c == 224
    then tail_if (continues 160 191 2 s) 2
    else if c == 237
    then tail_if (continues 128 159 2 s) 2
    else if within 225 239 c
    then tail_if (continues 128 191 2 s) 2
    else if c == 240
    then tail_if (continues 144 191 3 s) 3
    else if within 241 243 c
    then tail_if (continues 128 191 3 s) 3
    else if c == 244
    then tail_if (continues 128 143 3 s) 3
    else none

-- The rest of a text of which the first bytes belong to a rune that is under way.
unfoldable pub replace_from : ℕ → Str → Str
unfolding rune_tail
replace_from n [] = []
replace_from (suc n) (c ∷ s) = c ∷ replace_from n s
replace_from zero (c ∷ s) = elim (rune_tail c s) [
  | none ↦ 239 ∷ 191 ∷ 189 ∷ replace_from 0 s
  | some n ↦ let rest = replace_from n s in if c == 39 then 39 ∷ 92 ∷ 39 ∷ 39 ∷ rest else c ∷ rest
]

unfoldable pub replace_single_quotes : Str → Str
unfolding replace_from
replace_single_quotes s = replace_from 0 s

unfoldable pub shell_quote : Str → Str
unfolding replace_single_quotes
shell_quote s = if is_empty s then 39 ∷ 39 ∷ [] else 39 ∷ (replace_single_quotes s ++ (39 ∷ []))

unfoldable pub sudo_bash : Str → Str → Str
unfolding shell_quote
sudo_bash user cmd =
    if user =s codes "root" then cmd else codes "sudo -n bash -c " ++ shell_quote cmd

unfoldable pub sudo_systemctl : Str → Str → Str
unfolding sudo_bash
sudo_systemctl user args =
    sudo_bash user (codes "systemctl " ++ args ++ codes " && systemctl daemon-reload")

unfoldable pub unit_name : ClusterEngine → Str
unit_name ClusterEngine.minio = codes "minio.service"
unit_name ClusterEngine.buckit = codes "buckit.service"

unfoldable pub load_state_probe_command : Str → Str
unfolding shell_quote
load_state_probe_command unit =
    codes "state=$(systemctl show -p LoadState --value "
    ++ shell_quote unit
    ++ codes " 2>/dev/null || true); printf \"%s\" \"$state\""

unfoldable pub parse_load_state_loaded : Str → Bool
unfolding trim_space
parse_load_state_loaded out = trim_space out =s codes "loaded"
