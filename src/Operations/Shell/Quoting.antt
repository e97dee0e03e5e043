-- ===== src/Operations/Shell/Quoting.antt =====
-- What a POSIX shell makes of the command lines of internal/operations/orchestrated.go.
use bm.Base.{
  ℕ, ◌≡◌, refl, Bool, false, ◌||◌, Option, none, some, List, [], ◌∷◌, ◌++◌, Str, codes, ◌=s◌, ◌==◌,
  if◌then◌else◌,
}
use bm.Base.{zero, suc, true, ◌&&◌, inl, inr, if_both, ==_iff, ◌∙◌, arith, Option-cases}
use bm.Operations.Shell.{
  within, rune_tail, replace_from, replace_single_quotes, shell_quote, sudo_bash,
}

-- Bytes that mean something to the shell outside of quotes, besides space, quote and backslash.
unfoldable pub is_special : ℕ → Bool
is_special c = has (codes "|&;<>()$`\"\t\n*?[#~=%!{}")
  where
    has : Str → Bool
    has [] = false
    has (d ∷ ds) = c == d || has ds

unfoldable pub letter : ℕ → Option (Str × List Str) → Option (Str × List Str)
letter c none = none
letter c (some (w, ws)) = some (c ∷ w, ws)

unfoldable pub next_word : Option (Str × List Str) → Option (Str × List Str)
next_word none = none
next_word (some (w, ws)) = some ([], w ∷ ws)

-- Where the reader stands: outside of quotes, between single quotes, behind a backslash.
pub data Mode : Type 0 where
  plain quoted escaped : Mode

-- The rest of the current word, and the words after it, which single spaces part; `none` where a
-- quote stays open or the shell would do more than part words.
unfoldable pub read : Mode → Str → Option (Str × List Str)
unfolding letter next_word is_special
read plain [] = some ([], [])
read quoted [] = none
read escaped [] = none
read escaped (c ∷ s) = letter c (read plain s)
read quoted (c ∷ s) =
    let closed = read plain s in
    let rest = read quoted s in if c == 39 then closed else letter c rest
read plain (c ∷ s) =
    let opened = read quoted s in
    let literal = read escaped s in
    let rest = read plain s in
    if c == 39
    then opened
    else if c == 92
    then literal
    else if c == 32
    then next_word rest
    else if is_special c
    then none
    else letter c rest

unfoldable pub words : Str → Option (List Str)
unfolding read
words s = elim (read plain s) [ none ↦ none | some (w, ws) ↦ some (w ∷ ws) ]

-- Whether a text, after the rest of a rune that is under way, is valid UTF-8.
unfoldable pub runs_on : ℕ → Str → Bool
unfolding rune_tail
runs_on n [] = true
runs_on (suc n) (c ∷ s) = within 128 191 c && runs_on n s
runs_on zero (c ∷ s) = elim (rune_tail c s) [ none ↦ false | some n ↦ runs_on n s ]

unfoldable pub is_utf8 : Str → Bool
unfolding runs_on
is_utf8 s = runs_on 0 s

read-byte :
    (c : ℕ) (s rest : Str)
    → (c == 39) ≡ false
    → read quoted rest ≡ some (s, [])
    → read quoted (c ∷ rest) ≡ some (c ∷ s, [])
unfolding read letter
read-byte c s rest e h = rw (e, h) refl

read-replace_from :
    (n : ℕ) (s : Str)
    → runs_on n s ≡ true
    → read quoted (replace_from n s ++ (39 ∷ [])) ≡ some (s, [])
unfolding replace_from runs_on read letter
read-replace_from n [] h = refl
read-replace_from (suc n) (c ∷ s) h =
    read-byte c s (replace_from n s ++ (39 ∷ [])) (ground (arith, h))
      (read-replace_from n s (ground (arith, h)))
read-replace_from zero (c ∷ s) h = elim (Option-cases (rune_tail c s)) [
  | inl e ↦ absurd (ground (arith, e, h))
  | inr (n, e) ↦
      let go = read-replace_from n s (ground (arith, e, h)) in
      rw (replace_from, e)
        (if_both (λ r. read quoted (r ++ (39 ∷ [])) ≡ some (c ∷ s, [])) (c == 39)
          (39 ∷ 92 ∷ 39 ∷ 39 ∷ replace_from n s) (c ∷ replace_from n s)
          (λ k. rw (go, (==_iff c 39).0 k) refl)
          (λ k. read-byte c s (replace_from n s ++ (39 ∷ [])) k go))
]

-- Between quotes, a text whose quotes are replaced is read as it was.
pub read-replace_single_quotes :
    (s : Str) → is_utf8 s ≡ true → read quoted (replace_single_quotes s ++ (39 ∷ [])) ≡ some (s, [])
unfolding replace_single_quotes is_utf8
read-replace_single_quotes s h = read-replace_from 0 s h

-- A quoted text is one word, the text itself.
pub read-shell_quote : (s : Str) → is_utf8 s ≡ true → read plain (shell_quote s) ≡ some (s, [])
unfolding shell_quote read
read-shell_quote [] h = refl
read-shell_quote (c ∷ s) h = read-replace_single_quotes (c ∷ s) h

unfoldable pub sudo_words : Str → List Str
sudo_words cmd = codes "sudo" ∷ codes "-n" ∷ codes "bash" ∷ codes "-c" ∷ cmd ∷ []

words-sudo :
    (q cmd : Str)
    → read plain q ≡ some (cmd, [])
    → words (codes "sudo -n bash -c " ++ q) ≡ some (sudo_words cmd)
unfolding words read letter next_word is_special sudo_words
words-sudo q cmd h = rw (words, read, h) refl

-- For a user other than root and a command in valid UTF-8, the shell reads the command line that runs
-- `cmd` as `sudo -n bash -c` with the whole of `cmd`, byte for byte, as its last argument; root runs
-- `cmd` itself.
pub sudo_bash-words :
    (user cmd : Str)
    → is_utf8 cmd ≡ true
    → (words (sudo_bash user cmd)
        ≡ (if user =s codes "root" then words cmd else some (sudo_words cmd)))
unfolding sudo_bash
sudo_bash-words user cmd h =
    if_both (λ r. words r ≡ (if user =s codes "root" then words cmd else some (sudo_words cmd)))
      (user =s codes "root") cmd (codes "sudo -n bash -c " ++ shell_quote cmd) (λ e. rw e refl)
      (λ e. words-sudo (shell_quote cmd) cmd (read-shell_quote cmd h) ∙ rw e refl)
