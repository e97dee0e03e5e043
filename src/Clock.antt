-- ===== src/Clock.antt =====
-- The layouts in which internal/update, internal/operations and internal/discovery read an
-- instant with time.Parse: that of a release tag, and RFC 3339. The reader follows the Go standard
-- library: an hour of one digit is taken, and so is a fraction of a second that the layout lacks.
-- An instant counts nanoseconds from a day before all years that a text can name.
use bm.Base.{
  ℕ, ◌+◌, ◌-◌, ◌*◌, ◌/◌, ◌%◌, zero, suc, Bool, true, false, not, ◌&&◌, ◌||◌, Option, none, some, [],
  ◌∷◌, Str, leb, ltb, ◌==◌, if◌then◌else◌,
}

infixl 5 ◌>>=◌
abbrev pub ◌>>=◌ {ℓ κ} : {A : Type ℓ} {B : Type κ} → Option A → (A → Option B) → Option B
none >>= f = none
some a >>= f = f a

abbrev guard : Bool → Option (Unit {0})
guard true = some tt
guard false = none

abbrev pub is_digit : ℕ → Bool
is_digit c = leb 48 c && leb c 57

-- One digit or two; two where the layout fixes the width.
unfoldable pub get_num : Bool → Str → Option (ℕ × Str)
get_num fixed [] = none
get_num fixed (c ∷ []) = if is_digit c && not fixed then some (c - 48, []) else none
get_num fixed (c ∷ d ∷ s) =
    if is_digit c
    then (if is_digit d
        then some ((c - 48) * 10 + (d - 48), s)
        else if fixed
        then none
        else some (c - 48, d ∷ s))
    else none

-- `none` at a byte that is no digit; the year has four.
unfoldable pub get_year : Str → Option (ℕ × Str)
unfolding get_num
get_year s = do
  (high, rest) ← get_num true s
  (low, rest) ← get_num true rest
  some (high * 100 + low, rest)

unfoldable pub literal : ℕ → Str → Option Str
literal c [] = none
literal c (d ∷ s) = if d == c then some s else none

abbrev pow10 : ℕ → ℕ
pow10 zero = 1
pow10 (suc k) = 10 * pow10 k

-- The digits of a fraction, nine of which count.
unfoldable pub nanoseconds : ℕ → ℕ → Str → ℕ × Str
nanoseconds k acc [] = (acc * pow10 k, [])
nanoseconds zero acc (c ∷ s) =
    let more = nanoseconds zero acc s in if is_digit c then more else (acc, c ∷ s)
nanoseconds (suc k) acc (c ∷ s) =
    let more = nanoseconds k (acc * 10 + (c - 48)) s in
    if is_digit c then more else (acc * pow10 (suc k), c ∷ s)

unfoldable pub fraction : Str → ℕ × Str
unfolding nanoseconds
fraction [] = (0, [])
fraction (c ∷ []) = (0, c ∷ [])
fraction (c ∷ d ∷ s) =
    if (c == 46 || c == 44) && is_digit d then nanoseconds 9 0 (d ∷ s) else (0, c ∷ d ∷ s)

abbrev is_leap : ℕ → Bool
is_leap y = y % 4 == 0 && (not (y % 100 == 0) || y % 400 == 0)

unfoldable pub days_in : ℕ → ℕ → ℕ
days_in month year =
    if month == 2
    then (if is_leap year then 29 else 28)
    else if month == 4 || month == 6 || month == 9 || month == 11
    then 30
    else 31

-- The days before a date of the Gregorian calendar, from the first of March 400 years before year 0.
unfoldable pub days : ℕ → ℕ → ℕ → ℕ
days year month day =
    let y = if leb month 2 then year + 399 else year + 400 in
    365 * y + y / 4 - y / 100 + y / 400 + (153 * ((month + 9) % 12) + 2) / 5 + day - 1

-- Year, month and day, with their separators.
unfoldable pub read_date : Str → Option (ℕ × Str)
unfolding get_year get_num literal days_in days
read_date s = do
  (year, s) ← get_year s
  s ← literal 45 s
  (month, s) ← get_num true s
  _ ← guard (leb 1 month && leb month 12)
  s ← literal 45 s
  (day, s) ← get_num true s
  _ ← guard (leb 1 day && leb day (days_in month year))
  some (days year month day, s)

-- The time of the day in nanoseconds; the separator is an argument.
unfoldable pub read_time : ℕ → Str → Option (ℕ × Str)
unfolding get_num literal fraction
read_time separator s = do
  (hour, s) ← get_num false s
  _ ← guard (ltb hour 24)
  s ← literal separator s
  (minute, s) ← get_num true s
  _ ← guard (ltb minute 60)
  s ← literal separator s
  (second, s) ← get_num true s
  _ ← guard (ltb second 60)
  let (ns, s) = fraction s in some (((hour * 60 + minute) * 60 + second) * 1000000000 + ns, s)

unfoldable pub date_time : ℕ → Str → Option (ℕ × Str)
unfolding read_date read_time literal
date_time separator s = do
  (day, s) ← read_date s
  s ← literal 84 s
  (ns, s) ← read_time separator s
  some (day * 86400000000000 + ns, s)

abbrev at_end : ℕ → Str → Option ℕ
at_end t [] = some t
at_end t (c ∷ s) = none

-- The layouts "2006-01-02T15-04-05Z" and "2006-01-02T15:04:05Z", by their separator.
unfoldable pub parse_utc : ℕ → Str → Option ℕ
unfolding date_time literal
parse_utc separator s = do (t, s) ← date_time separator s; s ← literal 90 s; at_end t s

-- The instant in UTC, by the sign of its offset.
abbrev moved : Bool → ℕ → ℕ → ℕ
moved true t offset = t - offset
moved false t offset = t + offset

-- The zone of RFC 3339: Z, or a sign with hours and minutes, at the end of the text.
unfoldable pub with_zone : ℕ → Str → Option ℕ
unfolding get_num literal
with_zone t [] = none
with_zone t (c ∷ s) = if c == 90 then at_end t s else do
  (hour, s) ← get_num true s
  s ← literal 58 s
  (minute, s) ← get_num true s
  _ ← guard (leb hour 24 && leb minute 60 && (c == 43 || c == 45))
  at_end (moved (c == 43) t ((hour * 60 + minute) * 60000000000)) s

unfoldable pub parse_rfc3339 : Str → Option ℕ
unfolding date_time with_zone
parse_rfc3339 s = do (t, s) ← date_time 58 s; with_zone t s
