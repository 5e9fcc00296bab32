-- ===== src/Dates.antt =====
-- Dates in the form YYYY-MM-DD, as the language's `Date` reads and prints them. A month beyond
-- twelve or a day beyond 31 gives an invalid date, and a day beyond the end of its month one of the
-- next month, so that printing it gives another text.
use b2b_stm.Prelude.{
  ℕ, ◌+◌, ◌-◌, ◌*◌, ◌%◌, Bool, true, false, ◌&&◌, ◌||◌, not, [], ◌∷◌, ◌==◌, nat_eq, if◌then◌else◌,
  leb,
}
use b2b_stm.Text.{Text, is_digit}

-- (year, month, day)
abbrev pub Fields : Type 0
Fields = ℕ × ℕ × ℕ

pub data Form : Type 0 where
  date : Fields → Form
  other : Form

two : ℕ → ℕ → ℕ
two a b = (a - 48) * 10 + (b - 48)

all_digits : Text → Bool
all_digits [] = true
all_digits (c ∷ s) = is_digit c && all_digits s

-- The pattern `^\d{4}-\d{2}-\d{2}$`, with the fields that it shows.
unfoldable pub form_of : Text → Form
unfolding two all_digits is_digit
form_of (y ∷ e ∷ a ∷ r ∷ p ∷ m ∷ o ∷ q ∷ d ∷ c ∷ []) =
    if p == b'-' && q == b'-' && all_digits (y ∷ e ∷ a ∷ r ∷ m ∷ o ∷ d ∷ c ∷ [])
    then date (two y e * 100 + two a r, two m o, two d c)
    else other
form_of _ = other

is_leap : ℕ → Bool
is_leap y = y % 4 == 0 && (not (y % 100 == 0) || y % 400 == 0)

unfoldable pub days_in_month : ℕ → ℕ → ℕ
unfolding is_leap
days_in_month y m =
    if m == 2
    then (if is_leap y then 29 else 28)
    else if m == 4 || m == 6 || m == 9 || m == 11
    then 30
    else 31

-- `new Date(...)` is not `Invalid Date`.
unfoldable pub is_readable : Fields → Bool
is_readable (y, m, d) = leb 1 m && leb m 12 && leb 1 d && leb d 31

-- The date prints as the text that it was read from.
unfoldable pub prints_back : Fields → Bool
unfolding days_in_month
prints_back (y, m, d) = leb d (days_in_month y m)

-- The test of `updateDelivery`, which asks for a readable date before it prints it.
unfoldable pub is_real_date : Text → Bool
unfolding form_of is_readable prints_back
is_real_date s = elim (form_of s) [
  | date fields ↦ is_readable fields && prints_back fields
  | other ↦ false
]
