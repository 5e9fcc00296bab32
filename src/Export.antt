-- ===== src/Export.antt =====
-- The CSV and XLSX cells of apps/api/src/exports/data-export.service.ts. The code's workbooks are
-- written by a library, so that only their cells are here.
use b2b_stm.Prelude.{
  ℕ, Bool, true, false, ◌&&◌, ◌||◌, not, List, [], ◌∷◌, ◌++◌, length, map, any, ◌==◌, nat_eq,
  if◌then◌else◌,
}
use b2b_stm.Text.{Text, is_digit}

-- A number stands as `String` prints it.
pub data Cell : Type 0 where
  null : Cell
  number : Text → Cell
  words : Text → Cell

unfoldable pub only_digits : Text → Bool
unfolding is_digit
only_digits [] = true
only_digits (c ∷ s) = is_digit c && only_digits s

-- `/^\d+(\.\d+)?$/`: digits, and then perhaps a point with digits.
unfoldable pub decimal_rest : Text → Bool
unfolding is_digit only_digits
decimal_rest [] = true
decimal_rest (c ∷ s) =
    if c == b'.' then only_digits s && not (length s == 0) else is_digit c && decimal_rest s

abbrev pub unsigned_decimal : Text → Bool
unfolding decimal_rest is_digit
unsigned_decimal [] = false
unsigned_decimal (c ∷ s) = is_digit c && decimal_rest s

-- `/^-?\d+(\.\d+)?$/`
unfoldable pub is_decimal : Text → Bool
unfolding decimal_rest is_digit
is_decimal [] = false
is_decimal (c ∷ s) = if c == b'-' then unsigned_decimal s else unsigned_decimal (c ∷ s)

-- `/^[=+\-@\t\r]/`
unfoldable pub starts_formula : Text → Bool
starts_formula [] = false
starts_formula (c ∷ s) = c == b'=' || c == b'+' || c == b'-' || c == b'@' || c == 9 || c == 13

unfoldable pub safe_words : Text → Text
unfolding is_decimal starts_formula
safe_words s = if is_decimal s then s else if starts_formula s then 39 ∷ s else s

-- `safeText`
unfoldable pub safe_text : Cell → Text
unfolding safe_words
safe_text null = []
safe_text (number s) = s
safe_text (words s) = safe_words s

-- `/[",\r\n]/`
unfoldable pub is_special : ℕ → Bool
is_special c = c == b'"' || c == b',' || c == 13 || c == 10

-- `replaceAll('"', '""')`
unfoldable pub double_quotes : Text → Text
double_quotes [] = []
double_quotes (c ∷ s) =
    let rest = double_quotes s in if c == b'"' then b'"' ∷ b'"' ∷ rest else c ∷ rest

unfoldable pub quoted_text : Text → Text
unfolding is_special double_quotes
quoted_text s = if any is_special s then b'"' ∷ (double_quotes s ++ (b'"' ∷ [])) else s

-- `csvCell`
unfoldable pub csv_cell : Cell → Text
unfolding quoted_text safe_text
csv_cell cell = quoted_text (safe_text cell)

-- `parts.join(separator)`
unfoldable pub join : Text → List Text → Text
join separator [] = []
join separator (x ∷ []) = x
join separator (x ∷ y ∷ ys) = x ++ (separator ++ join separator (y ∷ ys))

unfoldable pub csv_line : List Cell → Text
unfolding join
csv_line row = join (b',' ∷ []) (map csv_cell row)

-- The body of a CSV file: the header and the rows, with a mark in front.
unfoldable pub csv_body : List Text → List (List Cell) → Text
unfolding csv_line join
csv_body headers rows =
    0xfeff ∷ (join (13 ∷ 10 ∷ []) (map csv_line (map words headers ∷ rows)) ++ (13 ∷ 10 ∷ []))
