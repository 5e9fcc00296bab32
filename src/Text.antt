-- ===== src/Text.antt =====
-- JavaScript strings as lists of UTF-16 code units, and what the services do with them: trimming,
-- the UUID pattern, the value that the database reads from a UUID, and the orders of `sort` and
-- `localeCompare` on UUIDs.
use b2b_stm.Prelude.{
  ℕ, zero, suc, ◌+◌, ◌-◌, ◌*◌, ◌^◌, ◌≡◌, refl, Bool, true, false, ◌&&◌, ◌||◌, not, List, [], ◌∷◌,
  leb, if◌then◌else◌, Eq, ◌==◌, ◌↔◌, arith, nat_eq, any,
}
use mathlib.Core.List.{reverse}
use Prim.Native.Char.{code}
use Prim.Native.String.{String}

abbrev pub Text : Type 0
Text = List ℕ

abbrev pub text_beq : Text → Text → Bool
text_beq [] [] = true
text_beq (c ∷ s) (d ∷ t) = c == d && text_beq s t
text_beq _ _ = false

text_beq_refl : (s : Text) → text_beq s s ≡ true
text_beq_refl [] = refl
text_beq_refl (c ∷ s) = ground (arith, text_beq_refl s)

text_beq_eq : (s t : Text) → text_beq s t ≡ true → s ≡ t
text_beq_eq [] [] h = refl
text_beq_eq [] (d ∷ t) h = ground arith
text_beq_eq (c ∷ s) [] h = ground arith
text_beq_eq (c ∷ s) (d ∷ t) h = ground (arith, text_beq_eq s t)

text_beq_of_eq : (s t : Text) → s ≡ t → text_beq s t ≡ true
text_beq_of_eq s t h = ground (arith, text_beq_refl s, h)

pub text_beq_iff : (s t : Text) → (text_beq s t ≡ true) ↔ (s ≡ t)
text_beq_iff s t = (text_beq_eq s t, text_beq_of_eq s t)

instance abbrev pub text_eq : Eq Text
text_eq = record { beq = text_beq; beq_iff = text_beq_iff }

-- The code units of a text whose characters all lie in the basic plane.
abbrev pub codes : String → Text
codes String.[] = []
codes (String.◌∷◌ c s) = code c ∷ codes s

-- WhiteSpace and LineTerminator of the language.
unfoldable pub is_space : ℕ → Bool
is_space c =
    leb 9 c && leb c 13
    || c == 32
    || c == 0xa0
    || c == 0x1680
    || leb 0x2000 c && leb c 0x200a
    || c == 0x2028
    || c == 0x2029
    || c == 0x202f
    || c == 0x205f
    || c == 0x3000
    || c == 0xfeff

trim_start : Text → Text
trim_start [] = []
trim_start (c ∷ s) = if is_space c then trim_start s else c ∷ s

unfoldable pub trim : Text → Text
unfolding is_space trim_start
trim s = reverse (trim_start (reverse (trim_start s)))

unfoldable pub is_digit : ℕ → Bool
is_digit c = leb b'0' c && leb c b'9'

is_upper_hex : ℕ → Bool
is_upper_hex c = leb b'A' c && leb c b'F'

unfoldable pub is_hex : ℕ → Bool
unfolding is_digit is_upper_hex
is_hex c = is_digit c || leb b'a' c && leb c b'f' || is_upper_hex c

hex_digit : ℕ → ℕ
unfolding is_digit
hex_digit c = if is_digit c then c - 48 else if leb b'a' c then c - 87 else c - 55

-- A pattern is a list of places: `true` is a hexadecimal digit, `false` a dash.
hex_places : ℕ → List Bool → List Bool
hex_places zero rest = rest
hex_places (suc n) rest = true ∷ hex_places n rest

pub uuid_pattern : List Bool
unfolding hex_places
uuid_pattern =
    hex_places 8 (
      false ∷ hex_places 4 (false ∷ hex_places 4 (false ∷ hex_places 4 (false ∷ hex_places 12 []))))

matches : List Bool → Text → Bool
matches [] [] = true
matches (true ∷ p) (c ∷ s) = is_hex c && matches p s
matches (false ∷ p) (c ∷ s) = c == b'-' && matches p s
matches _ _ = false

-- `uuid.test(s)`
unfoldable pub uuid_test : Text → Bool
unfolding is_hex matches uuid_pattern
uuid_test s = matches uuid_pattern s

value_from : ℕ → Text → ℕ
value_from n [] = n
value_from n (c ∷ s) = value_from (if c == b'-' then n else n * 16 + hex_digit c) s

-- The `uuid` that the database reads from the text: the case of its letters is forgotten.
unfoldable pub uuid_value : Text → ℕ
unfolding value_from hex_digit
uuid_value s = value_from 0 s

-- The database prints a `uuid` in lower case, so only such a text equals one that it returns.
unfoldable pub is_canonical : Text → Bool
unfolding is_upper_hex any
is_canonical s = not (any is_upper_hex s)

rank_from : ℕ → Text → ℕ
rank_from n [] = n
rank_from n (c ∷ s) = rank_from (n * 65536 + c) s

-- The order of `sort` on texts of one length.
unfoldable pub code_unit_rank : Text → ℕ
unfolding rank_from
code_unit_rank s = rank_from 0 s

case_bits : ℕ → Text → ℕ
case_bits n [] = n
case_bits n (c ∷ s) = case_bits (n * 2 + (if is_upper_hex c then 1 else 0)) s

-- The order of `localeCompare` on UUIDs: letters first without case, then lower before upper case.
unfoldable pub collation_rank : Text → ℕ
unfolding uuid_value case_bits is_upper_hex
collation_rank s = uuid_value s * 2 ^ 36 + case_bits 0 s
