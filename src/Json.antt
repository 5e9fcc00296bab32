-- ===== src/Json.antt =====
-- Request bodies as the handlers see them: JSON values, `value?.field`, `string(value)` and
-- `Number(value)`. A numeral in a text is read in its decimal spellings, exactly; a hexadecimal,
-- octal or binary one, and an object, read as NaN.
use b2b_stm.Prelude.{
  ℕ, ◌+◌, ◌-◌, ◌*◌, ◌%◌, ◌/◌, ◌^◌, Bool, true, false, ◌||◌, List, [], ◌∷◌, leb, ltb, if◌then◌else◌,
  String, ◌==◌, string_eq, nat_eq,
}
use b2b_stm.Prelude.Int.{ℤ, pos, pos_part, neg_part, sub_ℕ}
use b2b_stm.Text.{Text, trim, is_digit}

-- What a computation with `Number` can give, as far as the handlers distinguish it.
pub data Number : Type 0 where
  int : ℤ → Number
  fraction : Number
  nan : Number

mutual
  pub data Json : Type 0 where
    undefined null : Json
    bool : Bool → Json
    num : Number → Json
    str : Text → Json
    arr : Items → Json
    obj : Fields → Json

  pub data Items : Type 0 where
    nil : Items
    cons : Json → Items → Items

  pub data Fields : Type 0 where
    end : Fields
    field : String → Json → Fields → Fields

get_field : String → Fields → Json
get_field k end = undefined
get_field k (field j v fs) = if j == k then v else get_field k fs

-- `value?.k`
unfoldable pub get : String → Json → Json
unfolding get_field
get k (obj fs) = get_field k fs
get k _ = undefined

elements : Items → List Json
elements nil = []
elements (cons v vs) = v ∷ elements vs

-- `Array.isArray(value) ? value : []`
unfoldable pub items : Json → List Json
unfolding elements
items (arr vs) = elements vs
items _ = []

-- `typeof value === 'string' ? value.trim() : ''`
unfoldable pub string : Json → Text
unfolding trim
string (str s) = trim s
string _ = []

-- The value of a run of digits, how many there are, and what follows.
scan_digits : ℕ → ℕ → Text → ℕ × ℕ × Text
scan_digits n k [] = (n, k, [])
scan_digits n k (c ∷ s) =
    if is_digit c then scan_digits (n * 10 + (c - 48)) (k + 1) s else (n, k, c ∷ s)

signed : Bool → ℕ → ℤ
signed negative n = if negative then sub_ℕ 0 n else pos n

-- A double holds no larger integer.
finite : ℤ → Number
finite z = if ltb (pos_part z + neg_part z) (2 ^ 1024 - 2 ^ 970) then int z else nan

-- n * 10 ^ (up - down)
scaled : Bool → ℕ → ℕ → ℕ → Number
scaled negative n up down =
    if leb down up
    then finite (signed negative (n * 10 ^ (up - down)))
    else if n % 10 ^ (down - up) == 0
    then finite (signed negative (n / 10 ^ (down - up)))
    else fraction

-- An exponent part, or nothing: (exponent upwards, exponent downwards).
exponent : Text → (ℕ → ℕ → Number) → Number
exponent [] f = f 0 0
exponent (c ∷ []) f = nan
exponent (c ∷ d ∷ s) f =
    if (c == b'e' || c == b'E')
    then (let signless = d == b'+' || d == b'-' in
        let (n, k, rest) = scan_digits 0 0 (if signless then s else d ∷ s) in
        elim rest [ [] ↦ if k == 0 then nan else if d == b'-' then f 0 n else f n 0 | _ ∷ _ ↦ nan ])
    else nan

mantissa : Bool → Text → Number
mantissa negative s =
    let (n, k, rest) = scan_digits 0 0 s in
    elim rest [
      | [] ↦ if k == 0 then nan else finite (signed negative n)
      | c ∷ s' ↦
          if c == b'.'
          then (let (n', k', rest') = scan_digits n 0 s' in
              if k + k' == 0
              then nan
              else exponent rest' (λ up down. scaled negative n' up (down + k')))
          else if k == 0
          then nan
          else exponent (c ∷ s') (scaled negative n)
    ]

numeral : Text → Number
numeral [] = int (pos 0)
numeral (c ∷ s) =
    if c == b'-'
    then mantissa true s
    else if c == b'+'
    then mantissa false s
    else mantissa false (c ∷ s)

-- An array converts through its text: one element alone stands for itself.
mutual
  number_of_items : Items → Number
  number_of_items nil = int (pos 0)
  number_of_items (cons v nil) = number_of_element v
  number_of_items (cons v (cons w vs)) = nan

  number_of_element : Json → Number
  number_of_element undefined = int (pos 0)
  number_of_element null = int (pos 0)
  number_of_element (bool b) = nan
  number_of_element (num n) = n
  number_of_element (str s) = numeral (trim s)
  number_of_element (arr vs) = number_of_items vs
  number_of_element (obj fs) = nan

-- `Number(value)`
unfoldable pub number : Json → Number
unfolding number_of_element numeral mantissa exponent scaled finite signed scan_digits trim is_digit
number undefined = nan
number null = int (pos 0)
number (bool b) = int (pos (if b then 1 else 0))
number (num n) = n
number (str s) = numeral (trim s)
number (arr vs) = number_of_items vs
number (obj fs) = nan

-- `Number.isInteger(n) && n >= least`, for a bound of zero or more.
unfoldable pub integer_from : ℕ → Number → Bool
integer_from least (int (pos n)) = leb least n
integer_from least _ = false

unfoldable pub natural : Number → ℕ
natural (int (pos n)) = n
natural _ = 0
