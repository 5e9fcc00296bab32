-- ===== src/Listing.antt =====
-- The parameters of the lists: apps/api/src/orders/pagination.ts, order-filters.ts and
-- queue-search.ts in the same directory.
pub mod Bounds
mod Examples
use b2b_stm.Prelude.{
  ℕ, zero, suc, ◌+◌, ◌-◌, ◌*◌, ◌/◌, ◌%◌, ◌^◌, Bool, true, false, ◌&&◌, ◌||◌, not, Option, none,
  some, List, [], ◌∷◌, String, any, length, is_some, ◌==◌, nat_eq, if◌then◌else◌, ltb, leb,
}
use b2b_stm.Prelude.Int.{pos}
use b2b_stm.Text.{Text, text_eq, codes, trim}
use b2b_stm.Json.{Json, Number, int, str, number, integer_from, natural}
use b2b_stm.Dates.{Form, date, other, form_of, is_readable, prints_back}
use b2b_stm.Tx.{Error, Result, ok, err, bad_request, fault}

-- The least power of two by which the mantissa of a number fits in 53 bits: at most so many halvings.
power : ℕ → ℕ → ℕ
power zero n = 1
power (suc k) n = let p = power k (n / 2) in if ltb n (2 ^ 53) then 1 else 2 * p

-- The nearer multiple of p, and the even one of two that are as near.
nearest : ℕ → ℕ → ℕ
nearest p n =
    let q = n / p in
    let r = n % p in if ltb (2 * r) p || 2 * r == p && q % 2 == 0 then q * p else suc q * p

-- The double next to a number below 2 ^ 1100: exact below 2 ^ 53.
unfoldable pub double : ℕ → ℕ
unfolding power nearest
double n = if ltb n (2 ^ 53) then n else nearest (power 1100 n) n

-- The double that stands for a number, none for Infinity.
unfoldable pub finite_double : ℕ → Option ℕ
finite_double n = if ltb (double n) (2 ^ 1024) then some (double n) else none

-- The offset is none where the product is Infinity.
pub record Pagination : Type 0 where
  pub page : ℕ
  pub page_size : ℕ
  pub offset : Option ℕ

-- `value === undefined ? least : Number(value)`
unfoldable pub number_or : Number → Option Text → Number
number_or least none = least
number_or least (some s) = number (str s)

-- `Number.isInteger(n) && n >= 1` with the double that is read, which is not an integer where it is Infinity.
unfoldable pub page_number : Number → Option ℕ
page_number n = elim (finite_double (natural n)) [
  | none ↦ none
  | some d ↦ if integer_from 1 n && leb 1 d then some d else none
]

-- `(page - 1) * pageSize`, where the difference and the product are rounded.
unfoldable pub offset_of : ℕ → ℕ → Option ℕ
offset_of page size = elim (finite_double (page - 1)) [
  | none ↦ none
  | some before ↦ finite_double (before * size)
]

unfoldable pub pagination_of : Option ℕ → Option ℕ → Result Pagination
pagination_of none size = err (bad_request "Invalid pagination")
pagination_of (some page) none = err (bad_request "Invalid pagination")
pagination_of (some page) (some size) =
    if ltb 100 size
    then err (bad_request "Invalid pagination")
    else ok (record { page = page; page_size = size; offset = offset_of page size })

unfoldable pub parse_pagination : Option Text → Option Text → Result Pagination
parse_pagination page_value size_value =
    if not (is_some page_value) && is_some size_value
      || is_some page_value && not (is_some size_value)
    then err (bad_request "Invalid pagination")
    else pagination_of (page_number (number_or (int (pos 1)) page_value))
        (page_number (number_or (int (pos 50)) size_value))

pub record Page {ℓ} (A : Type ℓ) : Type ℓ where
  pub rows : List A
  pub page : ℕ
  pub page_size : ℕ
  pub total : ℕ
  pub total_pages : ℕ

-- `Math.ceil(total / pageSize)`
unfoldable pub ceil_div : ℕ → ℕ → ℕ
ceil_div a n = (a + (n - 1)) / n

unfoldable pub page_result {ℓ} : {A : Type ℓ} → List A → ℕ → Pagination → Page A
page_result items total p = record {
  rows = items;
  page = p.page;
  page_size = p.page_size;
  total = total;
  total_pages = ceil_div total p.page_size;
}

pub record OrderFilters : Type 0 where
  pub query : Text
  pub status : Text
  pub from : Option Text
  pub to : Option Text

-- `validDate`: the pattern, and then `toISOString`, which throws a RangeError for an invalid date.
unfoldable pub valid_date : Text → Result Bool
valid_date s = elim (form_of s) [
  | other ↦ ok false
  | date fields ↦ if is_readable fields then ok (prints_back fields) else err (fault "RangeError")
]

-- `x !== undefined && !validDate(x)`
unfoldable pub bad_date : Option Text → Result Bool
bad_date none = ok false
bad_date (some s) = elim (valid_date s) [ ok good ↦ ok (not good) | err e ↦ err e ]

-- The order of texts by their code units.
unfoldable pub text_lt : Text → Text → Bool
text_lt s [] = false
text_lt [] (d ∷ t) = true
text_lt (c ∷ s) (d ∷ t) = ltb c d || c == d && text_lt s t

-- `from && to && from > to`
unfoldable pub reversed_dates : Option Text → Option Text → Bool
reversed_dates (some f) (some t) = text_lt t f
reversed_dates _ _ = false

unfoldable pub normalized : Option Text → Text
normalized none = []
normalized (some q) = trim q

unfoldable pub selected_status : Option Text → Text
selected_status none = codes "all"
selected_status (some s) = s

-- The tests stand in the order of the code, which stops at the first that holds or throws.
unfoldable pub parse_order_filters :
    Option Text → Option Text → Option Text → Option Text → List Text → Result OrderFilters
parse_order_filters query status from to allowed =
    let bad = bad_request "Invalid order filters" in
    let q = normalized query in
    let s = selected_status status in
    if ltb 100 (length q)
    then err bad
    else if not (any (λ a. a == s) (codes "all" ∷ allowed))
    then err bad
    else (elim (bad_date from) [
      | err e ↦ err e
      | ok true ↦ err bad
      | ok false ↦ (elim (bad_date to) [
        | err e ↦ err e
        | ok true ↦ err bad
        | ok false ↦
            if reversed_dates from to
            then err bad
            else ok (record { query = q; status = s; from = from; to = to })
      ])
    ])

unfoldable pub parse_queue_search : Option Text → Result Text
parse_queue_search value =
    let query = normalized value in
    if ltb 100 (length query) then err (bad_request "Invalid queue search") else ok query
