-- ===== src/Listing/Bounds.antt =====
-- What the parameters of a list are after their check.
use native.Mathlib.Nat.{mul-one, mul-le-mul_left, mul-le-mul_right, lt-div-mul-add, div-mul-le_self}
use b2b_stm.Prelude.{
  Bool, not, ◌||◌, is_some, false, ltb, ℕ, ◌+◌, ◌-◌, ◌*◌, ◌^◌, ◌≤◌, ◌<◌, ◌≡◌, refl, true, ◌&&◌,
  Option, none, some, List, nat_eq, arith, leb, if◌then◌else◌,
}
use b2b_stm.Prelude.Int.{pos}
use b2b_stm.Text.{Text}
use b2b_stm.Json.{Number, int, integer_from, natural}
use b2b_stm.Tx.{Result, ok, err, bad_request}
use b2b_stm.Listing.{
  Pagination, number_or, double, finite_double, page_number, offset_of, pagination_of,
  parse_pagination, ceil_div, page_result,
}

below : (n a b : ℕ) → n < a → a ≤ b → ltb n b ≡ true
below n a b h k = ground (arith, h, k)

-- Below 2 ^ 53 a double is exact.
double_small : (n : ℕ) → n < 2 ^ 53 → double n ≡ n
unfolding double
double_small n h =
    let e : ltb n (2 ^ 53) ≡ true = below n (2 ^ 53) (2 ^ 53) h (omega arith) in rw e refl

finite_double_small : (n : ℕ) → n < 2 ^ 53 → finite_double n ≡ some n
unfolding finite_double
finite_double_small n h =
    let e : ltb n (2 ^ 1024) ≡ true = below n (2 ^ 53) (2 ^ 1024) h (omega arith) in
    rw (double_small n h, e) refl

page_number-least : (n : Number) (m : ℕ) → page_number n ≡ some m → 1 ≤ m
unfolding page_number
page_number-least n m h = least (finite_double (natural n)) h
  where
    least :
        (o : Option ℕ)
        → elim o [ none ↦ none | some d ↦ if integer_from 1 n && leb 1 d then some d else none ]
          ≡ some m
        → 1 ≤ m
    least none e = ground (arith, e)
    least (some d) e = ground (arith, e)

less : (a b size : ℕ) → a ≤ b → b * size < 2 ^ 53 → a * size < 2 ^ 53
less a b size h k = omega (arith, k, mul-le-mul_right size h)

below_product : (page size : ℕ) → 1 ≤ size → page * size < 2 ^ 53 → page - 1 < 2 ^ 53
below_product page size h k = omega (arith, k, mul-le-mul_left page h, mul-one page)

offset_exact :
    (page size : ℕ)
    → 1 ≤ size
    → page * size < 2 ^ 53
    → offset_of page size ≡ some ((page - 1) * size)
unfolding offset_of
offset_exact page size h k =
    let first : page - 1 < 2 ^ 53 = below_product page size h k in
    let product : (page - 1) * size < 2 ^ 53 = less (page - 1) page size (omega arith) k in
    rw (offset_of, finite_double_small (page - 1) first)
      (finite_double_small ((page - 1) * size) product)

-- A page from 1, a page size from 1 to 100, and the offset of the rows of the pages before it, where the
-- rows up to the end of the page can be counted exactly.
pub record IsBounded (p : Pagination) : Type 0 where
  pub first : 1 ≤ p.page
  pub some_rows : 1 ≤ p.page_size
  pub limited : p.page_size ≤ 100
  pub exact : p.page * p.page_size < 2 ^ 53 → p.offset ≡ some ((p.page - 1) * p.page_size)

pagination_of-IsBounded :
    (page size : Option ℕ) (p : Pagination)
    → ((m : ℕ) → page ≡ some m → 1 ≤ m)
    → ((m : ℕ) → size ≡ some m → 1 ≤ m)
    → pagination_of page size ≡ ok p
    → IsBounded p
unfolding pagination_of
pagination_of-IsBounded none size p h k e = cc
pagination_of-IsBounded (some page) none p h k e = cc
pagination_of-IsBounded (some page) (some size) p h k e =
    let same_page : p.page ≡ page = ground (arith, e) in
    let same_size : p.page_size ≡ size = ground (arith, e) in
    let its_offset : p.offset ≡ offset_of page size = ground (arith, e) in
    record {
      first = rw same_page (h page refl);
      some_rows = rw same_size (k size refl);
      limited = ground (arith, e);
      exact = rw (same_page, same_size, its_offset) (offset_exact page size (k size refl));
    }

-- A pagination that is accepted has a page from 1 and a page size from 1 to 100. Where the rows up to the
-- end of its page are fewer than 2 ^ 53, its offset is the number of rows on the pages before it; beyond
-- that the offset is rounded.
pub parse_pagination-IsBounded :
    (page size : Option Text) (p : Pagination) → parse_pagination page size ≡ ok p → IsBounded p
unfolding parse_pagination
parse_pagination-IsBounded page size p e =
    let n : Number = number_or (int (pos 1)) page in
    let m : Number = number_or (int (pos 50)) size in
    pagination_of-IsBounded (page_number n) (page_number m) p (page_number-least n)
      (page_number-least m)
      (chosen (not (is_some page) && is_some size || is_some page && not (is_some size)) e)
  where
    chosen :
        (b : Bool) {r : Result Pagination}
        → (if b then err (bad_request "Invalid pagination") else r) ≡ ok p
        → r ≡ ok p
    chosen true h = cc
    chosen false h = h

-- The pages of a list hold all its rows, and one page less does not.
pub page_result-pages :
    (A : Type 0) (items : List A) (total : ℕ) (p : Pagination)
    → 1 ≤ p.page_size
    → total ≤ (page_result items total p).total_pages * p.page_size
      × ((page_result items total p).total_pages * p.page_size < total + p.page_size)
unfolding page_result ceil_div
page_result-pages A items total p positive =
    let x : ℕ = total + (p.page_size - 1) in
    (
      omega (arith, lt-div-mul-add {a = x} positive, positive),
      omega (arith, div-mul-le_self x p.page_size, positive),
    )
