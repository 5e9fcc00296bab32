-- ===== src/Listing/Examples.antt =====
-- List parameters at concrete values.
use b2b_stm.Prelude.{ℕ, ◌+◌, ◌*◌, ◌≤◌, ◌<◌, ◌≡◌, refl, none, ◌-◌, ◌^◌, some, [], arith}
use b2b_stm.Prelude.Int.{pos}
use b2b_stm.Text.{codes}
use b2b_stm.Json.{int, number, integer_from, natural}
use b2b_stm.Tx.{ok}
use b2b_stm.Listing.{
  Pagination, parse_pagination, page_result, number_or, page_number, offset_of, pagination_of,
  finite_double, double,
}
use b2b_stm.Listing.Bounds.{IsBounded, parse_pagination-IsBounded, page_result-pages}

second_page :
    parse_pagination (some (codes "2")) (some (codes "20"))
    ≡ ok (record { page = 2; page_size = 20; offset = some 20 })
unfolding parse_pagination number_or number integer_from natural page_number offset_of pagination_of
    finite_double double
second_page = refl

parse_pagination-IsBounded_example :
    IsBounded (record { page = 2; page_size = 20; offset = some 20 })
parse_pagination-IsBounded_example =
    parse_pagination-IsBounded (some (codes "2")) (some (codes "20"))
      (record { page = 2; page_size = 20; offset = some 20 }) second_page

-- 2 ^ 53 + 1 lies between two doubles and is read as the even one.
rounded_page : page_number (int (pos 9007199254740993)) ≡ some 9007199254740992
unfolding integer_from natural page_number finite_double double
rounded_page = refl

-- The product of the greatest page and 100 is Infinity.
endless_offset : offset_of (2 ^ 1024 - 2 ^ 971) 100 ≡ none
unfolding offset_of finite_double double
endless_offset = refl

abbrev the_page : Pagination
the_page = record { page = 2; page_size = 20; offset = some 20 }

page_result-pages_example :
    (41 ≤ (page_result {A = ℕ} [] 41 the_page).total_pages * 20)
    × ((page_result {A = ℕ} [] 41 the_page).total_pages * 20 < 41 + 20)
page_result-pages_example = page_result-pages ℕ [] 41 the_page (ground arith)
