-- ===== src/Order/Tax.antt =====
-- The amounts of a shipment line (`ship` of apps/api/src/orders/order.service.ts): the tax of an
-- order line is computed on the supply shipped so far, and what was booked before is taken off.
-- Amounts are exact here; the code's doubles are exact as long as they stay below 2 ^ 53.
use b2b_stm.Prelude.{ℕ, ◌+◌, ◌*◌, ◌/◌, Option, none, some, [], ◌∷◌, ◌==◌, nat_eq, if◌then◌else◌}
use b2b_stm.Prelude.Int.{ℤ, pos, negsuc, sub_ℕ, ◌+ℤ◌}
use b2b_stm.Table.{Table, lookup}
use b2b_stm.Schema.{Db, ReceivableEntry, TaxCategory, taxable, exempt}

-- A whole amount times a rate.
unfoldable pub scale : ℤ → ℕ → ℤ
scale (pos a) n = pos (a * n)
scale (negsuc a) n = sub_ℕ 0 ((a + 1) * n)

-- `Math.floor(a / n)`
unfoldable pub floor_div : ℤ → ℕ → ℤ
floor_div (pos a) n = pos (a / n)
floor_div (negsuc a) n = negsuc (a / n)

-- `Math.floor((cumulativeSupply * tax_rate_bps + 5000) / 10000)`, or nothing where exempt.
unfoldable pub target_tax : TaxCategory → ℕ → ℤ → ℤ
unfolding scale floor_div
target_tax taxable rate supply = floor_div (scale supply rate +ℤ pos 5000) 10000
target_tax exempt rate supply = pos 0

-- The order line of a shipment line, through its reservation.
unfoldable pub line_of_shipment_line : Db → ℕ → Option ℕ
line_of_shipment_line db shipment_line = elim (lookup shipment_line db.shipment_lines) [
  | none ↦ none
  | some sl ↦ elim (lookup sl.reservation_id db.reservations) [
    | none ↦ none
    | some r ↦ some r.order_line_id
  ]
]

-- The order line whose shipment an entry books: the joins with `shipment_lines` and `reservations`.
unfoldable pub line_of_entry : Db → ReceivableEntry → Option ℕ
line_of_entry db e = elim e.shipment_line_id [
  | none ↦ none
  | some shipment_line ↦ line_of_shipment_line db shipment_line
]

-- What an entry that books some line adds for the wanted line.
abbrev pub share : Option ℕ → ℕ → ℤ → ℤ
share none line x = pos 0
share (some l) line x = if l == line then x else pos 0

-- `SELECT COALESCE(sum(f),0)` over the entries of an order line.
unfoldable pub booked_from : (ReceivableEntry → ℤ) → Db → ℕ → Table ℕ ReceivableEntry → ℤ
booked_from f db line [] = pos 0
booked_from f db line (e ∷ es) =
    share (line_of_entry db e.1) line (f e.1) +ℤ booked_from f db line es

unfoldable pub booked : (ReceivableEntry → ℤ) → ℕ → Db → ℤ
booked f line db = booked_from f db line db.receivable_entries
