-- ===== src/Order/Taxed.antt =====
-- The tax of an order line does not depend on how its shipments are cut.
use mathlib.Core.Path.{sym, ap}
use b2b_stm.Prelude.{
  ℕ, ◌*◌, ◌≡◌, refl, ◌∙◌, some, Option, Option-cases, inl, inr, arith, nat_eq, [], ◌∷◌, beq_refl,
}
use b2b_stm.Prelude.Int.{ℤ, pos, ◌+ℤ◌, ◌-ℤ◌, +ℤ_parts, -ℤ_parts, eq_of_parts}
use b2b_stm.Table.{Table, lookup, insert}
use b2b_stm.Table.Laws.{lookup-modify, lookup-insert}
use b2b_stm.Schema.{Db, Reservation, ReceivableEntry, WorkLine}
use b2b_stm.Tx.{ok}
use b2b_stm.Tx.Inversion.{bind_ok}
use b2b_stm.Order.Store.{log_reservation}
use b2b_stm.Order.Work.{log_work}
use b2b_stm.Order.Tax.{line_of_entry, line_of_shipment_line, share, booked_from, booked, target_tax}
use b2b_stm.Order.Ship.{
  Row, ship_row, check_line, insert_shipment_line, book_sale, sale, move_out, ship_reserved,
  ship_stock, settle_line, finish_line,
}

abbrev pub supplied : ReceivableEntry → ℤ
supplied e = e.supply_amount

abbrev pub taxed : ReceivableEntry → ℤ
taxed e = e.tax_amount

-- Entries book the same order lines where these tables agree.
booked_same :
    (f : ReceivableEntry → ℤ) (line : ℕ) (db d : Db) (es : Table ℕ ReceivableEntry)
    → ((e : ReceivableEntry) → line_of_entry d e ≡ line_of_entry db e)
    → booked_from f d line es ≡ booked_from f db line es
unfolding booked_from
booked_same f line db d [] same = refl
booked_same f line db d ((k, e) ∷ es) same =
    λ i. share (same e i) line (f e) +ℤ booked_same f line db d es same i

cancel : (a b : ℤ) → (a -ℤ b) +ℤ b ≡ a
cancel a b = eq_of_parts _ _ (omega (arith, +ℤ_parts (a -ℤ b) b, -ℤ_parts a b))

plus_comm : (a b : ℤ) → a +ℤ b ≡ b +ℤ a
plus_comm a b = eq_of_parts _ _ (omega (arith, +ℤ_parts a b, +ℤ_parts b a))

module _ (actor q price shipment_line : ℕ) (row : Row) (w : WorkLine) (a : Unit {0}) (db db' : Db)
    (ran : settle_line actor row w q shipment_line db ≡ ok (a, db'))
    (own : line_of_shipment_line db shipment_line ≡ some row.reservation.order_line_id)
    (priced : row.line.unit_price ≡ some price) where
  abbrev line : ℕ
  line = row.reservation.order_line_id

  abbrev entry : ReceivableEntry
  entry = sale row price shipment_line q (booked supplied line db) (booked taxed line db)

  entries : db'.receivable_entries ≡ insert db.next_id entry db.receivable_entries
  unfolding settle_line book_sale finish_line log_work
  entries = ground (arith, priced)

  shipment_lines : db'.shipment_lines ≡ db.shipment_lines
  unfolding settle_line book_sale finish_line log_work
  shipment_lines = ground (arith, priced)

  reservations : db'.reservations ≡ db.reservations
  unfolding settle_line book_sale finish_line log_work
  reservations = ground (arith, priced)

  same_line : (e : ReceivableEntry) → line_of_entry db' e ≡ line_of_entry db e
  unfolding line_of_entry line_of_shipment_line
  same_line e = elim (Option-cases e.shipment_line_id) [
    | inl missing ↦ ground (arith, missing)
    | inr (s, there) ↦ ground (arith, there, shipment_lines, reservations)
  ]

  own_line : line_of_entry db' entry ≡ some line
  unfolding line_of_entry
  own_line = same_line entry ∙ own

  booked_entries :
      (f : ReceivableEntry → ℤ)
      → booked f line db' ≡ booked_from f db' line (insert db.next_id entry db.receivable_entries)
  unfolding booked
  booked_entries f = ap (booked_from f db' line) entries

  booked_head :
      (f : ReceivableEntry → ℤ)
      → booked_from f db' line (insert db.next_id entry db.receivable_entries)
        ≡ share (line_of_entry db' entry) line (f entry)
          +ℤ booked_from f db' line db.receivable_entries
  unfolding booked_from insert
  booked_head f = refl

  own_share : (x : ℤ) → share (line_of_entry db' entry) line x ≡ x
  own_share x = ap (λ (o : Option ℕ). share o line x) own_line ∙ ground (arith, beq_refl line)

  booked_after : (f : ReceivableEntry → ℤ) → booked f line db' ≡ f entry +ℤ booked f line db
  unfolding booked
  booked_after f =
      booked_entries f
      ∙ booked_head f
      ∙ (λ i. own_share (f entry) i +ℤ booked_same f line db db' db.receivable_entries same_line i)

  settled :
      booked taxed line db'
      ≡ target_tax row.line.tax_category row.line.tax_rate_bps (booked supplied line db')
  settled =
      let target = target_tax row.line.tax_category row.line.tax_rate_bps in
      booked_after taxed
      ∙ cancel (target (booked supplied line db +ℤ pos (q * price))) (booked taxed line db)
      ∙ ap target
          (plus_comm (booked supplied line db) (pos (q * price)) ∙ sym (booked_after supplied))

check_line-same :
    (row : Row) (q : ℕ) (w : WorkLine) (db d : Db) → check_line row q db ≡ ok (w, d) → d ≡ db
unfolding check_line
check_line-same row q w db d ran = ground arith

-- The new shipment line belongs to the order line of its reservation.
stocked_line :
    (actor shipment q : ℕ) (row : Row) (line : ℕ) (db d : Db) (r : Reservation)
    → ship_stock actor shipment row q db ≡ ok (line, d)
    → lookup row.id db.reservations ≡ some r
    → r.order_line_id ≡ row.reservation.order_line_id
    → line_of_shipment_line d line ≡ some row.reservation.order_line_id
unfolding ship_stock insert_shipment_line log_reservation move_out line_of_shipment_line
stocked_line actor shipment q row line db d r ran found its = ground (
  arith,
  found,
  its,
  beq_refl row.id,
  beq_refl db.next_id,
  lookup-insert db.next_id db.next_id
      (record { shipment_id = shipment; reservation_id = row.id; quantity = q }) db.shipment_lines,
  lookup-modify row.id row.id (ship_reserved q) db.reservations,
)

-- After a shipment of a line, in however many parts it went out, the tax booked for the line is the
-- tax of its whole supply so far, rounded once.
pub ship_row-taxed :
    (actor shipment q price : ℕ) (row : Row) (a : Unit {0}) (db db' : Db) (r : Reservation)
    → ship_row actor shipment row q db ≡ ok (a, db')
    → lookup row.id db.reservations ≡ some r
    → r.order_line_id ≡ row.reservation.order_line_id
    → row.line.unit_price ≡ some price
    → booked taxed row.reservation.order_line_id db'
      ≡ target_tax row.line.tax_category row.line.tax_rate_bps
          (booked supplied row.reservation.order_line_id db')
unfolding ship_row
ship_row-taxed actor shipment q price row a db db' r ran found its priced =
    bind_ok (check_line row q) _ a db db' ran λ w d0 checked rest.
      bind_ok (ship_stock actor shipment row q) _ a d0 db' rest λ line d moved last.
        let same : d0 ≡ db = check_line-same row q w db d0 checked in
        settled actor q price line row w a d db' last
          (stocked_line actor shipment q row line db d r (rw (sym same) moved) found its) priced
