-- ===== src/Integrity/Shipping.antt =====
-- `ship` keeps the books in order.
use b2b_stm.Prelude.{
  ℕ, suc, ◌≤◌, ◌<◌, ◌≡◌, none, some, nat_eq, pair_eq, arith, inl, inr, ◌≢◌, Option, Option-cases,
  [], ◌∷◌, All,
}
use b2b_stm.Text.{Text, text_eq}
use b2b_stm.Table.{Table, lookup, modify}
use b2b_stm.Table.Laws.{lookup-modify}
use b2b_stm.Schema.{Db, Sku, Balance, Reservation, WorkLine}
use b2b_stm.Tx.{ok}
use b2b_stm.Order.Input.{Line}
use b2b_stm.Order.Store.{sku_of, log_reservation}
use b2b_stm.Order.Work.{log_work}
use b2b_stm.Order.Ship.{
  Row, ship_row, ship_reserved, check_line, insert_shipment_line, book_sale, move_out, ship_stock,
  settle_line, finish_line,
}
use b2b_stm.Integrity.{books, IsIntegral}
use b2b_stm.Integrity.Dispatch.{dispatched, dispatched-IsIntegral}
use b2b_stm.Integrity.Ids.{same-IsIntegral}

abbrev pub sku_in : Option Reservation → Option Sku
sku_in none = none
sku_in (some r) = some (sku_of r)

-- The row's reservation still has the SKU that the row was read with.
abbrev pub Stocked : Db → Row → Type 0
Stocked db row = sku_in (lookup row.id db.reservations) ≡ some (sku_of row.reservation)

module _ (actor shipment q : ℕ) (row : Row) (a : Unit {0}) (db db' : Db)
    (ran : ship_row actor shipment row q db ≡ ok (a, db')) where
  abbrev sku : Sku
  sku = sku_of row.reservation

  shipped_books : books db' ≡ record (dispatched actor sku row.id q (books db)) {
    next_id = suc (suc (suc (suc (suc db.next_id))));
  }
  unfolding ship_row check_line ship_stock settle_line finish_line insert_shipment_line book_sale
      log_reservation move_out log_work
  shipped_books = ground arith

  worked : lookup row.id db.work_lines ≢ none
  unfolding ship_row check_line
  worked missing = ground arith

  inspected_enough :
      (w : WorkLine) → lookup row.id db.work_lines ≡ some w → q ≤ w.inspected_quantity
  unfolding ship_row check_line
  inspected_enough w e = ground arith

  balanced : lookup sku db.balances ≢ none
  unfolding ship_row check_line
  balanced missing = ground arith

  stock_enough :
      (b : Balance)
      → lookup sku db.balances ≡ some b
      → (q ≤ b.on_hand_quantity) × (q ≤ b.reserved_quantity)
  unfolding ship_row check_line
  stock_enough b e = ground arith

  reservations_kept : db'.reservations ≡ modify row.id (ship_reserved q) db.reservations
  unfolding ship_row check_line ship_stock settle_line finish_line insert_shipment_line book_sale
      log_reservation move_out log_work
  reservations_kept = ground arith

  pub Stocked-kept : (other : Row) → Stocked db other → Stocked db' other
  Stocked-kept other e =
      ground
        (arith, reservations_kept, lookup-modify other.id row.id (ship_reserved q) db.reservations)

  module _ (h : IsIntegral (books db)) (positive : 0 < q) (stocked : Stocked db row) where
    shipped_row :
        (r : Reservation) (b : Balance) (w : WorkLine)
        → lookup row.id db.reservations ≡ some r
        → lookup sku db.balances ≡ some b
        → lookup row.id db.work_lines ≡ some w
        → IsIntegral (books db')
    shipped_row r b w found balance work =
        same-IsIntegral (dispatched actor sku row.id q (books db)) (books db')
          (dispatched-IsIntegral (books db) h actor row.id q sku r b w found
            (ground (arith, stocked, found)) balance work positive (inspected_enough w work)
            (stock_enough b balance).0 (stock_enough b balance).1)
          (ground (arith, shipped_books)) (ground (arith, shipped_books))

    pub ship_row-IsIntegral : IsIntegral (books db')
    ship_row-IsIntegral = elim (Option-cases (lookup row.id db.reservations)) [
      | inl missing ↦ absurd (ground (arith, stocked, missing))
      | inr (r, found) ↦ elim (Option-cases (lookup sku db.balances)) [
        | inl missing ↦ absurd (balanced missing)
        | inr (b, balance) ↦ elim (Option-cases (lookup row.id db.work_lines)) [
          | inl missing ↦ absurd (worked missing)
          | inr (w, work) ↦ shipped_row r b w found balance work
        ]
      ]
    ]

abbrev pub IsPositive : Line → Type 0
IsPositive line = 0 < line.quantity

abbrev pub StockedAll : Db → Table Text Row → Type 0
StockedAll db rows = All (λ r. Stocked db r.1) rows

pub row-Stocked :
    (db : Db) (rows : Table Text Row) (id : Text) (row : Row)
    → StockedAll db rows
    → lookup id rows ≡ some row
    → Stocked db row
unfolding lookup
row-Stocked db [] id row h e = ground arith
row-Stocked db ((j, r) ∷ rows) id row h e = ground (arith, row-Stocked db rows id row h.1)
