-- ===== src/Integrity/Shipments.antt =====
-- `ship` over all lines of its shipment, with what comes before and after them.
use mathlib.Core.Path.{subst, sym, ap}
use b2b_stm.Prelude.{
  ℕ, ◌≡◌, some, nat_eq, pair_eq, arith, ◌∙◌, List, [], ◌∷◌, All, All-map, map, sort_by,
}
use b2b_stm.Text.{Text, text_eq, uuid_value, code_unit_rank}
use b2b_stm.Table.{Table, lookup}
use b2b_stm.Schema.{Db, Response}
use b2b_stm.Tx.{ok, or_throw, fault, conflict, query, pure, ◌>>=◌, ◌>>◌}
use b2b_stm.Tx.Inversion.{bind_ok, or_throw_ok}
use b2b_stm.Order.Input.{Line}
use b2b_stm.Order.Store.{take_assignment, notify_customer}
use b2b_stm.Order.Ship.{
  Row, ship_row, ship_lines, shippable, shippable_rows, create_shipment, finish_work, ship_work,
  first_row, ship_order, ship_rows, ship_unless_reviewed,
}
use b2b_stm.Integrity.{Books, books, IsIntegral}
use b2b_stm.Integrity.Quiet.{
  IsQuiet, quiet-IsIntegral, create_shipment-IsQuiet, finish_work-IsQuiet, notify_customer-IsQuiet,
  take_assignment-IsQuiet,
}
use b2b_stm.Integrity.Shipping.{
  Stocked, StockedAll, IsPositive, row-Stocked, Stocked-kept, ship_row-IsIntegral,
}

pub ship_lines-IsIntegral :
    (actor shipment : ℕ) (rows : Table Text Row) (lines : List Line) (a : ℕ) (db db' : Db)
    → IsIntegral (books db)
    → StockedAll db rows
    → All IsPositive lines
    → ship_lines actor shipment rows lines db ≡ ok (a, db')
    → IsIntegral (books db')
unfolding ship_lines
ship_lines-IsIntegral actor shipment rows [] a db db' h stocked positive ran = ground (arith, h)
ship_lines-IsIntegral actor shipment rows (line ∷ lines) a db db' h stocked positive ran =
    bind_ok (or_throw (lookup line.id rows) (fault "TypeError")) _ a db db' ran
      λ row d0 found rest0.
        bind_ok (ship_row actor shipment row line.quantity) _ a d0 db' rest0 λ u d one rest.
          bind_ok (ship_lines actor shipment rows lines) _ a d db' rest λ sum d' more last.
            let there = or_throw_ok (lookup line.id rows) (fault "TypeError") row db d0 found in
            let first : ship_row actor shipment row line.quantity db ≡ ok (u, d) =
              rw (sym there.1) one in
            let step : IsIntegral (books d) =
              ship_row-IsIntegral actor shipment line.quantity row u db d first h positive.0
                (row-Stocked db rows line.id row stocked there.0) in
            let stocked' : StockedAll d rows =
              All-map (λ r. Stocked db r.1) (λ r. Stocked d r.1) rows
                (λ r e. Stocked-kept actor shipment line.quantity row u db d first r.1 e) stocked in
            let done : IsIntegral (books d') =
              ship_lines-IsIntegral actor shipment rows lines sum d d' step stocked' positive.1
                more in
            ground (arith, done)

shippable-Stocked : (id : ℕ) (row : Row) (db : Db) → shippable id db ≡ some row → Stocked db row
unfolding shippable
shippable-Stocked id row db e = ground arith

-- Every row is read with the SKU of its reservation.
pub rows-stocked :
    (ids : List Text) (rows : Table Text Row) (db d : Db)
    → shippable_rows ids db ≡ ok (rows, d)
    → (d ≡ db) × StockedAll db rows
unfolding shippable_rows
rows-stocked [] rows db d ran =
    let none_read : [] ≡ rows = ground (arith, ran) in
    (ground (arith, ran), subst (StockedAll db) none_read tt)
rows-stocked (id ∷ ids) rows db d ran =
    bind_ok (query (shippable (uuid_value id))) _ rows db d ran λ x d0 read rest0.
      bind_ok (or_throw x (conflict "Reservation unavailable"))
        (λ row. shippable_rows ids >>= λ rest. pure ((id, row) ∷ rest)) rows d0 d rest0
        λ row d1 found rest1.
          bind_ok (shippable_rows ids) (λ rest. pure ((id, row) ∷ rest)) rows d1 d rest1
            λ others d2 more last.
              let there = or_throw_ok x (conflict "Reservation unavailable") row d0 d1 found in
              let kept : d1 ≡ db = ground (arith, there.1, read) in
              let rest = rows-stocked ids others db d2 (rw (sym kept) more) in
              let one : Stocked db row =
                shippable-Stocked (uuid_value id) row db (ground (arith, there.0, read)) in
              let all : ((id, row) ∷ others) ≡ rows = ground (arith, last) in
              (ground (arith, last, rest.0), subst (StockedAll db) all (one, rest.1))

stocked_quiet :
    (rows : Table Text Row) (db d : Db) → IsQuiet db d → StockedAll db rows → StockedAll d rows
stocked_quiet rows db d q stocked =
    let same : d.reservations ≡ db.reservations = ap (λ (b : Books). b.reservations) q.1 in
    All-map (λ r. Stocked db r.1) (λ r. Stocked d r.1) rows (λ r e. rw (same, e)) stocked

module _ (actor : ℕ) (lines : List Line) (rows : Table Text Row) (first : Row) (a : Response)
    (positive : All IsPositive lines) where
  ship_order-IsIntegral :
      (db db' : Db)
      → IsIntegral (books db)
      → StockedAll db rows
      → ship_order actor lines rows first db ≡ ok (a, db')
      → IsIntegral (books db')
  unfolding ship_order
  ship_order-IsIntegral db db' h stocked ran =
      bind_ok (create_shipment actor first) _ a db db' ran λ shipment d one rest.
        bind_ok (ship_lines actor shipment rows lines) _ a d db' rest λ sum d2 two rest2.
          bind_ok (finish_work actor first.line.order_id) _ a d2 db' rest2 λ u d3 three last.
            let created : IsQuiet db d = create_shipment-IsQuiet actor first shipment db d one in
            let shipped : IsIntegral (books d2) =
              ship_lines-IsIntegral actor shipment rows lines sum d d2
                (quiet-IsIntegral db d created h) (stocked_quiet rows db d created stocked) positive
                two in
            let finished : IsIntegral (books d3) =
              quiet-IsIntegral d2 d3 (finish_work-IsQuiet actor first.line.order_id u d2 d3 three)
                shipped in
            let done : notify_customer first.customer_id "shipment_created" shipment d3 ≡ db' =
              ground (arith, last) in
            subst (λ (d : Db). IsIntegral (books d)) done
              (quiet-IsIntegral d3
                (notify_customer first.customer_id "shipment_created" shipment d3)
                (notify_customer-IsQuiet first.customer_id "shipment_created" shipment d3) finished)

  ship_rows-IsIntegral :
      (db db' : Db)
      → IsIntegral (books db)
      → StockedAll db rows
      → ship_rows actor lines rows first db ≡ ok (a, db')
      → IsIntegral (books db')
  unfolding ship_rows ship_unless_reviewed
  ship_rows-IsIntegral db db' h stocked ran =
      let assigned : (take_assignment actor first.line.order_id
              >> ship_unless_reviewed actor lines rows first)
            db
          ≡ ok (a, db') =
        ground (arith, ran) in
      bind_ok (take_assignment actor first.line.order_id)
        (λ _. ship_unless_reviewed actor lines rows first) a db db' assigned
        λ u d one rest.
          let taken : IsQuiet db d = take_assignment-IsQuiet actor first.line.order_id u db d one in
          ship_order-IsIntegral d db' (quiet-IsIntegral db d taken h)
            (stocked_quiet rows db d taken stocked) (ground (arith, rest))

pub ship_work-IsIntegral :
    (actor : ℕ) (lines : List Line) (a : Response) (db db' : Db)
    → All IsPositive lines
    → IsIntegral (books db)
    → ship_work actor lines db ≡ ok (a, db')
    → IsIntegral (books db')
unfolding ship_work
ship_work-IsIntegral actor lines a db db' positive h ran =
    bind_ok (shippable_rows (sort_by code_unit_rank (map (λ l. l.id) lines))) _ a db db' ran
      λ rows d read rest.
        bind_ok (or_throw (first_row rows) (fault "TypeError"))
          (λ first. ship_rows actor lines rows first) a d db' rest
          λ first d1 found last.
            let stocked = rows-stocked _ rows db d read in
            let there = or_throw_ok (first_row rows) (fault "TypeError") first d d1 found in
            let same : d1 ≡ db = there.1 ∙ stocked.0 in
            ship_rows-IsIntegral actor lines rows first a positive db db' h stocked.1
              (rw (sym same) last)
