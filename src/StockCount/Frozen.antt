-- ===== src/StockCount/Frozen.antt =====
-- A SKU under count is frozen.
use b2b_stm.Prelude.{
  ℕ, ◌<◌, ◌&&◌, ◌==◌, some, [], ◌∷◌, Bool, ◌≡◌, ◌≢◌, true, Option-cases, inl, inr, arith, nat_eq,
  pair_eq, any, beq_refl,
}
use b2b_stm.Text.{Text}
use b2b_stm.Table.{Table, lookup, insert}
use b2b_stm.Schema.{Db, Sku, Order, OrderLine, Response}
use b2b_stm.Tx.{ok}
use b2b_stm.Order.Store.{is_counting, is_open_count, sku_of, is_confirmed}
use b2b_stm.Order.Confirm.{reserve_line, allocate_line, allocate_work, order_in}
use b2b_stm.Order.Ship.{Row, ship_row, check_line}
use b2b_stm.Tx.Inversion.{bind_ok}
use b2b_stm.Integrity.Reserve.{order_in-same, order_in_found}
use b2b_stm.StockCount.{start_work}

start-is_counting :
    (actor : ℕ) (sku : Sku) (reason : Text) (a : Response) (db db' : Db)
    → start_work actor sku reason db ≡ ok (a, db')
    → is_counting sku db' ≡ true
unfolding start_work is_counting any insert is_open_count
start-is_counting actor sku reason a db db' ran = elim (Option-cases (lookup sku db.balances)) [
  | inl missing ↦ absurd (ground (arith, missing))
  | inr (b, there) ↦ ground (arith, there, beq_refl sku.0, beq_refl sku.1)
]

any_row :
    (k : ℕ) (line : OrderLine) (test : ℕ × OrderLine → Bool) (t : Table ℕ OrderLine)
    → lookup k t ≡ some line
    → test (k, line) ≡ true
    → any test t ≡ true
unfolding any lookup
any_row k line test [] h e = cc
any_row k line test ((j, l) ∷ t) h e =
    ground (arith, h, e, any_row k line test t, nat_eq.beq_iff j k)

module _ (sku : Sku) (db : Db) (counting : is_counting sku db ≡ true) where
  reserve_refused :
      (actor id : ℕ) (line : OrderLine) (a : ℕ × ℕ) (d : Db)
      → line.product_id ≡ sku.1
      → reserve_line actor sku.0 (id, line) db ≢ ok (a, d)
  unfolding reserve_line
  reserve_refused actor id line a d its ran = ground (arith, counting, its)

  allocate_refused :
      (actor id : ℕ) (line : OrderLine) (a : ℕ × ℕ) (d : Db)
      → line.product_id ≡ sku.1
      → line.reserved_quantity < line.requested_quantity
      → allocate_line actor sku.0 (id, line) db ≢ ok (a, d)
  unfolding allocate_line
  allocate_refused actor id line a d its waits ran = ground (arith, counting, its, waits)

  allocate_work_refused :
      (actor id k : ℕ) (o : Order) (line : OrderLine) (a : Response) (d : Db)
      → lookup id db.orders ≡ some o
      → o.warehouse_id ≡ sku.0
      → lookup k db.order_lines ≡ some line
      → line.order_id ≡ id
      → line.product_id ≡ sku.1
      → allocate_work actor id db ≢ ok (a, d)
  unfolding allocate_work
  allocate_work_refused actor id k o line a d order place there mine its ran =
      bind_ok (order_in is_confirmed "Order cannot receive inventory allocation" id) _ a db d ran
        λ x e found rest.
          let same : e ≡ db = order_in-same is_confirmed _ id x db e found in
          let its_order : o ≡ x =
            ground (arith, order, order_in_found is_confirmed _ id x db e found) in
          let one : any
                (λ row. row.1.order_id == id && is_counting (x.warehouse_id, row.1.product_id) e)
                e.order_lines
              ≡ true =
            any_row k line
              (λ row. row.1.order_id == id && is_counting (x.warehouse_id, row.1.product_id) e)
              e.order_lines (ground (arith, same, there))
              (ground (arith, same, mine, its, place, its_order, counting)) in
          ground (arith, rest, one)

  ship_refused :
      (actor shipment q : ℕ) (row : Row) (u : Unit {0}) (d : Db)
      → sku_of row.reservation ≡ sku
      → ship_row actor shipment row q db ≢ ok (u, d)
  unfolding ship_row check_line
  ship_refused actor shipment q row u d its ran = ground (arith, counting, its)

  start_refused :
      (actor : ℕ) (reason : Text) (a : Response) (d : Db)
      → start_work actor sku reason db ≢ ok (a, d)
  unfolding start_work
  start_refused actor reason a d ran = ground (arith, counting)

-- After a count of a SKU has started, none of its stock can be reserved for an order line, by confirm or by
-- allocate, or shipped; an order of its warehouse with a line of it is not allocated at all; and no
-- second count of it can start.
pub start-frozen :
    (actor : ℕ) (sku : Sku) (reason : Text) (a : Response) (db db' : Db)
    → start_work actor sku reason db ≡ ok (a, db')
    → ((by id : ℕ) (line : OrderLine) (b : ℕ × ℕ) (d : Db)
        → line.product_id ≡ sku.1
        → reserve_line by sku.0 (id, line) db' ≢ ok (b, d))
      × ((by id : ℕ) (line : OrderLine) (b : ℕ × ℕ) (d : Db)
          → line.product_id ≡ sku.1
          → line.reserved_quantity < line.requested_quantity
          → allocate_line by sku.0 (id, line) db' ≢ ok (b, d))
      × ((by id k : ℕ) (o : Order) (line : OrderLine) (b : Response) (d : Db)
          → lookup id db'.orders ≡ some o
          → o.warehouse_id ≡ sku.0
          → lookup k db'.order_lines ≡ some line
          → line.order_id ≡ id
          → line.product_id ≡ sku.1
          → allocate_work by id db' ≢ ok (b, d))
      × ((by shipment q : ℕ) (row : Row) (u : Unit {0}) (d : Db)
          → sku_of row.reservation ≡ sku
          → ship_row by shipment row q db' ≢ ok (u, d))
      × ((by : ℕ) (why : Text) (b : Response) (d : Db) → start_work by sku why db' ≢ ok (b, d))
start-frozen actor sku reason a db db' ran =
    let counting = start-is_counting actor sku reason a db db' ran in
    (
      reserve_refused sku db' counting,
      allocate_refused sku db' counting,
      allocate_work_refused sku db' counting,
      ship_refused sku db' counting,
      start_refused sku db' counting,
    )
