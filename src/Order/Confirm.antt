-- ===== src/Order/Confirm.antt =====
-- `confirm` and `allocate` of apps/api/src/orders/order.service.ts: stock is reserved for the lines
-- of an order, at its confirmation and again when more stock has come in.
use b2b_stm.Prelude.{
  ℕ, suc, ◌+◌, ◌-◌, min, Bool, ◌&&◌, not, Option, none, some, [], ◌∷◌, String, any, filter, sort_by,
  ◌==◌, nat_eq, string_eq, pair_eq, if◌then◌else◌,
}
use b2b_stm.Text.{Text, uuid_test, uuid_value}
use b2b_stm.Json.{Json}
use b2b_stm.Table.{Table, lookup, modify, insert}
use b2b_stm.Schema.{
  Db, Sku, Order, OrderLine, OrderStatus, Reservation, ReservationStatus, Response, order_confirmed,
  order_allocated,
}
use b2b_stm.Tx.{
  Tx, Result, ok, err, bad_request, conflict, not_found, fault, pure, throw, ◌>>=◌, ◌>>◌, query,
  execute, throw_if, random_uuid, transaction, command,
}
use b2b_stm.Order.Input.{request_id}
use b2b_stm.Order.Store.{
  is_counting, available, hold, log_reservation, review_pending, is_confirmed, is_submitted,
}

-- `SELECT ... FROM order_lines WHERE order_id=$1 ORDER BY product_id`
unfoldable pub lines_of : ℕ → Db → Table ℕ OrderLine
lines_of order db =
    sort_by (λ row. row.1.product_id) (filter (λ row. row.1.order_id == order) db.order_lines)

-- The order in the wanted state, locked; or the reason why it is not there.
unfoldable pub order_in : (OrderStatus → Bool) → String → ℕ → Tx Order
order_in wanted message id = do
  found ← query (λ db. lookup id db.orders)
  elim found [
    | none ↦ throw (not_found "Order unavailable")
    | some order ↦ if wanted order.status then pure order else throw (conflict message)
  ]

-- `SELECT id FROM reservations WHERE order_line_id=$1`
unfoldable pub reservation_of_line : ℕ → Table ℕ Reservation → Option (ℕ × Reservation)
reservation_of_line line [] = none
reservation_of_line line ((id, r) ∷ rest) =
    if r.order_line_id == line then some (id, r) else reservation_of_line line rest

-- The stock is held, and a reservation of the line is created: `order_line_id` is unique.
unfoldable pub new_reservation : ℕ → ℕ → Sku → ℕ → Tx ℕ
unfolding random_uuid
new_reservation actor line sku quantity = do
  id ← random_uuid
  taken ← query (λ db. any (λ row. row.1.order_line_id == line) db.reservations)
  throw_if taken (fault "reservations_order_line_id_key")
  execute (λ db. record db {
    reservations =
        insert id
          (record {
            order_line_id = line;
            warehouse_id = sku.0;
            product_id = sku.1;
            quantity = quantity;
            shipped_quantity = 0;
            status = ReservationStatus.active;
            created_by = actor;
          })
          db.reservations;
  })
  pure id

unfoldable pub reserve_line : ℕ → ℕ → ℕ × OrderLine → Tx (ℕ × ℕ)
unfolding new_reservation log_reservation
reserve_line actor warehouse (id, line) = do
  let sku : Sku = (warehouse, line.product_id)
  counting ← query (is_counting sku)
  throw_if counting (conflict "SKU is under stock count")
  free ← query (available sku)
  let quantity = min line.requested_quantity free
  if quantity == 0 then pure (0, line.requested_quantity) else do
    execute (λ db. record db {
      balances = modify sku (hold quantity) db.balances;
      order_lines = modify id (λ l. record l { reserved_quantity = quantity }) db.order_lines;
    })
    reservation ← new_reservation actor id sku quantity
    log_reservation reservation "created" quantity actor
    pure (quantity, line.requested_quantity - quantity)

unfoldable pub reserve_lines : ℕ → ℕ → Table ℕ OrderLine → Tx (ℕ × ℕ)
reserve_lines actor warehouse [] = pure (0, 0)
reserve_lines actor warehouse (line ∷ lines) = do
  first ← reserve_line actor warehouse line
  rest ← reserve_lines actor warehouse lines
  pure (first.0 + rest.0, first.1 + rest.1)

unfoldable pub confirm_work : ℕ → ℕ → Tx Response
unfolding order_in
confirm_work actor id = do
  order ← order_in is_submitted "Order is already processed" id
  lines ← query (lines_of id)
  sums ← reserve_lines actor order.warehouse_id lines
  execute (λ db. record db {
    orders =
        modify id
          (λ o. record o {
            status = OrderStatus.confirmed;
            confirmed_by = some actor;
            version = suc o.version;
          })
          db.orders;
  })
  pure (order_confirmed id sums.0 sums.1)

unfoldable pub confirm : ℕ → Text → Json → Db → Result Response × Db
confirm actor order body db =
    if not (uuid_test order)
    then (err (bad_request "Invalid order ID"), db)
    else (elim (request_id body) [
      | err e ↦ (err e, db)
      | ok request ↦
          transaction "Order service unavailable"
            (command (actor, ("order.confirm", request)) (confirm_work actor (uuid_value order))) db
    ])

-- A reservation that takes more of the line: a released one starts again from what was shipped.
abbrev pub top_up : ℕ → Reservation → Reservation
top_up q r = record r {
  quantity = (elim r.status [
    | ReservationStatus.released ↦ r.shipped_quantity + q
    | _ ↦ r.quantity + q
  ]);
  status = ReservationStatus.active;
}

unfoldable pub extend_reservation : ℕ → ℕ → Sku → ℕ → Tx ℕ
unfolding reservation_of_line new_reservation
extend_reservation actor line sku quantity = do
  found ← query (λ db. reservation_of_line line db.reservations)
  elim found [
    | some row ↦ do
      execute (λ db. record db { reservations = modify row.0 (top_up quantity) db.reservations })
      pure row.0
    | none ↦ new_reservation actor line sku quantity
  ]

unfoldable pub allocate_line : ℕ → ℕ → ℕ × OrderLine → Tx (ℕ × ℕ)
unfolding extend_reservation log_reservation
allocate_line actor warehouse (id, line) =
    let waiting = line.requested_quantity - line.reserved_quantity in
    let sku : Sku = (warehouse, line.product_id) in
    if waiting == 0 then pure (0, 0) else do
      counting ← query (is_counting sku)
      throw_if counting (conflict "SKU is under stock count")
      free ← query (available sku)
      let quantity = min waiting free
      if quantity == 0 then pure (0, waiting) else do
        execute (λ db. record db {
          balances = modify sku (hold quantity) db.balances;
          order_lines =
              modify id (λ l. record l { reserved_quantity = l.reserved_quantity + quantity })
                db.order_lines;
        })
        reservation ← extend_reservation actor id sku quantity
        log_reservation reservation "created" quantity actor
        pure (quantity, waiting - quantity)

unfoldable pub allocate_lines : ℕ → ℕ → Table ℕ OrderLine → Tx (ℕ × ℕ)
allocate_lines actor warehouse [] = pure (0, 0)
allocate_lines actor warehouse (line ∷ lines) = do
  first ← allocate_line actor warehouse line
  rest ← allocate_lines actor warehouse lines
  pure (first.0 + rest.0, first.1 + rest.1)

unfoldable pub allocate_work : ℕ → ℕ → Tx Response
unfolding order_in
allocate_work actor id = do
  order ← order_in is_confirmed "Order cannot receive inventory allocation" id
  reviewed ← query (review_pending id)
  throw_if reviewed (conflict "Order cancellation review is pending")
  counting ← query (λ db.
      any (λ row. row.1.order_id == id && is_counting (order.warehouse_id, row.1.product_id) db)
        db.order_lines)
  throw_if counting (conflict "Order contains SKU under stock count")
  lines ← query (lines_of id)
  sums ← allocate_lines actor order.warehouse_id lines
  pure (order_allocated id sums.0 sums.1)

unfoldable pub allocate : ℕ → Text → Json → Db → Result Response × Db
allocate actor order body db =
    if not (uuid_test order)
    then (err (bad_request "Invalid order ID"), db)
    else (elim (request_id body) [
      | err e ↦ (err e, db)
      | ok request ↦
          transaction "Order service unavailable"
            (command (actor, ("order.allocate", request)) (allocate_work actor (uuid_value order)))
            db
    ])
