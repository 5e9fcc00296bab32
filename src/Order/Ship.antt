-- ===== src/Order/Ship.antt =====
-- `ship` of apps/api/src/orders/order.service.ts: a partial shipment takes stock out, releases what
-- was reserved of it, and books the sale.
use b2b_stm.Prelude.{
  ℕ, suc, ◌+◌, ◌-◌, ◌*◌, Bool, ◌&&◌, ◌||◌, not, Option, none, some, List, [], ◌∷◌, map, any,
  sort_by, ◌==◌, nat_eq, string_eq, pair_eq, if◌then◌else◌, ltb,
}
use b2b_stm.Prelude.Int.{ℤ, pos, ◌+ℤ◌, ◌-ℤ◌}
use b2b_stm.Text.{Text, text_eq, uuid_value, code_unit_rank}
use b2b_stm.Json.{Json}
use b2b_stm.Table.{Table, lookup, modify, insert, delete}
use b2b_stm.Schema.{
  Db, Balance, ReceivableEntry, OrderLine, Reservation, ReservationStatus, DeliveryStatus, WorkLine,
  Response, shipment_created,
}
use b2b_stm.Tx.{
  Tx, Result, ok, err, bad_request, conflict, fault, pure, ◌>>=◌, ◌>>◌, query, execute, throw_if,
  or_throw, random_uuid, transaction, command,
}
use b2b_stm.Order.Input.{Line, shipment_input}
use b2b_stm.Order.Store.{
  is_counting, review_pending, log_reservation, log_assignment, has_open_reservation,
  take_assignment, notify_customer, is_active, sku_of,
}
use b2b_stm.Order.Work.{log_work}
use b2b_stm.Order.Tax.{target_tax, booked}

-- A row of the first query: the reservation as it was then, its order line and its order.
pub record Row : Type 0 where
  pub id : ℕ
  pub reservation : Reservation
  pub line : OrderLine
  pub customer_id : ℕ

unfoldable pub shippable : ℕ → Db → Option Row
shippable id db = elim (lookup id db.reservations) [
  | none ↦ none
  | some r ↦
      if is_active r.status
      then (elim (lookup r.order_line_id db.order_lines) [
        | none ↦ none
        | some line ↦ elim (lookup line.order_id db.orders) [
          | none ↦ none
          | some order ↦
              some
                (record { id = id; reservation = r; line = line; customer_id = order.customer_id })
        ]
      ])
      else none
]

-- The map from the request's ids to their rows.
unfoldable pub shippable_rows : List Text → Tx (Table Text Row)
shippable_rows [] = pure []
shippable_rows (id ∷ ids) = do
  found ← query (shippable (uuid_value id))
  row ← or_throw found (conflict "Reservation unavailable")
  rest ← shippable_rows ids
  pure ((id, row) ∷ rest)

unfoldable pub mixed : Row → Table Text Row → Bool
mixed first rows =
    any
      (λ row.
        not (row.1.line.order_id == first.line.order_id)
        || not (row.1.reservation.warehouse_id == first.reservation.warehouse_id))
      rows

abbrev pub take_out : ℕ → Balance → Balance
take_out q b = record b {
  on_hand_quantity = b.on_hand_quantity - q;
  reserved_quantity = b.reserved_quantity - q;
  version = suc b.version;
}

abbrev pub ship_reserved : ℕ → Reservation → Reservation
ship_reserved q r = record r {
  shipped_quantity = r.shipped_quantity + q;
  status =
      if r.shipped_quantity + q == r.quantity
      then ReservationStatus.shipped
      else ReservationStatus.active;
}

abbrev pub take_off : ℕ → ℕ → WorkLine → WorkLine
take_off q actor w = record w {
  picked_quantity = w.picked_quantity - q;
  inspected_quantity = w.inspected_quantity - q;
  updated_by = actor;
  version = suc w.version;
}

-- The ledger entry of a shipment line, from what was booked for its order line before.
abbrev pub sale : Row → ℕ → ℕ → ℕ → ℤ → ℤ → ReceivableEntry
sale row price shipment_line quantity supply_before tax_before =
    let supply : ℤ = pos (quantity * price) in
    let target = target_tax row.line.tax_category row.line.tax_rate_bps (supply_before +ℤ supply) in
    let tax = target -ℤ tax_before in
    record {
      customer_id = row.customer_id;
      shipment_line_id = some shipment_line;
      return_credit_id = none;
      refund_id = none;
      entry_type = "shipment";
      quantity = quantity;
      unit_price = price;
      supply_amount = supply;
      tax_amount = tax;
      amount = supply +ℤ tax;
      tax_category = row.line.tax_category;
      tax_rate_bps = row.line.tax_rate_bps;
    }

unfoldable pub book_sale : Row → ℕ → ℕ → ℕ → Tx (Unit {0})
unfolding random_uuid
book_sale row price shipment_line quantity = do
  supply_before ← query (booked (λ e. e.supply_amount) row.reservation.order_line_id)
  tax_before ← query (booked (λ e. e.tax_amount) row.reservation.order_line_id)
  id ← random_uuid
  execute (λ db. record db {
    receivable_entries =
        insert id (sale row price shipment_line quantity supply_before tax_before)
          db.receivable_entries;
  })

-- The stock and the reservation of a line that has passed its checks.
abbrev pub dispatch : Row → ℕ → Db → Db
dispatch row quantity db = record db {
  balances = modify (sku_of row.reservation) (take_out quantity) db.balances;
  reservations = modify row.id (ship_reserved quantity) db.reservations;
}

abbrev pub unpick : ℕ → Row → ℕ → Db → Db
unpick actor row quantity db = record db {
  work_lines = modify row.id (take_off quantity actor) db.work_lines;
}

unfoldable pub move_out : ℕ → Row → ℕ → ℕ → Tx (Unit {0})
unfolding random_uuid
move_out actor row shipment_line quantity = do
  id ← random_uuid
  execute (λ db. record db {
    movements =
        insert id
          (record {
            sku = sku_of row.reservation;
            movement_type = "shipment";
            quantity_delta = pos 0 -ℤ pos quantity;
            reference = shipment_line;
            created_by = actor;
          })
          db.movements;
  })

-- `UNIQUE(shipment_id, reservation_id)`
unfoldable pub insert_shipment_line : ℕ → Row → ℕ → Tx ℕ
unfolding random_uuid
insert_shipment_line shipment row quantity = do
  id ← random_uuid
  taken ← query (λ db.
      any (λ l. l.1.shipment_id == shipment && l.1.reservation_id == row.id) db.shipment_lines)
  throw_if taken (fault "shipment_lines_shipment_id_reservation_id_key")
  execute (λ db. record db {
    shipment_lines =
        insert id (record { shipment_id = shipment; reservation_id = row.id; quantity = quantity })
          db.shipment_lines;
  })
  pure id

-- The checks of one line against its row, the work line and the balance.
unfoldable pub check_line : Row → ℕ → Tx WorkLine
check_line row quantity = do
  throw_if (ltb (row.reservation.quantity - row.reservation.shipped_quantity) quantity)
      (conflict "Shipment quantity exceeds reservation")
  work ← query (λ db. lookup row.id db.work_lines)
  w ← or_throw work (conflict "Shipment quantity exceeds inspected quantity")
  throw_if (ltb w.inspected_quantity quantity)
      (conflict "Shipment quantity exceeds inspected quantity")
  balance ← query (λ db. lookup (sku_of row.reservation) db.balances)
  counting ← query (is_counting (sku_of row.reservation))
  throw_if counting (conflict "SKU is under stock count")
  b ← or_throw balance (conflict "Reserved inventory unavailable")
  throw_if (ltb b.on_hand_quantity quantity || ltb b.reserved_quantity quantity)
      (conflict "Reserved inventory unavailable")
  pure w

-- The shipment line, and the stock that it moves; the answer is the line's id.
unfoldable pub ship_stock : ℕ → ℕ → Row → ℕ → Tx ℕ
ship_stock actor shipment row quantity = do
  shipment_line ← insert_shipment_line shipment row quantity
  execute (dispatch row quantity)
  log_reservation row.id "shipped" quantity actor
  move_out actor row shipment_line quantity
  pure shipment_line

-- What is left of the work line.
unfoldable pub finish_line : ℕ → Row → WorkLine → ℕ → Tx (Unit {0})
finish_line actor row work quantity = do
  execute (unpick actor row quantity)
  log_work row.id "shipped" actor (work.picked_quantity, work.inspected_quantity)
      (work.picked_quantity - quantity, work.inspected_quantity - quantity) none

-- The sale and the work line, after the stock has moved.
unfoldable pub settle_line : ℕ → Row → WorkLine → ℕ → ℕ → Tx (Unit {0})
settle_line actor row work quantity shipment_line = do
  price ← or_throw row.line.unit_price (conflict "Order price unavailable")
  book_sale row price shipment_line quantity
  finish_line actor row work quantity

unfoldable pub ship_row : ℕ → ℕ → Row → ℕ → Tx (Unit {0})
ship_row actor shipment row quantity = do
  work ← check_line row quantity
  shipment_line ← ship_stock actor shipment row quantity
  settle_line actor row work quantity shipment_line

-- The lines in the order of the request; the sum of what was shipped.
unfoldable pub ship_lines : ℕ → ℕ → Table Text Row → List Line → Tx ℕ
ship_lines actor shipment rows [] = pure 0
ship_lines actor shipment rows (line ∷ lines) = do
  row ← or_throw (lookup line.id rows) (fault "TypeError")
  ship_row actor shipment row line.quantity
  rest ← ship_lines actor shipment rows lines
  pure (line.quantity + rest)

unfoldable pub create_shipment : ℕ → Row → Tx ℕ
unfolding random_uuid
create_shipment actor first = do
  id ← random_uuid
  event ← random_uuid
  execute (λ db. record db {
    shipments =
        insert id
          (record {
            order_id = first.line.order_id;
            warehouse_id = first.reservation.warehouse_id;
            shipped_by = actor;
          })
          db.shipments;
    deliveries =
        insert id
          (record {
            status = DeliveryStatus.ready;
            scheduled_date = none;
            carrier_name = none;
            tracking_number = none;
            dispatched_at = none;
            delivered_at = none;
            recipient_name = none;
            proof_method = none;
            proof_note = none;
            failure_reason = none;
            updated_by = actor;
            version = 1;
          })
          db.deliveries;
    delivery_events =
        insert event
          (record {
            shipment_id = id;
            event_type = "created";
            actor_id = actor;
            from_status = none;
            to_status = DeliveryStatus.ready;
          })
          db.delivery_events;
  })
  pure id

-- The work is over when nothing of the order is left to ship.
unfoldable pub finish_work : ℕ → ℕ → Tx (Unit {0})
finish_work actor order = do
  remaining ← query (has_open_reservation order)
  if remaining then pure tt else do
    execute (λ db. record db { assignments = delete order db.assignments })
    log_assignment order "completed" actor actor none

abbrev pub first_row : Table Text Row → Option Row
first_row [] = none
first_row (row ∷ rows) = some row.1

-- The shipment itself, once the order has passed its checks.
unfoldable pub ship_order : ℕ → List Line → Table Text Row → Row → Tx Response
ship_order actor lines rows first = do
  shipment ← create_shipment actor first
  shipped ← ship_lines actor shipment rows lines
  finish_work actor first.line.order_id
  execute (notify_customer first.customer_id "shipment_created" shipment)
  pure (shipment_created shipment shipped)

-- An order under cancellation review is not shipped.
unfoldable pub ship_unless_reviewed : ℕ → List Line → Table Text Row → Row → Tx Response
ship_unless_reviewed actor lines rows first = do
  reviewed ← query (review_pending first.line.order_id)
  throw_if reviewed (conflict "Order cancellation review is pending")
  ship_order actor lines rows first

unfoldable pub ship_rows : ℕ → List Line → Table Text Row → Row → Tx Response
ship_rows actor lines rows first = do
  throw_if (mixed first rows) (bad_request "Shipment lines must belong to one order and warehouse")
  take_assignment actor first.line.order_id
  ship_unless_reviewed actor lines rows first

unfoldable pub ship_work : ℕ → List Line → Tx Response
ship_work actor lines = do
  rows ← shippable_rows (sort_by code_unit_rank (map (λ l. l.id) lines))
  first ← or_throw (first_row rows) (fault "TypeError")
  ship_rows actor lines rows first

unfoldable pub ship : ℕ → Json → Db → Result Response × Db
ship actor body db = elim (shipment_input body) [
  | err e ↦ (err e, db)
  | ok input ↦
      transaction "Order service unavailable"
        (command (actor, ("shipment.create", input.request_id)) (ship_work actor input.lines)) db
]
