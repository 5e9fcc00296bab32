-- ===== src/Order/Cancel.antt =====
-- Cancellation in apps/api/src/orders/order.service.ts: `resetShipmentWork`,
-- `releaseOrderReservations`, `cancel`, `requestCancellation` and `reviewCancellation`.
use b2b_stm.Prelude.{
  ℕ, suc, ◌+◌, ◌-◌, Bool, true, false, ◌&&◌, ◌||◌, not, Option, none, some, [], ◌∷◌, String, filter,
  sort_by, length, ◌==◌, nat_eq, string_eq, pair_eq, if◌then◌else◌, ltb,
}
use b2b_stm.Text.{Text, codes, uuid_test, uuid_value}
use b2b_stm.Json.{Json, get, string}
use b2b_stm.Table.{Table, lookup, modify, insert, delete}
use b2b_stm.Schema.{
  Db, OrderStatus, OrderLine, Reservation, ReservationStatus, RequestStatus, CancellationRequest,
  WorkLine, Response, order_cancelled, cancellation_requested, cancellation_rejected,
  cancellation_approved,
}
use b2b_stm.Tx.{
  Tx, Result, ok, err, bad_request, conflict, not_found, pure, ◌>>=◌, ◌>>◌, query, execute,
  throw_if, or_throw, random_uuid, transaction, command,
}
use b2b_stm.Order.Input.{request_id}
use b2b_stm.Order.Store.{
  is_counting, review_pending, log_reservation, log_assignment, belongs_to, unhold, is_active,
  is_confirmed, sku_of,
}
use b2b_stm.Order.Confirm.{order_in, reservation_of_line}
use b2b_stm.Order.Work.{log_work}

-- The work lines of the order with something picked or inspected, ordered by reservation.
unfoldable pub started_work : ℕ → Db → Table ℕ WorkLine
unfolding belongs_to
started_work order db =
    sort_by (λ row. row.0)
      (filter
        (λ row.
          (elim (lookup row.0 db.reservations) [ none ↦ false | some r ↦ belongs_to db order r ])
          && (ltb 0 row.1.picked_quantity || ltb 0 row.1.inspected_quantity))
        db.work_lines)

abbrev pub clear_work : ℕ → WorkLine → WorkLine
clear_work actor w = record w {
  picked_quantity = 0;
  inspected_quantity = 0;
  updated_by = actor;
  version = suc w.version;
}

unfoldable pub reset_work_line : ℕ → Text → ℕ × WorkLine → Tx (Unit {0})
unfolding log_work
reset_work_line actor reason (id, w) = do
  execute (λ db. record db { work_lines = modify id (clear_work actor) db.work_lines })
  log_work id "reset" actor (w.picked_quantity, w.inspected_quantity) (0, 0) (some reason)

unfoldable pub reset_work_lines : ℕ → Text → Table ℕ WorkLine → Tx (Unit {0})
reset_work_lines actor reason [] = pure tt
reset_work_lines actor reason (row ∷ rest) = do
  reset_work_line actor reason row
  reset_work_lines actor reason rest

unfoldable pub reset_shipment_work : ℕ → ℕ → Text → Tx (Unit {0})
reset_shipment_work actor order reason = do
  rows ← query (started_work order)
  reset_work_lines actor reason rows

-- The active reservations of the order, ordered by product.
unfoldable pub active_reservations : ℕ → Db → Table ℕ Reservation
unfolding belongs_to
active_reservations order db =
    sort_by (λ row. row.1.product_id)
      (filter (λ row. belongs_to db order row.1 && is_active row.1.status) db.reservations)

-- What a released reservation gives back: the balance, its status, and its order line.
abbrev pub give_back : ℕ → Reservation → ℕ → Db → Db
give_back id r quantity db = record db {
  balances = modify (sku_of r) (unhold quantity) db.balances;
  reservations = modify id (λ x. record x { status = ReservationStatus.released }) db.reservations;
  order_lines =
      modify r.order_line_id (λ l. record l { reserved_quantity = l.reserved_quantity - quantity })
        db.order_lines;
}

unfoldable pub release_reservation : ℕ → ℕ × Reservation → Tx ℕ
unfolding log_reservation
release_reservation actor (id, r) =
    let quantity = r.quantity - r.shipped_quantity in
    if quantity == 0 then pure 0 else do
      balance ← query (λ db. lookup (sku_of r) db.balances)
      b ← or_throw balance (conflict "Reserved inventory unavailable")
      throw_if (ltb b.reserved_quantity quantity) (conflict "Reserved inventory unavailable")
      counting ← query (is_counting (sku_of r))
      throw_if counting (conflict "SKU is under stock count")
      execute (give_back id r quantity)
      log_reservation id "released" quantity actor
      pure quantity

unfoldable pub release_reservations : ℕ → Table ℕ Reservation → Tx ℕ
release_reservations actor [] = pure 0
release_reservations actor (row ∷ rows) = do
  first ← release_reservation actor row
  rest ← release_reservations actor rows
  pure (first + rest)

-- Nobody works on a cancelled order.
unfoldable pub drop_assignment : ℕ → ℕ → Tx (Unit {0})
drop_assignment actor order = do
  assignment ← query (λ db. lookup order db.assignments)
  elim assignment [
    | none ↦ pure tt
    | some worker ↦ do
      execute (λ db. record db { assignments = delete order db.assignments })
      log_assignment order "cancelled" actor worker (some (codes "주문 취소로 작업 종료"))
  ]

unfoldable pub release_order_reservations : ℕ → ℕ → Tx ℕ
release_order_reservations actor order = do
  reset_shipment_work actor order (codes "주문 취소로 피킹·검수 초기화")
  rows ← query (active_reservations order)
  released ← release_reservations actor rows
  drop_assignment actor order
  pure released

abbrev pub mark_cancelled : ℕ → ℕ → Text → Db → Db
mark_cancelled actor order reason db = record db {
  cancellations = insert order (record { reason = reason; cancelled_by = actor }) db.cancellations;
  orders =
      modify order (λ o. record o { status = OrderStatus.cancelled; version = suc o.version })
        db.orders;
}

unfoldable pub cancel_order : ℕ → ℕ → Text → Tx Response
cancel_order actor id reason = do
  released ← release_order_reservations actor id
  execute (mark_cancelled actor id reason)
  pure (order_cancelled id released reason)

unfoldable pub cancel_work : ℕ → ℕ → Text → Tx Response
cancel_work actor id reason = do
  order_in is_confirmed "Order cannot be cancelled" id
  reviewed ← query (review_pending id)
  throw_if reviewed (conflict "Order cancellation review is pending")
  cancel_order actor id reason

unfoldable pub cancel : ℕ → Text → Json → Db → Result Response × Db
cancel actor order body db =
    if not (uuid_test order)
    then (err (bad_request "Invalid order ID"), db)
    else (elim (request_id body) [
      | err e ↦ (err e, db)
      | ok request ↦
          let reason = string (get "reason" body) in
          if length reason == 0
          then (err (bad_request "Cancellation reason is required"), db)
          else transaction "Order service unavailable"
              (command (actor, ("order.cancel", request))
                (cancel_work actor (uuid_value order) reason))
              db
    ])

-- `sum(l.requested_quantity-COALESCE(r.shipped_quantity,0))` over the lines of the order.
unfoldable pub unshipped_from : ℕ → Db → Table ℕ OrderLine → ℕ
unfolding reservation_of_line
unshipped_from order db [] = 0
unshipped_from order db ((id, l) ∷ rest) =
    (if l.order_id == order
      then (elim (reservation_of_line id db.reservations) [
        | none ↦ l.requested_quantity
        | some row ↦ l.requested_quantity - row.1.shipped_quantity
      ])
      else 0)
    + unshipped_from order db rest

unfoldable pub record_request : ℕ → ℕ → Text → Tx ℕ
unfolding random_uuid
record_request actor id reason = do
  request ← random_uuid
  execute (λ db. record db {
    cancellation_requests =
        insert request
          (record {
            order_id = id;
            reason = reason;
            status = RequestStatus.pending;
            requested_by = actor;
            reviewed_by = none;
            review_note = none;
          })
          db.cancellation_requests;
  })
  pure request

-- The worker who had the order gives it back.
unfoldable pub log_return : ℕ → ℕ → Option ℕ → Tx (Unit {0})
unfolding log_assignment
log_return actor id none = pure tt
log_return actor id (some worker) =
    log_assignment id "released" actor worker (some (codes "취소 검토 요청으로 작업 자동 반납"))

unfoldable pub drop_work : ℕ → Db → Db
drop_work id db = record db { assignments = delete id db.assignments }

-- While a request is reviewed nobody works on the order.
unfoldable pub stop_work : ℕ → ℕ → Tx (Unit {0})
unfolding drop_work
stop_work actor id = do
  assignment ← query (λ db. lookup id db.assignments)
  execute (drop_work id)
  reset_shipment_work actor id (codes "취소 검토 요청으로 피킹·검수 초기화")
  log_return actor id assignment

unfoldable pub accept_request : ℕ → ℕ → Text → Tx Response
accept_request actor id reason = do
  request ← record_request actor id reason
  stop_work actor id
  pure (cancellation_requested request id reason)

unfoldable pub request_work : ℕ → ℕ → ℕ → Text → Tx Response
request_work customer actor id reason = do
  found ← query (λ db. lookup id db.orders)
  order ← or_throw found (not_found "Order unavailable")
  throw_if (not (order.customer_id == customer)) (not_found "Order unavailable")
  throw_if (not (is_confirmed order.status)) (conflict "Order cannot be requested for cancellation")
  unshipped ← query (λ db. unshipped_from id db db.order_lines)
  throw_if (ltb unshipped 1) (conflict "Order has no unshipped quantity")
  reviewed ← query (review_pending id)
  throw_if reviewed (conflict "Cancellation request already submitted")
  accept_request actor id reason

unfoldable pub request_cancellation : ℕ → ℕ → Text → Json → Db → Result Response × Db
request_cancellation customer actor order body db =
    if not (uuid_test order)
    then (err (bad_request "Invalid order ID"), db)
    else (elim (request_id body) [
      | err e ↦ (err e, db)
      | ok request ↦
          let reason = string (get "reason" body) in
          if length reason == 0
          then (err (bad_request "Cancellation reason is required"), db)
          else transaction "Order service unavailable"
              (command (actor, ("order.cancellation.request", request))
                (request_work customer actor (uuid_value order) reason))
              db
    ])

pub data Decision : Type 0 where
  approve reject : Decision

abbrev pub decide : Decision → ℕ → Text → CancellationRequest → CancellationRequest
decide approve actor note r = record r { status = RequestStatus.approved; reviewed_by = some actor }
decide reject actor note r = record r {
  status = RequestStatus.declined;
  reviewed_by = some actor;
  review_note = some note;
}

abbrev pub mark_reviewed : Decision → ℕ → ℕ → Text → Db → Db
mark_reviewed decision actor request note db = record db {
  cancellation_requests = modify request (decide decision actor note) db.cancellation_requests;
}

unfoldable pub approve_request : ℕ → ℕ → CancellationRequest → Tx Response
approve_request actor request row = do
  released ← release_order_reservations actor row.order_id
  execute (mark_cancelled actor row.order_id row.reason)
  execute (mark_reviewed approve actor request [])
  pure (cancellation_approved request row.order_id released actor)

unfoldable pub is_pending_request : RequestStatus → Bool
is_pending_request RequestStatus.pending = true
is_pending_request _ = false

unfoldable pub review_work : Decision → ℕ → ℕ → Text → Tx Response
unfolding is_pending_request
review_work decision actor request note = do
  found ← query (λ db. lookup request db.cancellation_requests)
  row ← or_throw found (not_found "Cancellation request unavailable")
  order ← query (λ db. lookup row.order_id db.orders)
  throw_if (not (is_pending_request row.status))
      (conflict "Cancellation request is already reviewed")
  o ← or_throw order (conflict "Order cannot be reviewed for cancellation")
  throw_if (not (is_confirmed o.status)) (conflict "Order cannot be reviewed for cancellation")
  elim decision [
    | reject ↦ do
      execute (mark_reviewed reject actor request note)
      pure (cancellation_rejected request row.order_id note)
    | approve ↦ approve_request actor request row
  ]

abbrev pub review_command : Decision → String
review_command approve = "order.cancellation.approved"
review_command reject = "order.cancellation.rejected"

abbrev pub is_reject : Decision → Bool
is_reject approve = false
is_reject reject = true

unfoldable pub review_cancellation : Decision → ℕ → Text → Json → Db → Result Response × Db
review_cancellation decision actor request body db =
    if not (uuid_test request)
    then (err (bad_request "Invalid cancellation request ID"), db)
    else (elim (request_id body) [
      | err e ↦ (err e, db)
      | ok id ↦
          let note = string (get "reviewNote" body) in
          if is_reject decision && length note == 0
          then (err (bad_request "Review note is required"), db)
          else transaction "Order service unavailable"
              (command (actor, (review_command decision, id))
                (review_work decision actor (uuid_value request) note))
              db
    ])
