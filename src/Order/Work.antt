-- ===== src/Order/Work.antt =====
-- Shipment work of apps/api/src/orders/order.service.ts: `claimShipmentWork`,
-- `releaseShipmentWork`, and `setShipmentWorkQuantities` for the stages picked and inspected.
use b2b_stm.Prelude.{
  ℕ, suc, ◌-◌, Bool, true, false, ◌&&◌, ◌||◌, not, Option, none, some, List, [], ◌∷◌, String, any,
  sort_by, length, ◌==◌, nat_eq, string_eq, pair_eq, if◌then◌else◌, ltb,
}
use b2b_stm.Text.{Text, uuid_test, uuid_value, collation_rank}
use b2b_stm.Json.{Json, get, string}
use b2b_stm.Table.{Table, lookup, insert, upsert, delete}
use b2b_stm.Schema.{Db, Reservation, WorkLine, Response, work_claimed, work_released, work_recorded}
use b2b_stm.Tx.{
  Tx, Result, ok, err, bad_request, conflict, pure, ◌>>=◌, ◌>>◌, query, execute, throw_if, or_throw,
  random_uuid, transaction, command,
}
use b2b_stm.Order.Input.{Line, request_id, work_quantity_input}
use b2b_stm.Order.Store.{
  is_counting, review_pending, log_assignment, belongs_to, has_open_reservation, take_assignment,
  is_active, is_confirmed, sku_of,
}

unfoldable pub order_confirmed_in : ℕ → Db → Bool
order_confirmed_in order db = elim (lookup order db.orders) [
  | none ↦ false
  | some o ↦ is_confirmed o.status
]

unfoldable pub claim_work : ℕ → ℕ → Tx Response
unfolding order_confirmed_in
claim_work actor order = do
  confirmed ← query (order_confirmed_in order)
  throw_if (not confirmed) (conflict "Order is unavailable for shipment work")
  open_reservation ← query (has_open_reservation order)
  reviewed ← query (review_pending order)
  throw_if (not open_reservation || reviewed) (conflict "Order is unavailable for shipment work")
  counting ← query (λ db.
      any (λ r. belongs_to db order r.1 && is_active r.1.status && is_counting (sku_of r.1) db)
        db.reservations)
  throw_if counting (conflict "Order contains SKU under stock count")
  take_assignment actor order
  pure (work_claimed order actor)

unfoldable pub claim_shipment_work : ℕ → Text → Json → Db → Result Response × Db
claim_shipment_work actor order body db =
    if not (uuid_test order)
    then (err (bad_request "Invalid order ID"), db)
    else (elim (request_id body) [
      | err e ↦ (err e, db)
      | ok request ↦
          transaction "Order service unavailable"
            (command (actor, ("shipment.work.claim", request))
              (claim_work actor (uuid_value order)))
            db
    ])

unfoldable pub release_work : ℕ → ℕ → Text → Tx Response
unfolding log_assignment
release_work actor order reason = do
  assignment ← query (λ db. lookup order db.assignments)
  worker ← or_throw assignment (conflict "Shipment work is not assigned")
  throw_if (not (worker == actor)) (conflict "Only the assigned worker can release shipment work")
  execute (λ db. record db { assignments = delete order db.assignments })
  log_assignment order "released" actor actor (some reason)
  pure (work_released order actor)

-- `!reason || reason.length > 300`
unfoldable pub bad_reason : Text → Bool
bad_reason reason = ltb (length reason) 1 || ltb 300 (length reason)

unfoldable pub release_shipment_work : ℕ → Text → Json → Db → Result Response × Db
unfolding bad_reason
release_shipment_work actor order body db =
    if not (uuid_test order)
    then (err (bad_request "Invalid order ID"), db)
    else (elim (request_id body) [
      | err e ↦ (err e, db)
      | ok request ↦
          let reason = string (get "reason" body) in
          if bad_reason reason
          then (err (bad_request "Release reason is required"), db)
          else transaction "Order service unavailable"
              (command (actor, ("shipment.work.release", request))
                (release_work actor (uuid_value order) reason))
              db
    ])

pub data Stage : Type 0 where
  picked inspected : Stage

abbrev pub stage_name : Stage → String
stage_name picked = "picked"
stage_name inspected = "inspected"

abbrev pub is_picked : Stage → Bool
is_picked picked = true
is_picked inspected = false

-- (picked, inspected) of a work line, zero where there is none.
abbrev pub progress : Option WorkLine → ℕ × ℕ
progress none = (0, 0)
progress (some w) = (w.picked_quantity, w.inspected_quantity)

-- The quantities that a line sets at a stage: the other one stays.
abbrev pub set_stage : Stage → ℕ → ℕ × ℕ → ℕ × ℕ
set_stage picked quantity previous = (quantity, previous.1)
set_stage inspected quantity previous = (previous.0, quantity)

-- The reservation if it is active and belongs to the order.
unfoldable pub workable : ℕ → ℕ → Db → Option Reservation
unfolding belongs_to
workable order id db = elim (lookup id db.reservations) [
  | none ↦ none
  | some r ↦ if belongs_to db order r && is_active r.status then some r else none
]

-- The values inserted, and the update where there is a row already.
abbrev pub first_work : Stage → ℕ → ℕ × ℕ → ℕ → WorkLine
first_work stage actor quantities now = record {
  picked_quantity = quantities.0;
  inspected_quantity = quantities.1;
  updated_by = actor;
  picked_at = if is_picked stage then some now else none;
  inspected_at = if is_picked stage then none else some now;
  version = 1;
}

abbrev pub next_work : Stage → ℕ → ℕ × ℕ → ℕ → WorkLine → WorkLine
next_work stage actor quantities now w = record w {
  picked_quantity = quantities.0;
  inspected_quantity = quantities.1;
  updated_by = actor;
  picked_at = if is_picked stage then some now else w.picked_at;
  inspected_at = if is_picked stage then w.inspected_at else some now;
  version = suc w.version;
}

abbrev pub write_work : Stage → ℕ → ℕ × ℕ → ℕ → Db → Db
write_work stage actor quantities id db = record db {
  work_lines =
      upsert id (first_work stage actor quantities db.now) (next_work stage actor quantities db.now)
        db.work_lines;
}

unfoldable pub log_work : ℕ → String → ℕ → ℕ × ℕ → ℕ × ℕ → Option Text → Tx (Unit {0})
unfolding random_uuid
log_work reservation event actor previous next reason = do
  id ← random_uuid
  execute (λ db. record db {
    work_line_events =
        insert id
          (record {
            reservation_id = reservation;
            event_type = event;
            actor_id = actor;
            previous_picked_quantity = previous.0;
            picked_quantity = next.0;
            previous_inspected_quantity = previous.1;
            inspected_quantity = next.1;
            reason = reason;
          })
          db.work_line_events;
  })

-- One line of the request; the answer has the reservation and its new quantities.
unfoldable pub set_work_line : Stage → ℕ → ℕ → Line → Tx (ℕ × (ℕ × ℕ))
unfolding workable log_work
set_work_line stage actor order line = do
  let id = uuid_value line.id
  found ← query (workable order id)
  r ← or_throw found (conflict "Reservation unavailable for shipment work")
  counting ← query (is_counting (sku_of r))
  throw_if counting (conflict "SKU is under stock count")
  current ← query (λ db. lookup id db.work_lines)
  let previous = progress current
  let next = set_stage stage line.quantity previous
  throw_if (ltb (r.quantity - r.shipped_quantity) next.0)
      (conflict "Picked quantity exceeds reservation")
  throw_if (ltb next.0 next.1) (conflict "Inspected quantity exceeds picked quantity")
  execute (write_work stage actor next id)
  log_work id (stage_name stage) actor previous next none
  pure (id, next)

unfoldable pub set_work_lines : Stage → ℕ → ℕ → List Line → Tx (Table ℕ (ℕ × ℕ))
set_work_lines stage actor order [] = pure []
set_work_lines stage actor order (line ∷ lines) = do
  first ← set_work_line stage actor order line
  rest ← set_work_lines stage actor order lines
  pure (first ∷ rest)

unfoldable pub set_work : Stage → ℕ → ℕ → List Line → Tx Response
unfolding order_confirmed_in
set_work stage actor order lines = do
  confirmed ← query (order_confirmed_in order)
  throw_if (not confirmed) (conflict "Order is unavailable for shipment work")
  assignment ← query (λ db. lookup order db.assignments)
  worker ← or_throw assignment (conflict "Only the assigned worker can update shipment work")
  throw_if (not (worker == actor)) (conflict "Only the assigned worker can update shipment work")
  reviewed ← query (review_pending order)
  throw_if reviewed (conflict "Order cancellation review is pending")
  recorded ← set_work_lines stage actor order (sort_by (λ l. collation_rank l.id) lines)
  pure (work_recorded order (stage_name stage) recorded)

abbrev pub work_command : Stage → String
work_command picked = "shipment.work.picked"
work_command inspected = "shipment.work.inspected"

unfoldable pub set_shipment_work_quantities : Stage → ℕ → Text → Json → Db → Result Response × Db
set_shipment_work_quantities stage actor order body db =
    if not (uuid_test order)
    then (err (bad_request "Invalid order ID"), db)
    else (elim (work_quantity_input body) [
      | err e ↦ (err e, db)
      | ok input ↦
          transaction "Order service unavailable"
            (command (actor, (work_command stage, input.request_id))
              (set_work stage actor (uuid_value order) input.lines))
            db
    ])
