-- ===== src/Order/Examples.antt =====
-- A small shop, and the properties of the order service on it.
use b2b_stm.Prelude.{
  ℕ, ◌+◌, ◌≡◌, ◌≢◌, refl, true, none, some, arith, nat_eq, pair_eq, string_eq, List, [], ◌∷◌, ◌++◌,
  String, sum_map, any, filter, sort_by,
}
use b2b_stm.Prelude.Int.{pos}
use b2b_stm.Text.{Text, codes, text_eq, uuid_test, uuid_value}
use b2b_stm.Json.{Json, undefined, int, str, num, arr, obj, nil, cons, end, field, get, string}
use b2b_stm.Table.{lookup, total}
use b2b_stm.Schema.{
  Db, TaxCategory, Response, OrderLine, Order, OrderStatus, Reservation, ReservationStatus,
  Delivery, DeliveryStatus, delivery_updated, order_confirmed, order_allocated, work_claimed,
}
use b2b_stm.Tx.{Result, ok, err, transaction, command}
use b2b_stm.Integrity.{books, IsIntegral}
use b2b_stm.Integrity.Reach.{run-IsIntegral}
use b2b_stm.Order.Frame.{run-replay}
use b2b_stm.Order.Claims.{claim-exclusive}
use b2b_stm.Order.Sums.{asked, waiting, confirm-sum, allocate-sum}
use b2b_stm.Order.Transitions.{Moved, delivery-follows}
use b2b_stm.Order.Taxed.{supplied, taxed, ship_row-taxed}
use b2b_stm.Order.Tax.{booked, target_tax}
use b2b_stm.Order.Api.{Call, submitting, confirming, run}
use b2b_stm.Order.Input.{Line, request_id}
use b2b_stm.Order.Confirm.{
  confirm, confirm_work, allocate_work, reserve_lines, lines_of, reserve_line, allocate_lines,
  allocate_line,
}
use b2b_stm.Order.Store.{
  is_counting, available, has_open_reservation, review_pending, take_assignment, log_reservation,
}
use b2b_stm.Order.Work.{Stage, claim_work, log_work, release_work, set_work}
use b2b_stm.Order.Ship.{
  Row, ship_row, check_line, insert_shipment_line, book_sale, move_out, ship_stock, settle_line,
  finish_line,
}
use b2b_stm.Order.Delivery.{delivery_work, change, dispatch}

abbrev uuid : String → Text
uuid s = codes "00000000-0000-0000-0000-0000000000" ++ codes s

abbrev pub shop : Db
shop = record {
  next_id = 100;
  now = 0;
  customers = (2, record { active = true }) ∷ [];
  warehouses = (1, record { active = true }) ∷ [];
  suppliers = [];
  products =
      (3, record { sku = codes "A"; name = codes "Apple"; sale_unit = codes "box"; active = true })
      ∷ [];
  customer_prices =
      (
        (2, 3),
        record {
          unit_price = 1005;
          tax_category = TaxCategory.taxable;
          tax_rate_bps = 1000;
          active = true;
        },
      )
      ∷ [];
  users = [];
  balances = ((1, 3), record { on_hand_quantity = 10; reserved_quantity = 0; version = 1 }) ∷ [];
  orders = [];
  order_lines = [];
  reservations = [];
  reservation_events = [];
  movements = [];
  shipments = [];
  shipment_lines = [];
  deliveries = [];
  delivery_events = [];
  assignments = [];
  assignment_events = [];
  work_lines = [];
  work_line_events = [];
  cancellation_requests = [];
  cancellations = [];
  receivable_entries = [];
  stock_counts = [];
  count_adjustments = [];
  adjustments = [];
  outbox = [];
  command_results = [];
}

abbrev one_line : String → String → ℕ → Json
one_line key id quantity =
    arr
      (cons (obj (field key (str (uuid id)) (field "quantity" (num (int (pos quantity))) end))) nil)

abbrev order_body : Json
order_body = obj (
    field "requestId" (str (uuid "a1"))
      (field "warehouseId" (str (uuid "01")) (field "lines" (one_line "productId" "03" 12) end)))

abbrev request : String → Json
request id = obj (field "requestId" (str (uuid id)) end)

abbrev submit_it : Call
submit_it = submitting 2 7 order_body

abbrev confirm_it : Call
confirm_it = confirming 8 (uuid "64") (request "a2")

-- The order 100 of twelve pieces, ten of which are in stock.
abbrev the_order : Order
the_order = record {
  customer_id = 2;
  warehouse_id = 1;
  status = OrderStatus.submitted;
  requested_by = 7;
  confirmed_by = none;
  version = 1;
}

abbrev the_line : OrderLine
the_line = record {
  order_id = 100;
  product_id = 3;
  sku = codes "A";
  product_name = codes "Apple";
  sale_unit = codes "box";
  requested_quantity = 12;
  reserved_quantity = 0;
  unit_price = some 1005;
  tax_category = TaxCategory.taxable;
  tax_rate_bps = 1000;
}

abbrev the_reservation : Reservation
the_reservation = record {
  order_line_id = 101;
  warehouse_id = 1;
  product_id = 3;
  quantity = 10;
  shipped_quantity = 0;
  status = ReservationStatus.active;
  created_by = 8;
}

abbrev submitted : Db
submitted = record shop {
  next_id = 102;
  orders = (100, the_order) ∷ [];
  order_lines = (101, the_line) ∷ [];
}

-- Confirmed, and forty more pieces have come in.
abbrev pub confirmed : Db
confirmed = record submitted {
  next_id = 104;
  balances = ((1, 3), record { on_hand_quantity = 50; reserved_quantity = 10; version = 3 }) ∷ [];
  orders = (100, record the_order { status = OrderStatus.confirmed }) ∷ [];
  order_lines = (101, record the_line { reserved_quantity = 10 }) ∷ [];
  reservations = (102, the_reservation) ∷ [];
}

abbrev worked : Db
worked = record confirmed {
  assignments = (100, 9) ∷ [];
  work_lines =
      (
        102,
        record {
          picked_quantity = 5;
          inspected_quantity = 4;
          updated_by = 9;
          picked_at = some 0;
          inspected_at = some 0;
          version = 2;
        },
      )
      ∷ [];
}

abbrev the_row : Row
the_row = record {
  id = 102;
  reservation = the_reservation;
  line = record the_line { reserved_quantity = 10 };
  customer_id = 2;
}

abbrev a_delivery : DeliveryStatus → Delivery
a_delivery status = record {
  status = status;
  scheduled_date = none;
  carrier_name = none;
  tracking_number = none;
  dispatched_at = none;
  delivered_at = none;
  recipient_name = none;
  proof_method = none;
  proof_note = none;
  failure_reason = none;
  updated_by = 9;
  version = 1;
}

abbrev with_delivery : DeliveryStatus → Db
with_delivery status = record shop { deliveries = (5, a_delivery status) ∷ [] }

abbrev pub left {ℓ} : {A : Type ℓ} → Result (A × Db) → Db
left (ok (r, d)) = d
left (err e) = shop

confirm_answers :
    run confirm_it submitted ≡ (ok (order_confirmed 100 10 2), (run confirm_it submitted).1)
unfolding run confirm uuid_test request_id string get transaction command lookup confirm_work
    uuid_value reserve_lines lines_of sort_by filter reserve_line is_counting any available
confirm_answers = refl

claim_runs : claim_work 9 100 confirmed ≡ ok (work_claimed 100 9, left (claim_work 9 100 confirmed))
unfolding claim_work lookup has_open_reservation any review_pending is_counting take_assignment
claim_runs = refl

confirm_runs :
    confirm_work 8 100 submitted
    ≡ ok (order_confirmed 100 10 2, left (confirm_work 8 100 submitted))
unfolding confirm_work lookup reserve_lines lines_of sort_by filter reserve_line is_counting any
    available
confirm_runs = refl

allocate_runs :
    allocate_work 8 100 confirmed
    ≡ ok (order_allocated 100 2 0, left (allocate_work 8 100 confirmed))
unfolding allocate_work lookup review_pending any is_counting allocate_lines lines_of sort_by filter
    allocate_line available
allocate_runs = refl

dispatch_runs :
    delivery_work dispatch 9 5 undefined (with_delivery DeliveryStatus.scheduled)
    ≡ ok (
      delivery_updated 5 DeliveryStatus.in_transit,
      left (delivery_work dispatch 9 5 undefined (with_delivery DeliveryStatus.scheduled)),
    )
unfolding delivery_work change lookup
dispatch_runs = refl

ship_runs : ship_row 9 200 the_row 4 worked ≡ ok (tt, left (ship_row 9 200 the_row 4 worked))
unfolding ship_row check_line ship_stock settle_line finish_line insert_shipment_line book_sale
    log_reservation move_out log_work lookup is_counting any
ship_runs = refl

pub shop-IsIntegral : IsIntegral (books shop)
unfolding lookup total
shop-IsIntegral = record {
  covered = λ s. ground arith;
  matched = λ s. ground arith;
  lined = λ l. refl;
  limited = λ l. ground arith;
  sound = λ k r e. cc;
  placed = λ k r e. cc;
  inspected = λ k w e. cc;
  picked = λ k w e. cc;
  keyed_lines = tt;
  keyed_reservations = tt;
  fresh_order = λ k o e. cc;
  fresh_line = λ k l e. cc;
  fresh_reservation = λ k r e. cc;
}

delivery_there : (s : DeliveryStatus) → lookup 5 (with_delivery s).deliveries ≡ some (a_delivery s)
unfolding lookup
delivery_there s = refl

reservation_there : lookup 102 worked.reservations ≡ some the_reservation
unfolding lookup
reservation_there = refl

abbrev after_submit : Db
after_submit = (run submit_it shop).1

abbrev after_confirm : Db
after_confirm = (run confirm_it after_submit).1

-- Submitted and confirmed from the shop that has no orders.
run-IsIntegral_example : IsIntegral (books (run submit_it shop).1)
run-IsIntegral_example = run-IsIntegral submit_it shop shop-IsIntegral

run-replay_example :
    run confirm_it (run confirm_it submitted).1
    ≡ (ok (order_confirmed 100 10 2), (run confirm_it submitted).1)
run-replay_example =
    run-replay confirm_it (order_confirmed 100 10 2) submitted (run confirm_it submitted).1
      confirm_answers

claim-exclusive_example :
    ((b : Response) (d : Db) → claim_work 5 100 (left (claim_work 9 100 confirmed)) ≢ ok (b, d))
    × ((stage : Stage) (lines : List Line) (b : Response) (d : Db)
        → set_work stage 5 100 lines (left (claim_work 9 100 confirmed)) ≢ ok (b, d))
    × ((reason : Text) (b : Response) (d : Db)
        → release_work 5 100 reason (left (claim_work 9 100 confirmed)) ≢ ok (b, d))
claim-exclusive_example =
    claim-exclusive 9 5 100 (work_claimed 100 9) confirmed (left (claim_work 9 100 confirmed))
      claim_runs refl

confirm-sum_example : 10 + 2 ≡ sum_map asked (lines_of 100 submitted)
confirm-sum_example =
    confirm-sum 8 100 100 10 2 submitted (left (confirm_work 8 100 submitted)) confirm_runs

allocate-sum_example : 2 + 0 ≡ sum_map waiting (lines_of 100 confirmed)
allocate-sum_example =
    allocate-sum 8 100 100 2 0 confirmed (left (allocate_work 8 100 confirmed)) allocate_runs

delivery-follows_example : Moved (a_delivery DeliveryStatus.scheduled) (
    lookup 5
      (left
        (delivery_work dispatch 9 5 undefined (with_delivery DeliveryStatus.scheduled))).deliveries)
delivery-follows_example =
    delivery-follows dispatch 9 5 undefined (delivery_updated 5 DeliveryStatus.in_transit)
      (with_delivery DeliveryStatus.scheduled)
      (left (delivery_work dispatch 9 5 undefined (with_delivery DeliveryStatus.scheduled)))
      (a_delivery DeliveryStatus.scheduled) dispatch_runs (delivery_there DeliveryStatus.scheduled)

ship_row-taxed_example :
    booked taxed 101 (left (ship_row 9 200 the_row 4 worked))
    ≡ target_tax TaxCategory.taxable 1000
        (booked supplied 101 (left (ship_row 9 200 the_row 4 worked)))
ship_row-taxed_example =
    ship_row-taxed 9 200 4 1005 the_row tt worked (left (ship_row 9 200 the_row 4 worked))
      the_reservation ship_runs reservation_there refl refl
