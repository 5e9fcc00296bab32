-- ===== src/StockCount.antt =====
-- The stock count service: apps/api/src/stock-counts/stock-count.service.ts. A count freezes a SKU,
-- and its end sets the stock to what was counted, releasing reservations that it no longer covers.
pub mod Frozen
pub mod Balanced
pub mod Frame
mod Examples
use b2b_stm.Prelude.{
  ℕ, zero, suc, ◌+◌, ◌-◌, min, Bool, true, false, ◌&&◌, ◌||◌, not, Option, none, some, is_some,
  List, [], ◌∷◌, ◌++◌, String, any, filter, sort_by, length, ◌==◌, nat_eq, string_eq, pair_eq,
  if◌then◌else◌, ltb, leb,
}
use b2b_stm.Prelude.Int.{ℤ, pos, ◌-ℤ◌}
use b2b_stm.Text.{Text, codes, uuid_test, uuid_value}
use b2b_stm.Json.{Json, Number, get, string, number, integer_from, natural}
use b2b_stm.Table.{Table, lookup, modify, insert}
use b2b_stm.Schema.{
  Db, Sku, Balance, CountStatus, StockCount, Reservation, ReservationStatus, OrderLine, Response,
  count_started, count_finalized, count_stopped,
}
use b2b_stm.Tx.{
  Tx, Error, Result, ok, err, bad_request, conflict, not_found, fault, pure, throw, ◌>>=◌, ◌>>◌,
  query, execute, throw_if, or_throw, random_uuid, transaction, command,
}
use b2b_stm.Order.Store.{is_active, sku_of, is_counting, is_open_count, log_reservation, order_of}

-- The code unit at a place, or 0.
char_at : ℕ → Text → ℕ
char_at n [] = 0
char_at zero (c ∷ s) = c
char_at (suc n) (c ∷ s) = char_at n s

-- This service's pattern asks for a version from 1 to 5 and for the variant 8, 9, a or b.
unfoldable pub versioned_test : Text → Bool
unfolding char_at
versioned_test s =
    let version = char_at 14 s in
    let variant = char_at 19 s in
    uuid_test s
    && leb b'1' version
    && leb version b'5'
    && (variant == b'8'
        || variant == b'9'
        || variant == b'a'
        || variant == b'b'
        || variant == b'A'
        || variant == b'B')

unfoldable pub count_request : Json → Result ℕ
count_request body =
    let request = string (get "requestId" body) in
    if not (versioned_test request)
    then err (bad_request "Valid request ID is required")
    else ok (uuid_value request)

-- `!reason || reason.length > 300`
unfoldable pub missing_reason : Text → Bool
missing_reason reason = length reason == 0 || ltb 300 (length reason)

-- A work line of an active reservation of the SKU with something picked or inspected.
unfoldable pub work_started : Sku → Db → Bool
work_started sku db =
    any
      (λ w.
        (elim (lookup w.0 db.reservations) [
          | none ↦ false
          | some r ↦ sku_of r == sku && is_active r.status
        ])
        && (ltb 0 w.1.picked_quantity || ltb 0 w.1.inspected_quantity))
      db.work_lines

abbrev pub new_count : ℕ → Sku → Text → Balance → StockCount
new_count actor sku reason b = record {
  warehouse_id = sku.0;
  product_id = sku.1;
  status = CountStatus.counting;
  snapshot_on_hand_quantity = b.on_hand_quantity;
  snapshot_reserved_quantity = b.reserved_quantity;
  counted_quantity = none;
  released_reservation_quantity = 0;
  reason = reason;
  started_by = actor;
  closed_by = none;
  adjustment_id = none;
}

unfoldable pub start_work : ℕ → Sku → Text → Tx Response
unfolding random_uuid
start_work actor sku reason = do
  balance ← query (λ db. lookup sku db.balances)
  b ← or_throw balance (not_found "Inventory balance unavailable")
  counting ← query (is_counting sku)
  throw_if counting (conflict "SKU is already under stock count")
  started ← query (work_started sku)
  throw_if started (conflict "Picked or inspected stock must be cleared before counting")
  id ← random_uuid
  execute
      (λ db. record db { stock_counts = insert id (new_count actor sku reason b) db.stock_counts })
  pure (count_started id b.on_hand_quantity b.reserved_quantity)

unfoldable pub start : ℕ → Json → Db → Result Response × Db
start actor body db = elim (count_request body) [
  | err e ↦ (err e, db)
  | ok request ↦
      let warehouse = string (get "warehouseId" body) in
      let product = string (get "productId" body) in
      let reason = string (get "reason" body) in
      if not (versioned_test warehouse) || not (versioned_test product) || missing_reason reason
      then (err (bad_request "Warehouse, SKU and reason are required"), db)
      else transaction "Stock count unavailable"
          (command (actor, ("stock-count.start", request))
            (start_work actor (uuid_value warehouse, uuid_value product) reason))
          db
]

-- The order of a reservation, for the sort: newest first.
unfoldable pub order_number : Db → Reservation → ℕ
order_number db r = elim (order_of db r) [ none ↦ 0 | some o ↦ o ]

-- The open reservations of the SKU, those of the newest orders first. Ids ascend with the time of
-- their creation and stay below `next_id`, so this is the descending order.
unfoldable pub open_reservations : Sku → Db → Table ℕ Reservation
unfolding order_number
open_reservations sku db =
    sort_by (λ row. db.next_id - order_number db row.1)
      (sort_by (λ row. db.next_id - row.0)
        (filter
          (λ row.
            sku_of row.1 == sku
            && is_active row.1.status
            && ltb row.1.shipped_quantity row.1.quantity
            && is_some (order_of db row.1))
          db.reservations))

-- A part of a reservation goes by its quantity, all that is left of it by its status.
abbrev pub cut : Bool → ℕ → Reservation → Reservation
cut full q r = record r {
  quantity = if full then r.quantity else r.quantity - q;
  status = if full then ReservationStatus.released else ReservationStatus.active;
}

abbrev pub cut_back : ℕ → Reservation → ℕ → Bool → Db → Db
cut_back id r q full db = record db {
  reservations = modify id (cut full q) db.reservations;
  order_lines =
      modify r.order_line_id (λ l. record l { reserved_quantity = l.reserved_quantity - q })
        db.order_lines;
}

unfoldable pub cut_reservation : ℕ → ℕ → ℕ → ℕ × Reservation → Tx (Unit {0})
unfolding random_uuid
cut_reservation actor count q (id, r) = do
  execute (cut_back id r q (q == (r.quantity - r.shipped_quantity)))
  log_reservation id "released" q actor
  adjustment ← random_uuid
  execute (λ db. record db {
    count_adjustments =
        insert adjustment
          (record { stock_count_id = count; reservation_id = id; released_quantity = q })
          db.count_adjustments;
  })

-- What is still short after the reservations in turn, and what was released.
unfoldable pub cut_reservations : ℕ → ℕ → ℕ → Table ℕ Reservation → Tx (ℕ × ℕ)
cut_reservations actor count shortage [] = pure (shortage, 0)
cut_reservations actor count zero (row ∷ rows) = pure (0, 0)
cut_reservations actor count (suc n) ((id, r) ∷ rows) = do
  let q = min (suc n) (r.quantity - r.shipped_quantity)
  cut_reservation actor count q (id, r)
  rest ← cut_reservations actor count (suc n - q) rows
  pure (rest.0, q + rest.1)

-- The adjustment and its movement, where the count differs from the stock on hand.
unfoldable pub record_delta : ℕ → Sku → Text → ℤ → Tx (Option ℕ)
unfolding random_uuid
record_delta actor sku reason (pos zero) = pure none
record_delta actor sku reason delta = do
  adjustment ← random_uuid
  movement ← random_uuid
  execute (λ db. record db {
    adjustments =
        insert adjustment
          (record {
            sku = sku;
            quantity_delta = delta;
            reason = codes "실사 확정: " ++ reason;
            adjusted_by = actor;
          })
          db.adjustments;
    movements =
        insert movement
          (record {
            sku = sku;
            movement_type = "adjustment";
            quantity_delta = delta;
            reference = adjustment;
            created_by = actor;
          })
          db.movements;
  })
  pure (some adjustment)

abbrev pub set_counted : ℕ → ℕ → Balance → Balance
set_counted counted released b = record b {
  on_hand_quantity = counted;
  reserved_quantity = b.reserved_quantity - released;
  version = suc b.version;
}

abbrev pub close_count : ℕ → ℕ → ℕ → Text → Option ℕ → StockCount → StockCount
close_count actor counted released reason adjustment c = record c {
  status = CountStatus.finalized;
  counted_quantity = some counted;
  released_reservation_quantity = released;
  reason = reason;
  closed_by = some actor;
  adjustment_id = adjustment;
}

abbrev pub finish_count : ℕ → ℕ → Sku → ℕ → ℕ → Text → Option ℕ → Db → Db
finish_count actor id sku counted released reason adjustment db = record db {
  balances = modify sku (set_counted counted released) db.balances;
  stock_counts = modify id (close_count actor counted released reason adjustment) db.stock_counts;
}

-- The last statements, with the answer.
abbrev pub recorded : ℕ → ℕ → Sku → ℕ → Text → ℕ × ℕ → ℤ → Option ℕ → Tx Response
recorded actor id sku counted reason cuts delta adjustment = do
  throw_if (ltb 2147483647 counted) (fault "integer out of range")
  execute (finish_count actor id sku counted cuts.1 reason adjustment)
  pure (count_finalized id counted cuts.1 delta)

-- The end of a count whose SKU has the balance b.
unfoldable pub close_work : ℕ → ℕ → Sku → ℕ → Text → Balance → Tx Response
close_work actor id sku counted reason b = do
  rows ← query (open_reservations sku)
  cuts ← cut_reservations actor id (b.reserved_quantity - counted) rows
  throw_if (not (cuts.0 == 0)) (conflict "Reserved inventory cannot be reconciled")
  let delta = pos counted -ℤ pos b.on_hand_quantity
  adjustment ← record_delta actor sku reason delta
  recorded actor id sku counted reason cuts delta adjustment

unfoldable pub finalize_work : ℕ → ℕ → ℕ → Text → Tx Response
finalize_work actor id counted reason = do
  found ← query (λ db. lookup id db.stock_counts)
  count ← or_throw found (not_found "Stock count unavailable")
  throw_if (not (is_open_count count.status)) (conflict "Stock count is already closed")
  let sku : Sku = (count.warehouse_id, count.product_id)
  balance ← query (λ db. lookup sku db.balances)
  started ← query (work_started sku)
  throw_if started (conflict "Picked or inspected stock changed during counting")
  b ← or_throw balance (fault "TypeError")
  close_work actor id sku counted reason b

unfoldable pub finalize : ℕ → Text → Json → Db → Result Response × Db
finalize actor id body db =
    if not (versioned_test id)
    then (err (bad_request "Invalid stock count ID"), db)
    else (elim (count_request body) [
      | err e ↦ (err e, db)
      | ok request ↦
          let counted = number (get "countedQuantity" body) in
          let reason = string (get "reason" body) in
          if not (integer_from 0 counted) || missing_reason reason
          then (err (bad_request "Counted quantity and reason are required"), db)
          else transaction "Stock count unavailable"
              (command (actor, ("stock-count.finalize", request))
                (finalize_work actor (uuid_value id) (natural counted) reason))
              db
    ])

abbrev pub stop_count : ℕ → Text → StockCount → StockCount
stop_count actor reason c = record c {
  status = CountStatus.count_cancelled;
  reason = reason;
  closed_by = some actor;
}

unfoldable pub open_count : ℕ → Db → Bool
open_count id db = elim (lookup id db.stock_counts) [
  | none ↦ false
  | some c ↦ is_open_count c.status
]

unfoldable pub stop_count_work : ℕ → ℕ → Text → Tx Response
stop_count_work actor id reason = do
  counting ← query (open_count id)
  throw_if (not counting) (conflict "Active stock count unavailable")
  execute (λ db. record db { stock_counts = modify id (stop_count actor reason) db.stock_counts })
  pure (count_stopped id)

unfoldable pub stop : ℕ → Text → Json → Db → Result Response × Db
stop actor id body db =
    if not (versioned_test id)
    then (err (bad_request "Invalid stock count ID"), db)
    else (elim (count_request body) [
      | err e ↦ (err e, db)
      | ok request ↦
          let reason = string (get "reason" body) in
          if missing_reason reason
          then (err (bad_request "Cancellation reason is required"), db)
          else transaction "Stock count unavailable"
              (command (actor, ("stock-count.cancel", request))
                (stop_count_work actor (uuid_value id) reason))
              db
    ])

pub data CountCall : Type 0 where
  starting : (actor : ℕ) → Json → CountCall
  finalizing : (actor : ℕ) → Text → Json → CountCall
  stopping : (actor : ℕ) → Text → Json → CountCall

unfoldable pub run_count : CountCall → Db → Result Response × Db
run_count (starting actor body) = start actor body
run_count (finalizing actor id body) = finalize actor id body
run_count (stopping actor id body) = stop actor id body
