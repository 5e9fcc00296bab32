-- ===== src/StockCount/Examples.antt =====
-- Stock counts on the shop of Order/Examples.
use b2b_stm.Prelude.{
  ℕ, ◌<◌, ◌≡◌, ◌≢◌, refl, some, [], ◌∷◌, min, any, filter, sort_by, nat_eq, pair_eq,
}
use b2b_stm.Prelude.Int.{negsuc, ◌-ℤ◌}
use b2b_stm.Text.{Text, codes}
use b2b_stm.Table.{lookup}
use b2b_stm.Schema.{Db, Balance, Order, OrderLine, Response, count_started, count_finalized}
use b2b_stm.Tx.{ok}
use b2b_stm.Order.Store.{sku_of, is_counting, is_open_count, order_of, log_reservation}
use b2b_stm.Order.Confirm.{reserve_line, allocate_line, allocate_work}
use b2b_stm.Order.Ship.{Row, ship_row}
use b2b_stm.Order.Examples.{shop, confirmed, left}
use b2b_stm.Json.{Json, str, num, int, obj, field, end}
use b2b_stm.Prelude.Int.{pos}
use b2b_stm.Integrity.{books, IsIntegral}
use b2b_stm.Integrity.Counts.{run_count-IsIntegral}
use b2b_stm.StockCount.{
  CountCall, starting, finalizing, run_count, start, count_request, versioned_test, missing_reason,
}
use b2b_stm.StockCount.Frame.{run_count-replay}
use b2b_stm.Table.{total}
use b2b_stm.Text.{uuid_test, uuid_value}
use b2b_stm.Json.{string, get}
use b2b_stm.Tx.{Result, transaction, command, stored}
use b2b_stm.Prelude.{arith}
use b2b_stm.StockCount.{
  new_count, start_work, finalize_work, work_started, close_work, open_reservations,
  cut_reservations, cut_reservation, record_delta,
}
use b2b_stm.StockCount.Frozen.{start-frozen}
use b2b_stm.StockCount.Balanced.{stock_of, finalize-balanced}

abbrev the_balance : Balance
the_balance = record { on_hand_quantity = 50; reserved_quantity = 10; version = 3 }

-- The count 300 of the SKU, which finds only seven pieces of the ten that are reserved.
abbrev counted : Db
counted = record confirmed {
  next_id = 301;
  stock_counts = (300, new_count 6 (1, 3) (codes "yearly") the_balance) ∷ [];
}

start_runs :
    start_work 6 (1, 3) (codes "yearly") confirmed
    ≡ ok (count_started 104 50 10, left (start_work 6 (1, 3) (codes "yearly") confirmed))
unfolding start_work lookup is_counting any work_started
start_runs = refl

finalize_runs :
    finalize_work 6 300 7 (codes "loss") counted
    ≡ ok (count_finalized 300 7 3 (negsuc 42), left (finalize_work 6 300 7 (codes "loss") counted))
unfolding finalize_work lookup work_started any close_work open_reservations sort_by filter
    cut_reservations cut_reservation record_delta log_reservation is_open_count order_of ◌-ℤ◌
finalize_runs = refl

count_there :
    lookup 300 counted.stock_counts ≡ some (new_count 6 (1, 3) (codes "yearly") the_balance)
unfolding lookup
count_there = refl

balance_there : lookup (1, 3) counted.balances ≡ some the_balance
unfolding lookup
balance_there = refl

start-frozen_example :
    ((by id : ℕ) (line : OrderLine) (b : ℕ × ℕ) (d : Db)
      → line.product_id ≡ 3
      → reserve_line by 1 (id, line) (left (start_work 6 (1, 3) (codes "yearly") confirmed))
        ≢ ok (b, d))
    × ((by id : ℕ) (line : OrderLine) (b : ℕ × ℕ) (d : Db)
        → line.product_id ≡ 3
        → line.reserved_quantity < line.requested_quantity
        → allocate_line by 1 (id, line) (left (start_work 6 (1, 3) (codes "yearly") confirmed))
          ≢ ok (b, d))
    × ((by id k : ℕ) (o : Order) (line : OrderLine) (b : Response) (d : Db)
        → lookup id (left (start_work 6 (1, 3) (codes "yearly") confirmed)).orders ≡ some o
        → o.warehouse_id ≡ 1
        → lookup k (left (start_work 6 (1, 3) (codes "yearly") confirmed)).order_lines ≡ some line
        → line.order_id ≡ id
        → line.product_id ≡ 3
        → allocate_work by id (left (start_work 6 (1, 3) (codes "yearly") confirmed)) ≢ ok (b, d))
    × ((by shipment q : ℕ) (row : Row) (u : Unit {0}) (d : Db)
        → sku_of row.reservation ≡ (1, 3)
        → ship_row by shipment row q (left (start_work 6 (1, 3) (codes "yearly") confirmed))
          ≢ ok (u, d))
    × ((by : ℕ) (why : Text) (b : Response) (d : Db)
        → start_work by (1, 3) why (left (start_work 6 (1, 3) (codes "yearly") confirmed))
          ≢ ok (b, d))
start-frozen_example =
    start-frozen 6 (1, 3) (codes "yearly") (count_started 104 50 10) confirmed
      (left (start_work 6 (1, 3) (codes "yearly") confirmed)) start_runs

finalize-balanced_example :
    stock_of (lookup (1, 3) (left (finalize_work 6 300 7 (codes "loss") counted)).balances)
    ≡ some (7, min 10 7)
finalize-balanced_example =
    finalize-balanced 6 300 7 (codes "loss") (new_count 6 (1, 3) (codes "yearly") the_balance)
      the_balance (count_finalized 300 7 3 (negsuc 42)) counted
      (left (finalize_work 6 300 7 (codes "loss") counted)) count_there balance_there finalize_runs

abbrev count_body : Json
count_body = obj (
    field "requestId" (str (codes "00000000-0000-4000-8000-0000000000b1"))
      (field "countedQuantity" (num (int (pos 7))) (field "reason" (str (codes "loss")) end)))

abbrev start_body : Json
start_body = obj (
    field "requestId" (str (codes "00000000-0000-4000-8000-0000000000b2")) (
      field "warehouseId" (str (codes "00000000-0000-4000-8000-000000000001")) (
        field "productId" (str (codes "00000000-0000-4000-8000-000000000003"))
          (field "reason" (str (codes "yearly")) end))))

-- The shop with ids of version 4.
abbrev depot : Db
depot = record shop {
  next_id = 0x40008000000000000300;
  balances =
      (
        (0x40008000000000000001, 0x40008000000000000003),
        record { on_hand_quantity = 9; reserved_quantity = 0; version = 1 },
      )
      ∷ [];
}

depot-IsIntegral : IsIntegral (books depot)
unfolding lookup total
depot-IsIntegral = record {
  covered = λ s. ground arith;
  matched = λ s. ground arith;
  lined = λ l. refl;
  limited = λ l. ground arith;
  sound = λ k r e. cc;
  placed = λ k r e. cc;
  inspected = λ k w e. cc;
  picked = λ k w e. cc;
  keyed_lines = tt;
  keyed_reservations = tt;
  fresh_order = λ k o e. cc;
  fresh_line = λ k l e. cc;
  fresh_reservation = λ k r e. cc;
}

abbrev start_it : CountCall
start_it = starting 6 start_body

abbrev count_it : CountCall
count_it = finalizing 6 (codes "00000000-0000-4000-8000-000000000300") count_body

-- A count of nine pieces that finds seven.
abbrev recounted : Result Response × Db
recounted = run_count count_it (run_count start_it depot).1

run_count-IsIntegral_example : IsIntegral (books recounted.1)
run_count-IsIntegral_example =
    run_count-IsIntegral count_it (run_count start_it depot).1
      (run_count-IsIntegral start_it depot depot-IsIntegral)

start_answers :
    run_count start_it depot
    ≡ (ok (count_started 0x40008000000000000300 9 0), (run_count start_it depot).1)
unfolding run_count start count_request versioned_test uuid_test string get missing_reason
    transaction command lookup uuid_value start_work is_counting any work_started stored
start_answers = refl

run_count-replay_example :
    run_count start_it (run_count start_it depot).1
    ≡ (ok (count_started 0x40008000000000000300 9 0), (run_count start_it depot).1)
run_count-replay_example =
    run_count-replay start_it (count_started 0x40008000000000000300 9 0) depot
      (run_count start_it depot).1 start_answers
