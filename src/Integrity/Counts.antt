-- ===== src/Integrity/Counts.antt =====
-- The commands of the stock count service keep the books in order.
use mathlib.Core.Path.{subst}
use native.Mathlib.Decide.{ℕ_discrete as dec_eq}
use b2b_stm.Prelude.{
  ℕ, zero, suc, ◌+◌, ◌-◌, ◌≡◌, ◌≢◌, false, none, some, Option, Option-cases, inl, inr, nat_eq,
  pair_eq, arith, not, All, All-zip, ◌||◌,
}
use b2b_stm.Prelude.Int.{ℤ, pos, negsuc, ◌-ℤ◌}
use b2b_stm.Text.{Text, uuid_value}
use b2b_stm.Json.{get, string, number, natural, integer_from}
use b2b_stm.Table.{Table, lookup}
use b2b_stm.Schema.{Db, Sku, Balance, Reservation, Response, StockCount}
use b2b_stm.Tx.{ok}
use b2b_stm.Tx.Inversion.{bind_ok}
use b2b_stm.StockCount.{
  cut_reservations, record_delta, recorded, close_work, finalize_work, start_work, stop_count_work,
  open_reservations, work_started, CountCall, starting, finalizing, stopping, run_count, start,
  finalize, stop, count_request, versioned_test, missing_reason,
}
use b2b_stm.StockCount.Balanced.{cut_reservations-sum, record_delta-balances}
use b2b_stm.Integrity.{books, IsIntegral}
use b2b_stm.Integrity.Ids.{same-IsIntegral}
use b2b_stm.Integrity.Quiet.{IsQuiet, quiet-IsIntegral}
use b2b_stm.Integrity.Rows.{IsRow}
use b2b_stm.Integrity.Cut.{ahead, ahead_none, ahead_done}
use b2b_stm.Integrity.Counting.{
  Open, Unpicked, open_rows, open_apart, rows-Open, row-Unpicked, cut_reservations-IsIntegral,
}
use b2b_stm.Integrity.Reach.{guarded_safe, parsed_safe, command_safe}

record_delta-IsQuiet :
    (actor : ℕ) (sku : Sku) (reason : Text) (delta : ℤ) (o : Option ℕ) (db d : Db)
    → record_delta actor sku reason delta db ≡ ok (o, d)
    → IsQuiet db d
unfolding record_delta
record_delta-IsQuiet actor sku reason (pos zero) o db d ran = (ground arith, ground arith)
record_delta-IsQuiet actor sku reason (pos (suc n)) o db d ran = (ground arith, ground arith)
record_delta-IsQuiet actor sku reason (negsuc n) o db d ran = (ground arith, ground arith)

cuts-IsIntegral :
    (actor id : ℕ) (sku : Sku) (shortage : ℕ) (cuts : ℕ × ℕ) (db d : Db)
    → IsIntegral (books db)
    → work_started sku db ≡ false
    → cut_reservations actor id shortage (open_reservations sku db) db ≡ ok (cuts, d)
    → IsIntegral (ahead sku cuts.1 (books d))
cuts-IsIntegral actor id sku shortage cuts db d h idle ran =
    let rows : Table ℕ Reservation = open_reservations sku db in
    let all_unpicked : All (Unpicked db) rows =
      All-zip (IsRow db.reservations) (Open sku) (Unpicked db) rows
        (λ row found its. row-Unpicked sku db row idle found its) (open_rows sku db h)
        (rows-Open sku db) in
    let from_zero : 0 + cuts.1 ≡ cuts.1 = omega arith in
    subst (λ (k : ℕ). IsIntegral (ahead sku k (books d))) from_zero
      (cut_reservations-IsIntegral actor id sku 0 shortage rows cuts db d
        (ahead_none (books db) sku h) (open_apart sku db h) (open_rows sku db h) (rows-Open sku db)
        all_unpicked ran)

close_work-IsIntegral :
    (actor id : ℕ) (sku : Sku) (counted : ℕ) (reason : Text) (b : Balance) (a : Response)
    (db db' : Db)
    → IsIntegral (books db)
    → work_started sku db ≡ false
    → lookup sku db.balances ≡ some b
    → close_work actor id sku counted reason b db ≡ ok (a, db')
    → IsIntegral (books db')
unfolding close_work
close_work-IsIntegral actor id sku counted reason b a db db' h idle there ran =
    let short : ℕ = b.reserved_quantity - counted in
    let rows : Table ℕ Reservation = open_reservations sku db in
    let delta : ℤ = pos counted -ℤ pos b.on_hand_quantity in
    bind_ok (cut_reservations actor id short rows) _ a db db' ran λ cuts d one rest.
      let sums = cut_reservations-sum actor id short rows cuts db d one in
      elim (dec_eq cuts.0 0) [
        | no left ↦ ground (arith, rest, left)
        | yes all ↦
            bind_ok (record_delta actor sku reason delta)
              (recorded actor id sku counted reason cuts delta) a d db' (ground (arith, rest, all))
              λ o d1 two last.
                let quiet : IsQuiet d d1 = record_delta-IsQuiet actor sku reason delta o d d1 two in
                let cut_so : IsIntegral (ahead sku cuts.1 (books d)) =
                  cuts-IsIntegral actor id sku short cuts db d h idle one in
                let moved : IsIntegral (ahead sku cuts.1 (books d1)) =
                  same-IsIntegral (ahead sku cuts.1 (books d)) (ahead sku cuts.1 (books d1)) cut_so
                    quiet.0 (ground (arith, quiet.1)) in
                let still : lookup sku d1.balances ≡ some b =
                  rw (record_delta-balances actor sku reason delta o d d1 two, sums.1, there) in
                let whole : cuts.1 ≡ short = ground (arith, sums.0, all) in
                subst IsIntegral (ground (arith, last))
                  (ahead_done (books d1) sku cuts.1 counted b moved still (omega (arith, whole)))
      ]

closed :
    (actor id counted : ℕ) (reason : Text) (c : StockCount) (b : Balance) (a : Response)
    (db db' : Db)
    → lookup id db.stock_counts ≡ some c
    → lookup (c.warehouse_id, c.product_id) db.balances ≡ some b
    → finalize_work actor id counted reason db ≡ ok (a, db')
    → (work_started (c.warehouse_id, c.product_id) db ≡ false)
      × (close_work actor id (c.warehouse_id, c.product_id) counted reason b db ≡ ok (a, db'))
unfolding finalize_work
closed actor id counted reason c b a db db' there balance ran =
    (ground (arith, there, balance, ran), ground (arith, there, balance, ran))

count_there :
    (actor id counted : ℕ) (reason : Text) (a : Response) (db db' : Db)
    → finalize_work actor id counted reason db ≡ ok (a, db')
    → lookup id db.stock_counts ≢ none
unfolding finalize_work
count_there actor id counted reason a db db' ran missing = ground (arith, missing)

balance_there :
    (actor id counted : ℕ) (reason : Text) (c : StockCount) (a : Response) (db db' : Db)
    → lookup id db.stock_counts ≡ some c
    → finalize_work actor id counted reason db ≡ ok (a, db')
    → lookup (c.warehouse_id, c.product_id) db.balances ≢ none
unfolding finalize_work
balance_there actor id counted reason c a db db' there ran missing =
    ground (arith, there, missing, ran)

finalize_work-IsIntegral :
    (actor id counted : ℕ) (reason : Text) (a : Response) (db db' : Db)
    → IsIntegral (books db)
    → finalize_work actor id counted reason db ≡ ok (a, db')
    → IsIntegral (books db')
finalize_work-IsIntegral actor id counted reason a db db' h ran =
    elim (Option-cases (lookup id db.stock_counts)) [
      | inl missing ↦ absurd (count_there actor id counted reason a db db' ran missing)
      | inr (c, there) ↦ elim (Option-cases (lookup (c.warehouse_id, c.product_id) db.balances)) [
        | inl missing ↦ absurd (balance_there actor id counted reason c a db db' there ran missing)
        | inr (b, balance) ↦
            let rest = closed actor id counted reason c b a db db' there balance ran in
            close_work-IsIntegral actor id (c.warehouse_id, c.product_id) counted reason b a db db'
              h rest.0 balance rest.1
      ]
    ]

start_work-IsQuiet :
    (actor : ℕ) (sku : Sku) (reason : Text) (a : Response) (db d : Db)
    → start_work actor sku reason db ≡ ok (a, d)
    → IsQuiet db d
unfolding start_work
start_work-IsQuiet actor sku reason a db d ran = (ground arith, ground arith)

stop_count_work-IsQuiet :
    (actor id : ℕ) (reason : Text) (a : Response) (db d : Db)
    → stop_count_work actor id reason db ≡ ok (a, d)
    → IsQuiet db d
unfolding stop_count_work
stop_count_work-IsQuiet actor id reason a db d ran = (ground arith, ground arith)

-- Every command of the stock count service leaves the books in order, also where it fails. At the end
-- of a count the reservations of the SKU, its balance and the order lines come down together.
pub run_count-IsIntegral :
    (call : CountCall) (db : Db) → IsIntegral (books db) → IsIntegral (books (run_count call db).1)
unfolding run_count start finalize stop
run_count-IsIntegral (starting actor body) db h =
    parsed_safe db h (count_request body) _ λ request e.
      guarded_safe db h
        (not (versioned_test (string (get "warehouseId" body)))
          || not (versioned_test (string (get "productId" body)))
          || missing_reason (string (get "reason" body)))
        _ _
        (command_safe _ _ _ db h λ a d ran.
          quiet-IsIntegral db d
            (start_work-IsQuiet actor
              (
                uuid_value (string (get "warehouseId" body)),
                uuid_value (string (get "productId" body)),
              )
              (string (get "reason" body)) a db d ran)
            h)
run_count-IsIntegral (finalizing actor id body) db h =
    guarded_safe db h (not (versioned_test id)) _ _ (
      parsed_safe db h (count_request body) _ λ request e.
        guarded_safe db h
          (not (integer_from 0 (number (get "countedQuantity" body)))
            || missing_reason (string (get "reason" body)))
          _ _
          (command_safe _ _ _ db h λ a d ran.
            finalize_work-IsIntegral actor (uuid_value id)
              (natural (number (get "countedQuantity" body))) (string (get "reason" body)) a db d h
              ran))
run_count-IsIntegral (stopping actor id body) db h =
    guarded_safe db h (not (versioned_test id)) _ _ (
      parsed_safe db h (count_request body) _ λ request e.
        guarded_safe db h (missing_reason (string (get "reason" body))) _ _ (
          command_safe _ _ _ db h λ a d ran.
            quiet-IsIntegral db d
              (stop_count_work-IsQuiet actor (uuid_value id) (string (get "reason" body)) a db d
                ran)
              h))
