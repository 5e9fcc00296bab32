-- ===== src/StockCount/Frame.antt =====
-- What the commands of the stock count service promise to their caller.
use b2b_stm.Prelude.{◌≡◌, not, ◌||◌}
use b2b_stm.Json.{get, string, number, integer_from}
use b2b_stm.Schema.{Db, Response}
use b2b_stm.Tx.{ok}
use b2b_stm.Order.Frame.{IsFramed, guarded, parsed, framed}
use b2b_stm.StockCount.{
  CountCall, starting, finalizing, stopping, run_count, start, finalize, stop, count_request,
  versioned_test, missing_reason,
}

run_count-IsFramed : (call : CountCall) → IsFramed (run_count call)
unfolding run_count start finalize stop
run_count-IsFramed (starting actor body) = parsed (count_request body) _ λ request.
    guarded
      (not (versioned_test (string (get "warehouseId" body)))
        || not (versioned_test (string (get "productId" body)))
        || missing_reason (string (get "reason" body)))
      _ _ (framed _ _ _)
run_count-IsFramed (finalizing actor id body) = guarded (not (versioned_test id)) _ _ (
    parsed (count_request body) _ λ request.
      guarded
        (not (integer_from 0 (number (get "countedQuantity" body)))
          || missing_reason (string (get "reason" body)))
        _ _ (framed _ _ _))
run_count-IsFramed (stopping actor id body) = guarded (not (versioned_test id)) _ _ (
    parsed (count_request body) _
      λ request. guarded (missing_reason (string (get "reason" body))) _ _ (framed _ _ _))

-- A command on a stock count that has succeeded, sent again, gives the same answer and leaves the
-- database as it is.
pub run_count-replay :
    (call : CountCall) (r : Response) (db db' : Db)
    → run_count call db ≡ (ok r, db')
    → run_count call db' ≡ (ok r, db')
run_count-replay call r db db' ran = run_count-IsFramed call r db db' ran
