-- ===== src/Integrity/Cancelling.antt =====
-- `cancel`, `requestCancellation` and `reviewCancellation` keep the books in order.
use mathlib.Core.Path.{subst}
use b2b_stm.Prelude.{
  ℕ, suc, ◌≡◌, refl, none, some, nat_eq, pair_eq, arith, inl, inr, ◌≢◌, Option, Option-cases, [],
}
use b2b_stm.Text.{Text, codes}
use b2b_stm.Table.{lookup}
use b2b_stm.Schema.{Db, Order, OrderStatus, Response, CancellationRequest}
use b2b_stm.Tx.{ok}
use b2b_stm.Tx.Inversion.{bind_ok}
use b2b_stm.Order.Store.{is_confirmed}
use b2b_stm.Order.Confirm.{order_in}
use b2b_stm.Order.Cancel.{
  release_order_reservations, mark_cancelled, mark_reviewed, cancel_order, cancel_work,
  accept_request, record_request, stop_work, drop_work, log_return, reset_shipment_work,
  request_work, Decision, approve, reject, approve_request, review_work,
}
use b2b_stm.Integrity.{books, IsIntegral}
use b2b_stm.Integrity.Orders.{marked-IsIntegral}
use b2b_stm.Integrity.Reserve.{order_in-same}
use b2b_stm.Integrity.Quiet.{IsQuiet, quiet-IsIntegral}
use b2b_stm.Integrity.Releasing.{release_order-IsIntegral, reset-IsIntegral}

abbrev cancelled : Order → Order
cancelled o = record o { status = OrderStatus.cancelled; version = suc o.version }

cancelled-IsIntegral :
    (actor id : ℕ) (reason : Text) (db : Db)
    → IsIntegral (books db)
    → IsIntegral (books (mark_cancelled actor id reason db))
cancelled-IsIntegral actor id reason db h = marked-IsIntegral (books db) h id cancelled (λ x. refl)

cancel_order-IsIntegral :
    (actor id : ℕ) (reason : Text) (a : Response) (db db' : Db)
    → IsIntegral (books db)
    → cancel_order actor id reason db ≡ ok (a, db')
    → IsIntegral (books db')
unfolding cancel_order
cancel_order-IsIntegral actor id reason a db db' h ran =
    bind_ok (release_order_reservations actor id) _ a db db' ran λ q d one last.
      let same : mark_cancelled actor id reason d ≡ db' = ground (arith, last) in
      subst (λ (d : Db). IsIntegral (books d)) same
        (cancelled-IsIntegral actor id reason d (release_order-IsIntegral actor id q db d h one))

pub cancel_work-IsIntegral :
    (actor id : ℕ) (reason : Text) (a : Response) (db db' : Db)
    → IsIntegral (books db)
    → cancel_work actor id reason db ≡ ok (a, db')
    → IsIntegral (books db')
unfolding cancel_work
cancel_work-IsIntegral actor id reason a db db' h ran =
    bind_ok (order_in is_confirmed "Order cannot be cancelled" id) _ a db db' ran λ o d found rest.
      let same : d ≡ db = order_in-same is_confirmed _ id o db d found in
      cancel_order-IsIntegral actor id reason a d db' (rw same h) (ground (arith, rest))

approve_request-IsIntegral :
    (actor request : ℕ) (row : CancellationRequest) (a : Response) (db db' : Db)
    → IsIntegral (books db)
    → approve_request actor request row db ≡ ok (a, db')
    → IsIntegral (books db')
unfolding approve_request
approve_request-IsIntegral actor request row a db db' h ran =
    bind_ok (release_order_reservations actor row.order_id) _ a db db' ran λ q d one last.
      let same : mark_reviewed approve actor request []
            (mark_cancelled actor row.order_id row.reason d)
          ≡ db' =
        ground (arith, last) in
      subst (λ (d : Db). IsIntegral (books d)) same
        (cancelled-IsIntegral actor row.order_id row.reason d
          (release_order-IsIntegral actor row.order_id q db d h one))

rejected-IsQuiet :
    (actor request : ℕ) (note : Text) (a : Response) (db db' : Db)
    → review_work reject actor request note db ≡ ok (a, db')
    → IsQuiet db db'
unfolding review_work
rejected-IsQuiet actor request note a db db' ran = (ground arith, ground arith)

unknown_request :
    (decision : Decision) (actor request : ℕ) (note : Text) (a : Response) (db db' : Db)
    → review_work decision actor request note db ≡ ok (a, db')
    → lookup request db.cancellation_requests ≢ none
unfolding review_work
unknown_request decision actor request note a db db' ran missing = ground arith

approved :
    (actor request : ℕ) (note : Text) (row : CancellationRequest) (a : Response) (db db' : Db)
    → review_work approve actor request note db ≡ ok (a, db')
    → lookup request db.cancellation_requests ≡ some row
    → approve_request actor request row db ≡ ok (a, db')
unfolding review_work
approved actor request note row a db db' ran there = ground arith

pub review_work-IsIntegral :
    (decision : Decision) (actor request : ℕ) (note : Text) (a : Response) (db db' : Db)
    → IsIntegral (books db)
    → review_work decision actor request note db ≡ ok (a, db')
    → IsIntegral (books db')
review_work-IsIntegral reject actor request note a db db' h ran =
    quiet-IsIntegral db db' (rejected-IsQuiet actor request note a db db' ran) h
review_work-IsIntegral approve actor request note a db db' h ran =
    elim (Option-cases (lookup request db.cancellation_requests)) [
      | inl missing ↦ absurd (unknown_request approve actor request note a db db' ran missing)
      | inr (row, there) ↦
          approve_request-IsIntegral actor request row a db db' h
            (approved actor request note row a db db' ran there)
    ]

log_return-IsQuiet :
    (actor id : ℕ) (worker : Option ℕ) (u : Unit {0}) (db d : Db)
    → log_return actor id worker db ≡ ok (u, d)
    → IsQuiet db d
unfolding log_return
log_return-IsQuiet actor id none u db d ran = (ground arith, ground arith)
log_return-IsQuiet actor id (some w) u db d ran = (ground arith, ground arith)

stop_work-IsIntegral :
    (actor id : ℕ) (u : Unit {0}) (db db' : Db)
    → IsIntegral (books db)
    → stop_work actor id db ≡ ok (u, db')
    → IsIntegral (books db')
unfolding stop_work
stop_work-IsIntegral actor id u db db' h ran =
    bind_ok (reset_shipment_work actor id (codes "취소 검토 요청으로 피킹·검수 초기화"))
      (λ _. log_return actor id (lookup id db.assignments)) u (drop_work id db) db'
      (ground (arith, ran))
      λ v d one last.
        let start = reset-IsIntegral actor id _ v (drop_work id db) d h one in
        quiet-IsIntegral d db' (log_return-IsQuiet actor id (lookup id db.assignments) u d db' last)
          start.0

record_request-IsQuiet :
    (actor id : ℕ) (reason : Text) (request : ℕ) (db d : Db)
    → record_request actor id reason db ≡ ok (request, d)
    → IsQuiet db d
unfolding record_request
record_request-IsQuiet actor id reason request db d ran = (ground arith, ground arith)

accept_request-IsIntegral :
    (actor id : ℕ) (reason : Text) (a : Response) (db db' : Db)
    → IsIntegral (books db)
    → accept_request actor id reason db ≡ ok (a, db')
    → IsIntegral (books db')
unfolding accept_request
accept_request-IsIntegral actor id reason a db db' h ran =
    bind_ok (record_request actor id reason) _ a db db' ran λ request d one rest.
      bind_ok (stop_work actor id) _ a d db' rest λ u d1 two last.
        let recorded : IsIntegral (books d) =
          quiet-IsIntegral db d (record_request-IsQuiet actor id reason request db d one) h in
        let same : d1 ≡ db' = ground (arith, last) in
        subst (λ (d : Db). IsIntegral (books d)) same
          (stop_work-IsIntegral actor id u d d1 recorded two)

pub request_work-IsIntegral :
    (customer actor id : ℕ) (reason : Text) (a : Response) (db db' : Db)
    → IsIntegral (books db)
    → request_work customer actor id reason db ≡ ok (a, db')
    → IsIntegral (books db')
unfolding request_work
request_work-IsIntegral customer actor id reason a db db' h ran =
    accept_request-IsIntegral actor id reason a db db' h (ground (arith, ran))
