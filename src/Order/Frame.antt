-- ===== src/Order/Frame.antt =====
-- What every command promises to its caller: one run again with the same request answers as before
-- and changes nothing.
use b2b_stm.Prelude.{
  ◌≡◌, true, false, arith, if◌then◌else◌, Bool, not, String, length, ◌==◌, nat_eq, ◌&&◌,
}
use b2b_stm.Text.{uuid_test}
use b2b_stm.Json.{get, string}
use b2b_stm.Schema.{Db, Response, CommandKey}
use b2b_stm.Tx.{Tx, Error, Result, ok, err, transaction, command}
use b2b_stm.Tx.Replay.{command_replay}
use b2b_stm.Order.Input.{submit_input, request_id, shipment_input, work_quantity_input}
use b2b_stm.Order.Submit.{submit}
use b2b_stm.Order.Confirm.{confirm, allocate}
use b2b_stm.Order.Work.{
  claim_shipment_work, release_shipment_work, set_shipment_work_quantities, bad_reason,
}
use b2b_stm.Order.Ship.{ship}
use b2b_stm.Order.Cancel.{cancel, request_cancellation, review_cancellation, is_reject}
use b2b_stm.Order.Delivery.{update_delivery}
use b2b_stm.Order.Api.{
  Call, submitting, confirming, allocating, cancelling, requesting, reviewing, claiming, releasing,
  working, shipping, delivering, run,
}

abbrev pub Command : Type 0
Command = Db → Result Response × Db

-- It can be repeated.
abbrev pub IsFramed : Command → Type 0
IsFramed g = (r : Response) (db db' : Db) → g db ≡ (ok r, db') → g db' ≡ (ok r, db')

refused : (e : Error) → IsFramed (λ db. (err e, db))
refused e r db db' ran = ground arith

pub guarded :
    (b : Bool) (e : Error) (g : Command)
    → IsFramed g
    → IsFramed (λ db. if b then (err e, db) else g db)
guarded true e g framed = refused e
guarded false e g framed = framed

pub parsed :
    {A : Type 0} (x : Result A) (g : A → Command)
    → ((a : A) → IsFramed (g a))
    → IsFramed (λ db. elim x as (λ _. Result Response × Db) [ err e ↦ (err e, db) | ok a ↦ g a db ])
parsed (err e) g framed = refused e
parsed (ok a) g framed = framed a

pub framed :
    (name : String) (key : CommandKey) (work : Tx Response)
    → IsFramed (transaction name (command key work))
framed name key work r db db' ran = command_replay name key work r db db' ran

run-IsFramed : (call : Call) → IsFramed (run call)
unfolding run submit confirm allocate cancel request_cancellation review_cancellation
    claim_shipment_work release_shipment_work set_shipment_work_quantities ship update_delivery
run-IsFramed (submitting customer actor body) = parsed (submit_input body) _ λ request. framed _ _ _
run-IsFramed (confirming actor order body) =
    guarded (not (uuid_test order)) _ _ (parsed (request_id body) _ λ request. framed _ _ _)
run-IsFramed (allocating actor order body) =
    guarded (not (uuid_test order)) _ _ (parsed (request_id body) _ λ request. framed _ _ _)
run-IsFramed (cancelling actor order body) = guarded (not (uuid_test order)) _ _ (
    parsed (request_id body) _
      λ request. guarded (length (string (get "reason" body)) == 0) _ _ (framed _ _ _))
run-IsFramed (requesting customer actor order body) = guarded (not (uuid_test order)) _ _ (
    parsed (request_id body) _
      λ request. guarded (length (string (get "reason" body)) == 0) _ _ (framed _ _ _))
run-IsFramed (reviewing decision actor order body) = guarded (not (uuid_test order)) _ _ (
    parsed (request_id body) _ λ request.
      guarded (is_reject decision && length (string (get "reviewNote" body)) == 0) _ _
        (framed _ _ _))
run-IsFramed (claiming actor order body) =
    guarded (not (uuid_test order)) _ _ (parsed (request_id body) _ λ request. framed _ _ _)
run-IsFramed (releasing actor order body) = guarded (not (uuid_test order)) _ _ (
    parsed (request_id body) _
      λ request. guarded (bad_reason (string (get "reason" body))) _ _ (framed _ _ _))
run-IsFramed (working stage actor order body) =
    guarded (not (uuid_test order)) _ _
      (parsed (work_quantity_input body) _ λ request. framed _ _ _)
run-IsFramed (shipping actor body) = parsed (shipment_input body) _ λ request. framed _ _ _
run-IsFramed (delivering action actor order body) =
    guarded (not (uuid_test order)) _ _ (parsed (request_id body) _ λ request. framed _ _ _)

-- A command that has succeeded, sent again, gives the same answer and leaves the database as it is.
pub run-replay :
    (call : Call) (r : Response) (db db' : Db)
    → run call db ≡ (ok r, db')
    → run call db' ≡ (ok r, db')
run-replay call r db db' ran = run-IsFramed call r db db' ran
