-- ===== src/Integrity/Reach.antt =====
-- Every command keeps the books in order, and so does every run of commands between which other
-- parts of the system change what is not in the books.
use mathlib.Core.Path.{subst}
use b2b_stm.Prelude.{
  ℕ, ◌≡◌, refl, true, false, none, ◌==◌, nat_eq, string_eq, pair_eq, arith, if◌then◌else◌, any, inl,
  inr, Bool, not, String, Option-cases, List, [], ◌∷◌, All, length, ◌&&◌, map,
}
use b2b_stm.Text.{Text, uuid_test, uuid_value}
use b2b_stm.Json.{Json, integer_from, natural, get, string}
use b2b_stm.Table.{lookup}
use b2b_stm.Schema.{Db, Response, CommandKey}
use b2b_stm.Tx.{Tx, Error, Result, ok, err, settle, transaction, command, run_or_replay, remember}
use b2b_stm.Tx.Inversion.{bind_ok}
use b2b_stm.Order.Input.{
  LinesInput, RawLine, submit_input, request_id, shipment_input, work_quantity_input, invalid_lines,
  invalid_line, checked_line, lines_input, raw_lines,
}
use b2b_stm.Order.Submit.{submit}
use b2b_stm.Order.Confirm.{confirm, allocate}
use b2b_stm.Order.Work.{
  Stage, claim_shipment_work, release_shipment_work, set_shipment_work_quantities, bad_reason,
}
use b2b_stm.Order.Ship.{ship}
use b2b_stm.Order.Cancel.{Decision, cancel, request_cancellation, review_cancellation, is_reject}
use b2b_stm.Order.Delivery.{Action, update_delivery}
use b2b_stm.Order.Api.{
  Call, submitting, confirming, allocating, cancelling, requesting, reviewing, claiming, releasing,
  working, shipping, delivering, run,
}
use b2b_stm.Integrity.{books, IsIntegral}
use b2b_stm.Integrity.Quiet.{
  quiet-IsIntegral, claim_work-IsQuiet, release_work-IsQuiet, delivery_work-IsQuiet,
}
use b2b_stm.Integrity.Reserve.{confirm_work-IsIntegral}
use b2b_stm.Integrity.Allocation.{allocate_work-IsIntegral}
use b2b_stm.Integrity.Shipping.{IsPositive}
use b2b_stm.Integrity.Shipments.{ship_work-IsIntegral}
use b2b_stm.Integrity.Cancelling.{
  cancel_work-IsIntegral, request_work-IsIntegral, review_work-IsIntegral,
}
use b2b_stm.Integrity.Working.{set_work-IsIntegral}
use b2b_stm.Integrity.Submitting.{submit_work-IsIntegral}

abbrev pub Integral : Db → Type 0
Integral db = IsIntegral (books db)

-- What a step keeps when it succeeds.
abbrev pub IsSafe : Tx Response → Db → Type 0
IsSafe work db = (a : Response) (d : Db) → work db ≡ ok (a, d) → Integral d

done-IsSafe :
    (work : Tx Response) (key : CommandKey) (db : Db)
    → IsSafe work db
    → IsSafe (run_or_replay key work none) db
unfolding remember
done-IsSafe work key db safe a d ran =
    bind_ok work (λ r. λ d. ok (r, remember key r d)) a db d (ground (arith, ran))
      λ r d1 one last.
        let same : remember key r d1 ≡ d = ground (arith, last) in
        subst Integral same (safe r d1 one)

settle_safe :
    (name : String) (db : Db) (x : Result (Response × Db))
    → Integral db
    → ((a : Response) (d : Db) → x ≡ ok (a, d) → Integral d)
    → Integral (settle name db x).1
settle_safe name db (ok (a, d)) h safe = safe a d refl
settle_safe name db (err e) h safe = h

pub command_safe :
    (name : String) (key : CommandKey) (work : Tx Response) (db : Db)
    → Integral db
    → IsSafe work db
    → Integral (transaction name (command key work) db).1
unfolding transaction command
command_safe name key work db h safe =
    settle_safe name db (run_or_replay key work (lookup key db.command_results) db) h
      (elim (Option-cases (lookup key db.command_results)) [
        | inl unknown ↦ λ a d ran. done-IsSafe work key db safe a d (rw unknown at ran)
        | inr (r, known) ↦ λ a d ran. ground (arith, known, ran, h)
      ])

module _ (db : Db) (h : Integral db) where
  pub guarded_safe :
      (b : Bool) (e : Error) (x : Result Response × Db)
      → Integral x.1
      → Integral (if b then (err e, db) else x).1
  guarded_safe true e x safe = h
  guarded_safe false e x safe = safe

  pub parsed_safe :
      {A : Type 0} (x : Result A) (f : A → Result Response × Db)
      → ((a : A) → x ≡ ok a → Integral (f a).1)
      → Integral (elim x as (λ _. Result Response × Db) [ err e ↦ (err e, db) | ok a ↦ f a ]).1
  parsed_safe (err e) f safe = h
  parsed_safe (ok a) f safe = safe a refl

lines-IsPositive :
    (lines : List RawLine)
    → any (invalid_line 1) lines ≡ false
    → All IsPositive (map checked_line lines)
unfolding any invalid_line checked_line natural integer_from
lines-IsPositive [] valid = tt
lines-IsPositive (line ∷ lines) valid = (ground arith, lines-IsPositive lines (ground arith))

input-IsPositive :
    (body : Json) (input : LinesInput) → shipment_input body ≡ ok input → All IsPositive input.lines
unfolding shipment_input lines_input invalid_lines
input-IsPositive body input e =
    let same : map checked_line (raw_lines "reservationId" body) ≡ input.lines = ground arith in
    subst (All IsPositive) same (lines-IsPositive (raw_lines "reservationId" body) (ground arith))

confirm-IsIntegral :
    (actor : ℕ) (order : Text) (body : Json) (db : Db)
    → Integral db
    → Integral (confirm actor order body db).1
unfolding confirm
confirm-IsIntegral actor order body db h = guarded_safe db h (not (uuid_test order)) _ _ (
    parsed_safe db h (request_id body) _ λ request e.
      command_safe _ _ _ db h
        λ a d ran. confirm_work-IsIntegral actor (uuid_value order) a db d h ran)

allocate-IsIntegral :
    (actor : ℕ) (order : Text) (body : Json) (db : Db)
    → Integral db
    → Integral (allocate actor order body db).1
unfolding allocate
allocate-IsIntegral actor order body db h = guarded_safe db h (not (uuid_test order)) _ _ (
    parsed_safe db h (request_id body) _ λ request e.
      command_safe _ _ _ db h
        λ a d ran. allocate_work-IsIntegral actor (uuid_value order) a db d h ran)

claim_shipment_work-IsIntegral :
    (actor : ℕ) (order : Text) (body : Json) (db : Db)
    → Integral db
    → Integral (claim_shipment_work actor order body db).1
unfolding claim_shipment_work
claim_shipment_work-IsIntegral actor order body db h =
    guarded_safe db h (not (uuid_test order)) _ _ (
      parsed_safe db h (request_id body) _ λ request e.
        command_safe _ _ _ db h λ a d ran.
          quiet-IsIntegral db d (claim_work-IsQuiet actor (uuid_value order) a db d ran) h)

set_shipment_work_quantities-IsIntegral :
    (stage : Stage) (actor : ℕ) (order : Text) (body : Json) (db : Db)
    → Integral db
    → Integral (set_shipment_work_quantities stage actor order body db).1
unfolding set_shipment_work_quantities
set_shipment_work_quantities-IsIntegral stage actor order body db h =
    guarded_safe db h (not (uuid_test order)) _ _ (
      parsed_safe db h (work_quantity_input body) _ λ request e.
        command_safe _ _ _ db h
          λ a d ran. set_work-IsIntegral stage actor (uuid_value order) request.lines a db d h ran)

update_delivery-IsIntegral :
    (action : Action) (actor : ℕ) (order : Text) (body : Json) (db : Db)
    → Integral db
    → Integral (update_delivery action actor order body db).1
unfolding update_delivery
update_delivery-IsIntegral action actor order body db h =
    guarded_safe db h (not (uuid_test order)) _ _ (
      parsed_safe db h (request_id body) _ λ request e. command_safe _ _ _ db h λ a d ran.
        quiet-IsIntegral db d
          (delivery_work-IsQuiet action actor (uuid_value order) body a db d ran) h)

cancel-IsIntegral :
    (actor : ℕ) (order : Text) (body : Json) (db : Db)
    → Integral db
    → Integral (cancel actor order body db).1
unfolding cancel
cancel-IsIntegral actor order body db h = guarded_safe db h (not (uuid_test order)) _ _ (
    parsed_safe db h (request_id body) _ λ request e.
      guarded_safe db h (length (string (get "reason" body)) == 0) _ _ (
        command_safe _ _ _ db h λ a d ran.
          cancel_work-IsIntegral actor (uuid_value order) (string (get "reason" body)) a db d h
            ran))

request_cancellation-IsIntegral :
    (customer actor : ℕ) (order : Text) (body : Json) (db : Db)
    → Integral db
    → Integral (request_cancellation customer actor order body db).1
unfolding request_cancellation
request_cancellation-IsIntegral customer actor order body db h =
    guarded_safe db h (not (uuid_test order)) _ _ (
      parsed_safe db h (request_id body) _ λ request e.
        guarded_safe db h (length (string (get "reason" body)) == 0) _ _ (
          command_safe _ _ _ db h λ a d ran.
            request_work-IsIntegral customer actor (uuid_value order) (string (get "reason" body)) a
              db d h ran))

review_cancellation-IsIntegral :
    (decision : Decision) (actor : ℕ) (order : Text) (body : Json) (db : Db)
    → Integral db
    → Integral (review_cancellation decision actor order body db).1
unfolding review_cancellation
review_cancellation-IsIntegral decision actor order body db h =
    guarded_safe db h (not (uuid_test order)) _ _ (
      parsed_safe db h (request_id body) _ λ request e.
        guarded_safe db h (is_reject decision && length (string (get "reviewNote" body)) == 0) _ _ (
          command_safe _ _ _ db h λ a d ran.
            review_work-IsIntegral decision actor (uuid_value order)
              (string (get "reviewNote" body)) a db d h ran))

release_shipment_work-IsIntegral :
    (actor : ℕ) (order : Text) (body : Json) (db : Db)
    → Integral db
    → Integral (release_shipment_work actor order body db).1
unfolding release_shipment_work bad_reason
release_shipment_work-IsIntegral actor order body db h =
    guarded_safe db h (not (uuid_test order)) _ _ (
      parsed_safe db h (request_id body) _ λ request e.
        guarded_safe db h (bad_reason (string (get "reason" body))) _ _ (
          command_safe _ _ _ db h λ a d ran.
            quiet-IsIntegral db d
              (release_work-IsQuiet actor (uuid_value order) (string (get "reason" body)) a db d
                ran)
              h))

submit-IsIntegral :
    (customer actor : ℕ) (body : Json) (db : Db)
    → Integral db
    → Integral (submit customer actor body db).1
unfolding submit
submit-IsIntegral customer actor body db h = parsed_safe db h (submit_input body) _ λ input e.
    command_safe _ _ _ db h λ a d ran. submit_work-IsIntegral customer actor input a db d h ran

ship-IsIntegral :
    (actor : ℕ) (body : Json) (db : Db) → Integral db → Integral (ship actor body db).1
unfolding ship
ship-IsIntegral actor body db h = parsed_safe db h (shipment_input body) _ λ input e.
    command_safe _ _ _ db h
      λ a d ran. ship_work-IsIntegral actor input.lines a db d (input-IsPositive body input e) h ran

-- Every command, whatever its body is, leaves the books in order, also where it fails: nothing is
-- reserved that is not in stock, each balance and each order line agrees with the reservations, and
-- what is picked is still to be shipped.
pub run-IsIntegral :
    (call : Call) (db : Db) → IsIntegral (books db) → IsIntegral (books (run call db).1)
unfolding run
run-IsIntegral (submitting customer actor body) db h = submit-IsIntegral customer actor body db h
run-IsIntegral (confirming actor order body) db h = confirm-IsIntegral actor order body db h
run-IsIntegral (allocating actor order body) db h = allocate-IsIntegral actor order body db h
run-IsIntegral (cancelling actor order body) db h = cancel-IsIntegral actor order body db h
run-IsIntegral (requesting customer actor order body) db h =
    request_cancellation-IsIntegral customer actor order body db h
run-IsIntegral (reviewing decision actor request body) db h =
    review_cancellation-IsIntegral decision actor request body db h
run-IsIntegral (claiming actor order body) db h =
    claim_shipment_work-IsIntegral actor order body db h
run-IsIntegral (releasing actor order body) db h =
    release_shipment_work-IsIntegral actor order body db h
run-IsIntegral (working stage actor order body) db h =
    set_shipment_work_quantities-IsIntegral stage actor order body db h
run-IsIntegral (shipping actor body) db h = ship-IsIntegral actor body db h
run-IsIntegral (delivering action actor shipment body) db h =
    update_delivery-IsIntegral action actor shipment body db h
