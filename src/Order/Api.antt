-- ===== src/Order/Api.antt =====
-- The commands of the order service as one type of calls, each with the user and the body that the
-- controller passes on, and the states that calls lead to.
use b2b_stm.Prelude.{ℕ, List, [], ◌∷◌}
use b2b_stm.Text.{Text}
use b2b_stm.Json.{Json}
use b2b_stm.Schema.{Db, Response}
use b2b_stm.Tx.{Result}
use b2b_stm.Order.Submit.{submit}
use b2b_stm.Order.Confirm.{confirm, allocate}
use b2b_stm.Order.Work.{
  Stage, claim_shipment_work, release_shipment_work, set_shipment_work_quantities,
}
use b2b_stm.Order.Ship.{ship}
use b2b_stm.Order.Cancel.{Decision, cancel, request_cancellation, review_cancellation}
use b2b_stm.Order.Delivery.{Action, update_delivery}

pub data Call : Type 0 where
  submitting : (customer actor : ℕ) → Json → Call
  confirming : (actor : ℕ) → Text → Json → Call
  allocating : (actor : ℕ) → Text → Json → Call
  cancelling : (actor : ℕ) → Text → Json → Call
  requesting : (customer actor : ℕ) → Text → Json → Call
  reviewing : Decision → (actor : ℕ) → Text → Json → Call
  claiming : (actor : ℕ) → Text → Json → Call
  releasing : (actor : ℕ) → Text → Json → Call
  working : Stage → (actor : ℕ) → Text → Json → Call
  shipping : (actor : ℕ) → Json → Call
  delivering : Action → (actor : ℕ) → Text → Json → Call

unfoldable pub run : Call → Db → Result Response × Db
run (submitting customer actor body) = submit customer actor body
run (confirming actor order body) = confirm actor order body
run (allocating actor order body) = allocate actor order body
run (cancelling actor order body) = cancel actor order body
run (requesting customer actor order body) = request_cancellation customer actor order body
run (reviewing decision actor request body) = review_cancellation decision actor request body
run (claiming actor order body) = claim_shipment_work actor order body
run (releasing actor order body) = release_shipment_work actor order body
run (working stage actor order body) = set_shipment_work_quantities stage actor order body
run (shipping actor body) = ship actor body
run (delivering action actor shipment body) = update_delivery action actor shipment body

-- Calls one after the other.
unfoldable pub run_all : List Call → Db → Db
run_all [] db = db
run_all (call ∷ calls) db = run_all calls (run call db).1
