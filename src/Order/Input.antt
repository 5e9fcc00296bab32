-- ===== src/Order/Input.antt =====
-- The bodies of the order commands: `submitInput`, `requestId`, `shipmentInput` and
-- `workQuantityInput` of apps/api/src/orders/order.service.ts.
use b2b_stm.Prelude.{
  ℕ, Bool, true, false, ◌||◌, not, List, [], ◌∷◌, map, String, any, length, set_size, ◌==◌, nat_eq,
  if◌then◌else◌,
}
use b2b_stm.Text.{Text, text_eq, uuid_test, uuid_value}
use b2b_stm.Json.{Json, Number, get, items, string, number, integer_from, natural}
use b2b_stm.Tx.{Result, ok, err, bad_request}

-- One line of a body, before its check: the id of a product or a reservation, and a quantity.
abbrev pub RawLine : Type 0
RawLine = Text × Number

-- One line after its check.
pub record Line : Type 0 where
  pub id : Text
  pub quantity : ℕ

pub record SubmitInput : Type 0 where
  pub request_id : ℕ
  pub warehouse_id : ℕ
  pub lines : List Line

pub record LinesInput : Type 0 where
  pub request_id : ℕ
  pub lines : List Line

unfoldable pub raw_lines : String → Json → List RawLine
raw_lines key body =
    map (λ line. (string (get key line), number (get "quantity" line))) (items (get "lines" body))

unfoldable pub is_empty : List RawLine → Bool
is_empty [] = true
is_empty (x ∷ xs) = false

unfoldable pub invalid_line : ℕ → RawLine → Bool
invalid_line least line = not (uuid_test line.0) || not (integer_from least line.1)

abbrev line_id : RawLine → Text
line_id line = line.0

-- No line, a line with a bad id or quantity, or an id that occurs twice.
unfoldable pub invalid_lines : ℕ → List RawLine → Bool
unfolding is_empty invalid_line
invalid_lines least lines =
    is_empty lines
    || any (invalid_line least) lines
    || not (set_size (map line_id lines) == length lines)

unfoldable pub checked_line : RawLine → Line
checked_line line = record { id = line.0; quantity = natural line.1 }

unfoldable pub submit_input : Json → Result SubmitInput
unfolding raw_lines invalid_lines checked_line
submit_input body =
    let request = string (get "requestId" body) in
    let warehouse = string (get "warehouseId" body) in
    let lines = raw_lines "productId" body in
    if not (uuid_test request) || not (uuid_test warehouse) || invalid_lines 1 lines
    then err (bad_request "Invalid order")
    else ok (record {
      request_id = uuid_value request;
      warehouse_id = uuid_value warehouse;
      lines = map checked_line lines;
    })

unfoldable pub request_id : Json → Result ℕ
request_id body =
    let request = string (get "requestId" body) in
    if not (uuid_test request)
    then err (bad_request "Invalid request ID")
    else ok (uuid_value request)

unfoldable pub lines_input : String → ℕ → Json → Result LinesInput
unfolding raw_lines invalid_lines checked_line
lines_input message least body =
    let request = string (get "requestId" body) in
    let lines = raw_lines "reservationId" body in
    if not (uuid_test request) || invalid_lines least lines
    then err (bad_request message)
    else ok (record { request_id = uuid_value request; lines = map checked_line lines })

unfoldable pub shipment_input : Json → Result LinesInput
unfolding lines_input
shipment_input = lines_input "Invalid shipment" 1

unfoldable pub work_quantity_input : Json → Result LinesInput
unfolding lines_input
work_quantity_input = lines_input "Invalid shipment work quantities" 0
