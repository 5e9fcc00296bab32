-- ===== src/Returns/Input.antt =====
-- The bodies of the requests of apps/api/src/returns/return.service.ts with their checks: `requestInput`,
-- `inspection`, and the ones of defectDisposition, resolveDefect and credit.
use b2b_stm.Prelude.{
  String, ℕ, ◌+◌, Bool, true, false, ◌&&◌, ◌||◌, not, Option, none, some, List, map, any, length,
  set_size, ltb, ◌==◌, nat_eq, if◌then◌else◌,
}
use b2b_stm.Text.{Text, text_eq, codes, uuid_test, uuid_value}
use b2b_stm.Json.{Json, Number, get, items, string, number, integer_from, natural}
use b2b_stm.Tx.{Result, ok, err, bad_request}
use b2b_stm.Returns.{Disposition, quarantine, disposed, supplier_return}

-- One line of a body before its check.
pub record RawReturnLine : Type 0 where
  pub shipment_line : Text
  pub quantity : Number
  pub reason : Text

pub record RequestLine : Type 0 where
  pub shipment_line : ℕ
  pub quantity : ℕ
  pub reason : Text

pub record ReturnInput : Type 0 where
  pub request : ℕ
  pub lines : List RequestLine

pub record InspectionInput : Type 0 where
  pub request : ℕ
  pub received : ℕ
  pub normal : ℕ
  pub defective : ℕ
  pub reason : Option Text

abbrev pub is_empty_text : Text → Bool
is_empty_text s = length s == 0

unfoldable pub raw_return_line : Json → RawReturnLine
raw_return_line line = record {
  shipment_line = string (get "shipmentLineId" line);
  quantity = number (get "quantity" line);
  reason = string (get "reason" line);
}

unfoldable pub invalid_return_line : RawReturnLine → Bool
invalid_return_line l =
    not (uuid_test l.shipment_line) || not (integer_from 1 l.quantity) || is_empty_text l.reason

unfoldable pub request_line : RawReturnLine → RequestLine
request_line l = record {
  shipment_line = uuid_value l.shipment_line;
  quantity = natural l.quantity;
  reason = l.reason;
}

-- `requestInput`
unfoldable pub return_input : Json → Result ReturnInput
unfolding raw_return_line invalid_return_line request_line
return_input body =
    let request = string (get "requestId" body) in
    let lines = map raw_return_line (items (get "lines" body)) in
    if not (uuid_test request)
      || length lines == 0
      || any invalid_return_line lines
      || not (set_size (map (λ l. l.shipment_line) lines) == length lines)
    then err (bad_request "Invalid return request")
    else ok (record { request = uuid_value request; lines = map request_line lines })

abbrev pub text_or_none : Text → Option Text
text_or_none s = if is_empty_text s then none else some s

-- `inspection`
unfoldable pub inspection_input : Json → Result InspectionInput
inspection_input body =
    let request = string (get "requestId" body) in
    let received = number (get "receivedQuantity" body) in
    let normal = number (get "normalQuantity" body) in
    let defective = number (get "defectiveQuantity" body) in
    let reason = string (get "defectiveReason" body) in
    if not (uuid_test request)
      || not (integer_from 1 received)
      || not (integer_from 0 normal)
      || not (integer_from 0 defective)
      || not (natural normal + natural defective == natural received)
      || (ltb 0 (natural defective) && is_empty_text reason)
      || (natural defective == 0 && not (is_empty_text reason))
    then err (bad_request "Invalid return inspection")
    else ok (record {
      request = uuid_value request;
      received = natural received;
      normal = natural normal;
      defective = natural defective;
      reason = text_or_none reason;
    })

-- A decision on defects: where they go, and to which supplier with which reference.
pub record Decided : Type 0 where
  pub request : ℕ
  pub quantity : ℕ
  pub destination : Disposition
  pub reason : Text
  pub supplier : Option ℕ
  pub reference : Option Text

unfoldable pub disposition_of : Text → Option Disposition
disposition_of s =
    if s == codes "quarantine"
    then some quarantine
    else if s == codes "disposed"
    then some disposed
    else if s == codes "supplier_return"
    then some supplier_return
    else none

abbrev pub without_quarantine : Option Disposition → Option Disposition
without_quarantine (some quarantine) = none
without_quarantine o = o

abbrev pub is_supplier_return : Disposition → Bool
is_supplier_return supplier_return = true
is_supplier_return _ = false

abbrev pub decided_target : String → Option Disposition → Json → Result Decided
decided_target message none body = err (bad_request message)
decided_target message (some destination) body =
    let request = string (get "requestId" body) in
    let quantity = number (get "quantity" body) in
    let reason = string (get "reason" body) in
    let supplier = string (get "supplierId" body) in
    let reference = string (get "reference" body) in
    let to_supplier = is_supplier_return destination in
    if not (uuid_test request)
      || not (integer_from 1 quantity)
      || is_empty_text reason
      || (to_supplier && (not (uuid_test supplier) || is_empty_text reference))
    then err (bad_request message)
    else ok (record {
      request = uuid_value request;
      quantity = natural quantity;
      destination = destination;
      reason = reason;
      supplier = if to_supplier then some (uuid_value supplier) else none;
      reference = if to_supplier then some reference else none;
    })

-- The body of defectDisposition.
unfoldable pub disposition_input : Json → Result Decided
unfolding disposition_of
disposition_input body =
    decided_target "Invalid defect disposition" (disposition_of (string (get "disposition" body)))
      body

-- The body of resolveDefect, which leaves nothing in quarantine.
unfoldable pub resolution_input : Json → Result Decided
unfolding disposition_of
resolution_input body =
    decided_target "Invalid defect resolution"
      (without_quarantine (disposition_of (string (get "resolution" body)))) body

pub record CreditInput : Type 0 where
  pub request : ℕ
  pub quantity : ℕ

unfoldable pub credit_input : Json → Result CreditInput
credit_input body =
    let request = string (get "requestId" body) in
    let quantity = number (get "quantity" body) in
    if not (uuid_test request) || not (integer_from 1 quantity)
    then err (bad_request "Invalid return credit")
    else ok (record { request = uuid_value request; quantity = natural quantity })
