-- ===== src/Returns/Operations.antt =====
-- The operations of apps/api/src/returns/return.service.ts: request, inspect, defectDisposition,
-- resolveDefect and credit, each with its transaction.
use b2b_stm.Prelude.{
  ℕ, suc, ◌+◌, Bool, true, false, ◌&&◌, not, Option, none, some, List, [], ◌∷◌, any, ltb, ◌==◌,
  nat_eq, string_eq, pair_eq, if◌then◌else◌,
}
use b2b_stm.Text.{Text, uuid_test, uuid_value}
use b2b_stm.Json.{Json}
use b2b_stm.Table.{Table, lookup, modify, insert, upsert, total}
use b2b_stm.Schema.{Sku, Balance}
use b2b_stm.Tx.{Result, ok, err, bad_request, not_found, conflict, fault}
use b2b_stm.Returns.{
  Shipped, ReturnStatus, requested, inspecting, inspected, Return, ReturnLine, Inspection,
  Disposition, quarantine, DefectDisposition, DefectResolution, ReturnAnswer, return_requested,
  line_inspected, defect_decided, defect_resolved, ReturnTables, Work, return_command, after_check,
  requested_sum, decided_sum, resolved_sum,
}
use b2b_stm.Returns.Input.{
  RequestLine, InspectionInput, Decided, return_input, inspection_input, disposition_input,
  resolution_input, is_supplier_return,
}

-- A line of a request with the shipment line that was found for it.
abbrev pub Found : Type 0
Found = RequestLine × Shipped

abbrev pub add_found : RequestLine → ℕ → Option Shipped → Option (List Found) → Option (List Found)
add_found l customer (some x) (some xs) =
    if x.customer_id == customer then some ((l, x) ∷ xs) else none
add_found l customer _ _ = none

-- The shipment lines of a request, if all are there and the customer's.
unfoldable pub find_lines : ℕ → List RequestLine → Table ℕ Shipped → Option (List Found)
unfolding lookup
find_lines customer [] t = some []
find_lines customer (l ∷ ls) t =
    add_found l customer (lookup l.shipment_line t) (find_lines customer ls t)

abbrev pub is_of_shipment : ℕ → Found → Bool
is_of_shipment shipment x = x.1.shipment_id == shipment

abbrev pub is_too_many : ReturnTables → Found → Bool
unfolding total
is_too_many s x = ltb x.1.quantity (requested_sum x.0.shipment_line s.return_lines + x.0.quantity)

abbrev pub new_return_line : ℕ → Found → ReturnLine
new_return_line return x = record {
  return_id = return;
  shipment_line_id = x.0.shipment_line;
  product_id = x.1.product_id;
  reason = x.0.reason;
  requested_quantity = x.0.quantity;
  received_quantity = 0;
  normal_quantity = 0;
  defective_quantity = 0;
}

-- UNIQUE(return_id, shipment_line_id)
abbrev pub is_line_of : ℕ → ℕ → ℕ × ReturnLine → Bool
is_line_of return line l = l.1.return_id == return && l.1.shipment_line_id == line

unfoldable pub insert_line : ℕ → Found → ReturnTables → ReturnTables
insert_line return x s = record s {
  next_id = suc s.next_id;
  return_lines = insert s.next_id (new_return_line return x) s.return_lines;
}

unfoldable pub insert_lines : ℕ → List Found → ReturnTables → Result ReturnTables
unfolding insert_line any
insert_lines return [] s = ok s
insert_lines return (x ∷ xs) s =
    let rest = insert_lines return xs (insert_line return x s) in
    if any (is_line_of return x.0.shipment_line) s.return_lines
    then err (fault "duplicate key")
    else rest

abbrev pub new_return : ℕ → ℕ → ℕ → Return
new_return customer actor shipment = record {
  customer_id = customer;
  shipment_id = shipment;
  status = requested;
  requested_by = actor;
}

unfoldable pub insert_return : ℕ → ℕ → ℕ → ReturnTables → ReturnTables
insert_return customer actor shipment s = record s {
  next_id = suc s.next_id;
  returns = insert s.next_id (new_return customer actor shipment) s.returns;
}

abbrev pub answer_with : ReturnAnswer → Result ReturnTables → Result (ReturnAnswer × ReturnTables)
answer_with a (ok s) = ok (a, s)
answer_with a (err e) = err e

abbrev pub request_found :
    ℕ → ℕ → ReturnTables → Option (List Found) → Result (ReturnAnswer × ReturnTables)
unfolding insert_return insert_lines any total
request_found customer actor s none = err (not_found "Shipment line unavailable")
request_found customer actor s (some []) = err (fault "no lines")
request_found customer actor s (some (x ∷ xs)) =
    if any (λ y. not (is_of_shipment x.1.shipment_id y)) (x ∷ xs)
    then err (bad_request "Return lines must belong to one shipment")
    else if any (is_too_many s) (x ∷ xs)
    then err (conflict "Return quantity exceeds shipped quantity")
    else answer_with (return_requested s.next_id)
        (insert_lines s.next_id (x ∷ xs) (insert_return customer actor x.1.shipment_id s))

unfoldable pub ask_work : ℕ → ℕ → List RequestLine → Work
unfolding find_lines insert_return insert_lines any total
ask_work customer actor lines s =
    request_found customer actor s (find_lines customer lines s.shipment_lines)

-- `request`
unfoldable pub request_return : ℕ → ℕ → Json → ReturnTables → Result ReturnAnswer × ReturnTables
unfolding return_command ask_work
request_return customer actor body s =
    after_check (return_input body)
      (λ i. return_command (actor, ("return.request", i.request)) (ask_work customer actor i.lines))
      s

abbrev pub new_balance : ℕ → Balance
new_balance q = record { on_hand_quantity = q; reserved_quantity = 0; version = 1 }

abbrev pub add_on_hand : ℕ → Balance → Balance
add_on_hand q b = record b { on_hand_quantity = b.on_hand_quantity + q; version = suc b.version }

-- A return line with its SKU: the JOIN with its shipment gives the warehouse.
abbrev pub join_shipment : ReturnLine → Option Shipped → Option (ReturnLine × Sku)
join_shipment l none = none
join_shipment l (some x) = some (l, (x.warehouse_id, l.product_id))

abbrev pub join_line : Option ReturnLine → ReturnTables → Option (ReturnLine × Sku)
unfolding lookup
join_line none s = none
join_line (some l) s = join_shipment l (lookup l.shipment_line_id s.shipment_lines)

-- The stock would not fit the column, an integer of four bytes.
abbrev pub has_no_room : ℕ → Option Balance → Bool
has_no_room q none = false
has_no_room q (some b) = ltb 2147483647 (b.on_hand_quantity + q)

-- What is fine goes back into stock.
unfoldable pub put_back : Sku → ℕ → ReturnTables → ReturnTables
unfolding upsert
put_back sku q s = record s { balances = upsert sku (new_balance q) (add_on_hand q) s.balances }

abbrev pub new_inspection : ℕ → ℕ → InspectionInput → Inspection
new_inspection actor line i = record {
  return_line_id = line;
  received_quantity = i.received;
  normal_quantity = i.normal;
  defective_quantity = i.defective;
  defective_reason = i.reason;
  inspected_by = actor;
}

unfoldable pub insert_inspection : ℕ → ℕ → InspectionInput → ReturnTables → ReturnTables
insert_inspection actor line i s = record s {
  next_id = suc s.next_id;
  return_inspections = insert s.next_id (new_inspection actor line i) s.return_inspections;
}

unfoldable pub log_movement : ℕ → Sku → ℕ → ℕ → ReturnTables → ReturnTables
log_movement actor sku q inspection s = record s {
  next_id = suc s.next_id;
  movements =
      insert s.next_id
        (record {
          sku = sku;
          quantity_delta = q;
          return_inspection_id = inspection;
          created_by = actor;
        })
        s.movements;
}

abbrev pub receive : InspectionInput → ReturnLine → ReturnLine
receive i l = record l {
  received_quantity = l.received_quantity + i.received;
  normal_quantity = l.normal_quantity + i.normal;
  defective_quantity = l.defective_quantity + i.defective;
}

abbrev pub is_open_line : ℕ → ℕ × ReturnLine → Bool
is_open_line return l =
    l.1.return_id == return && not (l.1.received_quantity == l.1.requested_quantity)

-- The status of a return after an inspection.
abbrev pub status_of : ℕ → Table ℕ ReturnLine → ReturnStatus
unfolding any
status_of return t = if any (is_open_line return) t then inspecting else inspected

abbrev pub set_status_of : ReturnStatus → Return → Return
set_status_of status r = record r { status = status }

unfoldable pub update_line : ℕ → ℕ → InspectionInput → ReturnTables → ReturnTables
unfolding any
update_line line return i s =
    let lines = modify line (receive i) s.return_lines in
    record s {
      return_lines = lines;
      returns = modify return (set_status_of (status_of return lines)) s.returns;
    }

-- The writes of an inspection: the stock and its movement, where anything is fine, the inspection, and the
-- line with its return.
unfoldable pub write_as :
    Bool → ℕ → ℕ → ReturnLine → Sku → InspectionInput → ReturnTables → ReturnTables
unfolding put_back insert_inspection log_movement update_line
write_as false actor line l sku i s =
    update_line line l.return_id i (insert_inspection actor line i s)
write_as true actor line l sku i s = update_line line l.return_id i (
    log_movement actor sku i.normal s.next_id
      (insert_inspection actor line i (put_back sku i.normal s)))

unfoldable pub write_inspection :
    ℕ → ℕ → ReturnLine → Sku → InspectionInput → ReturnTables → ReturnTables
unfolding write_as
write_inspection actor line l sku i s = write_as (ltb 0 i.normal) actor line l sku i s

abbrev pub inspect_line :
    ℕ
    → ℕ
    → InspectionInput
    → ReturnTables
    → Option (ReturnLine × Sku)
    → Result (ReturnAnswer × ReturnTables)
unfolding write_inspection lookup any
inspect_line actor line i s none = err (not_found "Return line unavailable")
inspect_line actor line i s (some (l, sku)) =
    let after = write_inspection actor line l sku i s in
    if ltb l.requested_quantity (l.received_quantity + i.received)
    then err (conflict "Inspection quantity exceeds remaining return quantity")
    else if ltb 0 i.normal && any (λ c. c == sku) s.counting
    then err (conflict "SKU is under stock count")
    else if ltb 0 i.normal && has_no_room i.normal (lookup sku s.balances)
    then err (fault "integer out of range")
    else ok (
      line_inspected line (status_of l.return_id after.return_lines) i.received i.normal
          i.defective,
      after,
    )

unfoldable pub inspect_work : ℕ → ℕ → InspectionInput → Work
unfolding write_inspection lookup any
inspect_work actor line i s = inspect_line actor line i s (join_line (lookup line s.return_lines) s)

-- `inspect`
unfoldable pub inspect_return : ℕ → Text → Json → ReturnTables → Result ReturnAnswer × ReturnTables
unfolding return_command inspect_work
inspect_return actor line body s =
    if not (uuid_test line)
    then (err (bad_request "Invalid return line ID"), s)
    else after_check (inspection_input body)
        (λ i.
          return_command (actor, ("return.inspect", i.request))
            (inspect_work actor (uuid_value line) i))
        s

abbrev pub is_active_supplier : Option ℕ → Table ℕ Bool → Bool
unfolding lookup
is_active_supplier none t = false
is_active_supplier (some k) t = elim (lookup k t) [ none ↦ false | some active ↦ active ]

-- Goods that go to a supplier need an active one.
abbrev pub lacks_supplier : Decided → ReturnTables → Bool
unfolding lookup
lacks_supplier d s =
    is_supplier_return d.destination && not (is_active_supplier d.supplier s.suppliers)

abbrev pub new_disposition : ℕ → ℕ → Decided → DefectDisposition
new_disposition actor inspection d = record {
  return_inspection_id = inspection;
  quantity = d.quantity;
  disposition = d.destination;
  reason = d.reason;
  decided_by = actor;
  supplier_id = d.supplier;
  external_reference = d.reference;
}

unfoldable pub insert_disposition : ℕ → ℕ → Decided → ReturnTables → ReturnTables
insert_disposition actor inspection d s = record s {
  next_id = suc s.next_id;
  defect_dispositions = insert s.next_id (new_disposition actor inspection d) s.defect_dispositions;
}

abbrev pub dispose_of :
    ℕ → ℕ → Decided → ReturnTables → Option Inspection → Result (ReturnAnswer × ReturnTables)
unfolding insert_disposition lookup total
dispose_of actor inspection d s none = err (not_found "Return inspection unavailable")
dispose_of actor inspection d s (some i) =
    if ltb i.defective_quantity (decided_sum inspection s.defect_dispositions + d.quantity)
    then err (conflict "Defect disposition exceeds inspected quantity")
    else if lacks_supplier d s
    then err (not_found "Supplier unavailable")
    else ok (
      defect_decided inspection d.quantity d.destination,
      insert_disposition actor inspection d s,
    )

unfoldable pub disposition_work : ℕ → ℕ → Decided → Work
unfolding insert_disposition lookup total
disposition_work actor inspection d s =
    dispose_of actor inspection d s (lookup inspection s.return_inspections)

-- `defectDisposition`
unfoldable pub defect_disposition :
    ℕ → Text → Json → ReturnTables → Result ReturnAnswer × ReturnTables
unfolding return_command disposition_work
defect_disposition actor inspection body s =
    if not (uuid_test inspection)
    then (err (bad_request "Invalid return inspection ID"), s)
    else after_check (disposition_input body)
        (λ d.
          return_command (actor, ("return.defect-disposition", d.request))
            (disposition_work actor (uuid_value inspection) d))
        s

abbrev pub is_quarantine : Disposition → Bool
is_quarantine quarantine = true
is_quarantine _ = false

abbrev pub where_quarantined : Option DefectDisposition → Option DefectDisposition
where_quarantined none = none
where_quarantined (some d) = if is_quarantine d.disposition then some d else none

abbrev pub new_resolution : ℕ → ℕ → Decided → DefectResolution
new_resolution actor disposition d = record {
  quarantine_disposition_id = disposition;
  quantity = d.quantity;
  resolution = d.destination;
  supplier_id = d.supplier;
  external_reference = d.reference;
  reason = d.reason;
  resolved_by = actor;
}

unfoldable pub insert_resolution : ℕ → ℕ → Decided → ReturnTables → ReturnTables
insert_resolution actor disposition d s = record s {
  next_id = suc s.next_id;
  defect_resolutions = insert s.next_id (new_resolution actor disposition d) s.defect_resolutions;
}

abbrev pub resolve_with :
    ℕ → ℕ → Decided → ReturnTables → Option DefectDisposition → Result (ReturnAnswer × ReturnTables)
unfolding insert_resolution lookup total
resolve_with actor disposition d s none = err (not_found "Quarantined defect unavailable")
resolve_with actor disposition d s (some q) =
    if ltb q.quantity (resolved_sum disposition s.defect_resolutions + d.quantity)
    then err (conflict "Defect resolution exceeds quarantined quantity")
    else if lacks_supplier d s
    then err (not_found "Supplier unavailable")
    else ok (
      defect_resolved s.next_id disposition d.quantity d.destination,
      insert_resolution actor disposition d s,
    )

unfoldable pub resolution_work : ℕ → ℕ → Decided → Work
unfolding insert_resolution lookup total
resolution_work actor disposition d s =
    resolve_with actor disposition d s
      (where_quarantined (lookup disposition s.defect_dispositions))

-- `resolveDefect`
unfoldable pub resolve_defect : ℕ → Text → Json → ReturnTables → Result ReturnAnswer × ReturnTables
unfolding return_command resolution_work
resolve_defect actor disposition body s =
    if not (uuid_test disposition)
    then (err (bad_request "Invalid defect disposition ID"), s)
    else after_check (resolution_input body)
        (λ d.
          return_command (actor, ("return.defect-resolution", d.request))
            (resolution_work actor (uuid_value disposition) d))
        s
