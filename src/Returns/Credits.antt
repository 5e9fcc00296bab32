-- ===== src/Returns/Credits.antt =====
-- `credit` of apps/api/src/returns/return.service.ts. The business date of the entry is left out.
use b2b_stm.Prelude.{
  ℕ, suc, ◌+◌, ◌*◌, Bool, true, false, not, Option, none, some, any, ltb, ◌==◌, nat_eq, string_eq,
  pair_eq, if◌then◌else◌,
}
use b2b_stm.Prelude.Int.{ℤ, pos, negsuc, ◌+ℤ◌, ◌-ℤ◌}
use b2b_stm.Text.{Text, uuid_test, uuid_value}
use b2b_stm.Json.{Json}
use b2b_stm.Table.{Table, lookup, insert, total}
use b2b_stm.Tx.{Result, ok, err, bad_request, not_found, conflict, fault}
use b2b_stm.Returns.{
  ShippedTax, Shipped, ReturnLine, Inspection, ReturnCredit, CreditEntry, ReturnAnswer,
  return_credited, ReturnTables, Work, return_command, after_check, credited_sum, credited_tax,
  target_credit,
}
use b2b_stm.Returns.Input.{credit_input}

-- The row of the joins: the inspection, its return line, the shipment line and the entry that books it.
pub record Creditable : Type 0 where
  pub inspection : Inspection
  pub line : ReturnLine
  pub shipped : Shipped
  pub tax : ShippedTax

abbrev pub with_tax : Inspection → ReturnLine → Shipped → Option ShippedTax → Option Creditable
with_tax i l x none = none
with_tax i l x (some t) = some (record { inspection = i; line = l; shipped = x; tax = t })

abbrev pub with_shipped : Inspection → ReturnLine → Option Shipped → Option Creditable
with_shipped i l none = none
with_shipped i l (some x) = with_tax i l x x.tax

abbrev pub with_line : Inspection → Option ReturnLine → Table ℕ Shipped → Option Creditable
unfolding lookup
with_line i none t = none
with_line i (some l) t = with_shipped i l (lookup l.shipment_line_id t)

abbrev pub with_inspection : Option Inspection → ReturnTables → Option Creditable
unfolding lookup
with_inspection none s = none
with_inspection (some i) s = with_line i (lookup i.return_line_id s.return_lines) s.shipment_lines

unfoldable pub creditable : ℕ → ReturnTables → Option Creditable
unfolding lookup
creditable inspection s = with_inspection (lookup inspection s.return_inspections) s

abbrev pub is_credit_of : ℕ → ℕ × ReturnCredit → Bool
is_credit_of inspection c = c.1.return_inspection_id == inspection

-- The tax of a credit: the tax of all that was credited by now, less what was booked before.
abbrev pub credit_tax : Creditable → ℕ → Table ℕ ReturnCredit → ℤ
unfolding target_credit credited_tax total
credit_tax r q t =
    target_credit r.tax.tax_amount r.shipped.quantity (credited_sum r.line.shipment_line_id t + q)
    -ℤ credited_tax r.line.shipment_line_id t

abbrev pub new_credit : ℕ → ℕ → Creditable → ℕ → ℕ → ℤ → ReturnCredit
new_credit actor inspection r q price tax = record {
  return_inspection_id = inspection;
  return_line_id = r.inspection.return_line_id;
  shipment_line_id = r.line.shipment_line_id;
  customer_id = r.shipped.customer_id;
  credited_quantity = q;
  unit_price = price;
  supply_amount = q * price;
  tax_amount = tax;
  amount = pos (q * price) +ℤ tax;
  approved_by = actor;
}

abbrev pub negated : ℤ → ℤ
negated x = pos 0 -ℤ x

abbrev pub credit_entry : ℕ → Creditable → ReturnCredit → CreditEntry
credit_entry credit r c = record {
  customer_id = c.customer_id;
  return_credit_id = credit;
  quantity = c.credited_quantity;
  unit_price = c.unit_price;
  supply_amount = negated (pos c.supply_amount);
  tax_amount = negated c.tax_amount;
  amount = negated c.amount;
  tax_category = r.tax.tax_category;
  tax_rate_bps = r.tax.tax_rate_bps;
}

unfoldable pub insert_credit : Creditable → ReturnCredit → ReturnTables → ReturnTables
insert_credit r c s = record s {
  next_id = suc (suc s.next_id);
  return_credits = insert s.next_id c s.return_credits;
  credit_entries = insert (suc s.next_id) (credit_entry s.next_id r c) s.credit_entries;
}

abbrev pub is_negative : ℤ → Bool
is_negative (pos n) = false
is_negative (negsuc n) = true

-- CHECK(tax_amount>=0)
abbrev pub check_credit :
    Creditable → ReturnCredit → ReturnTables → Result (ReturnAnswer × ReturnTables)
unfolding insert_credit
check_credit r c s =
    if is_negative c.tax_amount
    then err (fault "return_credits_amount_check")
    else ok (
      return_credited s.next_id c.return_inspection_id c.credited_quantity c.unit_price
          c.supply_amount c.tax_amount c.amount,
      insert_credit r c s,
    )

abbrev pub credit_at :
    ℕ → ℕ → ℕ → ReturnTables → Creditable → Option ℕ → Result (ReturnAnswer × ReturnTables)
unfolding insert_credit any target_credit credited_tax total
credit_at actor inspection q s r none = err (conflict "Original shipment price unavailable")
credit_at actor inspection q s r (some price) =
    if any (is_credit_of inspection) s.return_credits
    then err (conflict "Return inspection is already credited")
    else check_credit r (new_credit actor inspection r q price (credit_tax r q s.return_credits)) s

abbrev pub credit_row :
    ℕ → ℕ → ℕ → ReturnTables → Option Creditable → Result (ReturnAnswer × ReturnTables)
unfolding insert_credit any target_credit credited_tax total
credit_row actor inspection q s none = err (not_found "Return inspection unavailable")
credit_row actor inspection q s (some r) =
    if ltb r.inspection.received_quantity q
    then err (conflict "Credit quantity exceeds inspected quantity")
    else credit_at actor inspection q s r r.shipped.unit_price

unfoldable pub credit_work : ℕ → ℕ → ℕ → Work
unfolding creditable insert_credit any target_credit credited_tax total
credit_work actor inspection q s = credit_row actor inspection q s (creditable inspection s)

-- `credit`
unfoldable pub credit_return : ℕ → Text → Json → ReturnTables → Result ReturnAnswer × ReturnTables
unfolding return_command credit_work
credit_return actor inspection body s =
    if not (uuid_test inspection)
    then (err (bad_request "Invalid return inspection ID"), s)
    else after_check (credit_input body)
        (λ i.
          return_command (actor, ("return.credit", i.request))
            (credit_work actor (uuid_value inspection) i.quantity))
        s
