-- ===== src/Returns.antt =====
-- Returned goods: the requests, inspections, credits and decisions on defects of
-- apps/api/src/returns/return.service.ts, on tables of their own. The dates of the entries of credits
-- are left out.
pub mod Input
pub mod Operations
pub mod Credits
pub mod Steps
pub mod Counted
pub mod Requested
pub mod Credited
pub mod Taxed
pub mod Stocked
pub mod History
mod Examples
use b2b_stm.Prelude.{
  ℕ, suc, ◌+◌, ◌-◌, ◌*◌, ◌/◌, Bool, true, false, ◌&&◌, ◌||◌, not, Option, none, some, List, [], ◌∷◌,
  String, any, is_some, leb, ltb, ◌==◌, nat_eq, string_eq, pair_eq, if◌then◌else◌,
}
use b2b_stm.Prelude.Int.{ℤ, pos, negsuc, ◌+ℤ◌, ◌-ℤ◌}
use b2b_stm.Text.{Text}
use b2b_stm.Table.{Table, lookup, modify, insert, upsert, total}
use b2b_stm.Schema.{Sku, Balance, TaxCategory, CommandKey}
use b2b_stm.Tx.{Error, Result, ok, err, http_error}
use b2b_stm.Order.Tax.{scale, floor_div}

-- The tax of the entry that books a shipment line.
pub record ShippedTax : Type 0 where
  pub tax_amount : ℤ
  pub tax_category : TaxCategory
  pub tax_rate_bps : ℕ

-- A shipment line with what the joins of this service add to it: its shipment and warehouse, the
-- product and price of its order line, the customer of the order, and the entry that books it.
pub record Shipped : Type 0 where
  pub shipment_id : ℕ
  pub warehouse_id : ℕ
  pub product_id : ℕ
  pub customer_id : ℕ
  pub quantity : ℕ
  pub unit_price : Option ℕ
  pub tax : Option ShippedTax

pub data ReturnStatus : Type 0 where
  requested inspecting inspected : ReturnStatus

pub record Return : Type 0 where
  pub customer_id : ℕ
  pub shipment_id : ℕ
  pub status : ReturnStatus
  pub requested_by : ℕ

pub record ReturnLine : Type 0 where
  pub return_id : ℕ
  pub shipment_line_id : ℕ
  pub product_id : ℕ
  pub reason : Text
  pub requested_quantity : ℕ
  pub received_quantity : ℕ
  pub normal_quantity : ℕ
  pub defective_quantity : ℕ

pub record Inspection : Type 0 where
  pub return_line_id : ℕ
  pub received_quantity : ℕ
  pub normal_quantity : ℕ
  pub defective_quantity : ℕ
  pub defective_reason : Option Text
  pub inspected_by : ℕ

pub record ReturnMovement : Type 0 where
  pub sku : Sku
  pub quantity_delta : ℕ
  pub return_inspection_id : ℕ
  pub created_by : ℕ

pub data Disposition : Type 0 where
  quarantine disposed supplier_return : Disposition

pub record DefectDisposition : Type 0 where
  pub return_inspection_id : ℕ
  pub quantity : ℕ
  pub disposition : Disposition
  pub reason : Text
  pub decided_by : ℕ
  pub supplier_id : Option ℕ
  pub external_reference : Option Text

pub record DefectResolution : Type 0 where
  pub quarantine_disposition_id : ℕ
  pub quantity : ℕ
  pub resolution : Disposition
  pub supplier_id : Option ℕ
  pub external_reference : Option Text
  pub reason : Text
  pub resolved_by : ℕ

pub record ReturnCredit : Type 0 where
  pub return_inspection_id : ℕ
  pub return_line_id : ℕ
  pub shipment_line_id : ℕ
  pub customer_id : ℕ
  pub credited_quantity : ℕ
  pub unit_price : ℕ
  pub supply_amount : ℕ
  pub tax_amount : ℤ
  pub amount : ℤ
  pub approved_by : ℕ

-- The entry of a credit in the books of the customer: its amounts are the negative ones.
pub record CreditEntry : Type 0 where
  pub customer_id : ℕ
  pub return_credit_id : ℕ
  pub quantity : ℕ
  pub unit_price : ℕ
  pub supply_amount : ℤ
  pub tax_amount : ℤ
  pub amount : ℤ
  pub tax_category : TaxCategory
  pub tax_rate_bps : ℕ

pub data ReturnAnswer : Type 0 where
  return_requested : (id : ℕ) → ReturnAnswer
  line_inspected : (line : ℕ) → ReturnStatus → (received normal defective : ℕ) → ReturnAnswer
  defect_decided : (inspection quantity : ℕ) → Disposition → ReturnAnswer
  defect_resolved : (id disposition quantity : ℕ) → Disposition → ReturnAnswer
  return_credited : (id inspection quantity unit_price supply : ℕ) (tax amount : ℤ) → ReturnAnswer

pub record ReturnTables : Type 0 where
  pub next_id : ℕ
  pub shipment_lines : Table ℕ Shipped
  pub suppliers : Table ℕ Bool
  -- The SKUs under a stock count.
  pub counting : List Sku
  pub balances : Table Sku Balance
  pub movements : Table ℕ ReturnMovement
  pub returns : Table ℕ Return
  pub return_lines : Table ℕ ReturnLine
  pub return_inspections : Table ℕ Inspection
  pub defect_dispositions : Table ℕ DefectDisposition
  pub defect_resolutions : Table ℕ DefectResolution
  pub return_credits : Table ℕ ReturnCredit
  pub credit_entries : Table ℕ CreditEntry
  pub command_results : Table CommandKey ReturnAnswer

abbrev pub Work : Type 0
Work = ReturnTables → Result (ReturnAnswer × ReturnTables)

abbrev pub keep_answer :
    CommandKey → Result (ReturnAnswer × ReturnTables) → Result (ReturnAnswer × ReturnTables)
unfolding insert
keep_answer key (ok (a, s)) = ok (a, record s { command_results = insert key a s.command_results })
keep_answer key (err e) = err e

abbrev pub answer_or_work : CommandKey → Work → Option ReturnAnswer → Work
answer_or_work key work (some a) s = ok (a, s)
answer_or_work key work none s = keep_answer key (work s)

abbrev pub commit_or_rollback :
    ReturnTables → Result (ReturnAnswer × ReturnTables) → Result ReturnAnswer × ReturnTables
commit_or_rollback s (ok (a, s')) = (ok a, s')
commit_or_rollback s (err e) = (err (http_error "Return service unavailable" e), s)

-- A transaction that replays the answer of the same command, or works and keeps its answer.
unfoldable pub return_command :
    CommandKey → Work → ReturnTables → Result ReturnAnswer × ReturnTables
unfolding lookup
return_command key work s =
    commit_or_rollback s (answer_or_work key work (lookup key s.command_results) s)

-- The check of the body, and then the transaction.
abbrev pub after_check :
    {A : Type 0}
    → Result A
    → (A → ReturnTables → Result ReturnAnswer × ReturnTables)
    → ReturnTables
    → Result ReturnAnswer × ReturnTables
after_check (err e) f s = (err e, s)
after_check (ok i) f s = f i s

-- `COALESCE(sum(requested_quantity),0)` of a shipment line.
abbrev pub requested_share : ℕ → ReturnLine → ℕ
requested_share k l = if l.shipment_line_id == k then l.requested_quantity else 0

abbrev pub requested_sum : ℕ → Table ℕ ReturnLine → ℕ
requested_sum k t = total (requested_share k) t

-- The decided quantity of an inspection.
abbrev pub decided_share : ℕ → DefectDisposition → ℕ
decided_share k d = if d.return_inspection_id == k then d.quantity else 0

abbrev pub decided_sum : ℕ → Table ℕ DefectDisposition → ℕ
decided_sum k t = total (decided_share k) t

-- The resolved quantity of a disposition.
abbrev pub resolved_share : ℕ → DefectResolution → ℕ
resolved_share k r = if r.quarantine_disposition_id == k then r.quantity else 0

abbrev pub resolved_sum : ℕ → Table ℕ DefectResolution → ℕ
resolved_sum k t = total (resolved_share k) t

-- The quantity and the tax that were credited for a shipment line.
abbrev pub credited_share : ℕ → ReturnCredit → ℕ
credited_share k c = if c.shipment_line_id == k then c.credited_quantity else 0

abbrev pub credited_sum : ℕ → Table ℕ ReturnCredit → ℕ
credited_sum k t = total (credited_share k) t

unfoldable pub credited_tax : ℕ → Table ℕ ReturnCredit → ℤ
credited_tax k [] = pos 0
credited_tax k (c ∷ cs) =
    (if c.1.shipment_line_id == k then c.1.tax_amount else pos 0) +ℤ credited_tax k cs

-- `targetTax`: the tax of a part of a shipment line.
unfoldable pub target_credit : ℤ → ℕ → ℕ → ℤ
unfolding scale floor_div
target_credit tax shipped credited = floor_div (scale tax credited +ℤ pos (shipped / 2)) shipped
