-- ===== src/Import/Analysis.antt =====
-- `analyze` of apps/api/src/imports/initial-import.service.ts: which rows of a file are new, which
-- are there already, and which contradict what is there.
use b2b_stm.Prelude.{
  ℕ, Bool, true, false, ◌&&◌, ◌||◌, not, Option, none, some, List, [], ◌∷◌, ◌++◌, any, is_some,
  ◌==◌, nat_eq, if◌then◌else◌,
}
use b2b_stm.Text.{Text, text_eq}
use b2b_stm.Table.{Table, lookup}
use b2b_stm.Import.Rows.{
  RecordType, customer, supplier, warehouse, product, price, stock, ImportRow, Problem, RowError,
}

-- A row of `customers`, `suppliers` or `warehouses`.
pub record Named : Type 0 where
  pub code : Text
  pub name : Text
  pub active : Bool

pub record ProductRow : Type 0 where
  pub sku : Text
  pub name : Text
  pub sale_unit : Text
  pub active : Bool

pub record PriceRow : Type 0 where
  pub unit_price : ℕ
  pub active : Bool

pub record StockRow : Type 0 where
  pub on_hand_quantity : ℕ
  pub reserved_quantity : ℕ

pub record StockChange : Type 0 where
  pub warehouse_id : ℕ
  pub product_id : ℕ
  pub quantity_delta : ℕ

pub record Batch : Type 0 where
  pub file_hash : Text
  pub filename : Text
  pub total_rows : ℕ
  pub created_rows : ℕ
  pub skipped_rows : ℕ

pub record RowDecision : Type 0 where
  pub row : ImportRow
  pub created : Bool

-- The tables that an import reads and writes. The rows of a batch stand under its id.
pub record Store : Type 0 where
  pub next_id : ℕ
  pub customers : Table ℕ Named
  pub suppliers : Table ℕ Named
  pub warehouses : Table ℕ Named
  pub products : Table ℕ ProductRow
  pub customer_prices : Table (ℕ × ℕ) PriceRow
  pub inventory_balances : Table (ℕ × ℕ) StockRow
  pub inventory_adjustments : Table ℕ StockChange
  pub inventory_movements : Table ℕ StockChange
  pub import_batches : Table ℕ Batch
  pub import_rows : Table ℕ RowDecision

-- `rows.find(item => item.code === code)`
unfoldable pub find_code : Text → Table ℕ Named → Option Named
find_code code [] = none
find_code code (r ∷ rs) = if r.1.code == code then some r.1 else find_code code rs

unfoldable pub find_sku : Text → Table ℕ ProductRow → Option ProductRow
find_sku sku [] = none
find_sku sku (r ∷ rs) = if r.1.sku == sku then some r.1 else find_sku sku rs

-- The code of the row with this id, for the joins.
abbrev pub code_of : ℕ → Table ℕ Named → Text
unfolding lookup
code_of id t = elim (lookup id t) [ none ↦ [] | some r ↦ r.code ]

abbrev pub sku_text : ℕ → Table ℕ ProductRow → Text
unfolding lookup
sku_text id t = elim (lookup id t) [ none ↦ [] | some r ↦ r.sku ]

-- `new Map(rows.map(row => [key, row])).get(key)`: of several rows under one key the last one counts.
unfoldable pub get_last {ℓ} : {V : Type ℓ} → (ℕ × ℕ → Text) → Text → Table (ℕ × ℕ) V → Option V
get_last key_of key [] = none
get_last key_of key (r ∷ rs) =
    let later = get_last key_of key rs in
    elim later [ some v ↦ some v | none ↦ if key_of r.0 == key then some r.1 else none ]

abbrev pub price_key : Store → ℕ × ℕ → Text
price_key s id = code_of id.0 s.customers ++ (b':' ∷ sku_text id.1 s.products)

abbrev pub stock_key : Store → ℕ × ℕ → Text
stock_key s id = code_of id.0 s.warehouses ++ (b':' ∷ sku_text id.1 s.products)

abbrev pub is_customer : RecordType → Bool
is_customer customer = true
is_customer _ = false

abbrev pub is_warehouse : RecordType → Bool
is_warehouse warehouse = true
is_warehouse _ = false

abbrev pub is_product : RecordType → Bool
is_product product = true
is_product _ = false

-- `customerMap.has(code)`: a customer that is there, or one of the file.
unfoldable pub knows_customer : Store → List ImportRow → Text → Bool
unfolding find_code any
knows_customer s rows code =
    is_some (find_code code s.customers)
    || any (λ r. is_customer r.record_type && r.code == code) rows

unfoldable pub knows_warehouse : Store → List ImportRow → Text → Bool
unfolding find_code any
knows_warehouse s rows code =
    is_some (find_code code s.warehouses)
    || any (λ r. is_warehouse r.record_type && r.code == code) rows

unfoldable pub knows_product : Store → List ImportRow → Text → Bool
unfolding find_sku any
knows_product s rows sku =
    is_some (find_sku sku s.products) || any (λ r. is_product r.record_type && r.sku == sku) rows

-- What becomes of a row.
pub data Verdict : Type 0 where
  create skip : Verdict
  refuse : Problem → Verdict

abbrev pub compare_with : Bool → Verdict
compare_with same = if same then skip else refuse Problem.other_value

abbrev pub named_verdict : ImportRow → Option Named → Verdict
named_verdict r none = create
named_verdict r (some old) = compare_with (old.active && old.name == r.name)

abbrev pub product_verdict : ImportRow → Option ProductRow → Verdict
product_verdict r none = create
product_verdict r (some old) =
    compare_with (old.active && old.name == r.name && old.sale_unit == r.sale_unit)

abbrev pub is_amount : ℕ → Option ℕ → Bool
is_amount n none = false
is_amount n (some m) = n == m

abbrev pub price_verdict : ImportRow → Option PriceRow → Verdict
price_verdict r none = create
price_verdict r (some old) = compare_with (old.active && is_amount old.unit_price r.unit_price)

-- An empty balance does not count as there.
abbrev pub stock_verdict : ImportRow → Option StockRow → Verdict
stock_verdict r none = create
stock_verdict r (some old) =
    if is_amount old.on_hand_quantity r.quantity && old.reserved_quantity == 0
    then skip
    else if not (old.on_hand_quantity == 0) || not (old.reserved_quantity == 0)
    then refuse Problem.stock_exists
    else create

abbrev pub verdict_for : RecordType → Store → List ImportRow → ImportRow → Verdict
unfolding knows_customer knows_warehouse knows_product get_last
verdict_for customer s rows r = named_verdict r (find_code r.code s.customers)
verdict_for supplier s rows r = named_verdict r (find_code r.code s.suppliers)
verdict_for warehouse s rows r = named_verdict r (find_code r.code s.warehouses)
verdict_for product s rows r = product_verdict r (find_sku r.sku s.products)
verdict_for price s rows r =
    if not (knows_customer s rows r.customer_code) || not (knows_product s rows r.sku)
    then refuse Problem.no_price_reference
    else price_verdict r (get_last (price_key s) r.key s.customer_prices)
verdict_for stock s rows r =
    if not (knows_warehouse s rows r.warehouse_code) || not (knows_product s rows r.sku)
    then refuse Problem.no_stock_reference
    else stock_verdict r (get_last (stock_key s) r.key s.inventory_balances)

unfoldable pub verdict : Store → List ImportRow → ImportRow → Verdict
verdict s rows r = verdict_for r.record_type s rows r

pub record Analysis : Type 0 where
  pub decisions : List RowDecision
  pub errors : List RowError

abbrev pub add_verdict : ImportRow → Verdict → Analysis → Analysis
add_verdict r create a = record a { decisions = record { row = r; created = true } ∷ a.decisions }
add_verdict r skip a = record a { decisions = record { row = r; created = false } ∷ a.decisions }
add_verdict r (refuse problem) a = record a { errors = (r.row_number, problem) ∷ a.errors }

-- The second loop, over the rows that are left.
unfoldable pub analyze_rows : Store → List ImportRow → List ImportRow → Analysis
unfolding verdict
analyze_rows s rows [] = record { decisions = []; errors = [] }
analyze_rows s rows (r ∷ rest) = add_verdict r (verdict s rows r) (analyze_rows s rows rest)

unfoldable pub analyze : Store → List ImportRow → Analysis
unfolding analyze_rows
analyze s rows = analyze_rows s rows rows
