-- ===== src/Import/Rows.antt =====
-- `parseInitialImport` of apps/api/src/imports/initial-import-parser.ts: the rows of a file with what
-- is wrong with them. `toUpperCase` goes by the tables of Unicode and is a parameter, `upper`.
use b2b_stm.Prelude.{
  ℕ, suc, ◌+◌, ◌-◌, ◌*◌, ◌^◌, Bool, ◌&&◌, ◌||◌, not, Option, none, some, List, [], ◌∷◌, ◌++◌,
  length, map, any, ltb, is_some, sort_by, ◌==◌, nat_eq, if◌then◌else◌,
}
use b2b_stm.Text.{Text, text_eq, trim, codes}
use b2b_stm.Tx.{Result, ok, err, fault}
use b2b_stm.Export.{only_digits, join}
use b2b_stm.Import.Csv.{parse_csv, strip_mark}

-- `INITIAL_IMPORT_HEADER`
abbrev pub import_header : List Text
import_header =
    codes "recordType"
    ∷ codes "code"
    ∷ codes "name"
    ∷ codes "saleUnit"
    ∷ codes "customerCode"
    ∷ codes "sku"
    ∷ codes "warehouseCode"
    ∷ codes "quantity"
    ∷ codes "unitPrice"
    ∷ []

-- `InitialImportType`
pub data RecordType : Type 0 where
  customer supplier warehouse product price stock : RecordType

abbrev pub type_name : RecordType → Text
type_name customer = codes "customer"
type_name supplier = codes "supplier"
type_name warehouse = codes "warehouse"
type_name product = codes "product"
type_name price = codes "price"
type_name stock = codes "stock"

unfoldable pub record_type_of : Text → Option RecordType
record_type_of s =
    if s == type_name customer
    then some customer
    else if s == type_name supplier
    then some supplier
    else if s == type_name warehouse
    then some warehouse
    else if s == type_name product
    then some product
    else if s == type_name price
    then some price
    else if s == type_name stock
    then some stock
    else none

-- `InitialImportRow`
pub record ImportRow : Type 0 where
  pub row_number : ℕ
  pub record_type : RecordType
  pub key : Text
  pub code : Text
  pub name : Text
  pub sale_unit : Text
  pub customer_code : Text
  pub sku : Text
  pub warehouse_code : Text
  pub quantity : Option ℕ
  pub unit_price : Option ℕ

-- The messages of the errors, in the order of the code.
pub data Problem : Type 0 where
  bad_columns bad_record_type no_key : Problem
  duplicate_key : RecordType → Problem
  no_code_or_name no_product_field no_unit_price no_quantity : Problem
  price_reference stock_reference other_value no_price_reference no_stock_reference stock_exists :
      Problem

-- `InitialImportError`: the row's number and the message.
abbrev pub RowError : Type 0
RowError = ℕ × Problem

digits_from : ℕ → Text → ℕ
digits_from n [] = n
digits_from n (c ∷ s) = digits_from (n * 10 + (c - 48)) s

-- `safeInteger`: the code's double of a run of digits is a safe integer when its value is one.
unfoldable pub safe_integer : Text → Option ℕ
unfolding only_digits digits_from
safe_integer s =
    if only_digits s && not (length s == 0) && ltb (digits_from 0 s) (2 ^ 53)
    then some (digits_from 0 s)
    else none

abbrev pub amount_of : Text → Option ℕ
amount_of s = if length s == 0 then none else safe_integer s

abbrev pub colon : Text
colon = b':' ∷ []

abbrev pub row_key : RecordType → Text → Text → Text → Text → Text
row_key customer code customer_code sku warehouse_code = code
row_key supplier code customer_code sku warehouse_code = code
row_key warehouse code customer_code sku warehouse_code = code
row_key product code customer_code sku warehouse_code = sku
row_key price code customer_code sku warehouse_code = customer_code ++ (b':' ∷ sku)
row_key stock code customer_code sku warehouse_code = warehouse_code ++ (b':' ∷ sku)

-- `${recordType}:${key}`
abbrev pub scoped_key : ImportRow → Text
scoped_key r = type_name r.record_type ++ (b':' ∷ r.key)

abbrev is_blank : Text → Bool
is_blank s = length s == 0

abbrev pub has : Text → List Text → Bool
unfolding any
has s xs = any (λ x. x == s) xs

-- What a row of each type must have beside its key.
abbrev pub missing : RecordType → ImportRow → Option Problem
missing customer r = if is_blank r.code || is_blank r.name then some no_code_or_name else none
missing supplier r = if is_blank r.code || is_blank r.name then some no_code_or_name else none
missing warehouse r = if is_blank r.code || is_blank r.name then some no_code_or_name else none
missing product r =
    if is_blank r.sku || is_blank r.name || is_blank r.sale_unit
    then some no_product_field
    else none
missing price r = if is_some r.unit_price then none else some no_unit_price
missing stock r = if is_some r.quantity then none else some no_quantity

unfoldable pub row_problem : List Text → ImportRow → Option Problem
row_problem keys r =
    if is_blank r.key || r.key == colon
    then some no_key
    else if has (scoped_key r) keys
    then some (duplicate_key r.record_type)
    else missing r.record_type r

-- The variables of the loop.
pub record Reading : Type 0 where
  pub rows : List ImportRow
  pub errors : List RowError
  pub keys : List Text
  pub customer_codes : List Text
  pub warehouse_codes : List Text
  pub product_skus : List Text

abbrev pub unread : Reading
unread = record {
  rows = [];
  errors = [];
  keys = [];
  customer_codes = [];
  warehouse_codes = [];
  product_skus = [];
}

abbrev pub add_error : ℕ → Problem → Reading → Reading
add_error n problem s = record s { errors = s.errors ++ ((n, problem) ∷ []) }

abbrev pub note_code : RecordType → ImportRow → Reading → Reading
note_code customer r s = record s { customer_codes = r.code ∷ s.customer_codes }
note_code warehouse r s = record s { warehouse_codes = r.code ∷ s.warehouse_codes }
note_code product r s = record s { product_skus = r.sku ∷ s.product_skus }
note_code _ r s = s

abbrev pub add_row : ImportRow → Reading → Reading
add_row r s = record s { rows = s.rows ++ (r ∷ []) }

unfoldable pub take_row : ImportRow → Option Problem → Reading → Reading
take_row r (some problem) s = add_row r (add_error r.row_number problem s)
take_row r none s =
    note_code r.record_type r (add_row r (record s { keys = scoped_key r ∷ s.keys }))

-- A line that has its nine columns and a record type.
module _ (upper : Text → Text) where
  -- `businessKey`
  abbrev pub business_key : Text → Text
  unfolding trim
  business_key s = upper (trim s)

  abbrev pub normalized_row :
      ℕ → RecordType → Text → Text → Text → Text → Text → Text → Text → Text → ImportRow
  normalized_row n type code name unit customer_code sku warehouse_code amount unit_price =
      let code' = business_key code in
      let customer' = business_key customer_code in
      let sku' = business_key sku in
      let warehouse' = business_key warehouse_code in
      record {
        row_number = n;
        record_type = type;
        key = row_key type code' customer' sku' warehouse';
        code = code';
        name = name;
        sale_unit = unit;
        customer_code = customer';
        sku = sku';
        warehouse_code = warehouse';
        quantity = amount_of amount;
        unit_price = amount_of unit_price;
      }

  -- One round of the loop, on the trimmed values.
  unfoldable pub read_line : ℕ → List Text → Reading → Reading
  unfolding row_problem record_type_of take_row
  read_line n (type ∷ code ∷ name ∷ unit ∷ cust ∷ sku ∷ house ∷ amount ∷ cost ∷ []) s =
      elim (record_type_of type) [
        | none ↦ add_error n bad_record_type s
        | some t ↦
            let r = normalized_row n t code name unit cust sku house amount cost in
            take_row r (row_problem s.keys r) s
      ]
  read_line n _ s = add_error n bad_columns s

  unfoldable pub read_lines : ℕ → List (List Text) → Reading → Reading
  unfolding read_line
  read_lines n [] s = s
  read_lines n (values ∷ rest) s = read_lines (suc n) rest (read_line n (map trim values) s)

-- Whether a price or a stock names what the file does not have.
abbrev pub reference_problem : RecordType → ImportRow → Reading → Option Problem
reference_problem price r s =
    if not (has r.customer_code s.customer_codes) || not (has r.sku s.product_skus)
    then some price_reference
    else none
reference_problem stock r s =
    if not (has r.warehouse_code s.warehouse_codes) || not (has r.sku s.product_skus)
    then some stock_reference
    else none
reference_problem _ r s = none

abbrev pub has_error : ℕ → List RowError → Bool
unfolding any
has_error n errors = any (λ e. e.0 == n) errors

abbrev pub add_problem : ℕ → Option Problem → List RowError → List RowError
add_problem n none errors = errors
add_problem n (some problem) errors = errors ++ ((n, problem) ∷ [])

unfoldable pub reference_errors : Bool → Reading → List ImportRow → List RowError → List RowError
reference_errors external s [] errors = errors
reference_errors external s (r ∷ rows) errors = reference_errors external s rows (
    if has_error r.row_number errors || external
    then errors
    else add_problem r.row_number (reference_problem r.record_type r s) errors)

pub record Parsed : Type 0 where
  pub rows : List ImportRow
  pub errors : List RowError

abbrev pub header_fault : Result Parsed
header_fault = err (fault "CSV header가 초기 이관 형식과 일치하지 않습니다.")

module _ (upper : Text → Text) where
  unfoldable pub parse_rows : Bool → List (List Text) → Result Parsed
  unfolding read_lines reference_errors join
  parse_rows external [] = header_fault
  parse_rows external (header ∷ lines) =
      if not (join (b',' ∷ []) (map trim header) == join (b',' ∷ []) import_header)
      then header_fault
      else if ltb 2000 (length lines)
      then err (fault "CSV 데이터는 2,000행 이하여야 합니다.")
      else let read = read_lines upper 2 lines unread in
        ok (record {
          rows = read.rows;
          errors = sort_by (λ e. e.0) (reference_errors external read read.rows read.errors);
        })

  abbrev pub parsed_rows : Bool → Result (List (List Text)) → Result Parsed
  parsed_rows external (ok rows) = parse_rows external rows
  parsed_rows external (err e) = err e

  unfoldable pub parse_initial_import : Bool → Text → Result Parsed
  unfolding parse_csv strip_mark parse_rows
  parse_initial_import external content = parsed_rows external (parse_csv (strip_mark content))
