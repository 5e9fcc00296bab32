-- ===== src/Import/Examples.antt =====
-- A file with a product, a warehouse and its stock.
use b2b_stm.Prelude.{
  ◌≡◌, refl, true, false, List, [], ◌∷◌, ◌++◌, any, filter, nat_eq, sort_by, insert_by,
}
use b2b_stm.Text.{Text, codes, trim, text_eq, is_digit}
use b2b_stm.Json.{Json, undefined, str, obj, field, end, get, string}
use b2b_stm.Table.{lookup, modify, insert}
use b2b_stm.Tx.{Result, ok, err, bad_request}
use b2b_stm.Export.{Cell, words, number, null, join, only_digits}
use b2b_stm.Import.Csv.{parse_csv, strip_mark, byte_length, scan, has_text}
use b2b_stm.Import.Rows.{
  Parsed, parse_initial_import, parse_rows, read_lines, read_line, row_problem, record_type_of,
  take_row, safe_integer, reference_errors,
}
use b2b_stm.Import.Accepted.{IsAccepted, parse_initial_import-IsAccepted}
use b2b_stm.Import.Analysis.{
  Store, analyze, analyze_rows, verdict, knows_customer, knows_warehouse, knows_product, find_code,
  find_sku, get_last,
}
use b2b_stm.Import.Apply.{
  Applied, Preview, apply, preview, apply_work, upload, ends_with, insert_details, insert_detail,
  insert_entities, insert_stock, insert_rows, id_of, id_of_sku, find_batch,
}
use b2b_stm.Import.Agreement.{Agrees, apply-apply, apply-preview}

abbrev plain : Text → Text
plain s = s

abbrev file : Text
file =
    codes "recordType,code,name,saleUnit,customerCode,sku,warehouseCode,quantity,unitPrice"
    ++ (10 ∷ codes "product,,Bolt,box,,B1,,,")
    ++ (10 ∷ codes "warehouse,W,Main,,,,,,")
    ++ (10 ∷ codes "stock,,,,,B1,W,7,")

abbrev empty : Store
empty = record {
  next_id = 1;
  customers = [];
  suppliers = [];
  warehouses = [];
  products = [];
  customer_prices = [];
  inventory_balances = [];
  inventory_adjustments = [];
  inventory_movements = [];
  import_batches = [];
  import_rows = [];
}

abbrev body : Json
body = obj (field "filename" (str (codes "a.csv")) (field "content" (str file) end))

abbrev answer : Applied
answer = record {
  id = 5;
  filename = codes "a.csv";
  total_rows = 3;
  created_rows = 3;
  skipped_rows = 0;
  duplicate = false;
}

abbrev after : Store
unfolding apply
after = (apply plain plain plain body empty).1

first_run : (apply plain plain plain body empty) ≡ (ok answer, after)
unfolding apply preview apply_work upload ends_with insert_details insert_detail insert_entities
    insert_stock insert_rows id_of id_of_sku find_batch parse_initial_import parse_rows parse_csv
    strip_mark byte_length scan has_text read_lines read_line row_problem record_type_of take_row
    safe_integer reference_errors analyze analyze_rows verdict knows_customer knows_warehouse
    knows_product find_code find_sku get_last filter any sort_by insert_by join trim string get
    lookup modify insert only_digits is_digit
first_run = refl

apply-apply_example :
    apply plain plain plain body after ≡ (ok (record answer { duplicate = true }), after)
apply-apply_example = apply-apply plain plain plain body empty answer after first_run

apply-preview_example :
    (p : Preview) × (preview plain plain plain body empty ≡ ok p) × Agrees answer p
apply-preview_example = apply-preview plain plain plain body empty answer after first_run refl

no_file :
    (apply plain plain plain undefined after).0
    ≡ err (bad_request "CSV filename and content are required")
unfolding apply upload string get
no_file = refl

abbrev parsed_or_none : Result Parsed → Parsed
parsed_or_none (ok p) = p
parsed_or_none (err e) = record { rows = []; errors = [] }

abbrev parsed_file : Parsed
parsed_file = parsed_or_none (parse_initial_import plain true file)

parses : parse_initial_import plain true file ≡ ok parsed_file
unfolding apply preview apply_work upload ends_with insert_details insert_detail insert_entities
    insert_stock insert_rows id_of id_of_sku find_batch parse_initial_import parse_rows parse_csv
    strip_mark byte_length scan has_text read_lines read_line row_problem record_type_of take_row
    safe_integer reference_errors analyze analyze_rows verdict knows_customer knows_warehouse
    knows_product find_code find_sku get_last filter any sort_by insert_by join trim string get
    lookup modify insert only_digits is_digit
parses = refl

no_errors : parsed_file.errors ≡ []
unfolding apply preview apply_work upload ends_with insert_details insert_detail insert_entities
    insert_stock insert_rows id_of id_of_sku find_batch parse_initial_import parse_rows parse_csv
    strip_mark byte_length scan has_text read_lines read_line row_problem record_type_of take_row
    safe_integer reference_errors analyze analyze_rows verdict knows_customer knows_warehouse
    knows_product find_code find_sku get_last filter any sort_by insert_by join trim string get
    lookup modify insert only_digits is_digit
no_errors = refl

parse_initial_import-IsAccepted_example : IsAccepted parsed_file.rows
parse_initial_import-IsAccepted_example =
    parse_initial_import-IsAccepted plain true file parsed_file parses no_errors

abbrev cells : List (List Cell)
cells = (words (codes "a,b") ∷ number (codes "-3") ∷ words (codes "=x") ∷ null ∷ []) ∷ []
