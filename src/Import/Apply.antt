-- ===== src/Import/Apply.antt =====
-- `preview` and `apply` of apps/api/src/imports/initial-import.service.ts. `toUpperCase`,
-- `toLowerCase` and SHA-256 are parameters: `upper`, `lower` and `sha256`.
use b2b_stm.Prelude.{
  ℕ, zero, suc, ◌-◌, Bool, true, false, ◌&&◌, ◌||◌, not, Option, none, some, List, [], ◌∷◌, length,
  filter, ltb, ◌==◌, nat_eq, pair_eq, if◌then◌else◌,
}
use mathlib.Core.List.{reverse}
use b2b_stm.Text.{Text, text_eq, codes}
use b2b_stm.Json.{Json, str, get, string}
use b2b_stm.Table.{Table, lookup, modify, insert}
use b2b_stm.Tx.{Result, ok, err, bad_request, conflict, service_unavailable, fault}
use b2b_stm.Import.Rows.{
  RecordType, customer, supplier, warehouse, product, price, stock, ImportRow, RowError, Parsed,
  parse_initial_import,
}
use b2b_stm.Import.Analysis.{
  Named, ProductRow, StockChange, Batch, RowDecision, Store, Analysis, analyze,
}

pub record Upload : Type 0 where
  pub filename : Text
  pub content : Text

-- What the callers get: the counts and either the errors or the rows; or the batch.
pub record Preview : Type 0 where
  pub filename : Text
  pub total_rows : ℕ
  pub created_rows : ℕ
  pub skipped_rows : ℕ
  pub errors : List RowError

pub record Applied : Type 0 where
  pub id : ℕ
  pub filename : Text
  pub total_rows : ℕ
  pub created_rows : ℕ
  pub skipped_rows : ℕ
  pub duplicate : Bool

abbrev pub text_content : Json → Text
text_content (str s) = s
text_content _ = []

abbrev pub take_first {ℓ} : {A : Type ℓ} → ℕ → List A → List A
take_first zero xs = []
take_first (suc n) [] = []
take_first (suc n) (x ∷ xs) = x ∷ take_first n xs

abbrev pub starts_with : Text → Text → Bool
starts_with [] s = true
starts_with (c ∷ p) [] = false
starts_with (c ∷ p) (d ∷ s) = c == d && starts_with p s

-- `endsWith`
unfoldable pub ends_with : Text → Text → Bool
ends_with suffix s = starts_with (reverse suffix) (reverse s)

abbrev pub is_created : RowDecision → Bool
is_created d = d.created

abbrev pub created_of : List RowDecision → List RowDecision
unfolding filter
created_of ds = filter is_created ds

-- The id of a new row, where a map from codes to ids has it; a later row of the map counts.
unfoldable pub id_of : Text → Table ℕ Named → Option ℕ
id_of code [] = none
id_of code (r ∷ rs) = if r.1.code == code then some r.0 else id_of code rs

unfoldable pub id_of_sku : Text → Table ℕ ProductRow → Option ℕ
id_of_sku sku [] = none
id_of_sku sku (r ∷ rs) = if r.1.sku == sku then some r.0 else id_of_sku sku rs

abbrev pub new_named : ImportRow → Named
new_named r = record { code = r.code; name = r.name; active = true }

abbrev pub new_product : ImportRow → ProductRow
new_product r = record { sku = r.sku; name = r.name; sale_unit = r.sale_unit; active = true }

-- The first loop of inserts: customers, suppliers, warehouses and products.
abbrev pub insert_entity : RecordType → ImportRow → Store → Store
insert_entity customer r s = record s {
  next_id = suc s.next_id;
  customers = insert s.next_id (new_named r) s.customers;
}
insert_entity supplier r s = record s {
  next_id = suc s.next_id;
  suppliers = insert s.next_id (new_named r) s.suppliers;
}
insert_entity warehouse r s = record s {
  next_id = suc s.next_id;
  warehouses = insert s.next_id (new_named r) s.warehouses;
}
insert_entity product r s = record s {
  next_id = suc s.next_id;
  products = insert s.next_id (new_product r) s.products;
}
insert_entity _ r s = s

unfoldable pub insert_entities : List RowDecision → Store → Store
insert_entities [] s = s
insert_entities (d ∷ ds) s = insert_entities ds (insert_entity d.row.record_type d.row s)

abbrev pub amount_or_zero : Option ℕ → ℕ
amount_or_zero none = 0
amount_or_zero (some n) = n

-- `INSERT INTO inventory_balances ... ON CONFLICT DO NOTHING`
abbrev pub ensure_balance : ℕ × ℕ → Store → Store
unfolding lookup
ensure_balance key s = elim (lookup key s.inventory_balances) [
  | some b ↦ s
  | none ↦ record s {
    inventory_balances =
        insert key (record { on_hand_quantity = 0; reserved_quantity = 0 }) s.inventory_balances;
  }
]

-- The opening quantity with its adjustment and its movement.
abbrev pub open_stock : ℕ × ℕ → ℕ → Store → Store
open_stock key q s =
    let change : StockChange = record {
      warehouse_id = key.0;
      product_id = key.1;
      quantity_delta = q;
    } in
    record s {
      next_id = suc (suc s.next_id);
      inventory_adjustments = insert s.next_id change s.inventory_adjustments;
      inventory_balances = modify key (λ b. record b { on_hand_quantity = q }) s.inventory_balances;
      inventory_movements = insert (suc s.next_id) change s.inventory_movements;
    }

-- A quantity that no `integer` column holds is an error of the database.
unfoldable pub insert_stock : ℕ × ℕ → ImportRow → Store → Result Store
insert_stock key r s =
    let q = amount_or_zero r.quantity in
    if q == 0
    then ok (ensure_balance key s)
    else if ltb 2147483647 q
    then err (fault "integer out of range")
    else ok (open_stock key q (ensure_balance key s))

abbrev pub insert_price_at : Option ℕ → Option ℕ → ImportRow → Store → Result Store
insert_price_at (some c) (some p) r s = elim (lookup (c, p) s.customer_prices) [
  | some old ↦ err (fault "duplicate key")
  | none ↦ ok (record s {
    customer_prices =
        insert (c, p) (record { unit_price = amount_or_zero r.unit_price; active = true })
          s.customer_prices;
  })
]
insert_price_at _ _ r s = err (fault "null value")

abbrev pub insert_stock_at : Option ℕ → Option ℕ → ImportRow → Store → Result Store
insert_stock_at (some w) (some p) r s = insert_stock (w, p) r s
insert_stock_at _ _ r s = err (fault "null value")

-- The second loop: prices and stock.
unfoldable pub insert_detail : RecordType → ImportRow → Store → Result Store
unfolding insert_stock id_of id_of_sku
insert_detail price r s =
    insert_price_at (id_of r.customer_code s.customers) (id_of_sku r.sku s.products) r s
insert_detail stock r s =
    insert_stock_at (id_of r.warehouse_code s.warehouses) (id_of_sku r.sku s.products) r s
insert_detail _ r s = ok s

abbrev pub then_store {ℓ} : {A : Type ℓ} → (Store → Result A) → Result Store → Result A
then_store f (ok s) = f s
then_store f (err e) = err e

unfoldable pub insert_details : List RowDecision → Store → Result Store
insert_details [] s = ok s
insert_details (d ∷ ds) s = then_store (insert_details ds) (insert_detail d.row.record_type d.row s)

unfoldable pub insert_rows : ℕ → List RowDecision → Store → Store
insert_rows batch [] s = s
insert_rows batch (d ∷ ds) s =
    insert_rows batch ds (record s { import_rows = insert batch d s.import_rows })

-- The batch with its rows.
abbrev pub insert_batch : Text → Text → List RowDecision → Store → Store
unfolding insert_rows
insert_batch hash filename ds s =
    let created = length (created_of ds) in
    insert_rows s.next_id ds (record s {
      next_id = suc s.next_id;
      import_batches =
          insert s.next_id
            (record {
              file_hash = hash;
              filename = filename;
              total_rows = length ds;
              created_rows = created;
              skipped_rows = length ds - created;
            })
            s.import_batches;
    })

abbrev pub applied : ℕ → Bool → Batch → Applied
applied id duplicate b = record {
  id = id;
  filename = b.filename;
  total_rows = b.total_rows;
  created_rows = b.created_rows;
  skipped_rows = b.skipped_rows;
  duplicate = duplicate;
}

-- `SELECT ... FROM import_batches WHERE file_hash=$1`
unfoldable pub find_batch : Text → Table ℕ Batch → Option (ℕ × Batch)
find_batch hash [] = none
find_batch hash (b ∷ bs) = if b.1.file_hash == hash then some b else find_batch hash bs

abbrev pub new_batch : ℕ → Text → List RowDecision → Applied
new_batch id filename ds =
    let created = length (created_of ds) in
    record {
      id = id;
      filename = filename;
      total_rows = length ds;
      created_rows = created;
      skipped_rows = length ds - created;
      duplicate = false;
    }

abbrev pub record_batch : Text → Text → List RowDecision → Store → Applied × Store
record_batch hash filename ds s = (new_batch s.next_id filename ds, insert_batch hash filename ds s)

abbrev pub write_details : Text → Text → List RowDecision → Result Store → Result (Applied × Store)
write_details hash filename ds (ok s) = ok (record_batch hash filename ds s)
write_details hash filename ds (err e) = err e

abbrev pub write_analyzed : Text → Text → Store → Analysis → Result (Applied × Store)
unfolding insert_details insert_entities
write_analyzed hash filename s a =
    if length a.errors == 0
    then write_details hash filename a.decisions
        (insert_details (created_of a.decisions) (insert_entities (created_of a.decisions) s))
    else err (bad_request "CSV validation failed")

-- A plain error of the parser becomes a bad request with its message.
abbrev pub as_bad_request {ℓ} : {A : Type ℓ} → Result A → Result A
as_bad_request (err (fault m)) = err (bad_request m)
as_bad_request r = r

abbrev pub answer_or_rollback : Store → Result (Applied × Store) → Result Applied × Store
answer_or_rollback s (ok (a, s')) = (ok a, s')
answer_or_rollback s (err (bad_request m)) = (err (bad_request m), s)
answer_or_rollback s (err (conflict m)) = (err (conflict m), s)
answer_or_rollback s (err _) = (err (service_unavailable "Initial import unavailable"), s)

module _ (upper lower sha256 : Text → Text) where
  -- `body`
  unfoldable pub upload : Json → Result Upload
  unfolding ends_with
  upload body =
      let filename = string (get "filename" body) in
      let content = text_content (get "content" body) in
      if length filename == 0
        || not (ends_with (codes ".csv") (lower filename))
        || length content == 0
      then err (bad_request "CSV filename and content are required")
      else ok (record { filename = take_first 200 filename; content = content })

  abbrev pub apply_unless :
      Upload → List ImportRow → Store → Option (ℕ × Batch) → Result (Applied × Store)
  apply_unless u rows s (some b) = ok (applied b.0 true b.1, s)
  apply_unless u rows s none = write_analyzed (sha256 u.content) u.filename s (analyze s rows)

  -- The transaction of `apply`.
  unfoldable pub apply_work : Upload → List ImportRow → Store → Result (Applied × Store)
  unfolding find_batch
  apply_work u rows s = apply_unless u rows s (find_batch (sha256 u.content) s.import_batches)

  abbrev pub apply_parsed : Upload → Result Parsed → Store → Result Applied × Store
  apply_parsed u (ok p) s =
      if length p.errors == 0
      then answer_or_rollback s (apply_work u p.rows s)
      else (err (bad_request "CSV validation failed"), s)
  apply_parsed u (err e) s = (err e, s)

  abbrev pub apply_upload : Result Upload → Store → Result Applied × Store
  apply_upload (ok u) s =
      apply_parsed u (as_bad_request (parse_initial_import upper true u.content)) s
  apply_upload (err e) s = (err e, s)

  unfoldable pub apply : Json → Store → Result Applied × Store
  unfolding apply_work upload
  apply body s = apply_upload (upload body) s

  abbrev pub preview_analysis : Upload → Parsed → Analysis → Preview
  preview_analysis u p a = record {
    filename = u.filename;
    total_rows = length p.rows;
    created_rows = length (created_of a.decisions);
    skipped_rows = length (filter (λ d. not (is_created d)) a.decisions);
    errors = a.errors;
  }

  abbrev pub preview_parsed : Upload → Result Parsed → Store → Result Preview
  preview_parsed u (ok p) s =
      if length p.errors == 0
      then ok (preview_analysis u p (analyze s p.rows))
      else ok (record {
        filename = u.filename;
        total_rows = length p.rows;
        created_rows = 0;
        skipped_rows = 0;
        errors = p.errors;
      })
  preview_parsed u (err e) s = err e

  abbrev pub preview_upload : Result Upload → Store → Result Preview
  preview_upload (ok u) s =
      preview_parsed u (as_bad_request (parse_initial_import upper true u.content)) s
  preview_upload (err e) s = err e

  unfoldable pub preview : Json → Store → Result Preview
  unfolding upload
  preview body s = preview_upload (upload body) s
