-- ===== src/Import/Accepted.antt =====
-- What holds of the rows of a file in which nothing is wrong.
use b2b_stm.Prelude.{
  ℕ, suc, ◌≡◌, ◌≢◌, refl, sym, ◌∙◌, Bool, Bool-cases, inl, inr, false, ◌||◌, Option, none, some,
  List, [], ◌∷◌, ◌++◌, map, any, All, arith, sort_by, insert_by, ◌==◌, nat_eq,
}
use mathlib.Core.Path.{subst}
use b2b_stm.Text.{Text, text_eq, trim}
use b2b_stm.Tx.{Result, ok, err}
use b2b_stm.Import.Csv.{parse_csv, strip_mark}
use b2b_stm.Import.Rows.{
  ImportRow, RowError, Problem, Reading, unread, scoped_key, has, missing, row_problem, add_error,
  take_row, read_line, read_lines, normalized_row, record_type_of, Parsed, parse_rows, parsed_rows,
  parse_initial_import, reference_errors, RecordType, customer, supplier, warehouse, product, price,
  stock, colon, add_problem, reference_problem, has_error,
}

-- The columns that a row of each type fills: texts that are not empty, amounts that can be read.
abbrev pub HasFields : RecordType → ImportRow → Type 0
HasFields customer r = (r.code ≢ []) × (r.name ≢ [])
HasFields supplier r = (r.code ≢ []) × (r.name ≢ [])
HasFields warehouse r = (r.code ≢ []) × (r.name ≢ [])
HasFields product r = (r.sku ≢ []) × (r.name ≢ []) × (r.sale_unit ≢ [])
HasFields price r = r.unit_price ≢ none
HasFields stock r = r.quantity ≢ none

-- A row that has a key, which is more than a colon between two missing codes, and the columns of its type.
abbrev pub IsComplete : ImportRow → Type 0
IsComplete r = (r.key ≢ []) × (r.key ≢ colon) × HasFields r.record_type r

fields_given : (type : RecordType) (r : ImportRow) → missing type r ≡ none → HasFields type r
fields_given customer r h = (λ e. ground (arith, h, e), λ e. ground (arith, h, e))
fields_given supplier r h = (λ e. ground (arith, h, e), λ e. ground (arith, h, e))
fields_given warehouse r h = (λ e. ground (arith, h, e), λ e. ground (arith, h, e))
fields_given product r h =
    (λ e. ground (arith, h, e), λ e. ground (arith, h, e), λ e. ground (arith, h, e))
fields_given price r h = λ e. ground (arith, h, e)
fields_given stock r h = λ e. ground (arith, h, e)

abbrev pub IsDistinct : List Text → Type 0
IsDistinct [] = Unit
IsDistinct (x ∷ xs) = (has x xs ≡ false) × IsDistinct xs

abbrev keys_of : List ImportRow → List Text
keys_of rows = map scoped_key rows

-- The rows are complete and their keys differ.
abbrev pub IsAccepted : List ImportRow → Type 0
IsAccepted rows = All IsComplete rows × IsDistinct (map scoped_key rows)

record IsReading (s : Reading) : Type 0 where
  accepted : s.errors ≡ [] → IsAccepted s.rows
  same_keys : s.errors ≡ [] → (k : Text) → has k s.keys ≡ has k (map scoped_key s.rows)

snoc_ne_nil : (es : List RowError) (e : RowError) → es ++ (e ∷ []) ≢ []
snoc_ne_nil [] e h = cc
snoc_ne_nil (x ∷ es) e h = cc

has_snoc :
    (k : Text) (rows : List ImportRow) (r : ImportRow)
    → has k (map scoped_key (rows ++ (r ∷ []))) ≡ (has k (map scoped_key rows) || scoped_key r == k)
unfolding any
has_snoc k [] r = ground arith
has_snoc k (x ∷ rows) r = ground (arith, has_snoc k rows r)

All-snoc :
    (rows : List ImportRow) (r : ImportRow)
    → All IsComplete rows
    → IsComplete r
    → All IsComplete (rows ++ (r ∷ []))
All-snoc [] r h c = (c, tt)
All-snoc (x ∷ rows) r h c = (h.0, All-snoc rows r h.1 c)

IsDistinct-snoc :
    (rows : List ImportRow) (r : ImportRow)
    → IsDistinct (map scoped_key rows)
    → has (scoped_key r) (map scoped_key rows) ≡ false
    → IsDistinct (map scoped_key (rows ++ (r ∷ [])))
unfolding any
IsDistinct-snoc [] r h n = (refl, tt)
IsDistinct-snoc (x ∷ rows) r h n = (
  ground (
    arith,
    n,
    h.0,
    has_snoc (scoped_key x) rows r,
    text_eq.beq_iff (scoped_key r) (scoped_key x),
    text_eq.beq_iff (scoped_key x) (scoped_key r),
  ),
  IsDistinct-snoc rows r h.1 (ground (arith, n)),
)

add_error-IsReading :
    (n : ℕ) (problem : Problem) (s : Reading) (rows : List ImportRow)
    → IsReading (record s { errors = s.errors ++ ((n, problem) ∷ []); rows = rows })
add_error-IsReading n problem s rows = record {
  accepted = λ e. absurd (snoc_ne_nil s.errors (n, problem) e);
  same_keys = λ e. absurd (snoc_ne_nil s.errors (n, problem) e);
}

-- A row in which nothing is wrong.
clean_row :
    (keys : List Text) (r : ImportRow)
    → row_problem keys r ≡ none
    → IsComplete r × (has (scoped_key r) keys ≡ false)
unfolding row_problem
clean_row keys r h =
    let given : missing r.record_type r ≡ none = ground (arith, h) in
    (
      (
        λ e. ground (arith, h, e),
        λ e. ground (arith, h, e, text_eq.beq_iff r.key colon),
        fields_given r.record_type r given,
      ),
      ground (arith, h),
    )

clean_row-IsReading :
    (r : ImportRow) (s : Reading)
    → IsReading s
    → row_problem s.keys r ≡ none
    → IsReading (take_row r none s)
unfolding take_row any
clean_row-IsReading r s h clean =
    let good = clean_row s.keys r clean in
    let new : (e : s.errors ≡ []) → has (scoped_key r) (map scoped_key s.rows) ≡ false =
      λ e. ground (arith, good.1, h.same_keys e (scoped_key r)) in
    let after : Reading = take_row r none s in
    let rows : after.rows ≡ s.rows ++ (r ∷ []) = ground arith in
    let errors : after.errors ≡ s.errors = ground arith in
    let keys : after.keys ≡ scoped_key r ∷ s.keys = ground arith in
    record {
      accepted = λ e.
          let none_yet : s.errors ≡ [] = ground (arith, e, errors) in
          subst IsAccepted (sym rows) (
            All-snoc s.rows r (h.accepted none_yet).0 good.0,
            IsDistinct-snoc s.rows r (h.accepted none_yet).1 (new none_yet),
          );
      same_keys = λ e k.
          let none_yet : s.errors ≡ [] = ground (arith, e, errors) in
          rw (keys, rows) (ground (arith, has_snoc k s.rows r, h.same_keys none_yet k));
    }

take_row-IsReading :
    (r : ImportRow) (o : Option Problem) (s : Reading)
    → IsReading s
    → row_problem s.keys r ≡ o
    → IsReading (take_row r o s)
take_row-IsReading r none s h e = clean_row-IsReading r s h e
take_row-IsReading r (some problem) s h e =
    unfold take_row in add_error-IsReading r.row_number problem s (s.rows ++ (r ∷ []))

module _ (upper : Text → Text) where
  read_line-IsReading :
      (n : ℕ) (values : List Text) (s : Reading)
      → IsReading s
      → IsReading (read_line upper n values s)
  unfolding read_line
  read_line-IsReading n (type ∷ code ∷ name ∷ unit ∷ cust ∷ sku ∷ house ∷ amount ∷ cost ∷ []) s h =
      elim (record_type_of type)
        as (λ o. IsReading (elim o [
          | none ↦ add_error n Problem.bad_record_type s
          | some t ↦
              let r = normalized_row upper n t code name unit cust sku house amount cost in
              take_row r (row_problem s.keys r) s
        ])) [
          | none ↦ add_error-IsReading n Problem.bad_record_type s s.rows
          | some t ↦
              let r = normalized_row upper n t code name unit cust sku house amount cost in
              take_row-IsReading r (row_problem s.keys r) s h refl
        ]
  read_line-IsReading n _ s h = add_error-IsReading n Problem.bad_columns s s.rows

  read_lines-IsReading :
      (n : ℕ) (lines : List (List Text)) (s : Reading)
      → IsReading s
      → IsReading (read_lines upper n lines s)
  unfolding read_lines
  read_lines-IsReading n [] s h = h
  read_lines-IsReading n (values ∷ lines) s h =
      read_lines-IsReading (suc n) lines (read_line upper n (map trim values) s)
        (read_line-IsReading n (map trim values) s h)

unread-IsReading : IsReading unread
unread-IsReading = record { accepted = λ e. (tt, tt); same_keys = λ e k. refl }

insert_by_ne_nil : (e : RowError) (es : List RowError) → insert_by (λ x. x.0) e es ≢ []
unfolding insert_by
insert_by_ne_nil e [] h = cc
insert_by_ne_nil e (x ∷ es) h = ground arith

sort_by_nil : (es : List RowError) → sort_by (λ x. x.0) es ≡ [] → es ≡ []
unfolding sort_by
sort_by_nil [] h = refl
sort_by_nil (e ∷ es) h = absurd (insert_by_ne_nil e (sort_by (λ x. x.0) es) h)

add_problem_nil :
    (n : ℕ) (o : Option Problem) (errors : List RowError)
    → add_problem n o errors ≡ []
    → errors ≡ []
add_problem_nil n none errors h = h
add_problem_nil n (some problem) errors h = absurd (snoc_ne_nil errors (n, problem) h)

reference_errors_nil :
    (external : Bool) (s : Reading) (rows : List ImportRow) (errors : List RowError)
    → reference_errors external s rows errors ≡ []
    → errors ≡ []
unfolding reference_errors
reference_errors_nil external s [] errors h = h
reference_errors_nil external s (r ∷ rows) errors h =
    let before = reference_errors_nil external s rows _ h in
    elim (Bool-cases (has_error r.row_number errors || external)) [
      | inl left ↦ rw left at before
      | inr added ↦
          add_problem_nil r.row_number (reference_problem r.record_type r s) errors
            (rw added at before)
    ]

module _ (upper : Text → Text) (external : Bool) where
  parse_rows-IsAccepted :
      (rows : List (List Text)) (p : Parsed)
      → parse_rows upper external rows ≡ ok p
      → p.errors ≡ []
      → IsAccepted p.rows
  unfolding parse_rows
  parse_rows-IsAccepted [] p h e = ground (arith, h)
  parse_rows-IsAccepted (header ∷ lines) p h e =
      let read : Reading = read_lines upper 2 lines unread in
      let rows : read.rows ≡ p.rows = ground (arith, h) in
      let sorted : sort_by (λ x. x.0) (reference_errors external read read.rows read.errors)
          ≡ p.errors =
        ground (arith, h) in
      let none_found : read.errors ≡ [] =
        reference_errors_nil external read read.rows read.errors (sort_by_nil _ (sorted ∙ e)) in
      subst IsAccepted rows
        ((read_lines-IsReading upper 2 lines unread unread-IsReading).accepted none_found)

  -- When the parser reports no error, every row has a business key and the columns of its type: a code and
  -- a name, or an SKU, a name and a sale unit, or a readable price, or a readable quantity; and no key
  -- stands twice among the rows of a type.
  pub parse_initial_import-IsAccepted :
      (content : Text) (p : Parsed)
      → parse_initial_import upper external content ≡ ok p
      → p.errors ≡ []
      → IsAccepted p.rows
  unfolding parse_initial_import
  parse_initial_import-IsAccepted content p h e = by_rows (parse_csv (strip_mark content)) h
    where
      by_rows :
          (o : Result (List (List Text))) → parsed_rows upper external o ≡ ok p → IsAccepted p.rows
      by_rows (ok rows) k = parse_rows-IsAccepted rows p k e
      by_rows (err problem) k = cc
