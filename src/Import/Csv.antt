-- ===== src/Import/Csv.antt =====
-- `parseCsv` of apps/api/src/imports/initial-import-parser.ts.
use b2b_stm.Prelude.{
  ℕ, ◌+◌, ◌*◌, Bool, true, false, ◌&&◌, ◌||◌, not, List, [], ◌∷◌, ◌++◌, length, any, filter, leb,
  ltb, ◌==◌, nat_eq, if◌then◌else◌,
}
use b2b_stm.Text.{Text, trim}
use b2b_stm.Tx.{Result, ok, err, fault}

abbrev pub CsvRow : Type 0
CsvRow = List Text

abbrev pub is_high : ℕ → Bool
is_high c = leb 0xd800 c && leb c 0xdbff

abbrev pub is_low : ℕ → Bool
is_low c = leb 0xdc00 c && leb c 0xdfff

-- How many bytes a code unit takes that is not half of a pair.
abbrev pub unit_bytes : ℕ → ℕ
unit_bytes c = if ltb c 0x80 then 1 else if ltb c 0x800 then 2 else 3

-- `Buffer.byteLength(s, 'utf8')`
unfoldable pub byte_length : Text → ℕ
byte_length [] = 0
byte_length (c ∷ []) = unit_bytes c
byte_length (c ∷ d ∷ s) = elim (is_high c && is_low d) [
  | true ↦ 4 + byte_length s
  | false ↦ unit_bytes c + byte_length (d ∷ s)
]

-- The variables of the loop.
pub record Scanner : Type 0 where
  pub rows : List CsvRow
  pub row : CsvRow
  pub field : Text

abbrev pub scan_start : Scanner
scan_start = record { rows = []; row = []; field = [] }

abbrev pub push : ℕ → Scanner → Scanner
push c p = record p { field = p.field ++ (c ∷ []) }

abbrev pub end_field : Scanner → Scanner
end_field p = record p { row = p.row ++ (p.field ∷ []); field = [] }

abbrev pub end_row : Scanner → Scanner
end_row p = record p { rows = p.rows ++ ((p.row ++ (p.field ∷ [])) ∷ []); row = []; field = [] }

abbrev pub is_filled : Text → Bool
is_filled s = not (length s == 0)

-- The last row counts when something stands in it, or when it is the only one.
abbrev pub finish : Scanner → List CsvRow
finish p =
    let last = p.row ++ (p.field ∷ []) in
    if any is_filled last || length p.rows == 0 then p.rows ++ (last ∷ []) else p.rows

-- The loop, inside quotation marks and outside.
unfoldable pub scan : Bool → Scanner → Text → Result (List CsvRow)
scan true p [] = err (fault "CSV 인용부호가 닫히지 않았습니다.")
scan true p (c ∷ []) = let ends = c == b'"' in scan (not ends) (if ends then p else push c p) []
scan true p (c ∷ d ∷ s) = elim (c == b'"') [
  | true ↦ elim (d == b'"') [ true ↦ scan true (push b'"' p) s | false ↦ scan false p (d ∷ s) ]
  | false ↦ scan true (push c p) (d ∷ s)
]
scan false p [] = ok (finish p)
scan false p (c ∷ s) = elim (c == b'"') [
  | true ↦ elim (length p.field == 0) [
    | true ↦ scan true p s
    | false ↦ err (fault "CSV 인용부호 형식이 올바르지 않습니다.")
  ]
  | false ↦
      scan false
        (if c == b','
          then end_field p
          else if c == 10
          then end_row p
          else if c == 13
          then p
          else push c p)
        s
]

unfoldable pub has_text : CsvRow → Bool
has_text row = any (λ v. is_filled (trim v)) row

abbrev pub with_text : Result (List CsvRow) → Result (List CsvRow)
with_text (ok rows) = ok (filter has_text rows)
with_text (err e) = err e

unfoldable pub parse_csv : Text → Result (List CsvRow)
unfolding byte_length scan has_text
parse_csv content =
    if ltb (1024 * 1024) (byte_length content)
    then err (fault "CSV 파일은 1MiB 이하여야 합니다.")
    else with_text (scan false scan_start content)

-- `content.replace(/^\uFEFF/, '')`
unfoldable pub strip_mark : Text → Text
strip_mark [] = []
strip_mark (c ∷ s) = if c == 0xfeff then s else c ∷ s
