-- ===== src/Import/RoundTrip.antt =====
-- What the export writes as CSV, the import reads back.
use b2b_stm.Prelude.{List, [], ◌∷◌, map, nat_eq}
use b2b_stm.Text.{Text}
use b2b_stm.Export.{Cell, safe_text}
use b2b_stm.Import.Csv.{CsvRow, Scanner}

abbrev at_field : List CsvRow → CsvRow → Text → Scanner
at_field rows row field = record { rows = rows; row = row; field = field }

-- The texts of a row, without the marks of the file.
abbrev pub cell_texts : List Cell → CsvRow
cell_texts cells = map safe_text cells

-- A line is read as the texts of its cells; one without cells is read as one empty text.
abbrev read_row : List Cell → CsvRow
read_row [] = [] ∷ []
read_row (c ∷ cs) = cell_texts (c ∷ cs)

abbrev new_line : Text
new_line = 13 ∷ 10 ∷ []
