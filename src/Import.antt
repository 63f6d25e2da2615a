-- ===== src/Import.antt =====
-- The program of src/tools/excel_to_mysql: `XLSXIOReader` of excel_to_mysql.hpp prints the first sheet
-- of a workbook, and `start_report` of excel_to_mysql.cpp calls it. The library that reads the
-- workbook is a parameter.
pub mod Split
mod Tests
use asio_coro_frame.Base.{
  ℕ, ◌+◌, List, [], ◌∷◌, ◌++◌, Option, none, some, Text, lit, ltb, if◌then◌else◌,
}

-- A row that is reported, with NULL for a cell with no value.
abbrev pub Row : Type 0
Row = List (Option Text)

-- What xlsxio reports of a workbook: the names of its sheets, and the rows of the sheet of a name, or
-- of NULL. It calls the callback for the columns of a row from 1 on, and then the one for the row.
pub record Xlsxio (W : Type 0) : Type 0 where
  pub names : W → List Text
  pub rows : W → Option Text → List Row

-- What the reader holds, and what has been printed.
pub record XlsxioReader (W : Type 0) : Type 0 where
  -- `none` for NULL
  pub handle : Option W
  pub firstsheet : Option Text
  pub out : Text

abbrev pub or_first : Option Text → Text → Option Text
or_first none name = some name
or_first (some first) name = some first

abbrev pub cell_text : Option Text → Text
cell_text none = []
cell_text (some value) = value

unfoldable pub sheet_cell_callback : ℕ → Option Text → Text → Text
unfolding lit
sheet_cell_callback col value out = (if ltb 1 col then out ++ lit "\t" else out) ++ cell_text value

unfoldable pub sheet_row_callback : Text → Text
unfolding lit
sheet_row_callback out = out ++ lit "\n"

-- The calls of the callbacks for a row, from column `col` on.
unfoldable pub process_cells : ℕ → Row → Text → Text
unfolding sheet_cell_callback sheet_row_callback
process_cells col [] out = sheet_row_callback out
process_cells col (value ∷ row) out =
    process_cells (col + 1) row (sheet_cell_callback col value out)

unfoldable pub process_rows : List Row → Text → Text
unfolding process_cells
process_rows [] out = out
process_rows (row ∷ rows) out = process_rows rows (process_cells 1 row out)

module _ {W : Type 0} (library : Xlsxio W) where
  -- XLSXIOReader(filename): `book` is what `xlsxioread_open` returns. The message goes to stderr.
  unfoldable pub open_reader : Option W → XlsxioReader W
  open_reader book = record { handle = book; firstsheet = none; out = [] }

  unfoldable pub xlsx_list_sheets_callback : Text → XlsxioReader W → XlsxioReader W
  xlsx_list_sheets_callback name r = record r {
    firstsheet = or_first r.firstsheet name;
    out = r.out ++ (lit " - " ++ name ++ lit "\n");
  }

  unfoldable pub list_names : List Text → XlsxioReader W → XlsxioReader W
  unfolding xlsx_list_sheets_callback
  list_names [] r = r
  list_names (name ∷ names) r = list_names names (xlsx_list_sheets_callback name r)

  -- list_sheets: the library returns at once for a NULL handle.
  unfoldable pub list_sheets : XlsxioReader W → XlsxioReader W
  unfolding list_names
  list_sheets r = elim r.handle [ none ↦ r | some book ↦ list_names (library.names book) r ]

  -- process_data: `none` is the call through a NULL handle, which xlsxio dereferences.
  unfoldable pub process_data : XlsxioReader W → Option (XlsxioReader W)
  unfolding process_rows
  process_data r = elim r.handle [
    | none ↦ none
    | some book ↦ some (record r { out = process_rows (library.rows book r.firstsheet) r.out })
  ]

  abbrev pub printed : Option (XlsxioReader W) → Option Text
  printed none = none
  printed (some r) = some r.out

  -- start_report, with what it printed
  unfoldable pub start_report : Option W → Option Text
  unfolding open_reader list_sheets process_data
  start_report book = printed (process_data (list_sheets (open_reader book)))
