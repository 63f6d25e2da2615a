-- ===== src/Import/Tests.antt =====
-- Concrete workbooks for `start_report` of src/tools/excel_to_mysql.
use asio_coro_frame.Base.{
  ◌≡◌, refl, List, [], ◌∷◌, Option, none, some, Text, lit, text_eq, if◌then◌else◌,
}
use asio_coro_frame.Import.{
  Row, Xlsxio, start_report, open_reader, list_sheets, process_data, list_names,
  xlsx_list_sheets_callback, process_rows, process_cells, sheet_cell_callback, sheet_row_callback,
}

-- two sheets: the first with a row of a name, an empty cell and a price
abbrev Workbook : Type 0
Workbook = List (Text × List Row)

abbrev names_of : Workbook → List Text
names_of [] = []
names_of ((name, rows) ∷ book) = name ∷ names_of book

abbrev rows_of : Workbook → Option Text → List Row
rows_of [] wanted = []
rows_of ((name, rows) ∷ book) none = rows
rows_of ((name, rows) ∷ book) (some wanted) =
    let rest = rows_of book (some wanted) in if text_eq name wanted then rows else rest

abbrev library : Xlsxio Workbook
library = record { names = names_of; rows = rows_of }

abbrev prices : Workbook
prices = ((112 ∷ []), (some (97 ∷ []) ∷ none ∷ some (55 ∷ []) ∷ []) ∷ []) ∷ ((113 ∷ []), []) ∷ []

prices_printed : start_report library (some prices) ≡ some (lit " - p\n - q\na\t\t7\n")
unfolding start_report open_reader list_sheets process_data list_names xlsx_list_sheets_callback
    process_rows process_cells sheet_cell_callback sheet_row_callback lit
prices_printed = refl

-- A workbook that cannot be opened.
nothing_opened : start_report library none ≡ none
unfolding start_report open_reader list_sheets process_data
nothing_opened = refl
