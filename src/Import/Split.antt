-- ===== src/Import/Split.antt =====
-- Reading back what `start_report` of src/tools/excel_to_mysql prints.
use asio_coro_frame.Base.{List, [], ◌∷◌, ◌++◌, map, Option, none, some, Text, lit, All}
use asio_coro_frame.Base.Tables.{IsPlain, joined}
use asio_coro_frame.Import.{Row, cell_text}

-- the lines printed for the names of the sheets
abbrev pub listing : List Text → Text
listing [] = []
listing (name ∷ names) = (lit " - " ++ name ++ lit "\n") ++ listing names

abbrev pub first_name : List Text → Option Text
first_name [] = none
first_name (name ∷ names) = some name

-- at least one cell, and no tab and no end of line in any
abbrev pub IsPrintable : Row → Type 0
IsPrintable [] = ⊥
IsPrintable (value ∷ row) = All (IsPlain 9) (map cell_text (value ∷ row))

abbrev row_text : Row → Text
row_text row = joined 9 (map cell_text row) ++ (10 ∷ [])

abbrev rows_text : List Row → Text
rows_text [] = []
rows_text (row ∷ rows) = row_text row ++ rows_text rows

-- The cells after the first one.
abbrev tabbed : Row → Text
tabbed [] = 10 ∷ []
tabbed (value ∷ row) = 9 ∷ (cell_text value ++ tabbed row)
