-- ===== src/Report/Excel/Table.antt =====
-- The table in the file that write_to_excel of src/tools/all_report/all_month_report.cpp writes.
use asio_coro_frame.Base.{
  ◌≡◌, refl, ◌∙◌, sym, ap, List, [], ◌∷◌, ◌++◌, Text, map, All, append_assoc, append-nil, arith,
  length,
}
use asio_coro_frame.Report.{ReportData}
use asio_coro_frame.Report.Excel.{
  Call, set_row_height, add_column, add_cell_string, add_cell_int, add_cell_float,
  add_cell_datetime, next_row, emit, add_columns, put_cells, excel_columns, excel_cells, excel_rows,
  write_to_excel,
}

module _ {W : Type 0} where
  abbrev onto : Call W → List (List (Call W)) → List (List (Call W))
  onto call [] = (call ∷ []) ∷ []
  onto call (row ∷ rows) = (call ∷ row) ∷ rows

  -- the rows of the sheet: a row ends at `next_row`, and the height of rows is no cell
  unfoldable pub sheet : List (Call W) → List (List (Call W))
  sheet [] = []
  sheet (set_row_height n ∷ calls) = sheet calls
  sheet (next_row ∷ calls) = [] ∷ sheet calls
  sheet (add_column name width ∷ calls) = onto (add_column name width) (sheet calls)
  sheet (add_cell_string value ∷ calls) = onto (add_cell_string value) (sheet calls)
  sheet (add_cell_int value ∷ calls) = onto (add_cell_int value) (sheet calls)
  sheet (add_cell_float value ∷ calls) = onto (add_cell_float value) (sheet calls)
  sheet (add_cell_datetime value ∷ calls) = onto (add_cell_datetime value) (sheet calls)

  abbrev pub IsCell : Call W → Type 0
  IsCell (set_row_height n) = ⊥
  IsCell next_row = ⊥
  IsCell (add_column name width) = Unit
  IsCell (add_cell_string value) = Unit
  IsCell (add_cell_int value) = Unit
  IsCell (add_cell_float value) = Unit
  IsCell (add_cell_datetime value) = Unit

  -- A run of cells and the end of the row are one row.
  pub sheet-row :
      (cells : List (Call W)) (calls : List (Call W))
      → All IsCell cells
      → sheet (cells ++ next_row ∷ calls) ≡ cells ∷ sheet calls
  unfolding sheet
  sheet-row [] calls h = refl
  sheet-row (set_row_height n ∷ cells) calls h = absurd h.0
  sheet-row (next_row ∷ cells) calls h = absurd h.0
  sheet-row (add_column name width ∷ cells) calls h = rw (sheet-row cells calls h.1) refl
  sheet-row (add_cell_string value ∷ cells) calls h = rw (sheet-row cells calls h.1) refl
  sheet-row (add_cell_int value ∷ cells) calls h = rw (sheet-row cells calls h.1) refl
  sheet-row (add_cell_float value ∷ cells) calls h = rw (sheet-row cells calls h.1) refl
  sheet-row (add_cell_datetime value ∷ cells) calls h = rw (sheet-row cells calls h.1) refl

  -- the calls for the column names
  abbrev pub columns : List Text → List (Call W)
  columns [] = []
  columns (name ∷ names) = add_column name 0 ∷ columns names

  pub add_columns-append :
      (names : List Text) (calls : List (Call W)) → add_columns names calls ≡ calls ++ columns names
  unfolding add_columns emit
  add_columns-append [] calls = sym (append-nil calls)
  add_columns-append (name ∷ names) calls =
      add_columns-append names (calls ++ add_column name 0 ∷ [])
      ∙ append_assoc calls (add_column name 0 ∷ []) (columns names)

  pub put_cells-append : (cells calls : List (Call W)) → put_cells cells calls ≡ calls ++ cells
  unfolding put_cells emit
  put_cells-append [] calls = sym (append-nil calls)
  put_cells-append (cell ∷ cells) calls =
      put_cells-append cells (calls ++ cell ∷ []) ∙ append_assoc calls (cell ∷ []) cells

  put_row :
      (x : ReportData W) (calls : List (Call W))
      → emit next_row (put_cells (excel_cells x) calls) ≡ calls ++ (excel_cells x ++ next_row ∷ [])
  unfolding emit
  put_row x calls =
      ap (λ (t : List (Call W)). t ++ next_row ∷ []) (put_cells-append (excel_cells x) calls)
      ∙ append_assoc calls (excel_cells x) (next_row ∷ [])

  abbrev row_calls : List (ReportData W) → List (Call W)
  row_calls [] = []
  row_calls (x ∷ xs) = excel_cells x ++ next_row ∷ row_calls xs

  excel_rows-append :
      (xs : List (ReportData W)) (calls : List (Call W))
      → excel_rows xs calls ≡ calls ++ row_calls xs
  unfolding excel_rows emit
  excel_rows-append [] calls = sym (append-nil calls)
  excel_rows-append (x ∷ xs) calls =
      excel_rows-append xs (emit next_row (put_cells (excel_cells x) calls))
      ∙ ap (λ (t : List (Call W)). t ++ row_calls xs) (put_row x calls)
      ∙ append_assoc calls (excel_cells x ++ next_row ∷ []) (row_calls xs)
      ∙ ap (λ (t : List (Call W)). calls ++ t)
          (append_assoc (excel_cells x) (next_row ∷ []) (row_calls xs))

  excel_cells-IsCell : (x : ReportData W) → All IsCell (excel_cells x)
  unfolding excel_cells
  excel_cells-IsCell x = ground arith

  sheet-row_calls : (xs : List (ReportData W)) → sheet (row_calls xs) ≡ map excel_cells xs
  unfolding sheet
  sheet-row_calls [] = refl
  sheet-row_calls (x ∷ xs) =
      sheet-row (excel_cells x) (row_calls xs) (excel_cells-IsCell x)
      ∙ ap (λ t. excel_cells x ∷ t) (sheet-row_calls xs)

  widths :
      (xs : List (ReportData W))
      → All (λ (cells : List (Call W)). length cells ≡ length excel_columns) (map excel_cells xs)
  unfolding excel_cells excel_columns
  widths [] = tt
  widths (x ∷ xs) = (refl, widths xs)

  write_to_excel-append :
      (rows : List (ReportData W))
      → write_to_excel rows
        ≡ set_row_height 1 ∷ (columns excel_columns ++ next_row ∷ row_calls rows)
  unfolding write_to_excel emit add_columns
  write_to_excel-append rows =
      excel_rows-append rows
        (emit next_row (add_columns excel_columns (emit (set_row_height 1) [])))

  sheet-write_to_excel :
      (rows : List (ReportData W))
      → sheet (write_to_excel rows) ≡ columns excel_columns ∷ map excel_cells rows
  unfolding sheet excel_columns
  sheet-write_to_excel rows =
      ap sheet (write_to_excel-append rows)
      ∙ sheet-row (columns excel_columns) (row_calls rows) (ground arith)
      ∙ ap (λ (t : List (List (Call W))). columns excel_columns ∷ t) (sheet-row_calls rows)

  -- The sheet has one row of the column names, then one row of cells for each line of the report, in
  -- order, and every row has as many cells as there are column names.
  pub write_to_excel-table :
      (rows : List (ReportData W))
      → (sheet (write_to_excel rows) ≡ columns excel_columns ∷ map excel_cells rows)
        × All
            (λ (cells : List (Call W)). length cells ≡ length excel_columns)
            (sheet (write_to_excel rows))
  unfolding excel_columns
  write_to_excel-table rows =
      (sheet-write_to_excel rows, rw (sheet-write_to_excel rows) (refl, widths rows))
