-- ===== src/Attendance/Rows.antt =====
-- What the reader of src/tools/work_attendance/reader_writer.cpp makes of a sheet.
use asio_coro_frame.Base.{
  ◌≡◌, refl, ◌∙◌, ap, List, [], ◌∷◌, ◌++◌, some, map, append_assoc, append-nil,
}
use asio_coro_frame.Attendance.{
  Attendance, blank_row, set_column, text_or_empty, Reader, fresh_reader, cell_callback,
  row_callback, Cells, process_cells, process_data,
}

-- the record of a row, from the cells of that row alone
unfoldable pub row_of : Cells → Attendance → Attendance
row_of [] r = r
row_of ((col, value) ∷ cells) r = row_of cells (set_column col (text_or_empty value) r)

process_cells-row :
    (cells : Cells) (r : Attendance) (rows : List Attendance)
    → process_cells cells (record { row_data = some r; rows = rows })
      ≡ record { row_data = some (row_of cells r); rows = rows }
unfolding process_cells cell_callback row_of
process_cells-row [] r rows = refl
process_cells-row ((col, value) ∷ cells) r rows =
    process_cells-row cells (set_column col (text_or_empty value) r) rows

process_data-rows :
    (sheet : List Cells) (rows : List Attendance)
    → process_data sheet (record { row_data = some blank_row; rows = rows }) ≡ record {
      row_data = some blank_row;
      rows = rows ++ map (λ cells. row_of cells blank_row) sheet;
    }
unfolding process_data row_callback
process_data-rows [] rows = rw (append-nil rows) refl
process_data-rows (cells ∷ sheet) rows = rw (process_cells-row cells blank_row rows) (
    process_data-rows sheet (rows ++ row_of cells blank_row ∷ [])
    ∙ ap (λ (t : List Attendance). record { row_data = some blank_row; rows = t })
        (append_assoc rows (row_of cells blank_row ∷ [])
          (map (λ cells. row_of cells blank_row) sheet)))

-- The reader has one record for each row of the sheet, in order, filled from the cells of that row
-- alone: no cell of another row stays in it, and no row shares its object with the next.
pub process_data-fresh :
    (sheet : List Cells)
    → (process_data sheet fresh_reader).rows ≡ map (λ cells. row_of cells blank_row) sheet
process_data-fresh sheet = ap (λ (s : Reader). s.rows) (process_data-rows sheet [])
