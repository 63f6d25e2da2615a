-- ===== src/Attendance/Start.antt =====
-- The whole program of src/tools/work_attendance/attendance.cpp: `start` of month_report, from the
-- rows of the sheet to the calls that write the file.
pub mod Dates
use asio_coro_frame.Base.{◌≡◌, refl, ◌∙◌, ap, List, [], ◌∷◌, ◌++◌, map, drop, All, length, suc}
use asio_coro_frame.Base.Numbers.{ℤ}
use asio_coro_frame.Attendance.{Attendance, blank_row, Cells, fresh_reader, process_data}
use asio_coro_frame.Attendance.Rows.{row_of, process_data-fresh}
use asio_coro_frame.Attendance.Writer.{write_to_excel, attendance_columns}
use asio_coro_frame.Attendance.Writer.Lines.{clock_rows, write_to_excel-rows}
use asio_coro_frame.Report.Excel.{Call}
use asio_coro_frame.Report.Excel.Table.{sheet, columns}

-- read_from_excel: m_data after it
unfoldable pub read_from_excel : List Cells → List Attendance
unfolding process_data
read_from_excel cells = (process_data cells fresh_reader).rows

-- data_cleaning is empty.
abbrev pub data_cleaning : List Attendance → List Attendance
data_cleaning m_data = m_data

drop-map {ℓ κ} :
    {A : Type ℓ} {B : Type κ} (f : A → B) (xs : List A) → drop 1 (map f xs) ≡ map f (drop 1 xs)
drop-map f [] = refl
drop-map f (x ∷ xs) = refl

module _ (mktime : ℤ → ℤ → ℤ → ℤ) (unset : ℤ) where
  -- start
  unfoldable pub start : List Cells → List (Call (Unit {0}))
  unfolding read_from_excel write_to_excel
  start cells = write_to_excel mktime unset (data_cleaning (read_from_excel cells))

  abbrev pub two_for_each : List Cells → List (List (Call (Unit {0})))
  two_for_each cells = clock_rows mktime unset (map (λ row. row_of row blank_row) (drop 1 cells))

  read_from_excel-rows :
      (cells : List Cells)
      → clock_rows mktime unset (drop 1 (read_from_excel cells)) ≡ two_for_each cells
  unfolding read_from_excel
  read_from_excel-rows cells =
      ap (λ (xs : List Attendance). clock_rows mktime unset xs)
        (ap (drop 1) (process_data-fresh cells) ∙ drop-map (λ row. row_of row blank_row) cells)

  -- The file that the program writes for a sheet has the row of the five column names, then for each
  -- row of the sheet but the first two rows filled from the cells of that row alone, one for the time
  -- of coming and one for the time of going, in the order of the sheet, and an empty row at the end.
  -- The rows for the rows of the sheet have one cell more than there are column names.
  pub start-rows :
      (cells : List Cells)
      → (sheet (start cells) ≡ columns attendance_columns ∷ (two_for_each cells ++ [] ∷ []))
        × All
            (λ (row : List (Call (Unit {0}))). length row ≡ suc (length attendance_columns))
            (two_for_each cells)
  unfolding start
  start-rows cells =
      rw (← read_from_excel-rows cells) (write_to_excel-rows mktime unset (read_from_excel cells))
