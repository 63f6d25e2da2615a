-- ===== src/Attendance/Tests.antt =====
-- A concrete sheet of src/tools/work_attendance: the row of names and one record.
use asio_coro_frame.Base.{suc, ◌≡◌, refl, List, [], ◌∷◌, ◌++◌, none, some, map, All, lit, length}
use asio_coro_frame.Base.Numbers.{ℤ, pos, scan_int}
use asio_coro_frame.Attendance.{blank_row, Cells, fresh_reader, process_data}
use asio_coro_frame.Attendance.Rows.{row_of, process_data-fresh}
use asio_coro_frame.Attendance.Writer.{attendance_columns, scan_date}
use asio_coro_frame.Attendance.Start.{start, two_for_each, start-rows}
use asio_coro_frame.Report.Excel.{Call}
use asio_coro_frame.Report.Excel.Table.{sheet, columns}

two_rows : List Cells
unfolding lit
two_rows =
    ((1, some (lit "group")) ∷ (3, some (lit "id")) ∷ (5, some (lit "date")) ∷ [])
    ∷ ((1, some (lit "A"))
        ∷ (3, some (lit "17"))
        ∷ (4, none)
        ∷ (5, some (lit "2016-1-2;"))
        ∷ (6, some (lit "8:30"))
        ∷ [])
    ∷ []

two_rows_read :
    (process_data two_rows fresh_reader).rows ≡ map (λ cells. row_of cells blank_row) two_rows
two_rows_read = process_data-fresh two_rows

scan_date_example : scan_date (lit "2016-1-2") ≡ some (pos 2016, pos 1, pos 2)
unfolding scan_date lit scan_int
scan_date_example = refl

-- a calendar for the test
abbrev first_of_three : ℤ → ℤ → ℤ → ℤ
first_of_three year month day = year

start-rows_example :
    (sheet (start first_of_three (pos 0) two_rows)
      ≡ columns attendance_columns ∷ (two_for_each first_of_three (pos 0) two_rows ++ [] ∷ []))
    × All
        (λ (row : List (Call (Unit {0}))). length row ≡ suc (length attendance_columns))
        (two_for_each first_of_three (pos 0) two_rows)
start-rows_example = start-rows first_of_three (pos 0) two_rows
