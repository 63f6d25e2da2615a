-- ===== src/Attendance/Writer.antt =====
-- month_report of src/tools/work_attendance/attendance.cpp: write_to_excel, write_two_line and
-- StringToDatetime.
pub mod Lines
use asio_coro_frame.Base.{
  ℕ, zero, suc, ◌+◌, ◌-◌, List, [], ◌∷◌, ◌++◌, Option, none, some, Text, lit, take, drop, length,
  ◌==◌, if◌then◌else◌,
}
use asio_coro_frame.Base.Numbers.{ℤ, scan_int}
use asio_coro_frame.Attendance.{Attendance}
use asio_coro_frame.Report.Excel.{
  Call, emit, add_columns, add_cell_string, add_cell_datetime, next_row, put_cells, set_row_height,
}

-- the literal `-` of the format
abbrev pub dash : Option (ℤ × Text) → Option (ℤ × Text)
dash none = none
dash (some (n, [])) = none
dash (some (n, c ∷ s)) = if c == b'-' then some (n, s) else none

abbrev pub day_after : ℤ → ℤ → Option (ℤ × Text) → Option (ℤ × ℤ × ℤ)
day_after year month none = none
day_after year month (some (day, s)) = some (year, month, day)

abbrev pub month_after : ℤ → Option (ℤ × Text) → Option (ℤ × ℤ × ℤ)
month_after year none = none
month_after year (some (month, s)) = day_after year month (scan_int s)

abbrev pub month_part : Option (ℤ × Text) → Option (ℤ × ℤ × ℤ)
month_part none = none
month_part (some (year, s)) = month_after year (dash (scan_int s))

-- sscanf(str,"%d-%d-%d",...); `none` where it leaves a variable unset
unfoldable pub scan_date : Text → Option (ℤ × ℤ × ℤ)
unfolding scan_int
scan_date str = month_part (dash (scan_int str))

-- the five names of the columns, in UTF-8
unfoldable pub attendance_columns : List Text
attendance_columns =
    (233 ∷ 131 ∷ 168 ∷ 233 ∷ 151 ∷ 168 ∷ 231 ∷ 143 ∷ 173 ∷ 231 ∷ 187 ∷ 132 ∷ [])
    ∷ (229 ∷ 183 ∷ 165 ∷ 229 ∷ 143 ∷ 183 ∷ [])
    ∷ (229 ∷ 167 ∷ 147 ∷ 229 ∷ 144 ∷ 141 ∷ [])
    ∷ (230 ∷ 151 ∷ 165 ∷ 230 ∷ 156 ∷ 159 ∷ [])
    ∷ (229 ∷ 135 ∷ 186 ∷ 229 ∷ 139 ∷ 164 ∷ 230 ∷ 151 ∷ 182 ∷ 233 ∷ 151 ∷ 180 ∷ [])
    ∷ []

-- mktime of a date at 8:00:00 is the library's; `unset` is the time for unset variables.
module _ (mktime : ℤ → ℤ → ℤ → ℤ) (unset : ℤ) where
  unfoldable pub string_to_datetime : Text → ℤ
  unfolding scan_date
  string_to_datetime str = elim (scan_date str) [
    | none ↦ unset
    | some date ↦ mktime date.0 date.1 date.2
  ]

  -- (x->dates).substr(0,(x->dates).size()-1), where size()-1 wraps on an empty text
  abbrev pub without_last : Text → Text
  without_last s = take (length s - 1) s

  unfoldable pub write_two_line :
      Text → Text → Text → ℤ → Text → Text → List (Call (Unit {0})) → List (Call (Unit {0}))
  unfolding put_cells
  write_two_line group id name tt on_duty off_duty calls =
      put_cells
        (add_cell_string group
          ∷ add_cell_string id
          ∷ add_cell_string name
          ∷ add_cell_datetime tt
          ∷ add_cell_string off_duty
          ∷ add_cell_string (lit "1")
          ∷ [])
        (emit next_row (
          put_cells
            (add_cell_string group
              ∷ add_cell_string id
              ∷ add_cell_string name
              ∷ add_cell_datetime tt
              ∷ add_cell_string on_duty
              ∷ add_cell_string (lit "0")
              ∷ [])
            calls))

  -- the loop over the records from the second on
  unfoldable pub write_rows : List Attendance → List (Call (Unit {0})) → List (Call (Unit {0}))
  unfolding write_two_line string_to_datetime
  write_rows [] calls = calls
  write_rows (x ∷ xs) calls = write_rows xs (
      emit next_row (
        write_two_line x.group x.id x.name (string_to_datetime (without_last x.dates)) x.on_duty
          x.off_duty calls))

  unfoldable pub write_to_excel : List Attendance → List (Call (Unit {0}))
  unfolding emit add_columns attendance_columns write_rows
  write_to_excel data_rows = emit next_row (
      write_rows (drop 1 data_rows)
        (emit next_row (add_columns attendance_columns (emit (set_row_height 1) []))))
