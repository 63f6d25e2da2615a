-- ===== src/Attendance.antt =====
-- The attendance report, src/tools/work_attendance: the reader of reader_writer.cpp with its two
-- callbacks, and month_report of attendance.cpp.
pub mod Rows
pub mod Writer
pub mod Start
pub mod Program
mod Tests
use asio_coro_frame.Base.{
  ℕ, zero, suc, ◌+◌, List, [], ◌∷◌, ◌++◌, Option, none, some, Text, ◌==◌, if◌then◌else◌,
}

-- struct report_data
pub record Attendance : Type 0 where
  pub group : Text
  pub number : Text
  pub id : Text
  pub name : Text
  pub dates : Text
  pub on_duty : Text
  pub on_duty_desc : Text
  pub off_duty : Text
  pub off_duty_desc : Text
  pub come_late : Text
  pub leave_early : Text
  pub extra_work : Text
  pub away_from_work : Text
  pub without_clock_in : Text

-- `new report_data()`
abbrev pub blank_row : Attendance
blank_row = record {
  group = [];
  number = [];
  id = [];
  name = [];
  dates = [];
  on_duty = [];
  on_duty_desc = [];
  off_duty = [];
  off_duty_desc = [];
  come_late = [];
  leave_early = [];
  extra_work = [];
  away_from_work = [];
  without_clock_in = [];
}

-- the switch of cell_callback
unfoldable pub set_column : ℕ → Text → Attendance → Attendance
set_column col temp r =
    if col == 1
    then record r { group = temp }
    else if col == 2
    then record r { number = temp }
    else if col == 3
    then record r { id = temp }
    else if col == 4
    then record r { name = temp }
    else if col == 5
    then record r { dates = temp }
    else if col == 6
    then record r { on_duty = temp }
    else if col == 7
    then record r { on_duty_desc = temp }
    else if col == 8
    then record r { off_duty = temp }
    else if col == 9
    then record r { off_duty_desc = temp }
    else if col == 10
    then record r { come_late = temp }
    else if col == 11
    then record r { leave_early = temp }
    else if col == 12
    then record r { extra_work = temp }
    else if col == 13
    then record r { away_from_work = temp }
    else if col == 14
    then record r { without_clock_in = temp }
    else r

abbrev pub text_or_empty : Option Text → Text
text_or_empty none = []
text_or_empty (some value) = value

-- the static members m_row_data, which may be null, and m_data
pub record Reader : Type 0 where
  pub row_data : Option Attendance
  pub rows : List Attendance

abbrev pub fresh_reader : Reader
fresh_reader = record { row_data = some blank_row; rows = [] }

unfoldable pub cell_callback : ℕ → Option Text → Reader → Reader
unfolding set_column
cell_callback col value s = elim s.row_data [
  | none ↦ s
  | some r ↦ record s { row_data = some (set_column col (text_or_empty value) r) }
]

unfoldable pub row_callback : Reader → Reader
row_callback s = elim s.row_data [
  | none ↦ record s { row_data = some blank_row }
  | some r ↦ record s { row_data = some blank_row; rows = s.rows ++ r ∷ [] }
]

-- a row of the sheet: its cells, each with its column
abbrev pub Cells : Type 0
Cells = List (ℕ × Option Text)

unfoldable pub process_cells : Cells → Reader → Reader
unfolding cell_callback
process_cells [] s = s
process_cells ((col, value) ∷ cells) s = process_cells cells (cell_callback col value s)

-- xlsxioread_process: cell_callback for each cell of a row, and row_callback after it
unfoldable pub process_data : List Cells → Reader → Reader
unfolding process_cells row_callback
process_data [] s = s
process_data (cells ∷ sheet) s = process_data sheet (row_callback (process_cells cells s))
