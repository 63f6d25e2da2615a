-- ===== src/Attendance/Program.antt =====
-- The program of src/tools/work_attendance: main of main.cpp, start_report and the constructor of
-- month_report of attendance.cpp, with the constructor and list_sheets of XLSXIOReader of
-- reader_writer.cpp.
pub mod Ends
mod Tests
use asio_coro_frame.Base.{
  ◌≡◌, refl, ap, ◌∙◌, sym, ◌⊎◌, inl, inr, List, [], ◌∷◌, ◌++◌, All, length, suc, Option, none, some,
  Option-cases, Text, lit, append_assoc, append-nil,
}
use asio_coro_frame.Base.Numbers.{ℤ}
use asio_coro_frame.Config.{IConfig}
use asio_coro_frame.Attendance.{Cells}
use asio_coro_frame.Attendance.Writer.{attendance_columns}
use asio_coro_frame.Attendance.Start.{start, two_for_each, start-rows}
use asio_coro_frame.Import.{or_first}
use asio_coro_frame.Import.Split.{listing, first_name}
use asio_coro_frame.Report.Excel.{Call}
use asio_coro_frame.Report.Excel.Table.{sheet, columns}

-- What xlsxio makes of a file, where `none` is NULL, the names of a workbook's sheets, and what it
-- reports of the sheet of a name, or of NULL.
pub record Workbooks (W : Type 0) : Type 0 where
  pub opened : Text → Option W
  pub names : W → List Text
  pub rows : W → Option Text → List Cells

-- m_reader, and what has been printed
pub record SheetReader (W : Type 0) : Type 0 where
  pub handle : Option W
  pub firstsheet : Option Text
  pub out : Text

-- How main ends; the text is what was printed before the cells were read.
pub data Ending : Type 0 where
  -- the exception's message is printed
  message : (out : Text) → Ending
  -- a call through a NULL handle, after the file of this name has been unlinked
  null_handle : (out : Text) (unlinked : Text) → Ending
  -- the file of this name is written by these calls
  finished : (out : Text) (to : Text) (calls : List (Call (Unit {0}))) → Ending

abbrev pub first_line : Text
unfolding lit
first_line = lit "test2\n"

module _ {W : Type 0} where
  -- the callback of list_sheets
  unfoldable pub sheet_name : Text → SheetReader W → SheetReader W
  sheet_name name r = record r {
    firstsheet = or_first r.firstsheet name;
    out = r.out ++ (lit " - " ++ name ++ lit "\n");
  }

  unfoldable pub sheet_names : List Text → SheetReader W → SheetReader W
  unfolding sheet_name
  sheet_names [] r = r
  sheet_names (name ∷ names) r = sheet_names names (sheet_name name r)

module _ {W : Type 0} (library : Workbooks W) where
  -- m_reader of month_report::month_report; the message goes to stderr
  unfoldable pub new_reader : Text → Text → SheetReader W
  new_reader out from = record { handle = library.opened from; firstsheet = none; out = out }

  -- XLSXIOReader::list_sheets: the library returns at once for a NULL handle.
  unfoldable pub list_sheets : SheetReader W → SheetReader W
  unfolding sheet_names
  list_sheets r = elim r.handle [ none ↦ r | some book ↦ sheet_names (library.names book) r ]

module _ (mktime : ℤ → ℤ → ℤ → ℤ) (unset : ℤ) {W : Type 0} (library : Workbooks W) where
  -- the rest of month_report::start; xlsxioread_process reads through its handle
  unfoldable pub process : Text → SheetReader W → Ending
  process to r = elim r.handle [
    | none ↦ null_handle r.out to
    | some book ↦ finished r.out to (start mktime unset (library.rows book r.firstsheet))
  ]

  -- start_report: the constructor opens the workbook, and then the writer's unlinks `to`.
  unfoldable pub start_report : Text → IConfig → Ending
  unfolding new_reader list_sheets process
  start_report out config =
      process config.m_attendance_to
        (list_sheets library (new_reader library out config.m_attendance_from))

  -- main: `none` is an exception of get_config
  unfoldable pub attendance_main : Option IConfig → Ending
  unfolding start_report
  attendance_main none = message first_line
  attendance_main (some config) = start_report first_line config
