-- ===== src/Attendance/Program/Ends.antt =====
-- How the program of src/tools/work_attendance ends, and the file that it leaves.
use asio_coro_frame.Base.Numbers.{ℤ}
use asio_coro_frame.Config.{IConfig}
use asio_coro_frame.Attendance.Program.{Workbooks, SheetReader, first_line, new_reader}

module _ (mktime : ℤ → ℤ → ℤ → ℤ) (unset : ℤ) {W : Type 0} (library : Workbooks W)
    (config : IConfig) where
  abbrev reader : SheetReader W
  reader = new_reader library first_line config.m_attendance_from
