-- ===== src/Attendance/Program/Tests.antt =====
-- The program of src/tools/work_attendance on a workbook with two sheets.
use asio_coro_frame.Base.{
  ◌≡◌, refl, List, [], ◌∷◌, none, some, Text, true, lit, text_eq, if◌then◌else◌,
}
use asio_coro_frame.Base.Numbers.{ℤ, pos}
use asio_coro_frame.Config.{IConfig, Mysql}
use asio_coro_frame.Attendance.{Cells}
use asio_coro_frame.Attendance.Program.{
  Workbooks, attendance_main, null_handle, first_line, start_report, new_reader, list_sheets,
  process,
}

abbrev first_month : List Cells
unfolding lit
first_month =
    ((1, some (lit "group")) ∷ [])
    ∷ ((1, some (lit "A")) ∷ (5, some (lit "2016-1-2;")) ∷ (6, some (lit "8:30")) ∷ [])
    ∷ []

-- There is one file, a.xlsx, with the sheets p and q.
abbrev one_file : Workbooks (Unit {0})
unfolding lit
one_file = record {
  opened = λ name. if text_eq name (lit "a.xlsx") then some tt else none;
  names = λ book. lit "p" ∷ lit "q" ∷ [];
  rows = λ book wanted. elim wanted [
    | none ↦ []
    | some name ↦ if text_eq name (lit "p") then first_month else []
  ];
}

abbrev nobody : Mysql
nobody = record { ip = []; port = 3306; username = []; password = []; database = [] }

abbrev attending : Text → IConfig
unfolding lit
attending from = record {
  webserver = record { m_port = []; m_threads = 1; m_url = [] };
  m_redis_host = [];
  m_redis_port = 0;
  logging = record { m_log_name = []; m_log_level = []; m_log_auto_flush = true };
  m_mysql = nobody;
  m_mysql_eu = nobody;
  m_mysql_js = nobody;
  m_mysql_as = nobody;
  m_attendance_from = from;
  m_attendance_to = lit "b.xlsx";
}

abbrev year_only : ℤ → ℤ → ℤ → ℤ
year_only year month day = year

-- a workbook that is not there
not_there :
    attendance_main year_only (pos 0) one_file (some (attending (lit "c.xlsx")))
    ≡ null_handle first_line (lit "b.xlsx")
unfolding attendance_main start_report new_reader list_sheets process one_file attending lit
not_there = refl
