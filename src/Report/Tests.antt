-- ===== src/Report/Tests.antt =====
-- The theorems about src/tools/all_report at a concrete database.
mod Database
mod Lines
mod Full
use Database.{
  Row, Cursor, column, first_column, advance, rows_of, quotation, database, line, read_report,
  insert_data_example, finished_line, finished, start_example,
}
use asio_coro_frame.Base.{
  ◌⊎◌, ℕ, ◌+◌, ◌*◌, ◌≤◌, ◌<◌, ◌≡◌, refl, ◌↔◌, Bool, true, false, List, [], ◌∷◌, ◌++◌, Option, none,
  some, Text, map, arith, All, lit, text_eq, starts_with, if◌then◌else◌, length, ◌==◌, ◌||◌, ◌&&◌,
  ◌≢◌,
}
use asio_coro_frame.Report.{ReportData, Env, blank}
use asio_coro_frame.Report.Sql.{sql, report_sql}
use asio_coro_frame.Report.Action.{
  ok, fault, ◌>>◌, ◌>>=◌, get_string, modify, get_double, is_null, this_row, fetch, get_string_at,
  null_or_empty, no_value, continue_loop, rows_count, pure, query, next_row, with_res,
}
use asio_coro_frame.Report.Passes.{
  sales_info_body, trade_term_body, destination, currency_code, status_name, entry, status_map,
  delivery_country, sales_account, sales_employee, sales_company, role_sql, insert_keys,
  insert_watts, insert_guidance, insert_price,
}
use asio_coro_frame.Report.Source.{start-source}
use asio_coro_frame.Report.Stops.{sales_info-stops, trade_term_info-continues}
use asio_coro_frame.Report.Lines.{start-IsPriced, start-IsStatus, start-OneCurrency}
use asio_coro_frame.Report.Passed.{source, IsStatus, OneCurrency}
use asio_coro_frame.Report.Insert.{IsPriced}
use asio_coro_frame.Config.{IConfig, Mysql}
use asio_coro_frame.Report.Program.{
  Driver, Ending, message, month_report, login, report_main, report_main-ends,
}
use asio_coro_frame.Report.Insert.Fuel.{IsCursor, start-ends}
use asio_coro_frame.Report.Safety.Crash.{start-crash}
use asio_coro_frame.Report.Excel.{Call, write_to_excel}
use asio_coro_frame.Report.Csv.{csv_values, write_to_csv}
use asio_coro_frame.Report.Csv.Split.{IsPlain, split_csv, write_to_csv-split}
use asio_coro_frame.Report.Run.{
  deal_with_sales_info, deal_with_trade_term_info, for_rows, MonthReport, Started, start,
  insert_data,
}

start-source_example : map source finished.report.rows ≡ map source read_report.rows
start-source_example = start-source read_report finished insert_data_example start_example

start-IsPriced_example :
    All (λ r. IsPriced database.times database.nought (source r)) finished.report.rows
start-IsPriced_example = start-IsPriced finished start_example

finished-OneCurrency : All OneCurrency finished.report.rows
finished-OneCurrency = start-OneCurrency finished start_example

abbrev unread : Cursor → ℕ
unread c = length c.rest

advance-falls :
    (c : Cursor) (c' : Cursor) → some (advance c) ≡ some (true, c') → unread c' < unread c
advance-falls c c' h = ground arith

database-IsCursor : IsCursor database unread
unfolding database
database-IsCursor = record { falls = advance-falls }

database-counted :
    (c : Cursor) → database.execute report_sql ≡ some c → unread c ≤ database.rows_count c
unfolding database quotation lit report_sql
database-counted c h = ground arith

ends_with_cursors : (s : Started Cursor ℕ) × (start ≡ some s)
ends_with_cursors = start-ends unread database-IsCursor database-counted

abbrev nobody : Mysql
nobody = record { ip = []; port = 3306; username = []; password = []; database = [] }

abbrev configured : IConfig
configured = record {
  webserver = record { m_port = []; m_threads = 1; m_url = [] };
  m_redis_host = [];
  m_redis_port = 0;
  logging = record { m_log_name = []; m_log_level = []; m_log_auto_flush = true };
  m_mysql = nobody;
  m_mysql_eu = nobody;
  m_mysql_js = nobody;
  m_mysql_as = nobody;
  m_attendance_from = [];
  m_attendance_to = [];
}

-- It lets everyone in.
abbrev open_driver : Driver (Unit {0}) Cursor ℕ
open_driver = record {
  connect = λ url user password. some tt;
  set_schema = λ name con. some con;
  env = λ con. database;
}

report_main-ends_example :
    ((month_report open_driver (login open_driver configured) ≡ none)
      × (report_main open_driver configured ≡ message))
    ⊎ ((con : Unit {0}) × (s : Started Cursor ℕ) × (month_report open_driver
            (login open_driver configured)
          ≡ some con)
        × (start ⦃e = database⦄ ≡ some s)
        × (report_main open_driver configured ≡ Ending.finished s))
report_main-ends_example =
    report_main-ends open_driver configured unread (λ con. database-IsCursor)
      (λ con. database-counted)

-- a database that refuses every query
abbrev refusing : Env Cursor ℕ
unfolding database
refusing = record database { execute = λ sql. none }

crashed : Started Cursor ℕ
crashed = record { report = record { ended = fault; rows = []; res = none }; file = none }

crash_run : start ⦃e = refusing⦄ ≡ some crashed
unfolding start crashed refusing
crash_run = refl

start-crash_example : (crashed.report.ended ≡ fault) ↔ (refusing.execute report_sql ≡ none)
start-crash_example = start-crash ⦃e = refusing⦄ crashed crash_run

abbrev written_calls : List (Call ℕ)
written_calls = write_to_excel finished.report.rows

plain_byte :
    (c : ℕ) → ((c == 44) || (c == 13) || (c == 10)) ≡ false → (c ≢ 44) × (c ≢ 13) × (c ≢ 10)
plain_byte c h = ground arith

abbrev plain : Text → Bool
plain [] = true
plain (c ∷ t) = if (c == 44) || (c == 13) || (c == 10) then false else plain t

abbrev all_plain : List Text → Bool
all_plain [] = true
all_plain (t ∷ ts) = plain t && all_plain ts

plain_bytes : (t : Text) → plain t ≡ true → All (λ c. (c ≢ 44) × (c ≢ 13) × (c ≢ 10)) t
plain_bytes [] h = tt
plain_bytes (c ∷ t) h = (plain_byte c (ground arith), plain_bytes t (ground arith))

all_plain-IsPlain : (ts : List Text) → all_plain ts ≡ true → All IsPlain ts
all_plain-IsPlain [] h = tt
all_plain-IsPlain (t ∷ ts) h =
    (record { bytes = plain_bytes t (ground arith) }, all_plain-IsPlain ts (ground arith))

abbrev shown : ℕ → Text
shown n = (b'0' + n) ∷ []

finished-IsPlain : All (λ r. All IsPlain (csv_values shown r)) finished.report.rows
unfolding finished finished_line line csv_values lit
finished-IsPlain = (
  all_plain-IsPlain (csv_values shown (finished_line (lit "7") 3 2)) refl,
  (all_plain-IsPlain (csv_values shown (finished_line (lit "8") 1 1)) refl, tt),
)

write_to_csv-split_example :
    split_csv (write_to_csv shown finished.report.rows)
    ≡ map (csv_values shown) finished.report.rows
write_to_csv-split_example = write_to_csv-split shown finished.report.rows finished-IsPlain

-- The database does not know the seller of the quotations, nor their trade term.
abbrev emptied : Cursor
emptied = record { size = 0; current = []; rest = [] }

first_line_stops :
    (deal_with_sales_info read_report).rows
    ≡ (for_rows sales_info_body [] read_report.res).rows
      ++ line (lit "7") 3 2 ∷ line (lit "8") 1 1 ∷ []
unfolding read_report line lit for_rows database starts_with sql report_sql
first_line_stops =
    sales_info-stops read_report [] (line (lit "8") 1 1 ∷ []) (line (lit "7") 3 2) emptied emptied
      refl refl refl refl refl refl

second_line_filled :
    (deal_with_trade_term_info read_report).rows
    ≡ line (lit "7") 3 2 ∷ (for_rows trade_term_body (line (lit "8") 1 1 ∷ []) (some emptied)).rows
unfolding read_report line lit database starts_with sql report_sql
second_line_filled =
    trade_term_info-continues read_report (line (lit "8") 1 1 ∷ []) (line (lit "7") 3 2) emptied
      emptied false refl refl refl refl refl
