-- ===== src/Report/Program.antt =====
-- The program of src/tools/all_report: the constructor of month_report and start_report of
-- all_month_report.cpp, and main of all_month_report_main.cpp.
use asio_coro_frame.Base.{
  ℕ, ◌≤◌, ◌≡◌, refl, ◌⊎◌, inl, inr, ◌++◌, Option, none, some, Option-cases, Text, lit,
}
use asio_coro_frame.Config.{IConfig}
use asio_coro_frame.Http.Strings.{decimal}
use asio_coro_frame.Report.{Env}
use asio_coro_frame.Report.Sql.{report_sql}
use asio_coro_frame.Report.Run.{Started, start}
use asio_coro_frame.Report.Insert.Fuel.{IsCursor, start-ends}

-- mysql_info_
pub record MysqlLogin : Type 0 where
  pub ip : Text
  pub port : Text
  pub username : Text
  pub password : Text
  pub database : Text

-- The driver: connections, where `none` is an exception, and what queries over one answer.
pub record Driver (Con R W : Type 0) : Type 0 where
  pub connect : Text → Text → Text → Option Con
  pub set_schema : Text → Con → Option Con
  pub env : Con → Env R W

-- How main ends: with the exception's message on the terminal, or with what start left. `no_end` is
-- a loop that runs out of fuel.
pub data Ending (R W : Type 0) : Type 0 where
  message : Ending R W
  finished : Started R W → Ending R W
  no_end : Ending R W

module _ {Con R W : Type 0} (driver : Driver Con R W) where
  -- month_report::month_report
  unfoldable pub month_report : MysqlLogin → Option Con
  month_report info =
      elim (driver.connect (lit "tcp://" ++ info.ip ++ lit ":" ++ info.port) info.username
        info.password) [ none ↦ none | some con ↦ driver.set_schema info.database con ]

  -- the first half of start_report; `lexical_cast` of a number is its decimal
  abbrev pub login : IConfig → MysqlLogin
  login config = record {
    ip = config.m_mysql_js.ip;
    port = decimal config.m_mysql_js.port;
    username = config.m_mysql_js.username;
    password = config.m_mysql_js.password;
    database = config.m_mysql_js.database;
  }

  abbrev pub ending : Option (Started R W) → Ending R W
  ending none = no_end
  ending (some s) = finished s

  -- main, with start_report
  unfoldable pub report_main : IConfig → Ending R W
  unfolding month_report start
  report_main config = elim (month_report (login config)) [
    | none ↦ message
    | some con ↦ ending (start ⦃e = driver.env con⦄)
  ]

  report_main-connected :
      (config : IConfig) (con : Con) (s : Started R W)
      → month_report (login config) ≡ some con
      → start ⦃e = driver.env con⦄ ≡ some s
      → report_main config ≡ finished s
  unfolding report_main
  report_main-connected config con s e h = rw (e, report_main) (rw h refl)

  report_main-refused :
      (config : IConfig) → month_report (login config) ≡ none → report_main config ≡ message
  unfolding report_main
  report_main-refused config e = rw (e, report_main) refl

  -- The program comes to an end: with a message when the database of the configuration does not let
  -- it in, and else with what start leaves, where on every connection a true `next` brings a result
  -- set nearer to its end and the report's result set has at most rowsCount rows to come.
  pub report_main-ends :
      (config : IConfig) (left : R → ℕ)
      → ((con : Con) → IsCursor (driver.env con) left)
      → ((con : Con) (r : R)
          → (driver.env con).execute report_sql ≡ some r
          → left r ≤ (driver.env con).rows_count r)
      → ((month_report (login config) ≡ none) × (report_main config ≡ message))
        ⊎ ((con : Con) × (s : Started R W) × (month_report (login config) ≡ some con)
            × (start ⦃e = driver.env con⦄ ≡ some s)
            × (report_main config ≡ finished s))
  report_main-ends config left law counted = elim (Option-cases (month_report (login config))) [
    | inl refused ↦ inl (refused, report_main-refused config refused)
    | inr (con, connected) ↦
        let (s, run) = start-ends ⦃e = driver.env con⦄ left (law con) (counted con) in
        inr (con, s, connected, run, report_main-connected config con s connected run)
  ]
