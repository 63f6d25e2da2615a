-- ===== src/Report/Tests/Database.antt =====
-- A database for the model of src/tools/all_report: two quotations, of which it knows the approval
-- status and the currency; and the report that start makes of them.
use asio_coro_frame.Base.{
  ℕ, ◌*◌, ◌≡◌, refl, Bool, true, false, List, [], ◌∷◌, Option, none, some, Text, lit, text_eq,
  starts_with, if◌then◌else◌, length,
}
use asio_coro_frame.Report.{ReportData, Env, blank}
use asio_coro_frame.Report.Sql.{sql, report_sql}
use asio_coro_frame.Report.Action.{
  ok, ◌>>◌, ◌>>=◌, get_string, modify, get_double, is_null, this_row, fetch, get_string_at,
  null_or_empty, no_value, continue_loop, rows_count, pure, query, next_row, with_res,
}
use asio_coro_frame.Report.Passes.{
  destination, currency_code, status_name, entry, status_map, delivery_country, sales_account,
  sales_employee, sales_company, role_sql, insert_keys, insert_watts, insert_guidance, insert_price,
}
use asio_coro_frame.Report.Excel.{write_to_excel}
use asio_coro_frame.Report.Run.{MonthReport, Started, start, insert_data}

abbrev pub Row : Type 0
Row = List (Text × Text)

pub record Cursor : Type 0 where
  pub size : ℕ
  pub current : Row
  pub rest : List Row

abbrev pub column : Text → Row → Option Text
column label [] = none
column label ((k, v) ∷ row) = if text_eq k label then some v else column label row

abbrev pub first_column : Row → Option Text
first_column [] = none
first_column ((k, v) ∷ row) = some v

abbrev pub advance : Cursor → Bool × Cursor
advance c = elim c.rest [
  | [] ↦ (false, record c { current = [] })
  | row ∷ rows ↦ (true, record c { current = row; rest = rows })
]

abbrev pub rows_of : List Row → Cursor
rows_of rows = record { size = length rows; current = []; rest = rows }

unfoldable pub quotation : Text → Text → Text → Row
quotation id pieces price =
    (lit "quotation_id", id)
    ∷ (lit "quotation_detail_id", lit "d")
    ∷ (lit "quotation_no", id)
    ∷ (lit "product_qty_pc", pieces)
    ∷ (lit "module_extend_prop", lit "ww")
    ∷ (lit "unit_price", price)
    ∷ (lit "guidance_price", lit "w")
    ∷ (lit "creat_at", lit "2016")
    ∷ []

-- an amount is written as so many letters
instance unfoldable pub database : Env Cursor ℕ
unfolding quotation report_sql lit starts_with
database = record {
  execute = λ sql. some (
      if text_eq sql report_sql
      then rows_of (
          quotation (lit "7") (lit "www") (lit "ww") ∷ quotation (lit "8") (lit "w") (lit "w") ∷ [])
      else if starts_with sql (lit "select approval_status")
      then rows_of (((lit "approval_status", lit "3") ∷ []) ∷ [])
      else if starts_with sql (lit "select currency_id")
      then rows_of (((lit "currency_id", lit "5") ∷ []) ∷ [])
      else if starts_with sql (lit "select code")
      then rows_of (((lit "code", lit "EUR") ∷ []) ∷ [])
      else rows_of []);
  next = λ c. some (advance c);
  rows_count = λ c. c.size;
  is_null = λ c label. elim (column label c.current) [ none ↦ none | some v ↦ some false ];
  get_string = λ c label. column label c.current;
  get_string_at = λ c n. first_column c.current;
  get_double = λ c label. elim (column label c.current) [ none ↦ none | some v ↦ some (length v) ];
  nought = 0;
  times = λ a b. a * b;
  print = λ a. [];
}

unfoldable pub line : Text → ℕ → ℕ → ReportData ℕ
unfolding lit
line id pieces price = record (blank 0) {
  quotation_id = id;
  quotation_detail_id = lit "d";
  quotation_no = id;
  product_qty_pc = pieces;
  product_qty_w = pieces * 2;
  unit_price = price;
  price_total = price * (pieces * 2);
  guidance_price = 1;
  total_guidance_price = pieces * 2;
  creat_at = lit "2016";
}

unfoldable pub read_report : MonthReport Cursor ℕ
unfolding line lit
read_report = record {
  ended = ok tt;
  rows = line (lit "7") 3 2 ∷ line (lit "8") 1 1 ∷ [];
  res = some (record { size = 2; current = []; rest = [] });
}

pub insert_data_example : insert_data (database.execute report_sql) ≡ some read_report
unfolding insert_data read_report line quotation lit database ◌>>◌ insert_keys get_string modify
    get_double insert_watts is_null insert_guidance insert_price
insert_data_example = refl

unfoldable pub finished_line : Text → ℕ → ℕ → ReportData ℕ
unfolding line lit
finished_line id pieces price = record (line id pieces price) {
  approval_status = lit "Approved";
  currency = lit "EUR";
  guided_currency = lit "EUR";
  price_total_currency = lit "EUR";
}

unfoldable pub finished : Started Cursor ℕ
unfolding finished_line lit
finished = record {
  report = record {
    ended = ok tt;
    rows = finished_line (lit "7") 3 2 ∷ finished_line (lit "8") 1 1 ∷ [];
    res = some (record { size = 0; current = []; rest = [] });
  };
  file = some (write_to_excel (finished_line (lit "7") 3 2 ∷ finished_line (lit "8") 1 1 ∷ []));
}

pub start_example : start ≡ some finished
unfolding start finished finished_line line quotation lit starts_with database ◌>>◌ ◌>>=◌
    insert_keys get_string modify get_double insert_watts is_null insert_guidance insert_price
    this_row fetch sql get_string_at destination null_or_empty currency_code no_value continue_loop
    rows_count pure query next_row with_res status_name entry status_map delivery_country
    sales_account sales_employee sales_company role_sql report_sql
start_example = refl
