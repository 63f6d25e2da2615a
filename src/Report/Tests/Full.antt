-- ===== src/Report/Tests/Full.antt =====
-- The report of src/tools/all_report at a database in which every cell of every row is the text "a".
use asio_coro_frame.Base.{ℕ, ◌*◌, ◌≡◌, refl, true, Text, false, [], ◌∷◌, some, lit, map, All, arith}
use asio_coro_frame.Report.{ReportData, Env, blank}
use asio_coro_frame.Report.Sql.{sql, report_sql}
use asio_coro_frame.Report.Action.{
  ok, ◌>>◌, ◌>>=◌, get_string, modify, get_double, is_null, this_row, fetch, get_string_at,
  null_or_empty, no_value, continue_loop, rows_count, pure, query, next_row, with_res,
}
use asio_coro_frame.Report.Alone.{Answered, Ids, ids, through, IsSmooth}
use asio_coro_frame.Report.Alone.Columns.{Terms, Has, Joined}
use asio_coro_frame.Report.Alone.Keyed.{terms_of}
use asio_coro_frame.Report.Alone.Terms.{start-terms}
use asio_coro_frame.Report.Alone.Found.{Cell}
use asio_coro_frame.Report.Alone.Complete.{Lookup, HasAll, completed, start-completed}
use asio_coro_frame.Report.Alone.Filled.{start-lines}
use asio_coro_frame.Report.Passes.{
  destination, currency_code, status_name, entry, status_map, delivery_country, sales_account,
  sales_employee, sales_company, role_sql, insert_keys, insert_watts, insert_guidance, insert_price,
  import_area, customer, customer_country, product_names,
}
use asio_coro_frame.Report.Excel.{write_to_excel}
use asio_coro_frame.Report.Run.{MonthReport, Started, start, insert_data, passes}
use asio_coro_frame.Report.Tests.Database.{Cursor, advance, rows_of, database}

abbrev full : Env Cursor ℕ
unfolding lit
full = record {
  execute = λ text. some (rows_of ([] ∷ []));
  next = λ c. some (advance c);
  rows_count = λ c. c.size;
  is_null = λ c label. some false;
  get_string = λ c label. some (lit "a");
  get_string_at = λ c n. some (lit "a");
  get_double = λ c label. some 2;
  nought = 0;
  times = λ a b. a * b;
  print = λ a. [];
}

abbrev full_line : ReportData ℕ
unfolding lit
full_line = record (blank 0) {
  quotation_id = lit "a";
  quotation_detail_id = lit "a";
  quotation_no = lit "a";
  product_qty_pc = 2;
  product_qty_w = 4;
  unit_price = 2;
  price_total = 8;
  guidance_price = 2;
  total_guidance_price = 8;
  creat_at = lit "a";
}

abbrev full_report : MonthReport Cursor ℕ
full_report = record {
  ended = ok tt;
  rows = full_line ∷ [];
  res = some (record { size = 1; current = []; rest = [] });
}

insert_full : insert_data ⦃e = full⦄ (full.execute report_sql) ≡ some full_report
unfolding insert_data lit ◌>>◌ insert_keys get_string modify get_double insert_watts is_null
    insert_guidance insert_price
insert_full = refl

abbrev full_done : ReportData ℕ
unfolding lit
full_done = record full_line {
  sales_full_name = lit "a";
  receiving_countries = lit "a";
  import_area = lit "a";
  country_id = lit "a";
  account_name = lit "a";
  customer_countries = lit "a";
  country_region = lit "a";
  currency = lit "a";
  price_total_currency = lit "a";
  guided_currency = lit "a";
  payment_term_desc = lit "a";
  product_name_id = lit "a";
  product_name = lit "a";
  price_condition = lit "a";
  owner_sales_sys_account_id = lit "a";
  sales_employee_id = lit "a";
  sales_company_name = lit "a";
  pi_no = lit "a";
  buyers_po = lit "a";
  contract_no = lit "a";
}

abbrev full_started : Started Cursor ℕ
full_started = record {
  report = record {
    ended = ok tt;
    rows = full_done ∷ [];
    res = some (record { size = 1; current = []; rest = [] });
  };
  file = some (write_to_excel (full_done ∷ []));
}

start_full : start ⦃e = full⦄ ≡ some full_started
unfolding start lit ◌>>◌ ◌>>=◌ insert_keys get_string modify get_double insert_watts is_null
    insert_guidance insert_price this_row fetch sql get_string_at destination null_or_empty
    currency_code no_value continue_loop rows_count pure query next_row with_res status_name entry
    status_map delivery_country sales_account sales_employee sales_company role_sql report_sql
    import_area customer customer_country product_names
start_full = refl

full-IsSmooth : All (IsSmooth {R = Cursor} (passes ⦃e = full⦄)) full_report.rows
unfolding passes lit ◌>>◌ ◌>>=◌ get_string modify get_double is_null this_row fetch sql
    get_string_at destination null_or_empty currency_code no_value continue_loop rows_count pure
    query next_row with_res status_name entry status_map delivery_country sales_account
    sales_employee sales_company role_sql import_area customer customer_country product_names
full-IsSmooth = ground arith

full-Answered : (of : Ids) → Answered full of
unfolding full
full-Answered of = record {
  sales = (_, refl);
  delivery = (_, refl);
  currency = (_, refl);
  payment = (_, refl);
  item = (_, refl);
  term = (_, refl);
  approval = (_, refl);
  invoice = (_, refl);
}

start-lines_example :
    full_started.report.rows ≡ map (through {R = Cursor} (passes ⦃e = full⦄)) full_report.rows
unfolding full
start-lines_example =
    start-lines ⦃e = full⦄ full_report full_started (_, refl) (full-Answered _, tt) full-IsSmooth
      insert_full start_full

abbrev full_terms : Terms
unfolding lit
full_terms = record {
  sales_full_name = lit "a";
  currency = lit "a";
  payment_term_desc = lit "a";
  price_condition = lit "a";
  approval_status = [];
}

full-Has : (text label : Text) → Has full text label (lit "a")
unfolding full lit
full-Has text label = record {
  answer = rows_of ([] ∷ []);
  row = record { size = 1; current = []; rest = [] };
  found = true;
  executes = refl;
  moves = refl;
  counted = refl;
  not_null = refl;
  first = refl;
  labelled = refl;
  not_empty = refl;
}

full-Joined : Joined full (lit "a") full_terms
unfolding full_terms lit status_name entry status_map
full-Joined = record {
  sales_id = lit "a";
  employee_no = lit "a";
  trade_term_id = lit "a";
  payment_method_id = lit "a";
  currency_id = lit "a";
  status = lit "a";
  sales = full-Has _ _;
  account = full-Has _ _;
  employee = full-Has _ _;
  quoted_currency = full-Has _ _;
  code = full-Has _ _;
  payment = full-Has _ _;
  method = full-Has _ _;
  term = full-Has _ _;
  condition = full-Has _ _;
  approval = full-Has _ _;
  named = refl;
}

start-terms_example : terms_of full_done ≡ full_terms
unfolding full full_line
start-terms_example =
    start-terms ⦃e = full⦄ full_report full_started (_, refl) (full-Answered _, tt) full-IsSmooth
      insert_full start_full 0 full_line full_done full_terms refl refl full-Joined

full-Cell : (row : Cursor) (n : ℕ) (label : Text) → Cell full row n label (lit "a")
unfolding full lit
full-Cell row n label = record { not_null = refl; placed = refl; labelled = refl; not_empty = refl }

abbrev full_lookup : Lookup
unfolding full_terms lit
full_lookup = record {
  terms = full_terms;
  customer = record {
    receiving_countries = lit "a";
    import_area = lit "a";
    country_id = lit "a";
    account_name = lit "a";
    customer_countries = lit "a";
    country_region = lit "a";
  };
  product = record { product_name_id = lit "a"; product_name = lit "a" };
  seller = record {
    receiving_countries = lit "a";
    owner_sales_sys_account_id = lit "a";
    sales_employee_id = lit "a";
    sales_company_name = lit "a";
  };
  invoice = record { pi_no = lit "a"; buyers_po = lit "a"; contract_no = lit "a" };
}

full-HasAll : HasAll full (ids full_line) full_lookup
unfolding full_lookup full_line lit
full-HasAll = record {
  terms = full-Joined;
  customer = record {
    delivery_country_id = lit "a";
    import_area_id = lit "a";
    customer_basic_id = lit "a";
    area_id = lit "a";
    delivery = full-Has _ _;
    country = full-Has _ _;
    its_area = full-Cell _ _ _;
    area = full-Has _ _;
    customer_id = full-Has _ _;
    basic = full-Has _ _;
    trade = full-Cell _ _ _;
    home = full-Has _ _;
    home_area = full-Cell _ _ _;
    region = full-Has _ _;
  };
  product = record {
    item_master_id = lit "a";
    item_basic_id = lit "a";
    item_category_id = lit "a";
    product_category_id = lit "a";
    parent_product_category_id = lit "a";
    detail = full-Has _ _;
    item = full-Has _ _;
    code = full-Cell _ _ _;
    name = full-Cell _ _ _;
    category = full-Has _ _;
    link = full-Has _ _;
    parent = full-Has _ _;
  };
  seller = record {
    delivery_country_id = lit "a";
    company_id = lit "a";
    delivery = full-Has _ _;
    country = full-Has _ _;
    sales = full-Has _ _;
    account = full-Has _ _;
    role = full-Has _ _;
    company = full-Has _ _;
  };
  invoice = record { number = full-Has _ _; order = full-Cell _ _ _; contract = full-Cell _ _ _ };
}

start-completed_example : full_done ≡ completed full_lookup full_line
unfolding full full_line
start-completed_example =
    start-completed ⦃e = full⦄ full_report full_started (_, refl) (full-Answered _, tt)
      full-IsSmooth insert_full start_full 0 full_line full_done full_lookup refl refl full-HasAll
