-- ===== src/Report.antt =====
-- The monthly quotation report, src/tools/all_report/all_month_report.hpp and .cpp: the record of a
-- line of the report, and what the program uses of the database library and of `double`.
pub mod Sql
pub mod Action
pub mod Passes
pub mod Run
pub mod Excel
pub mod Csv
mod Frame
mod Passed
pub mod Insert
pub mod Source
pub mod Lines
pub mod File
pub mod Program
pub mod Stops
pub mod Safety
pub mod Alone
mod Tests
use asio_coro_frame.Base.{ℕ, Bool, Option, Text, []}

-- struct report_data. `W` is `double`.
pub record ReportData (W : Type 0) : Type 0 where
  pub quotation_id : Text
  pub quotation_detail_id : Text
  pub quotation_no : Text
  pub country_id : Text
  pub owner_sales_sys_account_id : Text
  pub sales_employee_id : Text
  pub sales_company_name : Text
  pub account_name : Text
  pub approval_status : Text
  pub sales_full_name : Text
  pub receiving_countries : Text
  pub customer_countries : Text
  pub country_region : Text
  pub product_name_id : Text
  pub product_name : Text
  pub product_qty_pc : W
  pub product_qty_w : W
  pub price_condition : Text
  pub currency : Text
  pub unit_price : W
  pub guided_currency : Text
  pub price_total_currency : Text
  pub price_total : W
  pub pi_no : Text
  pub buyers_po : Text
  pub contract_no : Text
  pub payment_term_desc : Text
  pub creat_at : Text
  pub guidance_price : W
  pub total_guidance_price : W
  pub import_area : Text

-- What the program does not implement: the result sets of MySQL Connector/C++ and the arithmetic
-- and printing of `double`. `none` is a thrown `sql::SQLException`. The database does not change
-- during a run, so a query has one answer.
pub record Env (R W : Type 0) : Type 0 where
  -- prepareStatement and executeQuery
  pub execute : Text → Option R
  pub next : R → Option (Bool × R)
  pub rows_count : R → ℕ
  pub is_null : R → Text → Option Bool
  pub get_string : R → Text → Option Text
  pub get_string_at : R → ℕ → Option Text
  pub get_double : R → Text → Option W
  pub nought : W
  pub times : W → W → W
  pub print : W → Text

-- `new report_data()`: the texts are empty and the numbers 0
abbrev pub blank : {W : Type 0} → W → ReportData W
blank nought = record {
  quotation_id = [];
  quotation_detail_id = [];
  quotation_no = [];
  country_id = [];
  owner_sales_sys_account_id = [];
  sales_employee_id = [];
  sales_company_name = [];
  account_name = [];
  approval_status = [];
  sales_full_name = [];
  receiving_countries = [];
  customer_countries = [];
  country_region = [];
  product_name_id = [];
  product_name = [];
  product_qty_pc = nought;
  product_qty_w = nought;
  price_condition = [];
  currency = [];
  unit_price = nought;
  guided_currency = [];
  price_total_currency = [];
  price_total = nought;
  pi_no = [];
  buyers_po = [];
  contract_no = [];
  payment_term_desc = [];
  creat_at = [];
  guidance_price = nought;
  total_guidance_price = nought;
  import_area = [];
}
