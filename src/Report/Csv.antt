-- ===== src/Report/Csv.antt =====
-- csv_line of struct report_data and class write_csv (src/tools/all_report/all_month_report.hpp), and
-- write_to_csv of all_month_report.cpp, which is not called.
pub mod Split
use asio_coro_frame.Base.{ℕ, ◌≡◌, List, [], ◌∷◌, ◌++◌, Text, lit}
use asio_coro_frame.Report.{ReportData, Env}

-- <<"," between the values
unfoldable pub commas : List Text → Text
commas [] = []
commas (value ∷ []) = value
commas (value ∷ w ∷ ws) = value ++ (44 ∷ commas (w ∷ ws))

module _ {W : Type 0} (print : W → Text) where
  -- the values of csv_line, which has placeholders at five places
  unfoldable pub csv_values : ReportData W → List Text
  unfolding lit
  csv_values r =
      r.quotation_no
      ∷ r.account_name
      ∷ r.sales_company_name
      ∷ lit "customer_name"
      ∷ r.customer_countries
      ∷ r.receiving_countries
      ∷ lit "import area"
      ∷ r.approval_status
      ∷ lit "trade term"
      ∷ r.product_name_id
      ∷ r.product_name
      ∷ print r.product_qty_pc
      ∷ print r.product_qty_w
      ∷ r.currency
      ∷ print r.unit_price
      ∷ lit "zhidaojia"
      ∷ print r.price_total
      ∷ lit "zhidaozhenggejiage"
      ∷ r.payment_term_desc
      ∷ r.creat_at
      ∷ r.sales_full_name
      ∷ r.price_condition
      ∷ r.currency
      ∷ r.price_total_currency
      ∷ r.pi_no
      ∷ r.buyers_po
      ∷ r.contract_no
      ∷ []

  unfoldable pub csv_line : ReportData W → Text
  unfolding commas csv_values
  csv_line r = commas (csv_values r) ++ (13 ∷ 10 ∷ [])

  -- the text of the file after addData
  abbrev pub add_data : Text → Text → Text
  add_data line file = file ++ line

  unfoldable pub write_lines : List (ReportData W) → Text → Text
  unfolding csv_line
  write_lines [] file = file
  write_lines (x ∷ xs) file = write_lines xs (add_data (csv_line x) file)

  unfoldable pub write_to_csv : List (ReportData W) → Text
  unfolding write_lines
  write_to_csv rows = write_lines rows []
