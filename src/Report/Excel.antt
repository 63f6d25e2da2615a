-- ===== src/Report/Excel.antt =====
-- class XLSXIOWriter of src/tools/all_report/all_month_report.hpp and write_to_excel of
-- all_month_report.cpp: the calls of the xlsxio library that they make, in order.
pub mod Table
use asio_coro_frame.Base.{ℕ, zero, suc, ◌+◌, List, [], ◌∷◌, ◌++◌, Text, lit, map, length}
use asio_coro_frame.Base.Numbers.{ℤ}
use asio_coro_frame.Report.{ReportData}

-- a call of the library
pub data Call (W : Type 0) : Type 0 where
  set_row_height : ℕ → Call W
  add_column : Text → ℕ → Call W
  add_cell_string : Text → Call W
  add_cell_int : ℕ → Call W
  add_cell_float : W → Call W
  add_cell_datetime : ℤ → Call W
  next_row : Call W

module _ {W : Type 0} where
  -- the methods of the class, on the calls made so far
  unfoldable pub emit : Call W → List (Call W) → List (Call W)
  emit call calls = calls ++ call ∷ []

  -- AddColumn with its default width
  unfoldable pub add_columns : List Text → List (Call W) → List (Call W)
  unfolding emit
  add_columns [] calls = calls
  add_columns (name ∷ names) calls = add_columns names (emit (add_column name 0) calls)

  -- operator<< of a text and of a double
  abbrev pub text : Text → Call W
  text value = add_cell_string value

  abbrev pub number : W → Call W
  number value = add_cell_float value

  -- a run of `*xlsxfile<<…`
  unfoldable pub put_cells : List (Call W) → List (Call W) → List (Call W)
  unfolding emit
  put_cells [] calls = calls
  put_cells (cell ∷ cells) calls = put_cells cells (emit cell calls)

unfoldable pub excel_columns : List Text
excel_columns =
    lit "Quotation_NO."
    ∷ lit "Sales"
    ∷ lit "Sales_Company"
    ∷ lit "Customer"
    ∷ lit "Country"
    ∷ lit "Destination_Country"
    ∷ lit "Import_Area"
    ∷ lit "Approval_Status"
    ∷ lit "Trade_Term"
    ∷ lit "Product_Classification"
    ∷ lit "Product_Code"
    ∷ lit "Qty(PCS)"
    ∷ lit "Power(Wp)"
    ∷ lit "Unit_price_Currency"
    ∷ lit "Unit_price"
    ∷ lit "Guidance_Price_Currency"
    ∷ lit "Guidance_Price"
    ∷ lit "Total_Price"
    ∷ lit "Guided_Total_Price"
    ∷ lit "Payment_Terms"
    ∷ lit "Quotation_Date"
    ∷ []

module _ {W : Type 0} where
  -- the cells of one line, in the order of the source
  unfoldable pub excel_cells : ReportData W → List (Call W)
  excel_cells x =
      text x.quotation_no
      ∷ text x.sales_full_name
      ∷ text x.sales_company_name
      ∷ text x.account_name
      ∷ text x.customer_countries
      ∷ text x.receiving_countries
      ∷ text x.import_area
      ∷ text x.approval_status
      ∷ text x.price_condition
      ∷ text x.product_name
      ∷ text x.product_name_id
      ∷ number x.product_qty_pc
      ∷ number x.product_qty_w
      ∷ text x.currency
      ∷ number x.unit_price
      ∷ text x.guided_currency
      ∷ number x.guidance_price
      ∷ number x.price_total
      ∷ number x.total_guidance_price
      ∷ text x.payment_term_desc
      ∷ text x.creat_at
      ∷ []

  -- the loop of write_to_excel
  unfoldable pub excel_rows : List (ReportData W) → List (Call W) → List (Call W)
  unfolding put_cells excel_cells emit
  excel_rows [] calls = calls
  excel_rows (x ∷ xs) calls = excel_rows xs (emit next_row (put_cells (excel_cells x) calls))

  unfoldable pub write_to_excel : List (ReportData W) → List (Call W)
  unfolding emit add_columns excel_columns excel_rows
  write_to_excel rows =
      excel_rows rows (emit next_row (add_columns excel_columns (emit (set_row_height 1) [])))
