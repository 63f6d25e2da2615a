-- ===== src/Report/Passes.antt =====
-- The loop bodies of the `deal_with_…` functions of src/tools/all_report/all_month_report.cpp, each
-- on one line of the report.
mod Approval
unfoldable pub use Approval.{entry, status_map, status_name, approved_status_body}
mod Countries
unfoldable pub use Countries.{
  role_sql, delivery_country, sales_account, sales_employee, sales_company, sales_country_body,
  import_area, destination, customer_country, customer, customer_info_body,
}
use asio_coro_frame.Base.{ℕ, Text, String, ◌++◌, lit, if◌then◌else◌}
use asio_coro_frame.Report.{ReportData, Env}
use asio_coro_frame.Report.Action.{
  Action, ◌>>=◌, ◌>>◌, pure, continue_loop, this_row, modify, fetch, is_null, get_string,
  get_string_at, get_double, no_value, null_or_empty,
}
use asio_coro_frame.Report.Sql.{sql}

module _ {R W : Type 0} ⦃e : Env R W⦄ where
  -- deal_with_pi
  unfoldable pub pi_body : Action R W (Unit {0})
  pi_body = do
    i ← this_row
    fetch (
        sql "select pi_no,buyer_po,contract_no from t_proforma_invoice where quotation_id='"
          i.quotation_id)
    none ← no_value (lit "pi_no")
    if none then pure tt else do s ← get_string (lit "pi_no"); modify (λ r. record r { pi_no = s })
    no_po ← is_null (lit "buyer_po")
    if no_po
        then pure tt
        else do s ← get_string (lit "buyer_po"); modify (λ r. record r { buyers_po = s })
    no_contract ← is_null (lit "contract_no")
    if no_contract
        then pure tt
        else do s ← get_string (lit "contract_no"); modify (λ r. record r { contract_no = s })

  -- deal_with_trade_term_info
  unfoldable pub trade_term_body : Action R W (Unit {0})
  trade_term_body = do
    i ← this_row
    fetch (sql "select trade_term_id from t_quotation where quotation_id='" i.quotation_id)
    no_term ← no_value (lit "trade_term_id")
    if no_term then continue_loop else do
      id ← get_string_at 1
      fetch (sql "select short_name from t_trade_term where trade_term_id='" id)
      no_name ← no_value (lit "short_name")
      if no_name
          then continue_loop
          else do s ← get_string (lit "short_name"); modify (λ r. record r { price_condition = s })

  -- the part of deal_with_product_info after the row of t_item_master; its last queries only
  -- decide between ways to end the round
  unfoldable pub product_names : Action R W (Unit {0})
  product_names = do
    code ← get_string (lit "product_code")
    modify (λ r. record r { product_name_id = code })
    name ← get_string (lit "product_name")
    modify (λ r. record r { product_name = name })
    id ← get_string_at 1
    fetch (sql "select item_category_id from t_item_basic where item_basic_id='" id)
    no_category ← no_value (lit "item_category_id")
    if no_category then continue_loop else do
      category ← get_string_at 1
      fetch (
          sql
            "select product_category_id from t_product_category_item_category_link where item_category_id='"
            category)
      no_link ← no_value (lit "product_category_id")
      if no_link then continue_loop else do
        product ← get_string_at 1
        fetch (
            sql
              "select parent_product_category_id from t_product_category where product_category_id='"
              product)
        no_parent ← no_value (lit "parent_product_category_id")
        if no_parent then continue_loop else pure tt

  -- deal_with_product_info
  unfoldable pub product_info_body : Action R W (Unit {0})
  product_info_body = do
    i ← this_row
    fetch (
        sql "select item_master_id from t_quotation_detail where quotation_detail_id='"
          i.quotation_detail_id)
    no_item ← no_value (lit "item_master_id")
    if no_item then continue_loop else do
      id ← get_string_at 1
      fetch (
          sql
            "select item_basic_id,product_code,product_name from t_item_master where item_master_id='"
            id)
      no_basic ← no_value (lit "item_basic_id")
      if no_basic then continue_loop else product_names

  -- deal_with_payment_method_info
  unfoldable pub payment_method_body : Action R W (Unit {0})
  payment_method_body = do
    i ← this_row
    fetch (sql "select payment_method_id from t_payment_term where quotation_id='" i.quotation_id)
    no_method ← no_value (lit "payment_method_id")
    if no_method then continue_loop else do
      id ← get_string_at 1
      fetch (sql "select name from t_payment_method where payment_method_id='" id)
      no_name ← null_or_empty (lit "name") 1
      if no_name
          then continue_loop
          else do s ← get_string (lit "name"); modify (λ r. record r { payment_term_desc = s })

  -- the assignments of deal_with_currency_info, from the row of t_currency
  unfoldable pub currency_code : Action R W (Unit {0})
  currency_code = do
    s ← get_string (lit "code")
    modify (λ r. record r { currency = s })
    t ← get_string (lit "code")
    modify (λ r. record r { price_total_currency = t })
    u ← get_string (lit "code")
    modify (λ r. record r { guided_currency = u })

  -- deal_with_currency_info
  unfoldable pub currency_body : Action R W (Unit {0})
  currency_body = do
    i ← this_row
    fetch (sql "select currency_id from t_quotation where quotation_id='" i.quotation_id)
    no_currency ← null_or_empty (lit "currency_id") 1
    if no_currency then continue_loop else do
      id ← get_string_at 1
      fetch (sql "select code from t_currency where currency_id='" id)
      no_code ← null_or_empty (lit "code") 1
      if no_code then continue_loop else currency_code

  -- deal_with_sales_info
  unfoldable pub sales_info_body : Action R W (Unit {0})
  sales_info_body = do
    i ← this_row
    fetch (sql "select sales_id from t_quotation where quotation_id='" i.quotation_id)
    account ← get_string_at 1
    fetch (sql "select employee_no from t_system_account where system_account_id='" account)
    employee ← get_string (lit "employee_no")
    fetch (sql "select full_name,position_id  from t_employee where employee_id='" employee)
    s ← get_string (lit "full_name")
    modify (λ r. record r { sales_full_name = s })

  -- the parts of one round of the loop of `insert_data`
  unfoldable pub insert_keys : Action R W (Unit {0})
  insert_keys = do
    s ← get_string (lit "quotation_id")
    modify (λ r. record r { quotation_id = s })
    t ← get_string (lit "quotation_detail_id")
    modify (λ r. record r { quotation_detail_id = t })
    u ← get_string (lit "quotation_no")
    modify (λ r. record r { quotation_no = u })
    pcs ← get_double (lit "product_qty_pc")
    modify (λ r. record r { product_qty_pc = pcs })

  unfoldable pub insert_watts : Action R W (Unit {0})
  insert_watts = do
    no_watts ← is_null (lit "module_extend_prop")
    if no_watts then modify (λ r. record r { product_qty_w = e.nought }) else do
      n ← get_double (lit "product_qty_pc")
      w ← get_double (lit "module_extend_prop")
      modify (λ r. record r { product_qty_w = e.times n w })

  unfoldable pub insert_guidance : Action R W (Unit {0})
  insert_guidance = do
    no_guidance ← is_null (lit "guidance_price")
    if no_guidance then pure tt else do
      g ← get_double (lit "guidance_price")
      modify (λ r. record r { guidance_price = g })
      h ← get_double (lit "guidance_price")
      modify (λ r. record r { total_guidance_price = e.times r.product_qty_w h })

  unfoldable pub insert_price : Action R W (Unit {0})
  insert_price = do
    no_price ← is_null (lit "unit_price")
    if no_price then pure tt else do
      p ← get_double (lit "unit_price")
      modify (λ r. record r { unit_price = p })
      modify (λ r. record r { price_total = e.times r.unit_price r.product_qty_w })

  -- one round of the loop of `insert_data`, on a new line
  unfoldable pub insert_body : Action R W (Unit {0})
  insert_body = do
    insert_keys
    insert_watts
    insert_guidance
    insert_price
    created ← get_string (lit "creat_at")
    modify (λ r. record r { creat_at = created })
