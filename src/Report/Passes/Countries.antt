-- ===== src/Report/Passes/Countries.antt =====
-- deal_with_sales_country and deal_with_customer_info of src/tools/all_report/all_month_report.cpp.
use asio_coro_frame.Base.{Text, [], ◌∷◌, ◌++◌, lit, if◌then◌else◌}
use asio_coro_frame.Report.{ReportData, Env}
use asio_coro_frame.Report.Action.{
  Action, ◌>>=◌, ◌>>◌, pure, continue_loop, this_row, modify, fetch, is_null, get_string,
  get_string_at, no_value, null_or_empty,
}
use asio_coro_frame.Report.Sql.{sql}

-- The lines of the source's literal begin with two tabs.
abbrev tabs : Text
tabs = 9 ∷ 9 ∷ []

unfoldable pub role_sql : Text → Text
unfolding lit
role_sql id =
    tabs
    ++ (lit "select master_file_obj_id "
        ++ (tabs
            ++ (lit "from t_wf_role_resolve "
                ++ (tabs
                    ++ (lit "where master_file_type='COMPANY' "
                        ++ (tabs ++ (lit "and employee_id='" ++ (id ++ lit "'"))))))))

module _ {R W : Type 0} ⦃e : Env R W⦄ where
  -- the country that a quotation is delivered to
  unfoldable pub delivery_country : ReportData W → Action R W (Unit {0})
  delivery_country i = do
    fetch (sql "select delivery_country_id from t_quotation where quotation_id='" i.quotation_id)
    missing ← no_value (lit "delivery_country_id")
    if missing then pure tt else do
      id ← get_string_at 1
      fetch (sql "select full_name from t_country where country_id='" id)
      unnamed ← no_value (lit "full_name")
      if unnamed then pure tt else do
        s ← get_string (lit "full_name")
        modify (λ r. record r { receiving_countries = s })

  -- the seller of a quotation
  unfoldable pub sales_account : ReportData W → Action R W (Unit {0})
  sales_account i = do
    fetch (sql "select sales_id from t_quotation where quotation_id='" i.quotation_id)
    missing ← no_value (lit "sales_id")
    if missing then pure tt else do
      s ← get_string (lit "sales_id")
      modify (λ r. record r { owner_sales_sys_account_id = s })

  unfoldable pub sales_employee : ReportData W → Action R W (Unit {0})
  sales_employee i = do
    fetch (
        sql "select employee_no from t_system_account where system_account_id='"
          i.owner_sales_sys_account_id)
    missing ← no_value (lit "employee_no")
    if missing
        then pure tt
        else do s ← get_string (lit "employee_no"); modify (λ r. record r { sales_employee_id = s })

  unfoldable pub sales_company : ReportData W → Action R W (Unit {0})
  sales_company i = do
    fetch (role_sql i.sales_employee_id)
    missing ← no_value (lit "master_file_obj_id")
    if missing then pure tt else do
      id ← get_string_at 1
      fetch (sql "select short_name from t_company where company_id='" id)
      unnamed ← no_value (lit "short_name")
      if unnamed then pure tt else do
        s ← get_string (lit "short_name")
        modify (λ r. record r { sales_company_name = s })

  -- deal_with_sales_country
  unfoldable pub sales_country_body : Action R W (Unit {0})
  sales_country_body = do
    i ← this_row
    delivery_country i
    sales_account i
    j ← this_row
    sales_employee j
    k ← this_row
    sales_company k

  -- the import area of the country whose row is at hand
  unfoldable pub import_area : Action R W (Unit {0})
  import_area = do
    no_area ← is_null (lit "area_id")
    if no_area then pure tt else do
      id ← get_string (lit "area_id")
      fetch (sql "select short_name from t_area where area_id='" id)
      unnamed ← is_null (lit "short_name")
      if unnamed
          then pure tt
          else do s ← get_string (lit "short_name"); modify (λ r. record r { import_area = s })

  -- the first half of deal_with_customer_info
  unfoldable pub destination : ReportData W → Action R W (Unit {0})
  destination i = do
    fetch (sql "select delivery_country_id from t_quotation where quotation_id='" i.quotation_id)
    id ← get_string_at 1
    fetch (sql "select full_name,area_id from t_country where country_id='" id)
    unnamed ← is_null (lit "full_name")
    if unnamed
        then pure tt
        else do s ← get_string (lit "full_name"); modify (λ r. record r { receiving_countries = s })
    import_area

  -- the country of the customer, whose id is in the second column's place of the row at hand
  unfoldable pub customer_country : Action R W (Unit {0})
  customer_country = do
    id ← get_string_at 1
    fetch (sql "select full_name,area_id from t_country where country_id='" id)
    unnamed ← is_null (lit "full_name")
    if unnamed then continue_loop else do
      s ← get_string_at 1
      modify (λ r. record r { customer_countries = s })
      no_area ← is_null (lit "area_id")
      if no_area then continue_loop else do
        area ← get_string_at 2
        fetch (sql "select full_name from t_area where area_id='" area)
        no_name ← is_null (lit "full_name")
        if no_name
            then continue_loop
            else do t ← get_string_at 1; modify (λ r. record r { country_region = t })

  -- the second half of deal_with_customer_info
  unfoldable pub customer : ReportData W → Action R W (Unit {0})
  customer i = do
    fetch (sql "select customer_basic_id from t_quotation where quotation_id='" i.quotation_id)
    missing ← is_null (lit "customer_basic_id")
    if missing then continue_loop else do
      id ← get_string_at 1
      fetch (sql "select country_id,trade_name from t_customer_basic where customer_basic_id='" id)
      no_country ← null_or_empty (lit "country_id") 1
      if no_country then continue_loop else do
        s ← get_string_at 1
        modify (λ r. record r { country_id = s })
        unnamed ← null_or_empty (lit "trade_name") 2
        if unnamed
            then pure tt
            else do t ← get_string_at 2; modify (λ r. record r { account_name = t })
        customer_country

  -- deal_with_customer_info
  unfoldable pub customer_info_body : Action R W (Unit {0})
  customer_info_body = do i ← this_row; destination i; customer i
