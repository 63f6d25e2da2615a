-- ===== src/Report/Alone/Found.antt =====
-- What the passes of src/tools/all_report/all_month_report.cpp that look up several columns find for a
-- quotation for which the database has all of them.
pub mod Bodies
use asio_coro_frame.Base.{◌≡◌, refl, ℕ, false, some, none, [], Text, lit, text_eq}
use asio_coro_frame.Report.{ReportData, Env}
use asio_coro_frame.Report.Sql.{sql}
use asio_coro_frame.Report.Action.{
  ok, ◌>>=◌, ◌>>◌, pure, this_row, modify, with_res, is_null, get_string, get_string_at,
  null_or_empty,
}
use asio_coro_frame.Report.Alone.{alone}
use asio_coro_frame.Report.Alone.Columns.{Has, fetch-Has, no_value-Has, null_or_empty-Has}
use asio_coro_frame.Report.Passes.{
  destination, import_area, customer, customer_country, customer_info_body, product_info_body,
  product_names, delivery_country, sales_account, sales_employee, sales_company, sales_country_body,
  role_sql, pi_body,
}

-- The row has the text `s` in this column.
pub record Cell {R W : Type 0} (e : Env R W) (row : R) (column : ℕ) (label s : Text) : Type 0 where
  pub not_null : e.is_null row label ≡ some false
  pub placed : e.get_string_at row column ≡ some s
  pub labelled : e.get_string row label ≡ some s
  pub not_empty : text_eq s [] ≡ false

pub record Invoice : Type 0 where
  pub pi_no : Text
  pub buyers_po : Text
  pub contract_no : Text

pub record HasInvoice {R W : Type 0} (e : Env R W) (id : Text) (t : Invoice) : Type 0 where
  pub number :
      Has e
        (sql "select pi_no,buyer_po,contract_no from t_proforma_invoice where quotation_id='" id)
        (lit "pi_no")
        t.pi_no
  pub order : Cell e number.row 2 (lit "buyer_po") t.buyers_po
  pub contract : Cell e number.row 3 (lit "contract_no") t.contract_no

pub record Product : Type 0 where
  pub product_name_id : Text
  pub product_name : Text

-- Its id is the one of the line of the quotation.
pub record HasProduct {R W : Type 0} (e : Env R W) (id : Text) (t : Product) : Type 0 where
  pub item_master_id : Text
  pub item_basic_id : Text
  pub item_category_id : Text
  pub product_category_id : Text
  pub parent_product_category_id : Text
  pub detail :
      Has e
        (sql "select item_master_id from t_quotation_detail where quotation_detail_id='" id)
        (lit "item_master_id")
        item_master_id
  pub item :
      Has e
        (sql
          "select item_basic_id,product_code,product_name from t_item_master where item_master_id='"
          item_master_id)
        (lit "item_basic_id")
        item_basic_id
  pub code : Cell e item.row 2 (lit "product_code") t.product_name_id
  pub name : Cell e item.row 3 (lit "product_name") t.product_name
  pub category :
      Has e
        (sql "select item_category_id from t_item_basic where item_basic_id='" item_basic_id)
        (lit "item_category_id")
        item_category_id
  pub link :
      Has e
        (sql
          "select product_category_id from t_product_category_item_category_link where item_category_id='"
          item_category_id)
        (lit "product_category_id")
        product_category_id
  pub parent :
      Has e
        (sql "select parent_product_category_id from t_product_category where product_category_id='"
          product_category_id)
        (lit "parent_product_category_id")
        parent_product_category_id

pub record Customer : Type 0 where
  pub receiving_countries : Text
  pub import_area : Text
  pub country_id : Text
  pub account_name : Text
  pub customer_countries : Text
  pub country_region : Text

pub record HasCustomer {R W : Type 0} (e : Env R W) (id : Text) (t : Customer) : Type 0 where
  pub delivery_country_id : Text
  pub import_area_id : Text
  pub customer_basic_id : Text
  pub area_id : Text
  pub delivery :
      Has e
        (sql "select delivery_country_id from t_quotation where quotation_id='" id)
        (lit "delivery_country_id")
        delivery_country_id
  pub country :
      Has e
        (sql "select full_name,area_id from t_country where country_id='" delivery_country_id)
        (lit "full_name")
        t.receiving_countries
  pub its_area : Cell e country.row 2 (lit "area_id") import_area_id
  pub area :
      Has e
        (sql "select short_name from t_area where area_id='" import_area_id)
        (lit "short_name")
        t.import_area
  pub customer_id :
      Has e
        (sql "select customer_basic_id from t_quotation where quotation_id='" id)
        (lit "customer_basic_id")
        customer_basic_id
  pub basic :
      Has e
        (sql "select country_id,trade_name from t_customer_basic where customer_basic_id='"
          customer_basic_id)
        (lit "country_id")
        t.country_id
  pub trade : Cell e basic.row 2 (lit "trade_name") t.account_name
  pub home :
      Has e
        (sql "select full_name,area_id from t_country where country_id='" t.country_id)
        (lit "full_name")
        t.customer_countries
  pub home_area : Cell e home.row 2 (lit "area_id") area_id
  pub region :
      Has e
        (sql "select full_name from t_area where area_id='" area_id)
        (lit "full_name")
        t.country_region

pub record Seller : Type 0 where
  pub receiving_countries : Text
  pub owner_sales_sys_account_id : Text
  pub sales_employee_id : Text
  pub sales_company_name : Text

pub record HasSeller {R W : Type 0} (e : Env R W) (id : Text) (t : Seller) : Type 0 where
  pub delivery_country_id : Text
  pub company_id : Text
  pub delivery :
      Has e
        (sql "select delivery_country_id from t_quotation where quotation_id='" id)
        (lit "delivery_country_id")
        delivery_country_id
  pub country :
      Has e
        (sql "select full_name from t_country where country_id='" delivery_country_id)
        (lit "full_name")
        t.receiving_countries
  pub sales :
      Has e
        (sql "select sales_id from t_quotation where quotation_id='" id)
        (lit "sales_id")
        t.owner_sales_sys_account_id
  pub account :
      Has e
        (sql "select employee_no from t_system_account where system_account_id='"
          t.owner_sales_sys_account_id)
        (lit "employee_no")
        t.sales_employee_id
  pub role : Has e (role_sql t.sales_employee_id) (lit "master_file_obj_id") company_id
  pub company :
      Has e
        (sql "select short_name from t_company where company_id='" company_id)
        (lit "short_name")
        t.sales_company_name
