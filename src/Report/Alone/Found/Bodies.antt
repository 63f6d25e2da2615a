-- ===== src/Report/Alone/Found/Bodies.antt =====
-- The passes of src/tools/all_report/all_month_report.cpp that look up several columns, on a quotation for
-- which the database has all of them.
use asio_coro_frame.Base.{◌≡◌, refl, ℕ, false, some, none, Text}
use asio_coro_frame.Report.{ReportData, Env}
use asio_coro_frame.Report.Action.{
  ok, ◌>>=◌, ◌>>◌, pure, this_row, modify, with_res, is_null, get_string, get_string_at,
  null_or_empty,
}
use asio_coro_frame.Report.Alone.{alone}
use asio_coro_frame.Report.Alone.Columns.{fetch-Has, no_value-Has, null_or_empty-Has}
use asio_coro_frame.Report.Passes.{
  destination, import_area, customer, customer_country, customer_info_body, product_info_body,
  product_names, delivery_country, sales_account, sales_employee, sales_company, sales_country_body,
  pi_body,
}
use asio_coro_frame.Report.Alone.Found.{
  Cell, Invoice, HasInvoice, Product, HasProduct, Customer, HasCustomer, Seller, HasSeller,
}

module _ {R W : Type 0} ⦃e : Env R W⦄ where
  pub pi_body-Has :
      (i : ReportData W) (t : Invoice)
      → HasInvoice e i.quotation_id t
      → (alone {R = R} pi_body i).1.row
        ≡ record i { pi_no = t.pi_no; buyers_po = t.buyers_po; contract_no = t.contract_no }
  unfolding pi_body ◌>>=◌ ◌>>◌ this_row is_null get_string with_res pure modify
  pi_body-Has i t h =
      let a = h.number in
      let first = fetch-Has _ _ _ a (record { row = i; res = none }) in
      let there = no_value-Has _ _ _ a i in
      rw
        (
          first, there, a.labelled, h.order.not_null, h.order.labelled, h.contract.not_null,
          h.contract.labelled, pi_body,
        )
        refl

  pub product_info_body-Has :
      (i : ReportData W) (t : Product)
      → HasProduct e i.quotation_detail_id t
      → (alone {R = R} product_info_body i).1.row
        ≡ record i { product_name_id = t.product_name_id; product_name = t.product_name }
  unfolding product_info_body product_names ◌>>=◌ ◌>>◌ this_row get_string get_string_at with_res
      pure modify
  product_info_body-Has i t h =
      let j : ReportData W = record i {
        product_name_id = t.product_name_id;
        product_name = t.product_name;
      } in
      let a = fetch-Has _ _ _ h.detail (record { row = i; res = none }) in
      let b = no_value-Has _ _ _ h.detail i in
      let c = fetch-Has _ _ _ h.item (record { row = i; res = some h.detail.row }) in
      let d = no_value-Has _ _ _ h.item i in
      let f = fetch-Has _ _ _ h.category (record { row = j; res = some h.item.row }) in
      let g = no_value-Has _ _ _ h.category j in
      let k = fetch-Has _ _ _ h.link (record { row = j; res = some h.category.row }) in
      let l = no_value-Has _ _ _ h.link j in
      let m = fetch-Has _ _ _ h.parent (record { row = j; res = some h.link.row }) in
      let n = no_value-Has _ _ _ h.parent j in
      rw
        (
          a, b, h.detail.first, c, d, h.code.labelled, h.name.labelled, h.item.first, f, g,
          h.category.first, k, l, h.link.first, m, n, product_info_body,
        )
        refl

  null_or_empty-Cell :
      (row : R) (column : ℕ) (label s : Text)
      → Cell e row column label s
      → (i : ReportData W)
      → null_or_empty label column (record { row = i; res = some row })
        ≡ (ok false, record { row = i; res = some row })
  unfolding null_or_empty is_null get_string_at with_res ◌>>=◌ pure
  null_or_empty-Cell row column label s h i =
      rw (h.not_null, h.placed, h.not_empty, null_or_empty) refl

  pub customer_info_body-Has :
      (i : ReportData W) (t : Customer)
      → HasCustomer e i.quotation_id t
      → (alone {R = R} customer_info_body i).1.row ≡ record i {
        receiving_countries = t.receiving_countries;
        import_area = t.import_area;
        country_id = t.country_id;
        account_name = t.account_name;
        customer_countries = t.customer_countries;
        country_region = t.country_region;
      }
  unfolding customer_info_body destination import_area customer customer_country ◌>>=◌ ◌>>◌ this_row
      is_null get_string get_string_at with_res pure modify
  customer_info_body-Has i t h =
      let j : ReportData W = record i { receiving_countries = t.receiving_countries } in
      let k : ReportData W = record j { import_area = t.import_area } in
      let l : ReportData W = record k { country_id = t.country_id } in
      let m : ReportData W = record l { account_name = t.account_name } in
      let n : ReportData W = record m { customer_countries = t.customer_countries } in
      let a = fetch-Has _ _ _ h.delivery (record { row = i; res = none }) in
      let b = fetch-Has _ _ _ h.country (record { row = i; res = some h.delivery.row }) in
      let c = fetch-Has _ _ _ h.area (record { row = j; res = some h.country.row }) in
      let d = fetch-Has _ _ _ h.customer_id (record { row = k; res = some h.area.row }) in
      let f = fetch-Has _ _ _ h.basic (record { row = k; res = some h.customer_id.row }) in
      let g = null_or_empty-Has _ _ _ h.basic k in
      let o = null_or_empty-Cell _ _ _ _ h.trade l in
      let p = fetch-Has _ _ _ h.home (record { row = m; res = some h.basic.row }) in
      let q = fetch-Has _ _ _ h.region (record { row = n; res = some h.home.row }) in
      rw
        (
          a, h.delivery.first, b, h.country.not_null, h.country.labelled, h.its_area.not_null,
          h.its_area.labelled, c, h.area.not_null, h.area.labelled, d, h.customer_id.not_null,
          h.customer_id.first, f, g, h.basic.first, o, h.trade.placed, h.basic.first, p,
          h.home.not_null, h.home.first, h.home_area.not_null, h.home_area.placed, q,
          h.region.not_null, h.region.first, customer_info_body,
        )
        refl

  pub sales_country_body-Has :
      (i : ReportData W) (t : Seller)
      → HasSeller e i.quotation_id t
      → (alone {R = R} sales_country_body i).1.row ≡ record i {
        receiving_countries = t.receiving_countries;
        owner_sales_sys_account_id = t.owner_sales_sys_account_id;
        sales_employee_id = t.sales_employee_id;
        sales_company_name = t.sales_company_name;
      }
  unfolding sales_country_body delivery_country sales_account sales_employee sales_company ◌>>=◌
      ◌>>◌ this_row get_string get_string_at with_res pure modify
  sales_country_body-Has i t h =
      let j : ReportData W = record i { receiving_countries = t.receiving_countries } in
      let k : ReportData W = record j {
        owner_sales_sys_account_id = t.owner_sales_sys_account_id;
      } in
      let l : ReportData W = record k { sales_employee_id = t.sales_employee_id } in
      let a = fetch-Has _ _ _ h.delivery (record { row = i; res = none }) in
      let b = no_value-Has _ _ _ h.delivery i in
      let c = fetch-Has _ _ _ h.country (record { row = i; res = some h.delivery.row }) in
      let d = no_value-Has _ _ _ h.country i in
      let f = fetch-Has _ _ _ h.sales (record { row = j; res = some h.country.row }) in
      let g = no_value-Has _ _ _ h.sales j in
      let m = fetch-Has _ _ _ h.account (record { row = k; res = some h.sales.row }) in
      let n = no_value-Has _ _ _ h.account k in
      let o = fetch-Has _ _ _ h.role (record { row = l; res = some h.account.row }) in
      let p = no_value-Has _ _ _ h.role l in
      let q = fetch-Has _ _ _ h.company (record { row = l; res = some h.role.row }) in
      let r = no_value-Has _ _ _ h.company l in
      rw
        (
          a, b, h.delivery.first, c, d, h.country.labelled, f, g, h.sales.labelled, m, n,
          h.account.labelled, o, p, h.role.first, q, r, h.company.labelled, sales_country_body,
        )
        refl
