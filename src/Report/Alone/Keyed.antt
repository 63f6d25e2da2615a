-- ===== src/Report/Alone/Keyed.antt =====
-- The columns of src/tools/all_report/all_month_report.cpp that are looked up through one other table, and
-- the passes that leave them.
use asio_coro_frame.Base.{◌≡◌, refl, ◌∙◌, Text}
use asio_coro_frame.Report.{ReportData, Env}
use asio_coro_frame.Report.Action.{modify}
use asio_coro_frame.Report.Frame.{
  IsOrder, OnRow, OnRow-IsPreorder, OnRow-IsResFree, Keeps, Keeps-modify, keeps_rules,
}
use asio_coro_frame.Report.Passes.{
  destination, import_area, customer_country, customer, customer_info_body, product_info_body,
  product_names, delivery_country, sales_account, sales_employee, sales_company, sales_country_body,
  pi_body,
}
use asio_coro_frame.Report.Alone.Columns.{Terms}

abbrev pub terms_of : {W : Type 0} → ReportData W → Terms
terms_of r = record {
  sales_full_name = r.sales_full_name;
  currency = r.currency;
  payment_term_desc = r.payment_term_desc;
  price_condition = r.price_condition;
  approval_status = r.approval_status;
}

pub record Key : Type 0 where
  pub id : Text
  pub terms : Terms

abbrev pub key : {W : Type 0} → ReportData W → Key
key r = record { id = r.quotation_id; terms = terms_of r }

pub record SameKey {W : Type 0} (r s : ReportData W) : Type 0 where
  pub same : key s ≡ key r

instance pub SameKey-IsOrder : {W : Type 0} → IsOrder (SameKey {W = W})
SameKey-IsOrder = record {
  here = λ r. record { same = refl };
  chain = λ r s t p q. record { same = q.same ∙ p.same };
}

module _ {R W : Type 0} where
  Keeps-key :
      (f : ReportData W → ReportData W)
      → ((r : ReportData W) → key (f r) ≡ key r)
      → Keeps {R = R} (OnRow SameKey) (modify f)
  Keeps-key f h = Keeps-modify f (λ c. record { related = record { same = h c.row } })

module _ {R W : Type 0} ⦃e : Env R W⦄ where
  Keeps-customer_country : Keeps {R = R} {W = W} (OnRow SameKey) customer_country
  unfolding customer_country
  Keeps-customer_country = search (keeps_rules, Keeps-key) depth 60

  Keeps-import_area : Keeps {R = R} {W = W} (OnRow SameKey) import_area
  unfolding import_area
  Keeps-import_area = search (keeps_rules, Keeps-key) depth 60

  pub Keeps-customer_info_body : Keeps {R = R} {W = W} (OnRow SameKey) customer_info_body
  unfolding customer_info_body customer destination
  Keeps-customer_info_body =
      search (keeps_rules, Keeps-key, Keeps-customer_country, Keeps-import_area) depth 60

  pub Keeps-product_info_body : Keeps {R = R} {W = W} (OnRow SameKey) product_info_body
  unfolding product_info_body product_names
  Keeps-product_info_body = search (keeps_rules, Keeps-key) depth 60

  pub Keeps-sales_country_body : Keeps {R = R} {W = W} (OnRow SameKey) sales_country_body
  unfolding sales_country_body delivery_country sales_account sales_employee sales_company
  Keeps-sales_country_body = search (keeps_rules, Keeps-key) depth 60

  pub Keeps-pi_body : Keeps {R = R} {W = W} (OnRow SameKey) pi_body
  unfolding pi_body
  Keeps-pi_body = search (keeps_rules, Keeps-key) depth 60
