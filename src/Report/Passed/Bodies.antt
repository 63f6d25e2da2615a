-- ===== src/Report/Passed/Bodies.antt =====
-- Each loop body of src/tools/all_report/all_month_report.cpp does to a line what `Passed` allows.
use asio_coro_frame.Base.{
  ◌≡◌, refl, ◌⊎◌, inl, inr, Option, none, some, Text, All, Option-cases, lit,
}
use asio_coro_frame.Report.{ReportData, Env}
use asio_coro_frame.Report.Action.{modify, ◌>>=◌, ◌>>◌, get_string}
use asio_coro_frame.Report.Frame.{OnRow, OnRow-IsPreorder, OnRow-IsResFree, Keeps}
use asio_coro_frame.Report.Run.{passes}
use asio_coro_frame.Report.Passes.{
  sales_info_body, destination, import_area, customer_country, customer, customer_info_body,
  currency_body, currency_code, payment_method_body, product_info_body, product_names,
  trade_term_body, delivery_country, sales_account, sales_employee, sales_company,
  sales_country_body, approved_status_body, pi_body,
}
use asio_coro_frame.Report.Passed.{Passed, Passed-IsOrder, row_rules, status-Keeps, one-Passed}

module _ {R W : Type 0} ⦃e : Env R W⦄ where
  sales_info_body-Keeps : Keeps {R = R} {W = W} (OnRow Passed) sales_info_body
  unfolding sales_info_body
  sales_info_body-Keeps = search (row_rules) depth 60

  import_area-Keeps : Keeps {R = R} {W = W} (OnRow Passed) import_area
  unfolding import_area
  import_area-Keeps = search (row_rules) depth 60

  destination-Keeps : (i : ReportData W) → Keeps {R = R} {W = W} (OnRow Passed) (destination i)
  unfolding destination
  destination-Keeps i = search (row_rules, import_area-Keeps) depth 60

  customer_country-Keeps : Keeps {R = R} {W = W} (OnRow Passed) customer_country
  unfolding customer_country
  customer_country-Keeps = search (row_rules) depth 60

  customer-Keeps : (i : ReportData W) → Keeps {R = R} {W = W} (OnRow Passed) (customer i)
  unfolding customer
  customer-Keeps i = search (row_rules, customer_country-Keeps) depth 60

  customer_info_body-Keeps : Keeps {R = R} {W = W} (OnRow Passed) customer_info_body
  unfolding customer_info_body
  customer_info_body-Keeps = search (row_rules, destination-Keeps, customer-Keeps) depth 60

  -- The three assignments of deal_with_currency_info read one cell three times.
  currency_code-cases :
      (row : ReportData W) (res : Option R)
      → ((currency_code (record { row = row; res = res })).1.row ≡ row)
        ⊎ ((s : Text) × ((currency_code (record { row = row; res = res })).1.row
              ≡ record row { currency = s; price_total_currency = s; guided_currency = s }))
  unfolding currency_code ◌>>=◌ ◌>>◌ get_string modify
  currency_code-cases row none = inl refl
  currency_code-cases row (some r) = elim (Option-cases (e.get_string r (lit "code"))) [
    | inl missing ↦ inl (rw missing refl)
    | inr (s, got) ↦ inr (s, rw (got, got, got) refl)
  ]

  currency_code-Keeps : Keeps {R = R} {W = W} (OnRow Passed) currency_code
  currency_code-Keeps = record {
    at = λ c. record { related = one-Passed c.row _ (currency_code-cases c.row c.res) };
  }

  currency_body-Keeps : Keeps {R = R} {W = W} (OnRow Passed) currency_body
  unfolding currency_body
  currency_body-Keeps = search (row_rules, currency_code-Keeps) depth 60

  payment_method_body-Keeps : Keeps {R = R} {W = W} (OnRow Passed) payment_method_body
  unfolding payment_method_body
  payment_method_body-Keeps = search (row_rules) depth 60

  product_names-Keeps : Keeps {R = R} {W = W} (OnRow Passed) product_names
  unfolding product_names
  product_names-Keeps = search (row_rules) depth 60

  product_info_body-Keeps : Keeps {R = R} {W = W} (OnRow Passed) product_info_body
  unfolding product_info_body
  product_info_body-Keeps = search (row_rules, product_names-Keeps) depth 60

  trade_term_body-Keeps : Keeps {R = R} {W = W} (OnRow Passed) trade_term_body
  unfolding trade_term_body
  trade_term_body-Keeps = search (row_rules) depth 60

  delivery_country-Keeps :
      (i : ReportData W) → Keeps {R = R} {W = W} (OnRow Passed) (delivery_country i)
  unfolding delivery_country
  delivery_country-Keeps i = search (row_rules) depth 60

  sales_account-Keeps : (i : ReportData W) → Keeps {R = R} {W = W} (OnRow Passed) (sales_account i)
  unfolding sales_account
  sales_account-Keeps i = search (row_rules) depth 60

  sales_employee-Keeps :
      (i : ReportData W) → Keeps {R = R} {W = W} (OnRow Passed) (sales_employee i)
  unfolding sales_employee
  sales_employee-Keeps i = search (row_rules) depth 60

  sales_company-Keeps : (i : ReportData W) → Keeps {R = R} {W = W} (OnRow Passed) (sales_company i)
  unfolding sales_company
  sales_company-Keeps i = search (row_rules) depth 60

  sales_country_body-Keeps : Keeps {R = R} {W = W} (OnRow Passed) sales_country_body
  unfolding sales_country_body
  sales_country_body-Keeps =
      search
        (
          row_rules, delivery_country-Keeps, sales_account-Keeps, sales_employee-Keeps,
          sales_company-Keeps,
        )
        depth 60

  approved_status_body-Keeps : Keeps {R = R} {W = W} (OnRow Passed) approved_status_body
  unfolding approved_status_body
  approved_status_body-Keeps = search (row_rules, status-Keeps) depth 60

  pi_body-Keeps : Keeps {R = R} {W = W} (OnRow Passed) pi_body
  unfolding pi_body
  pi_body-Keeps = search (row_rules) depth 60

pub passes-Keeps :
    {R W : Type 0} (e : Env R W) → All (Keeps {R = R} {W = W} (OnRow Passed)) (passes ⦃e = e⦄)
unfolding passes
passes-Keeps e =
    let instance env = e in
    (
      sales_info_body-Keeps,
      (
        customer_info_body-Keeps,
        (
          currency_body-Keeps,
          (
            payment_method_body-Keeps,
            (
              product_info_body-Keeps,
              (
                trade_term_body-Keeps,
                (sales_country_body-Keeps, (approved_status_body-Keeps, (pi_body-Keeps, tt))),
              ),
            ),
          ),
        ),
      ),
    )
