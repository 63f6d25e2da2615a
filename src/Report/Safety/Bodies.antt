-- ===== src/Report/Safety/Bodies.antt =====
-- No loop body of src/tools/all_report/all_month_report.cpp goes through a null `m_res` that was not
-- null before it.
use asio_coro_frame.Base.{All}
use asio_coro_frame.Report.{Env}
use asio_coro_frame.Report.Passes.{
  insert_body, insert_keys, insert_watts, insert_guidance, insert_price, sales_info_body,
  destination, import_area, customer_country, customer, customer_info_body, currency_body,
  currency_code, payment_method_body, product_info_body, product_names, trade_term_body,
  delivery_country, sales_account, sales_employee, sales_company, sales_country_body,
  approved_status_body, pi_body,
}
use asio_coro_frame.Report.Run.{passes}
use asio_coro_frame.Report.Safety.{Safe, safe_rules}

module _ {R W : Type 0} ⦃e : Env R W⦄ where
  pub Safe-insert_body : Safe {R = R} {W = W} insert_body
  unfolding insert_body insert_keys insert_watts insert_guidance insert_price
  Safe-insert_body = search (safe_rules) depth 60

  Safe-sales_info_body : Safe {R = R} {W = W} sales_info_body
  unfolding sales_info_body
  Safe-sales_info_body = search (safe_rules) depth 60

  Safe-customer_country : Safe {R = R} {W = W} customer_country
  unfolding customer_country
  Safe-customer_country = search (safe_rules) depth 60

  Safe-import_area : Safe {R = R} {W = W} import_area
  unfolding import_area
  Safe-import_area = search (safe_rules) depth 60

  Safe-customer_info_body : Safe {R = R} {W = W} customer_info_body
  unfolding customer_info_body customer destination
  Safe-customer_info_body = search (safe_rules, Safe-customer_country, Safe-import_area) depth 60

  Safe-currency_body : Safe {R = R} {W = W} currency_body
  unfolding currency_body currency_code
  Safe-currency_body = search (safe_rules) depth 60

  Safe-payment_method_body : Safe {R = R} {W = W} payment_method_body
  unfolding payment_method_body
  Safe-payment_method_body = search (safe_rules) depth 60

  Safe-product_info_body : Safe {R = R} {W = W} product_info_body
  unfolding product_info_body product_names
  Safe-product_info_body = search (safe_rules) depth 60

  Safe-trade_term_body : Safe {R = R} {W = W} trade_term_body
  unfolding trade_term_body
  Safe-trade_term_body = search (safe_rules) depth 60

  Safe-sales_country_body : Safe {R = R} {W = W} sales_country_body
  unfolding sales_country_body delivery_country sales_account sales_employee sales_company
  Safe-sales_country_body = search (safe_rules) depth 60

  Safe-approved_status_body : Safe {R = R} {W = W} approved_status_body
  unfolding approved_status_body
  Safe-approved_status_body = search (safe_rules) depth 60

  Safe-pi_body : Safe {R = R} {W = W} pi_body
  unfolding pi_body
  Safe-pi_body = search (safe_rules) depth 60

pub passes-Safe : {R W : Type 0} (e : Env R W) → All (Safe {R = R} {W = W}) (passes ⦃e = e⦄)
unfolding passes
passes-Safe e =
    let instance env = e in
    (
      Safe-sales_info_body,
      (
        Safe-customer_info_body,
        (
          Safe-currency_body,
          (
            Safe-payment_method_body,
            (
              Safe-product_info_body,
              (
                Safe-trade_term_body,
                (Safe-sales_country_body, (Safe-approved_status_body, (Safe-pi_body, tt))),
              ),
            ),
          ),
        ),
      ),
    )
