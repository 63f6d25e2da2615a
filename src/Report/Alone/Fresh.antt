-- ===== src/Report/Alone/Fresh.antt =====
-- The loop bodies of src/tools/all_report/all_month_report.cpp begin with a query, so that nothing of an
-- earlier line's result set reaches a line.
use asio_coro_frame.Base.{◌≡◌, refl, ap, All, Option, Text}
use asio_coro_frame.Report.{ReportData, Env}
use asio_coro_frame.Report.Action.{Action, and_then, ◌>>=◌, ◌>>◌, this_row, query, fetch}
use asio_coro_frame.Report.Alone.{Answers, Answered, ids}
use asio_coro_frame.Report.Passes.{
  sales_info_body, destination, customer_info_body, currency_body, payment_method_body,
  product_info_body, trade_term_body, delivery_country, sales_country_body, approved_status_body,
  pi_body,
}
use asio_coro_frame.Report.Run.{passes}

-- What a body does at this line does not depend on the result set that it finds.
record FreshAt {R W A : Type 0} (i : ReportData W) (m : Action R W A) : Type 0 where
  same :
      (res res' : Option R) → m (record { row = i; res = res }) ≡ m (record { row = i; res = res' })

-- So it is at each line for which the queries are answered.
pub record Fresh {R W : Type 0} (e : Env R W) (m : Action R W (Unit {0})) : Type 0 where
  pub same :
      (i : ReportData W)
      → Answered e (ids i)
      → (res res' : Option R)
      → m (record { row = i; res = res }) ≡ m (record { row = i; res = res' })

module _ {R W : Type 0} {i : ReportData W} where
  FreshAt-then :
      {B : Type 0} (m : Action R W (Unit {0})) (k : Action R W B) → FreshAt i m → FreshAt i (m >> k)
  unfolding ◌>>◌ ◌>>=◌
  FreshAt-then m k h = record { same = λ res res'. ap (λ x. and_then x (λ _. k)) (h.same res res') }

  FreshAt-this_row :
      {B : Type 0} (f : ReportData W → Action R W B) → FreshAt i (f i) → FreshAt i (this_row >>= f)
  unfolding this_row ◌>>=◌
  FreshAt-this_row f h = record { same = λ res res'. h.same res res' }

module _ {R W : Type 0} ⦃e : Env R W⦄ {i : ReportData W} where
  FreshAt-query : (text : Text) → Answers e text → FreshAt {R = R} i (query text)
  unfolding query
  FreshAt-query text (r, got) = record { same = λ res res'. rw (got, query) refl }

  FreshAt-fetch : (text : Text) → Answers e text → FreshAt {R = R} i (fetch text)
  unfolding fetch
  FreshAt-fetch text got = FreshAt-then _ _ (FreshAt-query text got)

ruleset fresh_rules = (FreshAt-this_row, FreshAt-then, FreshAt-fetch)

module _ {R W : Type 0} ⦃e : Env R W⦄ where
  at_each :
      (m : Action R W (Unit {0}))
      → ((i : ReportData W) → Answered e (ids i) → FreshAt i m)
      → Fresh e m
  at_each m f = record { same = λ i h. (f i h).same }

  Fresh-sales_info_body : Fresh e sales_info_body
  unfolding sales_info_body
  Fresh-sales_info_body = at_each _ (λ i h. search (fresh_rules, h.sales) depth 20)

  Fresh-customer_info_body : Fresh e customer_info_body
  unfolding customer_info_body destination
  Fresh-customer_info_body = at_each _ (λ i h. search (fresh_rules, h.delivery) depth 20)

  Fresh-currency_body : Fresh e currency_body
  unfolding currency_body
  Fresh-currency_body = at_each _ (λ i h. search (fresh_rules, h.currency) depth 20)

  Fresh-payment_method_body : Fresh e payment_method_body
  unfolding payment_method_body
  Fresh-payment_method_body = at_each _ (λ i h. search (fresh_rules, h.payment) depth 20)

  Fresh-product_info_body : Fresh e product_info_body
  unfolding product_info_body
  Fresh-product_info_body = at_each _ (λ i h. search (fresh_rules, h.item) depth 20)

  Fresh-trade_term_body : Fresh e trade_term_body
  unfolding trade_term_body
  Fresh-trade_term_body = at_each _ (λ i h. search (fresh_rules, h.term) depth 20)

  Fresh-sales_country_body : Fresh e sales_country_body
  unfolding sales_country_body delivery_country
  Fresh-sales_country_body = at_each _ (λ i h. search (fresh_rules, h.delivery) depth 20)

  Fresh-approved_status_body : Fresh e approved_status_body
  unfolding approved_status_body
  Fresh-approved_status_body = at_each _ (λ i h. search (fresh_rules, h.approval) depth 20)

  Fresh-pi_body : Fresh e pi_body
  unfolding pi_body
  Fresh-pi_body = at_each _ (λ i h. search (fresh_rules, h.invoice) depth 20)

pub passes-Fresh : {R W : Type 0} (e : Env R W) → All (Fresh e) (passes ⦃e = e⦄)
unfolding passes
passes-Fresh e =
    let instance env = e in
    (
      Fresh-sales_info_body,
      (
        Fresh-customer_info_body,
        (
          Fresh-currency_body,
          (
            Fresh-payment_method_body,
            (
              Fresh-product_info_body,
              (
                Fresh-trade_term_body,
                (Fresh-sales_country_body, (Fresh-approved_status_body, (Fresh-pi_body, tt))),
              ),
            ),
          ),
        ),
      ),
    )
