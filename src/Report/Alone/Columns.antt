-- ===== src/Report/Alone/Columns.antt =====
-- The columns that src/tools/all_report/all_month_report.cpp looks up through one other table.
use asio_coro_frame.Base.{◌≡◌, refl, Bool, false, [], none, some, Text, ltb, text_eq, lit}
use asio_coro_frame.Report.{ReportData, Env}
use asio_coro_frame.Report.Sql.{sql}
use asio_coro_frame.Report.Action.{
  Context, ok, ◌>>=◌, ◌>>◌, pure, this_row, modify, with_res, rows_count, is_null, get_string,
  get_string_at, fetch, null_or_empty, no_value,
}
use asio_coro_frame.Report.Alone.{alone}
use asio_coro_frame.Report.Passes.{
  sales_info_body, currency_body, currency_code, payment_method_body, trade_term_body,
  approved_status_body, status_name,
}
use asio_coro_frame.Report.Stops.{fetch-found}

pub record Terms : Type 0 where
  pub sales_full_name : Text
  pub currency : Text
  pub payment_term_desc : Text
  pub price_condition : Text
  pub approval_status : Text

-- The first row of the query's answer has the text `s` in its first column, which has this label.
pub record Has {R W : Type 0} (e : Env R W) (text label s : Text) : Type 0 where
  pub answer : R
  pub row : R
  pub found : Bool
  pub executes : e.execute text ≡ some answer
  pub moves : e.next answer ≡ some (found, row)
  pub counted : ltb (e.rows_count row) 1 ≡ false
  pub not_null : e.is_null row label ≡ some false
  pub first : e.get_string_at row 1 ≡ some s
  pub labelled : e.get_string row label ≡ some s
  pub not_empty : text_eq s [] ≡ false

-- What the database has for the quotation with this id.
pub record Joined {R W : Type 0} (e : Env R W) (id : Text) (t : Terms) : Type 0 where
  pub sales_id : Text
  pub employee_no : Text
  pub trade_term_id : Text
  pub payment_method_id : Text
  pub currency_id : Text
  pub status : Text
  pub sales :
      Has e
        (sql "select sales_id from t_quotation where quotation_id='" id)
        (lit "sales_id")
        sales_id
  pub account :
      Has e
        (sql "select employee_no from t_system_account where system_account_id='" sales_id)
        (lit "employee_no")
        employee_no
  pub employee :
      Has e
        (sql "select full_name,position_id  from t_employee where employee_id='" employee_no)
        (lit "full_name")
        t.sales_full_name
  pub quoted_currency :
      Has e
        (sql "select currency_id from t_quotation where quotation_id='" id)
        (lit "currency_id")
        currency_id
  pub code :
      Has e
        (sql "select code from t_currency where currency_id='" currency_id)
        (lit "code")
        t.currency
  pub payment :
      Has e
        (sql "select payment_method_id from t_payment_term where quotation_id='" id)
        (lit "payment_method_id")
        payment_method_id
  pub method :
      Has e
        (sql "select name from t_payment_method where payment_method_id='" payment_method_id)
        (lit "name")
        t.payment_term_desc
  pub term :
      Has e
        (sql "select trade_term_id from t_quotation where quotation_id='" id)
        (lit "trade_term_id")
        trade_term_id
  pub condition :
      Has e
        (sql "select short_name from t_trade_term where trade_term_id='" trade_term_id)
        (lit "short_name")
        t.price_condition
  pub approval :
      Has e
        (sql "select approval_status from t_quotation where quotation_id='" id)
        (lit "approval_status")
        status
  pub named : status_name status ≡ t.approval_status

module _ {R W : Type 0} ⦃e : Env R W⦄ where
  pub fetch-Has :
      (text label s : Text) (h : Has e text label s) (c : Context R W)
      → fetch text c ≡ (ok tt, record c { res = some h.row })
  fetch-Has text label s h c = fetch-found text c h.answer h.row h.found h.executes h.moves

  pub no_value-Has :
      (text label s : Text) (h : Has e text label s) (i : ReportData W)
      → no_value label (record { row = i; res = some h.row })
        ≡ (ok false, record { row = i; res = some h.row })
  unfolding no_value null_or_empty rows_count is_null get_string_at with_res ◌>>=◌ pure
  no_value-Has text label s h i = rw (h.counted, h.not_null, h.first, h.not_empty, no_value) refl

  pub null_or_empty-Has :
      (text label s : Text) (h : Has e text label s) (i : ReportData W)
      → null_or_empty label 1 (record { row = i; res = some h.row })
        ≡ (ok false, record { row = i; res = some h.row })
  unfolding null_or_empty is_null get_string_at with_res ◌>>=◌ pure
  null_or_empty-Has text label s h i = rw (h.not_null, h.first, h.not_empty, null_or_empty) refl

  module _ (i : ReportData W) (t : Terms) (j : Joined e i.quotation_id t) where
    pub sales_info_body-Has :
        (alone {R = R} sales_info_body i).1.row ≡ record i { sales_full_name = t.sales_full_name }
    unfolding sales_info_body ◌>>=◌ ◌>>◌ this_row get_string_at get_string with_res pure modify
    sales_info_body-Has =
        let a = j.sales in
        let b = j.account in
        let c = j.employee in
        let first = fetch-Has _ _ _ a (record { row = i; res = none }) in
        let second = fetch-Has _ _ _ b (record { row = i; res = some a.row }) in
        let third = fetch-Has _ _ _ c (record { row = i; res = some b.row }) in
        rw (first, a.first, second, b.labelled, third, c.labelled, sales_info_body) refl

    pub currency_body-Has : (alone {R = R} currency_body i).1.row ≡ record i {
      currency = t.currency;
      price_total_currency = t.currency;
      guided_currency = t.currency;
    }
    unfolding currency_body currency_code ◌>>=◌ ◌>>◌ this_row get_string_at get_string with_res pure
        modify
    currency_body-Has =
        let a = j.quoted_currency in
        let b = j.code in
        let first = fetch-Has _ _ _ a (record { row = i; res = none }) in
        let there = null_or_empty-Has _ _ _ a i in
        let second = fetch-Has _ _ _ b (record { row = i; res = some a.row }) in
        let named = null_or_empty-Has _ _ _ b i in
        rw (first, there, a.first, second, named, b.labelled, b.labelled, b.labelled, currency_body)
          refl

    pub payment_method_body-Has :
        (alone {R = R} payment_method_body i).1.row
        ≡ record i { payment_term_desc = t.payment_term_desc }
    unfolding payment_method_body ◌>>=◌ ◌>>◌ this_row get_string_at get_string with_res pure modify
    payment_method_body-Has =
        let a = j.payment in
        let b = j.method in
        let first = fetch-Has _ _ _ a (record { row = i; res = none }) in
        let there = no_value-Has _ _ _ a i in
        let second = fetch-Has _ _ _ b (record { row = i; res = some a.row }) in
        let named = null_or_empty-Has _ _ _ b i in
        rw (first, there, a.first, second, named, b.labelled, payment_method_body) refl

    pub trade_term_body-Has :
        (alone {R = R} trade_term_body i).1.row ≡ record i { price_condition = t.price_condition }
    unfolding trade_term_body ◌>>=◌ ◌>>◌ this_row get_string_at get_string with_res pure modify
    trade_term_body-Has =
        let a = j.term in
        let b = j.condition in
        let first = fetch-Has _ _ _ a (record { row = i; res = none }) in
        let there = no_value-Has _ _ _ a i in
        let second = fetch-Has _ _ _ b (record { row = i; res = some a.row }) in
        let named = no_value-Has _ _ _ b i in
        rw (first, there, a.first, second, named, b.labelled, trade_term_body) refl

    pub approved_status_body-Has :
        (alone {R = R} approved_status_body i).1.row
        ≡ record i { approval_status = t.approval_status }
    unfolding approved_status_body ◌>>=◌ ◌>>◌ this_row get_string_at with_res pure modify
    approved_status_body-Has =
        let a = j.approval in
        let first = fetch-Has _ _ _ a (record { row = i; res = none }) in
        let there = no_value-Has _ _ _ a i in
        rw (first, there, a.first, j.named, approved_status_body) refl
