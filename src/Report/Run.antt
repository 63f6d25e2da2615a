-- ===== src/Report/Run.antt =====
-- month_report of src/tools/all_report/all_month_report.cpp: the loops over the lines with their
-- catch clauses, insert_data, and start.
use asio_coro_frame.Base.{ℕ, zero, suc, ◌+◌, Bool, true, false, List, [], ◌∷◌, Option, none, some}
use asio_coro_frame.Report.{ReportData, Env, blank}
use asio_coro_frame.Report.Action.{Context, Exit, ok, skip, raised, fault, Action}
use asio_coro_frame.Report.Passes.{
  insert_body, sales_info_body, customer_info_body, currency_body, payment_method_body,
  product_info_body, trade_term_body, sales_country_body, approved_status_body, pi_body,
}
use asio_coro_frame.Report.Sql.{report_sql}
use asio_coro_frame.Report.Excel.{Call, write_to_excel}

-- m_report_datas and m_res, with how the statement that left them ended: `skip` does not occur.
pub record MonthReport (R W : Type 0) : Type 0 where
  pub ended : Exit (Unit {0})
  pub rows : List (ReportData W)
  pub res : Option R

-- what start leaves: the members, and the file as the calls that write it
pub record Started (R W : Type 0) : Type 0 where
  pub report : MonthReport R W
  pub file : Option (List (Call W))

-- the catch clauses, which only log
abbrev pub caught : Exit (Unit {0}) → Exit (Unit {0})
caught fault = fault
caught _ = ok tt

module _ {R W : Type 0} where
  abbrev pub consed : ReportData W → MonthReport R W → MonthReport R W
  consed row p = record p { rows = row ∷ p.rows }

  -- how a loop goes on after a round: a throw leaves the loop, and `continue` the round only
  abbrev pub after_round :
      Exit (Unit {0}) × Context R W
      → List (ReportData W)
      → (Option R → MonthReport R W)
      → MonthReport R W
  after_round (ok _, c) is more = consed c.row (more c.res)
  after_round (skip, c) is more = consed c.row (more c.res)
  after_round (raised, c) is more = record { ended = raised; rows = c.row ∷ is; res = c.res }
  after_round (fault, c) is more = record { ended = fault; rows = c.row ∷ is; res = c.res }

  -- for(auto& i:m_report_datas) body
  unfoldable pub for_rows : Action R W (Unit {0}) → List (ReportData W) → Option R → MonthReport R W
  for_rows body [] res = record { ended = ok tt; rows = []; res = res }
  for_rows body (i ∷ is) res =
      after_round (body (record { row = i; res = res })) is (for_rows body is)

  abbrev pub try_catch : MonthReport R W → MonthReport R W
  try_catch p = record p { ended = caught p.ended }

  -- a statement, after those before it
  abbrev pub then_do : Exit (Unit {0}) → MonthReport R W → MonthReport R W → MonthReport R W
  then_do (ok _) before after = after
  then_do _ before after = before

  -- a `deal_with_…` function with the given loop body
  unfoldable pub deal_with : Action R W (Unit {0}) → MonthReport R W → MonthReport R W
  unfolding for_rows
  deal_with body p = then_do p.ended p (try_catch (for_rows body p.rows p.res))

  -- one `deal_with_…` function after the other
  unfoldable pub deal_with_all : List (Action R W (Unit {0})) → MonthReport R W → MonthReport R W
  unfolding deal_with
  deal_with_all [] p = p
  deal_with_all (body ∷ bodies) p = deal_with_all bodies (deal_with body p)

  -- the `while` of insert_data after a row was read: a throw loses the line at hand
  abbrev pub pushed :
      Exit (Unit {0}) × Context R W
      → (Option R → Option (MonthReport R W))
      → Option (MonthReport R W)
  pushed (ok _, c) more = elim (more c.res) [ none ↦ none | some p ↦ some (consed c.row p) ]
  pushed (skip, c) more = elim (more c.res) [ none ↦ none | some p ↦ some (consed c.row p) ]
  pushed (raised, c) more = some (record { ended = raised; rows = []; res = c.res })
  pushed (fault, c) more = some (record { ended = fault; rows = []; res = c.res })

module _ {R W : Type 0} ⦃e : Env R W⦄ where
  abbrev pub after_next :
      Option (Bool × R) → R → (R → Option (MonthReport R W)) → Option (MonthReport R W)
  after_next none r round = some (record { ended = raised; rows = []; res = some r })
  after_next (some (false, r')) r round = some (record { ended = ok tt; rows = []; res = some r' })
  after_next (some (true, r')) r round = round r'

  -- while(m_res->next()) of insert_data, on fuel; `none` means that the fuel ran out
  unfoldable pub insert_rows : ℕ → Option R → Option (MonthReport R W)
  unfolding insert_body
  insert_rows fuel none = some (record { ended = fault; rows = []; res = none })
  insert_rows zero (some r) = none
  insert_rows (suc fuel) (some r) = after_next (e.next r) r (λ r'.
      pushed (insert_body (record { row = blank e.nought; res = some r' })) (insert_rows fuel))

  -- insert_data, on an empty `m_report_datas`
  unfoldable pub insert_data : Option R → Option (MonthReport R W)
  unfolding insert_rows
  insert_data none = some (record { ended = fault; rows = []; res = none })
  insert_data (some r) = elim (insert_rows (e.rows_count r + 1) (some r)) [
    | none ↦ none
    | some p ↦ some (try_catch p)
  ]

  unfoldable pub deal_with_sales_info : MonthReport R W → MonthReport R W
  unfolding deal_with sales_info_body
  deal_with_sales_info p = deal_with sales_info_body p

  unfoldable pub deal_with_customer_info : MonthReport R W → MonthReport R W
  unfolding deal_with customer_info_body
  deal_with_customer_info p = deal_with customer_info_body p

  unfoldable pub deal_with_currency_info : MonthReport R W → MonthReport R W
  unfolding deal_with currency_body
  deal_with_currency_info p = deal_with currency_body p

  unfoldable pub deal_with_payment_method_info : MonthReport R W → MonthReport R W
  unfolding deal_with payment_method_body
  deal_with_payment_method_info p = deal_with payment_method_body p

  unfoldable pub deal_with_product_info : MonthReport R W → MonthReport R W
  unfolding deal_with product_info_body
  deal_with_product_info p = deal_with product_info_body p

  unfoldable pub deal_with_trade_term_info : MonthReport R W → MonthReport R W
  unfolding deal_with trade_term_body
  deal_with_trade_term_info p = deal_with trade_term_body p

  unfoldable pub deal_with_sales_country : MonthReport R W → MonthReport R W
  unfolding deal_with sales_country_body
  deal_with_sales_country p = deal_with sales_country_body p

  unfoldable pub deal_with_approved_status : MonthReport R W → MonthReport R W
  unfolding deal_with approved_status_body
  deal_with_approved_status p = deal_with approved_status_body p

  unfoldable pub deal_with_pi : MonthReport R W → MonthReport R W
  unfolding deal_with pi_body
  deal_with_pi p = deal_with pi_body p

  -- the calls of start between insert_data and write_to_excel
  unfoldable pub deal_with_each : MonthReport R W → MonthReport R W
  unfolding deal_with_sales_info deal_with_customer_info deal_with_currency_info
      deal_with_payment_method_info deal_with_product_info deal_with_trade_term_info
      deal_with_sales_country deal_with_approved_status deal_with_pi
  deal_with_each p =
      let a = deal_with_sales_info p in
      let b = deal_with_customer_info a in
      let c = deal_with_currency_info b in
      let d = deal_with_payment_method_info c in
      let e = deal_with_product_info d in
      let f = deal_with_trade_term_info e in
      let g = deal_with_sales_country f in let h = deal_with_approved_status g in deal_with_pi h

  -- the same passes as a list
  unfoldable pub passes : List (Action R W (Unit {0}))
  unfolding sales_info_body customer_info_body currency_body payment_method_body product_info_body
      trade_term_body sales_country_body approved_status_body pi_body
  passes =
      sales_info_body ∷ customer_info_body ∷ currency_body ∷ payment_method_body ∷ product_info_body
      ∷ trade_term_body ∷ sales_country_body ∷ approved_status_body ∷ pi_body ∷ []

  abbrev pub with_excel : MonthReport R W → Started R W
  with_excel p = record {
    report = p;
    file = elim p.ended [ ok _ ↦ some (write_to_excel p.rows) | _ ↦ none ];
  }

  -- month_report::start; `none` means that the fuel ran out
  unfoldable pub start : Option (Started R W)
  unfolding insert_data deal_with_each
  start = elim (insert_data (e.execute report_sql)) [
    | none ↦ none
    | some p ↦ some (with_excel (deal_with_each p))
  ]
