-- ===== src/Report/Alone/Terms.antt =====
-- What the report of src/tools/all_report/all_month_report.cpp has in the columns that are looked up through
-- one other table.
use asio_coro_frame.Base.{[], ◌∷◌, ◌≡◌, refl, sym, ap, ◌∙◌, List, some, none, ℕ, get_elem?, All}
use asio_coro_frame.Base.Places.{get_elem?-map}
use mathlib.Core.Path.{subst}
use asio_coro_frame.Report.{ReportData, Env}
use asio_coro_frame.Report.Sql.{report_sql}
use asio_coro_frame.Report.Action.{Action}
use asio_coro_frame.Report.Frame.{OnRow, OnRow-IsPreorder, OnRow-IsResFree, Keeps}
use asio_coro_frame.Report.Passes.{
  sales_info_body, currency_body, payment_method_body, trade_term_body, approved_status_body,
}
use asio_coro_frame.Report.Run.{MonthReport, Started, start, insert_data, passes}
use asio_coro_frame.Report.Alone.{Answers, Answered, ids, IsSmooth, alone, through}
use asio_coro_frame.Report.Alone.Filled.{start-lines}
use asio_coro_frame.Report.Alone.Columns.{
  Terms, Joined, sales_info_body-Has, currency_body-Has, payment_method_body-Has,
  trade_term_body-Has, approved_status_body-Has,
}
use asio_coro_frame.Report.Alone.Keyed.{
  terms_of, Key, key, SameKey, SameKey-IsOrder, Keeps-customer_info_body, Keeps-product_info_body,
  Keeps-sales_country_body, Keeps-pi_body,
}

abbrev pub all_of : {A : Type 0} → List (A → A) → A → A
all_of [] k = k
all_of (f ∷ fs) k = all_of fs (f k)

module _ {R W : Type 0} ⦃e : Env R W⦄ where
  -- A pass over a line whose quotation has these terms does `f` to the key.
  record Acts (t : Terms) (body : Action R W (Unit {0})) (f : Key → Key) : Type 0 where
    keeps_id : (k : Key) → (f k).id ≡ k.id
    acts : (r : ReportData W) → Joined e r.quotation_id t → key (alone body r).1.row ≡ f (key r)

  abbrev ActsAll : Terms → List (Action R W (Unit {0})) → List (Key → Key) → Type 0
  ActsAll t [] [] = Unit
  ActsAll t (body ∷ bodies) (f ∷ fs) = Acts t body f × ActsAll t bodies fs
  ActsAll t _ _ = ⊥

  through-acts :
      (t : Terms) (bodies : List (Action R W (Unit {0}))) (fs : List (Key → Key))
      → ActsAll t bodies fs
      → (r : ReportData W) → Joined e r.quotation_id t
      → key (through bodies r) ≡ all_of fs (key r)
  unfolding through
  through-acts t [] [] h r j = refl
  through-acts t [] (f ∷ fs) h r j = absurd h
  through-acts t (body ∷ bodies) [] h r j = absurd h
  through-acts t (body ∷ bodies) (f ∷ fs) h r j =
      let acted = h.0.acts r j in
      let same_id = ap (λ (q : Key). q.id) acted ∙ h.0.keeps_id (key r) in
      through-acts t bodies fs h.1 (alone body r).1.row
        (subst (λ id. Joined e id t) (sym same_id) j)
      ∙ ap (all_of fs) acted

  kept-Acts :
      (t : Terms) (body : Action R W (Unit {0})) → Keeps (OnRow SameKey) body → Acts t body (λ k. k)
  kept-Acts t body keeps = record {
    keeps_id = λ k. refl;
    acts = λ r j. (keeps.at (record { row = r; res = none })).related.same;
  }

  sales-Acts :
      (t : Terms)
      → Acts t sales_info_body
          (λ k. record k { terms = record k.terms { sales_full_name = t.sales_full_name } })
  sales-Acts t = record { keeps_id = λ k. refl; acts = λ r j. ap key (sales_info_body-Has r t j) }

  currency-Acts :
      (t : Terms)
      → Acts t currency_body (λ k. record k { terms = record k.terms { currency = t.currency } })
  currency-Acts t = record { keeps_id = λ k. refl; acts = λ r j. ap key (currency_body-Has r t j) }

  payment-Acts :
      (t : Terms)
      → Acts t payment_method_body
          (λ k. record k { terms = record k.terms { payment_term_desc = t.payment_term_desc } })
  payment-Acts t = record {
    keeps_id = λ k. refl;
    acts = λ r j. ap key (payment_method_body-Has r t j);
  }

  condition-Acts :
      (t : Terms)
      → Acts t trade_term_body
          (λ k. record k { terms = record k.terms { price_condition = t.price_condition } })
  condition-Acts t = record {
    keeps_id = λ k. refl;
    acts = λ r j. ap key (trade_term_body-Has r t j);
  }

  approval-Acts :
      (t : Terms)
      → Acts t approved_status_body
          (λ k. record k { terms = record k.terms { approval_status = t.approval_status } })
  approval-Acts t = record {
    keeps_id = λ k. refl;
    acts = λ r j. ap key (approved_status_body-Has r t j);
  }

passes-Acts :
    {R W : Type 0} (e : Env R W) (t : Terms)
    → ActsAll ⦃e = e⦄ t (passes ⦃e = e⦄) (
        (λ k. record k { terms = record k.terms { sales_full_name = t.sales_full_name } })
        ∷ (λ k. k)
        ∷ (λ k. record k { terms = record k.terms { currency = t.currency } })
        ∷ (λ k. record k { terms = record k.terms { payment_term_desc = t.payment_term_desc } })
        ∷ (λ k. k)
        ∷ (λ k. record k { terms = record k.terms { price_condition = t.price_condition } })
        ∷ (λ k. k)
        ∷ (λ k. record k { terms = record k.terms { approval_status = t.approval_status } })
        ∷ (λ k. k)
        ∷ [])
unfolding passes
passes-Acts e t =
    let instance env = e in
    (
      sales-Acts t,
      (
        kept-Acts t _ Keeps-customer_info_body,
        (
          currency-Acts t,
          (
            payment-Acts t,
            (
              kept-Acts t _ Keeps-product_info_body,
              (
                condition-Acts t,
                (
                  kept-Acts t _ Keeps-sales_country_body,
                  (approval-Acts t, (kept-Acts t _ Keeps-pi_body, tt)),
                ),
              ),
            ),
          ),
        ),
      ),
    )

module _ {R W : Type 0} ⦃e : Env R W⦄ where
  -- When the report's own query and the first query of each pass for each line succeed and no call
  -- on a result throws in a pass, a line of the report for whose quotation the database has the
  -- seller's name, the currency, the way of payment, the condition of the price and the approval
  -- status has these five, whatever the other lines are.
  pub start-terms :
      (p : MonthReport R W) (s : Started R W)
      → Answers e report_sql
      → All (λ i. Answered e (ids i)) p.rows
      → All (IsSmooth {R = R} passes) p.rows
      → insert_data (e.execute report_sql) ≡ some p
      → start ≡ some s
      → (k : ℕ) (i j : ReportData W) (t : Terms) → get_elem? p.rows k ≡ some i
      → get_elem? s.report.rows k ≡ some j
      → Joined e i.quotation_id t
      → terms_of j ≡ t
  start-terms p s got answered smooth read run k i j t at_i at_j joined =
      let lines = start-lines p s got answered smooth read run in
      let there : get_elem? s.report.rows k ≡ some (through {R = R} passes i) =
        rw lines (get_elem?-map (through {R = R} passes) k i p.rows at_i) in
      let same : j ≡ through {R = R} passes i = cc in
      ap terms_of same
      ∙ ap (λ (q : Key). q.terms) (through-acts t passes _ (passes-Acts e t) i joined)
