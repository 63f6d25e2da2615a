-- ===== src/Report/Alone/Complete.antt =====
-- A whole line of the report of src/tools/all_report/all_month_report.cpp, where the database has everything
-- that is looked up for it.
use asio_coro_frame.Base.{◌≡◌, refl, sym, ap, ◌∙◌, List, [], ◌∷◌, some, ℕ, get_elem?, All}
use asio_coro_frame.Base.Places.{get_elem?-map}
use mathlib.Core.Path.{subst}
use asio_coro_frame.Report.{ReportData, Env}
use asio_coro_frame.Report.Sql.{report_sql}
use asio_coro_frame.Report.Action.{Action}
use asio_coro_frame.Report.Run.{MonthReport, Started, start, insert_data, passes}
use asio_coro_frame.Report.Alone.{Answers, Answered, Ids, ids, IsSmooth, alone, through}
use asio_coro_frame.Report.Alone.Filled.{start-lines}
use asio_coro_frame.Report.Alone.Columns.{
  Terms, Joined, sales_info_body-Has, currency_body-Has, payment_method_body-Has,
  trade_term_body-Has, approved_status_body-Has,
}
use asio_coro_frame.Report.Alone.Found.{
  Invoice, HasInvoice, Product, HasProduct, Customer, HasCustomer, Seller, HasSeller,
}
use asio_coro_frame.Report.Alone.Found.Bodies.{
  pi_body-Has, product_info_body-Has, customer_info_body-Has, sales_country_body-Has,
}
use asio_coro_frame.Report.Alone.Terms.{all_of}

pub record Lookup : Type 0 where
  pub terms : Terms
  pub customer : Customer
  pub product : Product
  pub seller : Seller
  pub invoice : Invoice

pub record HasAll {R W : Type 0} (e : Env R W) (of : Ids) (t : Lookup) : Type 0 where
  pub terms : Joined e of.quotation t.terms
  pub customer : HasCustomer e of.quotation t.customer
  pub product : HasProduct e of.detail t.product
  pub seller : HasSeller e of.quotation t.seller
  pub invoice : HasInvoice e of.quotation t.invoice

-- The line with all that is looked up. deal_with_sales_country comes after deal_with_customer_info, so
-- that the country of delivery is the one that it finds.
abbrev pub completed : {W : Type 0} → Lookup → ReportData W → ReportData W
completed t r = record r {
  sales_full_name = t.terms.sales_full_name;
  receiving_countries = t.seller.receiving_countries;
  import_area = t.customer.import_area;
  country_id = t.customer.country_id;
  account_name = t.customer.account_name;
  customer_countries = t.customer.customer_countries;
  country_region = t.customer.country_region;
  currency = t.terms.currency;
  price_total_currency = t.terms.currency;
  guided_currency = t.terms.currency;
  payment_term_desc = t.terms.payment_term_desc;
  product_name_id = t.product.product_name_id;
  product_name = t.product.product_name;
  price_condition = t.terms.price_condition;
  owner_sales_sys_account_id = t.seller.owner_sales_sys_account_id;
  sales_employee_id = t.seller.sales_employee_id;
  sales_company_name = t.seller.sales_company_name;
  approval_status = t.terms.approval_status;
  pi_no = t.invoice.pi_no;
  buyers_po = t.invoice.buyers_po;
  contract_no = t.invoice.contract_no;
}

module _ {R W : Type 0} ⦃e : Env R W⦄ where
  -- A pass over a line for which the database has everything does `f` to it.
  record Fills (t : Lookup) (body : Action R W (Unit {0})) (f : ReportData W → ReportData W)
      : Type 0 where
    keeps_ids : (r : ReportData W) → ids (f r) ≡ ids r
    fills : (r : ReportData W) → HasAll e (ids r) t → (alone body r).1.row ≡ f r

  abbrev FillsAll :
      Lookup → List (Action R W (Unit {0})) → List (ReportData W → ReportData W) → Type 0
  FillsAll t [] [] = Unit
  FillsAll t (body ∷ bodies) (f ∷ fs) = Fills t body f × FillsAll t bodies fs
  FillsAll t _ _ = ⊥

  through-fills :
      (t : Lookup) (bodies : List (Action R W (Unit {0}))) (fs : List (ReportData W → ReportData W))
      → FillsAll t bodies fs
      → (r : ReportData W) → HasAll e (ids r) t
      → through bodies r ≡ all_of fs r
  unfolding through
  through-fills t [] [] h r j = refl
  through-fills t [] (f ∷ fs) h r j = absurd h
  through-fills t (body ∷ bodies) [] h r j = absurd h
  through-fills t (body ∷ bodies) (f ∷ fs) h r j =
      let filled = h.0.fills r j in
      let same_ids = ap ids filled ∙ h.0.keeps_ids r in
      through-fills t bodies fs h.1 (alone body r).1.row
        (subst (λ of. HasAll e of t) (sym same_ids) j)
      ∙ ap (all_of fs) filled

abbrev steps : {W : Type 0} → Lookup → List (ReportData W → ReportData W)
steps t =
    (λ r. record r { sales_full_name = t.terms.sales_full_name })
    ∷ (λ r. record r {
      receiving_countries = t.customer.receiving_countries;
      import_area = t.customer.import_area;
      country_id = t.customer.country_id;
      account_name = t.customer.account_name;
      customer_countries = t.customer.customer_countries;
      country_region = t.customer.country_region;
    })
    ∷ (λ r. record r {
      currency = t.terms.currency;
      price_total_currency = t.terms.currency;
      guided_currency = t.terms.currency;
    })
    ∷ (λ r. record r { payment_term_desc = t.terms.payment_term_desc })
    ∷ (λ r. record r {
      product_name_id = t.product.product_name_id;
      product_name = t.product.product_name;
    })
    ∷ (λ r. record r { price_condition = t.terms.price_condition })
    ∷ (λ r. record r {
      receiving_countries = t.seller.receiving_countries;
      owner_sales_sys_account_id = t.seller.owner_sales_sys_account_id;
      sales_employee_id = t.seller.sales_employee_id;
      sales_company_name = t.seller.sales_company_name;
    })
    ∷ (λ r. record r { approval_status = t.terms.approval_status })
    ∷ (λ r. record r {
      pi_no = t.invoice.pi_no;
      buyers_po = t.invoice.buyers_po;
      contract_no = t.invoice.contract_no;
    })
    ∷ []

passes-Fills :
    {R W : Type 0} (e : Env R W) (t : Lookup) → FillsAll ⦃e = e⦄ t (passes ⦃e = e⦄) (steps t)
unfolding passes
passes-Fills e t =
    let instance env = e in
    (
      record { keeps_ids = λ r. refl; fills = λ r h. sales_info_body-Has r t.terms h.terms },
      (
        record {
          keeps_ids = λ r. refl;
          fills = λ r h. customer_info_body-Has r t.customer h.customer;
        },
        (
          record { keeps_ids = λ r. refl; fills = λ r h. currency_body-Has r t.terms h.terms },
          (
            record {
              keeps_ids = λ r. refl;
              fills = λ r h. payment_method_body-Has r t.terms h.terms;
            },
            (
              record {
                keeps_ids = λ r. refl;
                fills = λ r h. product_info_body-Has r t.product h.product;
              },
              (
                record {
                  keeps_ids = λ r. refl;
                  fills = λ r h. trade_term_body-Has r t.terms h.terms;
                },
                (
                  record {
                    keeps_ids = λ r. refl;
                    fills = λ r h. sales_country_body-Has r t.seller h.seller;
                  },
                  (
                    record {
                      keeps_ids = λ r. refl;
                      fills = λ r h. approved_status_body-Has r t.terms h.terms;
                    },
                    (
                      record {
                        keeps_ids = λ r. refl;
                        fills = λ r h. pi_body-Has r t.invoice h.invoice;
                      },
                      tt,
                    ),
                  ),
                ),
              ),
            ),
          ),
        ),
      ),
    )

module _ {R W : Type 0} ⦃e : Env R W⦄ where
  -- When the report's own query and the first query of each pass for each line succeed and no call
  -- on a result throws in a pass, a line for which the database has everything that is looked up is
  -- finished with exactly that, and with the columns that insert_data filled, whatever the other
  -- lines are.
  pub start-completed :
      (p : MonthReport R W) (s : Started R W)
      → Answers e report_sql
      → All (λ i. Answered e (ids i)) p.rows
      → All (IsSmooth {R = R} passes) p.rows
      → insert_data (e.execute report_sql) ≡ some p
      → start ≡ some s
      → (k : ℕ) (i j : ReportData W) (t : Lookup) → get_elem? p.rows k ≡ some i
      → get_elem? s.report.rows k ≡ some j
      → HasAll e (ids i) t
      → j ≡ completed t i
  start-completed p s got answered smooth read run k i j t at_i at_j has =
      let lines = start-lines p s got answered smooth read run in
      let there : get_elem? s.report.rows k ≡ some (through {R = R} passes i) =
        rw lines (get_elem?-map (through {R = R} passes) k i p.rows at_i) in
      let same : j ≡ through {R = R} passes i = cc in
      same ∙ through-fills t passes (steps t) (passes-Fills e t) i has
