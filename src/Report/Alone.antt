-- ===== src/Report/Alone.antt =====
-- What each line of the report of src/tools/all_report/all_month_report.cpp becomes by itself: a
-- reference for the passes, which go over all lines column by column and share `m_res`.
pub mod Fresh
pub mod Smooth
pub mod Filled
pub mod Columns
pub mod Found
pub mod Keyed
pub mod Terms
pub mod Complete
use asio_coro_frame.Base.{◌≡◌, ◌≢◌, List, [], ◌∷◌, Option, none, some, Text}
use asio_coro_frame.Report.{ReportData, Env}
use asio_coro_frame.Report.Sql.{sql}
use asio_coro_frame.Report.Action.{Context, Exit, ok, skip, raised, fault, Action}

-- The query succeeds; a call on its result may still throw.
abbrev pub Answers : {R W : Type 0} → Env R W → Text → Type 0
Answers {R = R} e text = (r : R) × (e.execute text ≡ some r)

-- the ids of a line, which no pass changes
pub record Ids : Type 0 where
  pub quotation : Text
  pub detail : Text

abbrev pub ids : {W : Type 0} → ReportData W → Ids
ids r = record { quotation = r.quotation_id; detail = r.quotation_detail_id }

-- The first query of each pass over a line succeeds; two passes begin with the country of delivery.
pub record Answered {R W : Type 0} (e : Env R W) (of : Ids) : Type 0 where
  pub sales : Answers e (sql "select sales_id from t_quotation where quotation_id='" of.quotation)
  pub delivery :
      Answers e
        (sql "select delivery_country_id from t_quotation where quotation_id='" of.quotation)
  pub currency :
      Answers e (sql "select currency_id from t_quotation where quotation_id='" of.quotation)
  pub payment :
      Answers e
        (sql "select payment_method_id from t_payment_term where quotation_id='" of.quotation)
  pub item :
      Answers e
        (sql "select item_master_id from t_quotation_detail where quotation_detail_id='" of.detail)
  pub term :
      Answers e (sql "select trade_term_id from t_quotation where quotation_id='" of.quotation)
  pub approval :
      Answers e (sql "select approval_status from t_quotation where quotation_id='" of.quotation)
  pub invoice : Answers e (
      sql "select pi_no,buyer_po,contract_no from t_proforma_invoice where quotation_id='"
        of.quotation)

module _ {R W : Type 0} where
  -- A loop body on one line, with no result set from before.
  abbrev pub alone : Action R W (Unit {0}) → ReportData W → Exit (Unit {0}) × Context R W
  alone body i = body (record { row = i; res = none })

  abbrev pub filled :
      Exit (Unit {0}) × Context R W
      → List (ReportData W)
      → List (ReportData W)
      → List (ReportData W)
  filled (raised, c) is others = c.row ∷ is
  filled (ok _, c) is others = c.row ∷ others
  filled (skip, c) is others = c.row ∷ others
  filled (fault, c) is others = c.row ∷ others

  -- One column: each line alone, up to the first one at which a call throws.
  unfoldable pub fill : Action R W (Unit {0}) → List (ReportData W) → List (ReportData W)
  fill body [] = []
  fill body (i ∷ is) = let others = fill body is in filled (alone body i) is others

  unfoldable pub fill_all : List (Action R W (Unit {0})) → List (ReportData W) → List (ReportData W)
  unfolding fill
  fill_all [] is = is
  fill_all (body ∷ bodies) is = fill_all bodies (fill body is)

  -- One line through all passes.
  unfoldable pub through : List (Action R W (Unit {0})) → ReportData W → ReportData W
  through [] i = i
  through (body ∷ bodies) i = through bodies (alone body i).1.row

  -- No call on a result throws in a pass over this line.
  abbrev pub IsSmooth : List (Action R W (Unit {0})) → ReportData W → Type 0
  IsSmooth [] i = Unit
  IsSmooth (body ∷ bodies) i = ((alone body i).0 ≢ raised) × IsSmooth bodies (alone body i).1.row
