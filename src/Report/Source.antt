-- ===== src/Report/Source.antt =====
-- What the passes of src/tools/all_report/all_month_report.cpp leave of the lines of insert_data, and
-- what holds of the columns when they are done.
use asio_coro_frame.Base.{◌≡◌, refl, ◌∙◌, List, [], ◌∷◌, some, map, arith, Pointwise}
use mathlib.Core.Path.{ap₂}
use asio_coro_frame.Report.{ReportData, Env}
use asio_coro_frame.Report.Sql.{report_sql}
use asio_coro_frame.Report.Run.{
  MonthReport, Started, passes, deal_with_all, deal_with_each, insert_data, start,
}
use asio_coro_frame.Report.Frame.Loops.{deal_with_all-Pointwise}
use asio_coro_frame.Report.Passed.Bodies.{passes-Keeps}
use asio_coro_frame.Report.Passed.{source, Passed, Passed-IsOrder}

map-source :
    {W : Type 0} (is js : List (ReportData W))
    → Pointwise Passed is js
    → map source js ≡ map source is
map-source [] [] h = refl
map-source [] (j ∷ js) h = absurd h
map-source (i ∷ is) [] h = absurd h
map-source (i ∷ is) (j ∷ js) h = ap₂ ◌∷◌ h.0.kept (map-source is js h.1)

module _ {R W : Type 0} ⦃e : Env R W⦄ where
  deal_with_each-all : (p : MonthReport R W) → deal_with_each p ≡ deal_with_all passes p
  unfolding deal_with_each deal_with_all passes
  deal_with_each-all p = refl

  pub start-report :
      (p : MonthReport R W) (s : Started R W)
      → insert_data (e.execute report_sql) ≡ some p
      → start ≡ some s
      → s.report ≡ deal_with_all passes p
  unfolding start
  start-report p s read run =
      let same : s.report ≡ deal_with_each p = ground (arith, rw (read, start) at run) in
      same ∙ deal_with_each-all p

  -- Whatever the passes find in the database and wherever an exception stops them, the report has
  -- the lines that insert_data read, in their order, with the ten columns that insert_data filled.
  pub start-source :
      (p : MonthReport R W) (s : Started R W)
      → insert_data (e.execute report_sql) ≡ some p
      → start ≡ some s
      → map source s.report.rows ≡ map source p.rows
  start-source p s read run =
      rw (start-report p s read run)
        (map-source p.rows _ (deal_with_all-Pointwise Passed passes p (passes-Keeps e)))
