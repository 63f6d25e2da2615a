-- ===== src/Report/Lines.antt =====
-- What holds of every line of the finished report of src/tools/all_report/all_month_report.cpp.
use asio_coro_frame.Base.{
  ◌≡◌, ◌∙◌, sym, inl, inr, List, [], ◌∷◌, some, arith, All, Pointwise, Option-cases,
}
use mathlib.Core.Path.{subst}
use asio_coro_frame.Report.{ReportData, Env, blank}
use asio_coro_frame.Report.Frame.Loops.{deal_with_all-Pointwise}
use asio_coro_frame.Report.Insert.{IsPriced}
use asio_coro_frame.Report.Insert.Loop.{Unlabelled, insert_data-lines}
use asio_coro_frame.Report.Passed.Bodies.{passes-Keeps}
use asio_coro_frame.Report.Passed.{source, Passed, Passed-IsOrder, IsStatus, OneCurrency}
use asio_coro_frame.Report.Run.{Started, passes, insert_data, start}
use asio_coro_frame.Report.Source.{start-report}
use asio_coro_frame.Report.Sql.{report_sql}

module _ {A : Type 0} where
  All-map : (P Q : A → Type 0) (is : List A) → ((a : A) → P a → Q a) → All P is → All Q is
  All-map P Q [] k h = tt
  All-map P Q (i ∷ is) k h = (k i h.0, All-map P Q is k h.1)

  -- A property of the first line of each pair gives one of the second.
  Pointwise-All :
      (S : A → A → Type 0) (P : A → Type 0) (Q : A → Type 0) (is : List A) (js : List A)
      → ((a : A) (b : A) → S a b → P a → Q b)
      → Pointwise S is js
      → All P is
      → All Q js
  Pointwise-All S P Q [] [] k s h = tt
  Pointwise-All S P Q [] (j ∷ js) k s h = absurd s
  Pointwise-All S P Q (i ∷ is) [] k s h = absurd s
  Pointwise-All S P Q (i ∷ is) (j ∷ js) k s h = (k i j s.0 h.0, Pointwise-All S P Q is js k s.1 h.1)

-- what the three theorems below say of one line
record Finished {R W : Type 0} (e : Env R W) (r : ReportData W) : Type 0 where
  priced : IsPriced e.times e.nought (source r)
  status : IsStatus r.approval_status
  one : OneCurrency r

finished_line :
    {R W : Type 0} (e : Env R W) (r s : ReportData W)
    → Passed r s
    → IsPriced e.times e.nought (source r) × Unlabelled (blank e.nought) r
    → Finished e s
finished_line e r s p (h, u) = record {
  priced = subst (IsPriced e.times e.nought) (sym p.kept) h;
  status = elim p.status [
    | inl same ↦ record { named = inl (same ∙ u.approval) }
    | inr named ↦ named
  ];
  one = p.one (record { total = u.second ∙ sym u.first; guided = u.third ∙ sym u.first });
}

module _ {R W : Type 0} ⦃e : Env R W⦄ (s : Started R W) (run : start ≡ some s) where
  finished_report : All (Finished e) s.report.rows
  unfolding start
  finished_report = elim (Option-cases (insert_data ⦃e = e⦄ (e.execute report_sql))) [
    | inl dry ↦ ground (arith, rw (dry, start) at run)
    | inr (p, read) ↦ rw (start-report p s read run) (
        Pointwise-All Passed _ (Finished e) p.rows _ (finished_line e)
          (deal_with_all-Pointwise Passed passes p (passes-Keeps e)) (insert_data-lines _ p read))
  ]

  -- In every line of the finished report the total price is the unit price times the power, and the
  -- guided total is the power times the guidance price, or the price and its total are both 0.
  pub start-IsPriced : All (λ r. IsPriced e.times e.nought (source r)) s.report.rows
  start-IsPriced = All-map _ _ s.report.rows (λ r h. h.priced) finished_report

  -- The approval status of every line of the finished report is empty or one of the fourteen names of
  -- deal_with_approved_status, whatever code the database holds.
  pub start-IsStatus : All (λ r. IsStatus r.approval_status) s.report.rows
  start-IsStatus = All-map _ _ s.report.rows (λ r h. h.status) finished_report

  -- In every line of the finished report the three currencies, of the price, of the total and of the
  -- guidance price, are the same, even when a query fails.
  pub start-OneCurrency : All OneCurrency s.report.rows
  start-OneCurrency = All-map _ _ s.report.rows (λ r h. h.one) finished_report
