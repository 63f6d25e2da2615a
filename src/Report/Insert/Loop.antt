-- ===== src/Report/Insert/Loop.antt =====
-- The loop of insert_data of src/tools/all_report/all_month_report.cpp: what each round gives its line
-- holds of every line, and the fuel is enough.
use asio_coro_frame.Base.{
  ℕ, zero, suc, ◌+◌, ◌≡◌, refl, ◌∙◌, inl, inr, Option, none, some, Bool, true, false, arith, All,
  Option-cases,
}
use mathlib.Core.Path.{subst}
use asio_coro_frame.Report.{ReportData, Env, blank}
use asio_coro_frame.Report.Action.{Context, Exit, ok, skip, raised, fault, modify}
use asio_coro_frame.Report.Frame.{
  IsOrder, OnRow, OnRow-IsPreorder, OnRow-IsResFree, Keeps, Keeps-modify, keeps_rules,
}
use asio_coro_frame.Report.Insert.{Done, insert_body-IsPriced, IsPriced}
use asio_coro_frame.Report.Passed.{source}
use asio_coro_frame.Report.Run.{
  MonthReport, insert_rows, insert_data, pushed, after_next, consed, try_catch,
}
use asio_coro_frame.Report.Passes.{
  insert_body, insert_keys, insert_watts, insert_guidance, insert_price,
}

module _ {R W : Type 0} ⦃e : Env R W⦄ (P : ReportData W → Type 0) where
  same-All : (q p : MonthReport R W) → some q ≡ some p → All P q.rows → All P p.rows
  same-All q p run h = let same : q ≡ p = cc in subst (λ (o : MonthReport R W). All P o.rows) same h

  pushed-All :
      (x : Exit (Unit {0})) (c : Context R W) (more : Option R → Option (MonthReport R W))
      → Done P (x, c)
      → ((res : Option R) (q : MonthReport R W) → more res ≡ some q → All P q.rows)
      → (p : MonthReport R W) → pushed (x, c) more ≡ some p
      → All P p.rows
  pushed-All (ok _) c more h k p run = elim (Option-cases (more c.res)) [
    | inl none_left ↦ ground arith
    | inr (q, rest) ↦ same-All (consed c.row q) p (rw (rest, pushed) at run) (h, k c.res q rest)
  ]
  pushed-All skip c more h k p run = absurd h
  pushed-All raised c more h k p run = same-All _ p run tt
  pushed-All fault c more h k p run = same-All _ p run tt

  after_next-All :
      (m : Option (Bool × R)) (r : R) (round : R → Option (MonthReport R W))
      → ((r' : R) (q : MonthReport R W) → round r' ≡ some q → All P q.rows)
      → (p : MonthReport R W) → after_next m r round ≡ some p
      → All P p.rows
  after_next-All none r round k p run = same-All _ p run tt
  after_next-All (some (false, r')) r round k p run = same-All _ p run tt
  after_next-All (some (true, r')) r round k p run = k r' p run

  -- What one round gives a line, every line of the report has.
  pub insert_rows-All :
      ((r : R) → Done P (insert_body (record { row = blank e.nought; res = some r })))
      → (fuel : ℕ) (res : Option R) (p : MonthReport R W) → insert_rows fuel res ≡ some p
      → All P p.rows
  unfolding insert_rows
  insert_rows-All body zero none p run = same-All _ p run tt
  insert_rows-All body zero (some r) p run = ground arith
  insert_rows-All body (suc fuel) none p run = same-All _ p run tt
  insert_rows-All body (suc fuel) (some r) p run =
      after_next-All (e.next r) r _
        (λ r' q round.
          pushed-All _ _ (insert_rows fuel) (body r') (insert_rows-All body fuel) q round)
        p run

  pub insert_data-All :
      ((r : R) → Done P (insert_body (record { row = blank e.nought; res = some r })))
      → (res : Option R) (p : MonthReport R W) → insert_data res ≡ some p
      → All P p.rows
  unfolding insert_data
  insert_data-All body none p run = same-All _ p run tt
  insert_data-All body (some r) p run =
      elim (Option-cases (insert_rows ⦃e = e⦄ (e.rows_count r + 1) (some r))) [
        | inl dry ↦ ground arith
        | inr (q, enough) ↦
            same-All (try_catch q) p (rw (enough, insert_data) at run)
              (insert_rows-All body _ (some r) q enough)
      ]

-- The columns that a line of insert_data does not have yet.
pub record Unlabelled {W : Type 0} (r s : ReportData W) : Type 0 where
  pub approval : s.approval_status ≡ r.approval_status
  pub first : s.currency ≡ r.currency
  pub second : s.price_total_currency ≡ r.price_total_currency
  pub third : s.guided_currency ≡ r.guided_currency

instance pub Unlabelled-IsOrder : {W : Type 0} → IsOrder (Unlabelled {W = W})
Unlabelled-IsOrder = record {
  here = λ r. record { approval = refl; first = refl; second = refl; third = refl };
  chain = λ r s t p q. record {
    approval = q.approval ∙ p.approval;
    first = q.first ∙ p.first;
    second = q.second ∙ p.second;
    third = q.third ∙ p.third;
  };
}

module _ {R W : Type 0} where
  Keeps-unlabelled :
      (f : ReportData W → ReportData W)
      → ((r : ReportData W) → Unlabelled r (f r))
      → Keeps {R = R} (OnRow Unlabelled) (modify f)
  Keeps-unlabelled f same = Keeps-modify f (λ c. record { related = same c.row })

  Done-Keeps :
      {A : Type 0} (P : ReportData W → Type 0) (Q : ReportData W → ReportData W → Type 0)
      (row : ReportData W) (x : Exit A) (c : Context R W)
      → Done P (x, c)
      → Q row c.row
      → Done (λ s. P s × Q row s) (x, c)
  Done-Keeps P Q row (ok a) c p q = (p, q)
  Done-Keeps P Q row skip c p q = absurd p
  Done-Keeps P Q row raised c p q = tt
  Done-Keeps P Q row fault c p q = tt

module _ {R W : Type 0} ⦃e : Env R W⦄ where
  insert_body-Unlabelled : Keeps {R = R} {W = W} (OnRow Unlabelled) insert_body
  unfolding insert_body insert_keys insert_watts insert_guidance insert_price
  insert_body-Unlabelled = search (keeps_rules, Keeps-unlabelled) depth 60

  -- The lines of insert_data are priced, without an approval and without a currency.
  pub insert_data-lines :
      (res : Option R) (p : MonthReport R W)
      → insert_data res ≡ some p
      → All (λ r. IsPriced e.times e.nought (source r) × Unlabelled (blank e.nought) r) p.rows
  insert_data-lines res p run =
      insert_data-All _
        (λ r.
          Done-Keeps _ Unlabelled _ _ _ (insert_body-IsPriced e r)
            (insert_body-Unlabelled.at _).related)
        res p run
