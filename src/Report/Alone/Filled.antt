-- ===== src/Report/Alone/Filled.antt =====
-- The passes of src/tools/all_report/all_month_report.cpp deal with each line by itself.
use asio_coro_frame.Base.{
  ◌≡◌, refl, ap, sym, ◌∙◌, List, [], ◌∷◌, map, Option, none, some, All, arith, Option-cases, inl,
  inr, ◌+◌, Pointwise,
}
use mathlib.Core.Path.{subst}
use asio_coro_frame.Report.{ReportData, Env}
use asio_coro_frame.Report.Action.{Context, Exit, ok, skip, raised, fault, Action}
use asio_coro_frame.Report.Alone.{
  Answers, Answered, Ids, ids, filled, fill, fill_all, through, IsSmooth,
}
use asio_coro_frame.Report.Alone.Smooth.{fill_all-map}
use asio_coro_frame.Report.Alone.Fresh.{Fresh, passes-Fresh}
use asio_coro_frame.Report.Frame.{OnRow, Keeps}
use asio_coro_frame.Report.Frame.Loops.{deal_with-Pointwise}
use asio_coro_frame.Report.Passed.{Source, Passed, Passed-IsOrder}
use asio_coro_frame.Report.Passed.Bodies.{passes-Keeps}
use asio_coro_frame.Report.Run.{
  MonthReport, Started, start, passes, deal_with_all, deal_with, for_rows, insert_data, insert_rows,
  after_round, try_catch, then_do, caught,
}
use asio_coro_frame.Report.Safety.{HasRes, Intact, Sound, Safe}
use asio_coro_frame.Report.Safety.Bodies.{passes-Safe}
use asio_coro_frame.Report.Safety.Crash.{Alive, deal_with-Alive, insert_data-Alive}
use asio_coro_frame.Report.Source.{start-report}
use asio_coro_frame.Report.Sql.{report_sql}

caught-ok :
    {R : Type 0} (x : Exit (Unit {0})) (res : Option R) → Intact (caught x) res → caught x ≡ ok tt
caught-ok (ok _) res h = refl
caught-ok skip res h = refl
caught-ok raised res h = refl
caught-ok fault res h = absurd h

going-HasRes : {R : Type 0} (x : Exit (Unit {0})) (res : Option R) → Intact x res → HasRes res
going-HasRes (ok _) res h = h
going-HasRes skip res h = h
going-HasRes raised res h = h
going-HasRes fault res h = absurd h

abbrev ids_of : {W : Type 0} → Source W → Ids
ids_of s = record { quotation = s.quotation_id; detail = s.quotation_detail_id }

module _ {R W : Type 0} where
  after_round-filled :
      (x : Exit (Unit {0})) (c : Context R W) (is others : List (ReportData W))
      (more : Option R → MonthReport R W)
      → Sound (x, c)
      → ((res : Option R) → HasRes res → (more res).rows ≡ others)
      → (after_round (x, c) is more).rows ≡ filled (x, c) is others
  after_round-filled (ok _) c is others more h k =
      ap (λ (t : List (ReportData W)). c.row ∷ t) (k c.res h)
  after_round-filled skip c is others more h k =
      ap (λ (t : List (ReportData W)). c.row ∷ t) (k c.res h)
  after_round-filled raised c is others more h k = refl
  after_round-filled fault c is others more h k = absurd h

-- A pass leaves the ids.
Pointwise-Answered :
    {R W : Type 0} (e : Env R W) (is js : List (ReportData W))
    → Pointwise Passed is js
    → All (λ i. Answered e (ids i)) is
    → All (λ i. Answered e (ids i)) js
Pointwise-Answered e [] [] h answered = tt
Pointwise-Answered e [] (j ∷ js) h answered = absurd h
Pointwise-Answered e (i ∷ is) [] h answered = absurd h
Pointwise-Answered e (i ∷ is) (j ∷ js) h answered = (
  subst (Answered e) (sym (ap ids_of h.0.kept)) answered.0,
  Pointwise-Answered e is js h.1 answered.1,
)

module _ {R W : Type 0} ⦃e : Env R W⦄ where
  for_rows-fill :
      (body : Action R W (Unit {0}))
      → Fresh e body
      → Safe body
      → (is : List (ReportData W)) → All (λ i. Answered e (ids i)) is
      → (res : Option R) → HasRes res
      → (for_rows body is res).rows ≡ fill body is
  unfolding for_rows fill
  for_rows-fill body fresh safe [] answered res h = refl
  for_rows-fill body fresh safe (i ∷ is) answered res h =
      after_round-filled (body (record { row = i; res = res })).0
        (body (record { row = i; res = res })).1 is (fill body is) (for_rows body is)
        (safe.at (record { row = i; res = res }) h) (for_rows-fill body fresh safe is answered.1)
      ∙ ap (λ x. filled x is (fill body is)) (fresh.same i answered.0 res none)

  deal_with-fill :
      (body : Action R W (Unit {0})) (p : MonthReport R W)
      → Fresh e body
      → Safe body
      → All (λ i. Answered e (ids i)) p.rows
      → Alive p
      → p.ended ≡ ok tt
      → ((deal_with body p).rows ≡ fill body p.rows) × ((deal_with body p).ended ≡ ok tt)
  unfolding deal_with
  deal_with-fill body p fresh safe answered alive going =
      let alive' : Alive (try_catch (for_rows body p.rows p.res)) =
        rw (going, deal_with) at (deal_with-Alive body p safe alive) in
      rw (going, then_do)
        (
          for_rows-fill body fresh safe p.rows answered p.res (going-HasRes p.ended p.res alive),
          caught-ok (for_rows body p.rows p.res).ended _ alive',
        )

  deal_with_all-fill :
      (bodies : List (Action R W (Unit {0}))) (p : MonthReport R W)
      → All (Fresh e) bodies
      → All Safe bodies
      → All (Keeps (OnRow Passed)) bodies
      → All (λ i. Answered e (ids i)) p.rows
      → Alive p
      → p.ended ≡ ok tt
      → (deal_with_all bodies p).rows ≡ fill_all bodies p.rows
  unfolding deal_with_all fill_all
  deal_with_all-fill [] p fresh safe keeps answered alive going = refl
  deal_with_all-fill (body ∷ bodies) p fresh safe keeps answered alive going =
      let (rows, going') = deal_with-fill body p fresh.0 safe.0 answered alive going in
      deal_with_all-fill bodies (deal_with body p) fresh.1 safe.1 keeps.1
        (Pointwise-Answered e p.rows (deal_with body p).rows
          (deal_with-Pointwise Passed body p keeps.0) answered)
        (deal_with-Alive body p safe.0 alive) going'
      ∙ ap (fill_all bodies) rows

module _ {R W : Type 0} ⦃e : Env R W⦄ where
  try_catch-going :
      (q p : MonthReport R W) → some (try_catch q) ≡ some p → Alive p → p.ended ≡ ok tt
  try_catch-going q p h alive =
      let same : try_catch q ≡ p = cc in
      let alive' : Alive (try_catch q) =
        subst (λ (o : MonthReport R W). Alive o) (sym same) alive in
      ap (λ (o : MonthReport R W). o.ended) (sym same) ∙ caught-ok q.ended q.res alive'

  insert_data-going :
      (r : R) (p : MonthReport R W) → insert_data (some r) ≡ some p → p.ended ≡ ok tt
  unfolding insert_data
  insert_data-going r p run =
      elim (Option-cases (insert_rows ⦃e = e⦄ (e.rows_count r + 1) (some r))) [
        | inl dry ↦ ground arith
        | inr (q, enough) ↦
            try_catch-going q p (rw (enough, insert_data) at run) (insert_data-Alive r p run)
      ]

  -- When the report's own query and the first query of each pass for each line succeed, a pass
  -- fills each line from that line alone, in order, up to and including the first line at which a
  -- call on a result throws, and leaves the lines after it as they are; the passes follow each
  -- other in that way, from the lines that insert_data read.
  pub start-fill :
      (p : MonthReport R W) (s : Started R W)
      → Answers e report_sql
      → All (λ i. Answered e (ids i)) p.rows
      → insert_data (e.execute report_sql) ≡ some p
      → start ≡ some s
      → s.report.rows ≡ fill_all {R = R} passes p.rows
  start-fill p s (r, got) answered read run =
      let read' : insert_data (some r) ≡ some p = rw got at read in
      rw (start-report p s read run) (
        deal_with_all-fill passes p (passes-Fresh e) (passes-Safe e) (passes-Keeps e) answered
          (insert_data-Alive r p read') (insert_data-going r p read'))

  -- When the report's own query and the first query of each pass for each line succeed and no call
  -- on a result throws in a pass, the report is made line by line: each line is what the nine
  -- passes make of it alone, whatever the other lines are.
  pub start-lines :
      (p : MonthReport R W) (s : Started R W)
      → Answers e report_sql
      → All (λ i. Answered e (ids i)) p.rows
      → All (IsSmooth {R = R} passes) p.rows
      → insert_data (e.execute report_sql) ≡ some p
      → start ≡ some s
      → s.report.rows ≡ map (through {R = R} passes) p.rows
  start-lines p s got answered smooth read run =
      start-fill p s got answered read run ∙ fill_all-map passes p.rows smooth
