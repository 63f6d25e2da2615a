-- ===== src/Report/Safety/Crash.antt =====
-- When the report of src/tools/all_report/all_month_report.cpp ends in a call through `m_res` while
-- it is null.
use asio_coro_frame.Base.{
  ◌≡◌, refl, List, [], ◌∷◌, Option, none, some, ℕ, zero, suc, ◌+◌, Bool, true, false, arith,
  Option-cases, inl, inr, All, ◌↔◌,
}
use mathlib.Core.Path.{subst}
use asio_coro_frame.Report.{ReportData, Env, blank}
use asio_coro_frame.Report.Action.{Context, Exit, ok, skip, raised, fault, Action}
use asio_coro_frame.Report.Passes.{insert_body}
use asio_coro_frame.Report.Run.{
  MonthReport, Started, start, passes, deal_with_all, deal_with, for_rows, insert_rows, insert_data,
  pushed, after_next, after_round, consed, try_catch, then_do, caught,
}
use asio_coro_frame.Report.Safety.Bodies.{Safe-insert_body, passes-Safe}
use asio_coro_frame.Report.Safety.{HasRes, Intact, Sound, Safe}
use asio_coro_frame.Report.Source.{start-report}
use asio_coro_frame.Report.Sql.{report_sql}

abbrev pub Alive : {R W : Type 0} → MonthReport R W → Type 0
Alive p = Intact p.ended p.res

caught-Intact :
    {R : Type 0} (x : Exit (Unit {0})) (res : Option R) → Intact x res → Intact (caught x) res
caught-Intact (ok _) res h = h
caught-Intact skip res h = h
caught-Intact raised res h = h
caught-Intact fault res h = h

module _ {R W : Type 0} where
  after_round-Alive :
      (x : Exit (Unit {0})) (c : Context R W) (is : List (ReportData W))
      (more : Option R → MonthReport R W)
      → Sound (x, c)
      → ((res : Option R) → HasRes res → Alive (more res))
      → Alive (after_round (x, c) is more)
  after_round-Alive (ok _) c is more h k = k c.res h
  after_round-Alive skip c is more h k = k c.res h
  after_round-Alive raised c is more h k = h
  after_round-Alive fault c is more h k = absurd h

  for_rows-Alive :
      (body : Action R W (Unit {0}))
      → Safe body
      → (is : List (ReportData W)) (res : Option R) → HasRes res
      → Alive (for_rows body is res)
  unfolding for_rows
  for_rows-Alive body k [] res h = h
  for_rows-Alive body k (i ∷ is) res h =
      after_round-Alive (body (record { row = i; res = res })).0
        (body (record { row = i; res = res })).1 is (for_rows body is)
        (k.at (record { row = i; res = res }) h) (for_rows-Alive body k is)

  then_do-Alive :
      (x : Exit (Unit {0})) (p q : MonthReport R W)
      → Intact x p.res
      → Alive p
      → (HasRes p.res → Alive q)
      → Alive (then_do x p q)
  then_do-Alive (ok _) p q h a k = k h
  then_do-Alive skip p q h a k = a
  then_do-Alive raised p q h a k = a
  then_do-Alive fault p q h a k = absurd h

  pub deal_with-Alive :
      (body : Action R W (Unit {0})) (p : MonthReport R W)
      → Safe body
      → Alive p
      → Alive (deal_with body p)
  unfolding deal_with
  deal_with-Alive body p k h = then_do-Alive p.ended p _ h h (λ res.
      caught-Intact (for_rows body p.rows p.res).ended _ (for_rows-Alive body k p.rows p.res res))

  deal_with_all-Alive :
      (bodies : List (Action R W (Unit {0}))) (p : MonthReport R W)
      → All Safe bodies
      → Alive p
      → Alive (deal_with_all bodies p)
  unfolding deal_with_all
  deal_with_all-Alive [] p k h = h
  deal_with_all-Alive (body ∷ bodies) p k h =
      deal_with_all-Alive bodies (deal_with body p) k.1 (deal_with-Alive body p k.0 h)

  then_do-fault :
      (x : Exit (Unit {0})) (p q : MonthReport R W)
      → x ≡ fault
      → p.ended ≡ fault
      → (then_do x p q).ended ≡ fault
  then_do-fault (ok _) p q h k = ground arith
  then_do-fault skip p q h k = k
  then_do-fault raised p q h k = k
  then_do-fault fault p q h k = k

  deal_with-fault :
      (body : Action R W (Unit {0})) (p : MonthReport R W)
      → p.ended ≡ fault
      → (deal_with body p).ended ≡ fault
  unfolding deal_with
  deal_with-fault body p h = then_do-fault p.ended p _ h h

  -- A crash ends the program.
  deal_with_all-fault :
      (bodies : List (Action R W (Unit {0}))) (p : MonthReport R W)
      → p.ended ≡ fault
      → (deal_with_all bodies p).ended ≡ fault
  unfolding deal_with_all
  deal_with_all-fault [] p h = h
  deal_with_all-fault (body ∷ bodies) p h =
      deal_with_all-fault bodies (deal_with body p) (deal_with-fault body p h)

module _ {R W : Type 0} ⦃e : Env R W⦄ where
  same-Alive : (q p : MonthReport R W) → some q ≡ some p → Alive q → Alive p
  same-Alive q p run h = let same : q ≡ p = cc in subst (λ (o : MonthReport R W). Alive o) same h

  pushed-Alive :
      (x : Exit (Unit {0})) (c : Context R W) (more : Option R → Option (MonthReport R W))
      → Sound (x, c)
      → ((res : Option R) (q : MonthReport R W) → HasRes res → more res ≡ some q → Alive q)
      → (p : MonthReport R W) → pushed (x, c) more ≡ some p
      → Alive p
  pushed-Alive (ok _) c more h k p run = elim (Option-cases (more c.res)) [
    | inl none_left ↦ ground arith
    | inr (q, rest) ↦ same-Alive (consed c.row q) p (rw (rest, pushed) at run) (k c.res q h rest)
  ]
  pushed-Alive skip c more h k p run = elim (Option-cases (more c.res)) [
    | inl none_left ↦ ground arith
    | inr (q, rest) ↦ same-Alive (consed c.row q) p (rw (rest, pushed) at run) (k c.res q h rest)
  ]
  pushed-Alive raised c more h k p run = same-Alive _ p run h
  pushed-Alive fault c more h k p run = absurd h

  after_next-Alive :
      (m : Option (Bool × R)) (r : R) (round : R → Option (MonthReport R W))
      → ((r' : R) (q : MonthReport R W) → round r' ≡ some q → Alive q)
      → (p : MonthReport R W) → after_next m r round ≡ some p
      → Alive p
  after_next-Alive none r round k p run = same-Alive _ p run tt
  after_next-Alive (some (false, r')) r round k p run = same-Alive _ p run tt
  after_next-Alive (some (true, r')) r round k p run = k r' p run

  insert_rows-Alive :
      (fuel : ℕ) (res : Option R) (p : MonthReport R W)
      → HasRes res
      → insert_rows fuel res ≡ some p
      → Alive p
  unfolding insert_rows
  insert_rows-Alive fuel none p h run = absurd h
  insert_rows-Alive zero (some r) p h run = ground arith
  insert_rows-Alive (suc fuel) (some r) p h run =
      after_next-Alive (e.next r) r _
        (λ r' q round.
          pushed-Alive (insert_body (record { row = blank e.nought; res = some r' })).0
            (insert_body (record { row = blank e.nought; res = some r' })).1 (insert_rows fuel)
            (Safe-insert_body.at (record { row = blank e.nought; res = some r' }) tt)
            (insert_rows-Alive fuel) q round)
        p run

  pub insert_data-Alive : (r : R) (p : MonthReport R W) → insert_data (some r) ≡ some p → Alive p
  unfolding insert_data
  insert_data-Alive r p run =
      elim (Option-cases (insert_rows ⦃e = e⦄ (e.rows_count r + 1) (some r))) [
        | inl dry ↦ ground arith
        | inr (q, enough) ↦
            same-Alive (try_catch q) p (rw (enough, insert_data) at run)
              (caught-Intact q.ended q.res (insert_rows-Alive _ (some r) q tt enough))
      ]

  -- a report that is not crashed
  Alive-fault : (p : MonthReport R W) → Alive p → p.ended ≡ fault → ⊥
  Alive-fault p h crashed = subst (λ x. Intact x p.res) crashed h

  start-Alive :
      (r : R) (s : Started R W) → e.execute report_sql ≡ some r → start ≡ some s → Alive s.report
  unfolding start
  start-Alive r s got run = elim (Option-cases (insert_data ⦃e = e⦄ (some r))) [
    | inl dry ↦ ground (arith, rw (got, dry, start) at run)
    | inr (p, read) ↦
        rw (start-report p s (rw got read) run)
          (deal_with_all-Alive passes p (passes-Safe e) (insert_data-Alive r p read))
  ]

  start-fault :
      (s : Started R W) → e.execute report_sql ≡ none → start ≡ some s → s.report.ended ≡ fault
  unfolding insert_data
  start-fault s failed run =
      rw
        (start-report (record { ended = fault; rows = []; res = none }) s
          (rw (failed, insert_data) refl) run)
        (deal_with_all-fault passes (record { ended = fault; rows = []; res = none }) refl)

  -- The program calls through the null `m_res` exactly when the report's own query throws.
  pub start-crash :
      (s : Started R W) → start ≡ some s → (s.report.ended ≡ fault) ↔ (e.execute report_sql ≡ none)
  start-crash s run = (
    λ crashed. elim (Option-cases (e.execute report_sql)) [
      | inl failed ↦ failed
      | inr (r, got) ↦ absurd (Alive-fault s.report (start-Alive r s got run) crashed)
    ],
    λ failed. start-fault s failed run,
  )
