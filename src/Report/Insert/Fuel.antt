-- ===== src/Report/Insert/Fuel.antt =====
-- The loop of insert_data of src/tools/all_report/all_month_report.cpp comes to the end of the rows.
use asio_coro_frame.Base.{
  ℕ, zero, suc, ◌+◌, ◌<◌, ◌≤◌, ◌≡◌, refl, ◌∙◌, Option, none, some, Bool, true, false, arith,
}
use asio_coro_frame.Report.{ReportData, Env, blank}
use asio_coro_frame.Report.Action.{Context, Exit, ok, skip, raised, fault, modify}
use asio_coro_frame.Report.Frame.{
  IsPreorder, Keeps, Keeps-bind, Keeps-then, Keeps-if, Keeps-pure, Keeps-modify, Keeps-is_null,
  Keeps-get_string, Keeps-get_double,
}
use asio_coro_frame.Report.Run.{
  MonthReport, Started, insert_rows, insert_data, pushed, after_next, consed, start, deal_with_each,
  try_catch, with_excel,
}
use asio_coro_frame.Report.Passes.{
  insert_body, insert_keys, insert_watts, insert_guidance, insert_price,
}
use asio_coro_frame.Report.Sql.{report_sql}

record SameRes {R W : Type 0} (c d : Context R W) : Type 0 where
  same : d.res ≡ c.res

instance SameRes-IsPreorder : {R W : Type 0} → IsPreorder (SameRes {R = R} {W = W})
SameRes-IsPreorder = record {
  here = λ c. record { same = refl };
  chain = λ c d f p q. record { same = q.same ∙ p.same };
}

module _ {R W : Type 0} where
  Keeps-assignment : (f : ReportData W → ReportData W) → Keeps {R = R} SameRes (modify f)
  Keeps-assignment f = Keeps-modify f (λ c. record { same = refl })

ruleset read_rules = (
  Keeps-bind, Keeps-then, Keeps-if, Keeps-pure, Keeps-is_null, Keeps-get_string, Keeps-get_double,
  Keeps-assignment,
)

-- Each true `next` brings the result set nearer to its end.
pub record IsCursor {R W : Type 0} (e : Env R W) (left : R → ℕ) : Type 0 where
  pub falls : (r r' : R) → e.next r ≡ some (true, r') → left r' < left r

module _ {R W : Type 0} ⦃e : Env R W⦄ where
  insert_body-SameRes : Keeps {R = R} {W = W} SameRes insert_body
  unfolding insert_body insert_keys insert_watts insert_guidance insert_price
  insert_body-SameRes = search (read_rules) depth 60

  pushed-Result :
      (x : Exit (Unit {0})) (c : Context R W) (more : Option R → Option (MonthReport R W))
      → ((q : MonthReport R W) × (more c.res ≡ some q))
      → (p : MonthReport R W) × (pushed (x, c) more ≡ some p)
  pushed-Result (ok _) c more (q, rest) = (consed c.row q, rw (rest, pushed) refl)
  pushed-Result skip c more (q, rest) = (consed c.row q, rw (rest, pushed) refl)
  pushed-Result raised c more h = (_, refl)
  pushed-Result fault c more h = (_, refl)

  after_next-Result :
      (r : R) (round : R → Option (MonthReport R W)) (m : Option (Bool × R))
      → e.next r ≡ m
      → ((r' : R) → e.next r ≡ some (true, r') → (q : MonthReport R W) × (round r' ≡ some q))
      → (p : MonthReport R W) × (after_next m r round ≡ some p)
  after_next-Result r round none same k = (_, refl)
  after_next-Result r round (some (false, r')) same k = (_, refl)
  after_next-Result r round (some (true, r')) same k = k r' same

  insert_rows-Result :
      (left : R → ℕ)
      → IsCursor e left
      → (fuel : ℕ) (r : R) → left r < fuel
      → (p : MonthReport R W) × (insert_rows fuel (some r) ≡ some p)
  unfolding insert_rows
  insert_rows-Result left law zero r h = absurd (omega arith)
  insert_rows-Result left law (suc fuel) r h = after_next-Result r _ (e.next r) refl (λ r' found.
      pushed-Result (insert_body (record { row = blank e.nought; res = some r' })).0
        (insert_body (record { row = blank e.nought; res = some r' })).1 (insert_rows fuel)
        (rw (insert_body-SameRes.at (record { row = blank e.nought; res = some r' })).same
          (insert_rows-Result left law fuel r' (let nearer = law.falls r r' found in omega arith))))

  insert_data-Result :
      (left : R → ℕ)
      → IsCursor e left
      → (res : Option R) → ((r : R) → res ≡ some r → left r ≤ e.rows_count r)
      → (p : MonthReport R W) × (insert_data res ≡ some p)
  unfolding insert_data
  insert_data-Result left law none counted = (_, refl)
  insert_data-Result left law (some r) counted =
      let bound = counted r refl in
      let (p, enough) = insert_rows-Result left law (e.rows_count r + 1) r (omega arith) in
      (try_catch p, rw (enough, insert_data) refl)

  -- The fuel of the report's loop is enough: where each true `next` brings a result set nearer to its
  -- end, and rowsCount of the report's own query is at least what is left of it, start comes to an end.
  pub start-ends :
      (left : R → ℕ)
      → IsCursor e left
      → ((r : R) → e.execute report_sql ≡ some r → left r ≤ e.rows_count r)
      → (s : Started R W) × (start ≡ some s)
  unfolding start
  start-ends left law counted =
      let (p, read) = insert_data-Result left law (e.execute report_sql) counted in
      (with_excel (deal_with_each p), rw (read, start) refl)
