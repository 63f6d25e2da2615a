-- ===== src/Report/Frame/Loops.antt =====
-- What the loops of src/tools/all_report/all_month_report.cpp leave of the lines, from what their
-- bodies leave of one line.
use asio_coro_frame.Base.{List, [], ◌∷◌, Option, Pointwise, All}
use asio_coro_frame.Report.{ReportData}
use asio_coro_frame.Report.Run.{
  MonthReport, for_rows, deal_with, deal_with_all, after_round, then_do,
}
use asio_coro_frame.Report.Action.{Context, Exit, ok, skip, raised, fault, Action}
use asio_coro_frame.Report.Frame.{IsOrder, OnRow, Keeps}

module _ {W : Type 0} (Q : ReportData W → ReportData W → Type 0) ⦃o : IsOrder Q⦄ where
  Pointwise-here : (is : List (ReportData W)) → Pointwise Q is is
  Pointwise-here [] = tt
  Pointwise-here (i ∷ is) = (o.here i, Pointwise-here is)

  Pointwise-chain :
      (is js ks : List (ReportData W)) → Pointwise Q is js → Pointwise Q js ks → Pointwise Q is ks
  Pointwise-chain [] [] ks p q = q
  Pointwise-chain [] (j ∷ js) ks p q = absurd p
  Pointwise-chain (i ∷ is) [] ks p q = absurd p
  Pointwise-chain (i ∷ is) (j ∷ js) [] p q = absurd q
  Pointwise-chain (i ∷ is) (j ∷ js) (k ∷ ks) p q =
      (o.chain i j k p.0 q.0, Pointwise-chain is js ks p.1 q.1)

module _ {R W : Type 0} (Q : ReportData W → ReportData W → Type 0) ⦃o : IsOrder Q⦄ where
  after_round-Pointwise :
      (i : ReportData W) (x : Exit (Unit {0})) (c : Context R W) (is : List (ReportData W))
      (more : Option R → MonthReport R W)
      → Q i c.row
      → ((res : Option R) → Pointwise Q is (more res).rows)
      → Pointwise Q (i ∷ is) (after_round (x, c) is more).rows
  after_round-Pointwise i (ok _) c is more p k = (p, k c.res)
  after_round-Pointwise i skip c is more p k = (p, k c.res)
  after_round-Pointwise i raised c is more p k = (p, Pointwise-here Q is)
  after_round-Pointwise i fault c is more p k = (p, Pointwise-here Q is)

  -- A loop relates each line to the one that it leaves in its place, and leaves no other.
  for_rows-Pointwise :
      (body : Action R W (Unit {0}))
      → Keeps (OnRow Q) body
      → (is : List (ReportData W)) (res : Option R) → Pointwise Q is (for_rows body is res).rows
  unfolding for_rows
  for_rows-Pointwise body k [] res = tt
  for_rows-Pointwise body k (i ∷ is) res =
      after_round-Pointwise i _ _ is _ (k.at (record { row = i; res = res })).related
        (for_rows-Pointwise body k is)

  then_do-Pointwise :
      (x : Exit (Unit {0})) (is : List (ReportData W)) (p q : MonthReport R W)
      → Pointwise Q is p.rows
      → Pointwise Q is q.rows
      → Pointwise Q is (then_do x p q).rows
  then_do-Pointwise (ok _) is p q h k = k
  then_do-Pointwise skip is p q h k = h
  then_do-Pointwise raised is p q h k = h
  then_do-Pointwise fault is p q h k = h

  pub deal_with-Pointwise :
      (body : Action R W (Unit {0})) (p : MonthReport R W)
      → Keeps (OnRow Q) body
      → Pointwise Q p.rows (deal_with body p).rows
  unfolding deal_with
  deal_with-Pointwise body p k =
      then_do-Pointwise p.ended p.rows p _ (Pointwise-here Q p.rows)
        (for_rows-Pointwise body k p.rows p.res)

  pub deal_with_all-Pointwise :
      (bodies : List (Action R W (Unit {0}))) (p : MonthReport R W)
      → All (Keeps (OnRow Q)) bodies
      → Pointwise Q p.rows (deal_with_all bodies p).rows
  unfolding deal_with_all
  deal_with_all-Pointwise [] p k = Pointwise-here Q p.rows
  deal_with_all-Pointwise (body ∷ bodies) p k =
      Pointwise-chain Q p.rows (deal_with body p).rows _ (deal_with-Pointwise body p k.0)
        (deal_with_all-Pointwise bodies (deal_with body p) k.1)
