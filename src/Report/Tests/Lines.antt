-- ===== src/Report/Tests/Lines.antt =====
-- The report of src/tools/all_report line by line.
use asio_coro_frame.Base.{◌≡◌, refl}
use asio_coro_frame.Report.Alone.{Answered, Ids, fill_all}
use asio_coro_frame.Report.Alone.Filled.{start-fill}
use asio_coro_frame.Report.Run.{passes}
use asio_coro_frame.Report.Tests.Database.{
  Cursor, database, read_report, finished, insert_data_example, start_example,
}

database-Answered : (of : Ids) → Answered database of
unfolding database
database-Answered of = record {
  sales = (_, refl);
  delivery = (_, refl);
  currency = (_, refl);
  payment = (_, refl);
  item = (_, refl);
  term = (_, refl);
  approval = (_, refl);
  invoice = (_, refl);
}

start-fill_example : finished.report.rows ≡ fill_all {R = Cursor} passes read_report.rows
unfolding database read_report
start-fill_example =
    start-fill read_report finished (_, refl) (database-Answered _, (database-Answered _, tt))
      insert_data_example start_example
