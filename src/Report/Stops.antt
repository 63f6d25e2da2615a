-- ===== src/Report/Stops.antt =====
-- Lines of src/tools/all_report/all_month_report.cpp for which the database has no row: where a pass stops at
-- one of them and where it goes on.
use asio_coro_frame.Base.{
  ◌≡◌, refl, ◌∙◌, ap, Bool, false, List, [], ◌∷◌, ◌++◌, Option, none, some, Text, arith,
}
use asio_coro_frame.Report.{ReportData, Env}
use asio_coro_frame.Report.Action.{
  Action, Context, Exit, ok, skip, raised, fault, ◌>>=◌, ◌>>◌, this_row, fetch, query, next_row,
  get_string_at, with_res, pure, no_value, rows_count, continue_loop,
}
use asio_coro_frame.Report.Passes.{sales_info_body, trade_term_body}
use asio_coro_frame.Report.Run.{
  MonthReport, for_rows, after_round, deal_with, deal_with_sales_info, deal_with_trade_term_info,
  then_do,
}
use asio_coro_frame.Report.Sql.{sql}

module _ {R W : Type 0} where
  after_round-raised :
      (x : Exit (Unit {0})) (c : Context R W) (is : List (ReportData W))
      (more : Option R → MonthReport R W)
      → x ≡ raised
      → (after_round (x, c) is more).rows ≡ c.row ∷ is
  after_round-raised (ok _) c is more h = ground arith
  after_round-raised skip c is more h = ground arith
  after_round-raised raised c is more h = refl
  after_round-raised fault c is more h = ground arith

  after_round-stops :
      (body : Action R W (Unit {0})) (is js : List (ReportData W)) (i : ReportData W)
      (x : Exit (Unit {0})) (c : Context R W)
      → ((res : Option R)
          → (for_rows body is res).ended ≡ ok tt
          → (body (record { row = i; res = (for_rows body is res).res })).0 ≡ raised
          → (for_rows body (is ++ i ∷ js) res).rows
            ≡ (for_rows body is res).rows
              ++ (body (record { row = i; res = (for_rows body is res).res })).1.row ∷ js)
      → (after_round (x, c) is (for_rows body is)).ended ≡ ok tt
      → (body (record { row = i; res = (after_round (x, c) is (for_rows body is)).res })).0 ≡ raised
      → (after_round (x, c) (is ++ i ∷ js) (for_rows body (is ++ i ∷ js))).rows
        ≡ (after_round (x, c) is (for_rows body is)).rows
          ++ (body (record { row = i; res = (after_round (x, c) is (for_rows body is)).res })).1.row
            ∷ js
  after_round-stops body is js i (ok _) c rest h k =
      ap (λ (t : List (ReportData W)). c.row ∷ t) (rest c.res h k)
  after_round-stops body is js i skip c rest h k =
      ap (λ (t : List (ReportData W)). c.row ∷ t) (rest c.res h k)
  after_round-stops body is js i raised c rest h k = ground arith
  after_round-stops body is js i fault c rest h k = ground arith

  -- A line whose round throws ends the loop: what follows it stays as it was.
  for_rows-raised :
      (body : Action R W (Unit {0})) (is js : List (ReportData W)) (i : ReportData W)
      (res : Option R)
      → (for_rows body is res).ended ≡ ok tt
      → (body (record { row = i; res = (for_rows body is res).res })).0 ≡ raised
      → (for_rows body (is ++ i ∷ js) res).rows
        ≡ (for_rows body is res).rows
          ++ (body (record { row = i; res = (for_rows body is res).res })).1.row ∷ js
  unfolding for_rows
  for_rows-raised body [] js i res h k =
      after_round-raised (body (record { row = i; res = res })).0
        (body (record { row = i; res = res })).1 js (for_rows body js) k
  for_rows-raised body (x ∷ is) js i res h k =
      after_round-stops body is js i (body (record { row = x; res = res })).0
        (body (record { row = x; res = res })).1 (for_rows-raised body is js i) h k

module _ {R W : Type 0} ⦃e : Env R W⦄ where
  query-found :
      (text : Text) (c : Context R W) (r : R)
      → e.execute text ≡ some r
      → query text c ≡ (ok tt, record c { res = some r })
  unfolding query
  query-found text c r found = rw (found, query) refl

  pub fetch-found :
      (text : Text) (c : Context R W) (r r' : R) (b : Bool)
      → e.execute text ≡ some r
      → e.next r ≡ some (b, r')
      → fetch text c ≡ (ok tt, record c { res = some r' })
  unfolding fetch ◌>>=◌ ◌>>◌ next_row pure
  fetch-found text c r r' b found moved_on =
      let at_hand = query-found text c r found in rw (at_hand, moved_on, fetch) refl

  sales_info_body-raised :
      (i : ReportData W) (res : Option R) (r r' : R)
      → e.execute (sql "select sales_id from t_quotation where quotation_id='" i.quotation_id)
        ≡ some r
      → e.next r ≡ some (false, r')
      → e.get_string_at r' 1 ≡ none
      → sales_info_body (record { row = i; res = res })
        ≡ (raised, record { row = i; res = some r' })
  unfolding sales_info_body ◌>>=◌ ◌>>◌ this_row get_string_at with_res
  sales_info_body-raised i res r r' found none_there missing =
      let at_hand = fetch-found _ (record { row = i; res = res }) r r' false found none_there in
      rw (at_hand, missing, sales_info_body) refl

  trade_term_body-skip :
      (i : ReportData W) (res : Option R) (r r' : R) (b : Bool)
      → e.execute (sql "select trade_term_id from t_quotation where quotation_id='" i.quotation_id)
        ≡ some r
      → e.next r ≡ some (b, r')
      → e.rows_count r' ≡ 0
      → trade_term_body (record { row = i; res = res }) ≡ (skip, record { row = i; res = some r' })
  unfolding trade_term_body ◌>>=◌ ◌>>◌ this_row no_value rows_count with_res pure continue_loop
  trade_term_body-skip i res r r' b found moved_on empty =
      let at_hand = fetch-found _ (record { row = i; res = res }) r r' b found moved_on in
      rw (at_hand, empty, trade_term_body) refl

  stopped :
      (body : Action R W (Unit {0})) (p : MonthReport R W)
      → p.ended ≡ ok tt
      → (deal_with body p).rows ≡ (for_rows body p.rows p.res).rows
  unfolding deal_with
  stopped body p h = rw (h, then_do) refl

  -- deal_with_sales_info stops at the first line whose quotation is not found: that line and all lines
  -- after it keep what they have, without the name of the seller.
  pub sales_info-stops :
      (p : MonthReport R W) (is js : List (ReportData W)) (i : ReportData W) (r r' : R)
      → p.ended ≡ ok tt
      → p.rows ≡ is ++ i ∷ js
      → (for_rows sales_info_body is p.res).ended ≡ ok tt
      → e.execute (sql "select sales_id from t_quotation where quotation_id='" i.quotation_id)
        ≡ some r
      → e.next r ≡ some (false, r')
      → e.get_string_at r' 1 ≡ none
      → (deal_with_sales_info p).rows ≡ (for_rows sales_info_body is p.res).rows ++ i ∷ js
  unfolding deal_with_sales_info
  sales_info-stops p is js i r r' going split so_far found none_there missing =
      let at_line =
        sales_info_body-raised i (for_rows sales_info_body is p.res).res r r' found none_there
          missing in
      stopped sales_info_body p going
      ∙ ap (λ (t : List (ReportData W)). (for_rows sales_info_body t p.res).rows) split
      ∙ for_rows-raised sales_info_body is js i p.res so_far
          (ap (λ (t : Exit (Unit {0}) × Context R W). t.0) at_line)
      ∙ ap
          (λ (t : Exit (Unit {0}) × Context R W).
            (for_rows sales_info_body is p.res).rows ++ t.1.row ∷ js)
          at_line

  -- deal_with_trade_term_info goes on after a line whose quotation is not found: the line keeps what it
  -- has, and the lines after it are dealt with.
  pub trade_term_info-continues :
      (p : MonthReport R W) (is : List (ReportData W)) (i : ReportData W) (r r' : R) (b : Bool)
      → p.ended ≡ ok tt
      → p.rows ≡ i ∷ is
      → e.execute (sql "select trade_term_id from t_quotation where quotation_id='" i.quotation_id)
        ≡ some r
      → e.next r ≡ some (b, r')
      → e.rows_count r' ≡ 0
      → (deal_with_trade_term_info p).rows ≡ i ∷ (for_rows trade_term_body is (some r')).rows
  unfolding deal_with_trade_term_info for_rows
  trade_term_info-continues p is i r r' b going split found moved_on empty =
      let at_line = trade_term_body-skip i p.res r r' b found moved_on empty in
      stopped trade_term_body p going
      ∙ ap (λ (t : List (ReportData W)). (for_rows trade_term_body t p.res).rows) split
      ∙ ap
          (λ (t : Exit (Unit {0}) × Context R W).
            (after_round t is (for_rows trade_term_body is)).rows)
          at_line
