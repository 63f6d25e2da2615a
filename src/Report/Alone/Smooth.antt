-- ===== src/Report/Alone/Smooth.antt =====
-- Where no call on a result throws in src/tools/all_report/all_month_report.cpp, a column at a time is a
-- line at a time.
use asio_coro_frame.Base.{◌≡◌, ◌≢◌, refl, ap, sym, ◌∙◌, List, [], ◌∷◌, map, All}
use asio_coro_frame.Report.{ReportData}
use asio_coro_frame.Report.Action.{Context, Exit, ok, skip, raised, fault, Action}
use asio_coro_frame.Report.Alone.{alone, filled, fill, fill_all, through, IsSmooth}

-- what no pass makes of the lines
map-through_nil :
    (R : Type 0) {W : Type 0} (is : List (ReportData W)) → map (through {R = R} []) is ≡ is
unfolding through
map-through_nil R [] = refl
map-through_nil R (i ∷ is) = ap (λ (t : List (ReportData _)). i ∷ t) (map-through_nil R is)

module _ {R W : Type 0} where
  filled-smooth :
      (x : Exit (Unit {0})) (c : Context R W) (is others : List (ReportData W))
      → x ≢ raised
      → filled (x, c) is others ≡ c.row ∷ others
  filled-smooth (ok _) c is others h = refl
  filled-smooth skip c is others h = refl
  filled-smooth raised c is others h = absurd (h refl)
  filled-smooth fault c is others h = refl

  fill-map :
      (body : Action R W (Unit {0})) (is : List (ReportData W))
      → All (λ i. (alone body i).0 ≢ raised) is
      → fill body is ≡ map (λ i. (alone body i).1.row) is
  unfolding fill
  fill-map body [] h = refl
  fill-map body (i ∷ is) h =
      filled-smooth (alone body i).0 (alone body i).1 is (fill body is) h.0
      ∙ ap (λ (t : List (ReportData W)). (alone body i).1.row ∷ t) (fill-map body is h.1)

  All-IsSmooth :
      (body : Action R W (Unit {0})) (bodies : List (Action R W (Unit {0})))
      (is : List (ReportData W))
      → All (IsSmooth (body ∷ bodies)) is
      → All (λ i. (alone body i).0 ≢ raised) is
        × All (IsSmooth bodies) (map (λ i. (alone body i).1.row) is)
  All-IsSmooth body bodies [] h = (tt, tt)
  All-IsSmooth body bodies (i ∷ is) h =
      let (first, rest) = All-IsSmooth body bodies is h.1 in ((h.0.0, first), (h.0.1, rest))

  map-through :
      (body : Action R W (Unit {0})) (bodies : List (Action R W (Unit {0})))
      (is : List (ReportData W))
      → map (through bodies) (map (λ i. (alone body i).1.row) is) ≡ map (through (body ∷ bodies)) is
  unfolding through
  map-through body bodies [] = refl
  map-through body bodies (i ∷ is) =
      ap (λ (t : List (ReportData W)). through bodies (alone body i).1.row ∷ t)
        (map-through body bodies is)

  pub fill_all-map :
      (bodies : List (Action R W (Unit {0}))) (is : List (ReportData W))
      → All (IsSmooth bodies) is
      → fill_all bodies is ≡ map (through bodies) is
  unfolding fill_all through
  fill_all-map [] is h = sym (map-through_nil R is)
  fill_all-map (body ∷ bodies) is h =
      let (first, rest) = All-IsSmooth body bodies is h in
      ap (fill_all bodies) (fill-map body is first)
      ∙ fill_all-map bodies (map (λ i. (alone body i).1.row) is) rest
      ∙ map-through body bodies is
