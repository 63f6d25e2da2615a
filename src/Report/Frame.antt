-- ===== src/Report/Frame.antt =====
-- What a loop body of src/tools/all_report/all_month_report.cpp leaves of the line: one rule for
-- each way to build a body, and one for the loops.
pub mod Loops
use asio_coro_frame.Base.{
  ◌≡◌, Bool, true, false, List, [], ◌∷◌, Option, none, some, Text, ℕ, if◌then◌else◌, Pointwise,
  arith, Option-cases, inl, inr, All,
}
use asio_coro_frame.Report.{ReportData, Env}
use asio_coro_frame.Report.Run.{
  MonthReport, for_rows, deal_with, deal_with_all, after_round, then_do,
}
use asio_coro_frame.Report.Action.{
  Context, Exit, ok, skip, raised, fault, Action, and_then, ◌>>=◌, ◌>>◌, pure, continue_loop,
  this_row, modify, with_res, moved, next_on, query, next_row, rows_count, is_null, get_string,
  get_string_at, get_double, fetch, null_or_empty, no_value,
}

pub record IsPreorder {R W : Type 0} (P : Context R W → Context R W → Type 0) : Type 0 where
  pub here : (c : Context R W) → P c c
  pub chain : (c d f : Context R W) → P c d → P d f → P c f

-- a relation that a change of `m_res` keeps
pub record IsResFree {R W : Type 0} (P : Context R W → Context R W → Type 0) : Type 0 where
  pub moves : (c : Context R W) (res : Option R) → P c (record c { res = res })

-- `m` takes a context to one that is `P`-related, however it ends.
pub record Keeps {R W A : Type 0} (P : Context R W → Context R W → Type 0) (m : Action R W A)
    : Type 0 where
  pub at : (c : Context R W) → P c (m c).1

module _ {R W : Type 0} where
  with_res-same : {A : Type 0} (f : R → Option A) (c : Context R W) → (with_res f c).1 ≡ c
  unfolding with_res
  with_res-same f c = ground arith

module _ {R W : Type 0} {P : Context R W → Context R W → Type 0} ⦃o : IsPreorder P⦄ where
  pub Keeps-and_then :
      {A B : Type 0} (r : Context R W) (e : Exit A) (c : Context R W) (f : A → Action R W B)
      → P r c
      → ((a : A) → Keeps P (f a))
      → P r (and_then (e, c) f).1
  Keeps-and_then r (ok a) c f p k = o.chain r c _ p ((k a).at c)
  Keeps-and_then r skip c f p k = p
  Keeps-and_then r raised c f p k = p
  Keeps-and_then r fault c f p k = p

  pub Keeps-bind :
      {A B : Type 0} (m : Action R W A) (f : A → Action R W B)
      → Keeps P m
      → ((a : A) → Keeps P (f a))
      → Keeps P (m >>= f)
  unfolding ◌>>=◌
  Keeps-bind m f km kf = record { at = λ c. Keeps-and_then c (m c).0 (m c).1 f (km.at c) kf }

  pub Keeps-then :
      {B : Type 0} (m : Action R W (Unit {0})) (k : Action R W B)
      → Keeps P m
      → Keeps P k
      → Keeps P (m >> k)
  unfolding ◌>>◌
  Keeps-then m k km kk = Keeps-bind m (λ _. k) km (λ _. kk)

  pub Keeps-if :
      {A : Type 0} (b : Bool) (m n : Action R W A)
      → Keeps P m
      → Keeps P n
      → Keeps P (if b then m else n)
  Keeps-if true m n km kn = km
  Keeps-if false m n km kn = kn

  pub Keeps-pure : {A : Type 0} (a : A) → Keeps {R = R} P (pure a)
  unfolding pure
  Keeps-pure a = record { at = λ c. o.here c }

  pub Keeps-continue_loop : {A : Type 0} → Keeps {R = R} {A = A} P continue_loop
  unfolding continue_loop
  Keeps-continue_loop = record { at = λ c. o.here c }

  pub Keeps-this_row : Keeps {R = R} P this_row
  unfolding this_row
  Keeps-this_row = record { at = λ c. o.here c }

  pub Keeps-modify :
      (f : ReportData W → ReportData W)
      → ((c : Context R W) → P c (record c { row = f c.row }))
      → Keeps {R = R} P (modify f)
  unfolding modify
  Keeps-modify f k = record { at = k }

  pub Keeps-with_res : {A : Type 0} (f : R → Option A) → Keeps P (with_res f)
  Keeps-with_res f = record { at = λ c. rw (with_res-same f c) (o.here c) }

module _ {R W : Type 0} ⦃e : Env R W⦄ {P : Context R W → Context R W → Type 0}
    ⦃o : IsPreorder P⦄ where
  pub Keeps-rows_count : Keeps {R = R} P rows_count
  unfolding rows_count
  Keeps-rows_count = Keeps-with_res (λ r. some (e.rows_count r))

  pub Keeps-is_null : (label : Text) → Keeps {R = R} P (is_null label)
  unfolding is_null
  Keeps-is_null label = Keeps-with_res _

  pub Keeps-get_string : (label : Text) → Keeps {R = R} P (get_string label)
  unfolding get_string
  Keeps-get_string label = Keeps-with_res _

  pub Keeps-get_string_at : (n : ℕ) → Keeps {R = R} P (get_string_at n)
  unfolding get_string_at
  Keeps-get_string_at n = Keeps-with_res _

  pub Keeps-get_double : (label : Text) → Keeps {R = R} P (get_double label)
  unfolding get_double
  Keeps-get_double label = Keeps-with_res _

  pub Keeps-null_or_empty : (label : Text) (n : ℕ) → Keeps {R = R} P (null_or_empty label n)
  unfolding null_or_empty
  Keeps-null_or_empty label n =
      search (Keeps-bind, Keeps-if, Keeps-is_null, Keeps-get_string_at, Keeps-pure)

  pub Keeps-no_value : (label : Text) → Keeps {R = R} P (no_value label)
  unfolding no_value
  Keeps-no_value label =
      search (Keeps-bind, Keeps-if, Keeps-rows_count, Keeps-null_or_empty, Keeps-pure)

module _ {R W : Type 0} ⦃e : Env R W⦄ (P : Context R W → Context R W → Type 0) ⦃o : IsPreorder P⦄
    ⦃f : IsResFree P⦄ where
  moved-keeps : (c : Context R W) (m : Option (Bool × R)) → P c (moved m c).1
  moved-keeps c none = o.here c
  moved-keeps c (some (found, r)) = f.moves c (some r)

  next_on-keeps : (c : Context R W) (res : Option R) → P c (next_on res c).1
  next_on-keeps c none = o.here c
  next_on-keeps c (some r) = moved-keeps c (e.next r)

module _ {R W : Type 0} ⦃e : Env R W⦄ {P : Context R W → Context R W → Type 0} ⦃o : IsPreorder P⦄
    ⦃f : IsResFree P⦄ where
  pub Keeps-query : (sql : Text) → Keeps P (query sql)
  unfolding query
  Keeps-query sql = record {
    at = λ c. elim (Option-cases (e.execute sql)) [
      | inl failed ↦ rw (failed, query) (o.here c)
      | inr (r, got) ↦ rw (got, query) (f.moves c (some r))
    ];
  }

  pub Keeps-next_row : Keeps P next_row
  unfolding next_row
  Keeps-next_row = record { at = λ c. next_on-keeps P c c.res }

  pub Keeps-fetch : (sql : Text) → Keeps {R = R} P (fetch sql)
  unfolding fetch
  Keeps-fetch sql = search (Keeps-then, Keeps-bind, Keeps-query, Keeps-next_row, Keeps-pure)

pub ruleset keeps_rules = (
  Keeps-bind, Keeps-then, Keeps-if, Keeps-pure, Keeps-continue_loop, Keeps-this_row, Keeps-is_null,
  Keeps-get_string, Keeps-get_string_at, Keeps-get_double, Keeps-fetch, Keeps-null_or_empty,
  Keeps-no_value,
)

-- A relation of lines, whatever `m_res`.
pub record OnRow {R W : Type 0} (Q : ReportData W → ReportData W → Type 0) (c d : Context R W)
    : Type 0 where
  pub related : Q c.row d.row

pub record IsOrder {W : Type 0} (Q : ReportData W → ReportData W → Type 0) : Type 0 where
  pub here : (r : ReportData W) → Q r r
  pub chain : (r s t : ReportData W) → Q r s → Q s t → Q r t

module _ {R W : Type 0} {Q : ReportData W → ReportData W → Type 0} ⦃o : IsOrder Q⦄ where
  instance pub OnRow-IsPreorder : IsPreorder (OnRow {R = R} Q)
  OnRow-IsPreorder = record {
    here = λ c. record { related = o.here c.row };
    chain = λ c d f p q. record { related = o.chain c.row d.row f.row p.related q.related };
  }

  instance pub OnRow-IsResFree : IsResFree (OnRow {R = R} Q)
  OnRow-IsResFree = record { moves = λ c res. record { related = o.here c.row } }
