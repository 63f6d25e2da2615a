-- ===== src/Report/Safety.antt =====
-- Where src/tools/all_report/all_month_report.cpp calls through the null pointer `m_res`.
pub mod Bodies
pub mod Crash
use asio_coro_frame.Base.{
  ◌≡◌, refl, sym, ◌∙◌, Bool, true, false, List, [], ◌∷◌, Option, none, some, Text, ℕ, if◌then◌else◌,
  arith, Option-cases, inl, inr, All, ◌↔◌,
}
use asio_coro_frame.Report.{ReportData, Env, blank}
use asio_coro_frame.Report.Action.{
  Context, Exit, ok, skip, raised, fault, Action, and_then, ◌>>=◌, ◌>>◌, pure, continue_loop,
  this_row, modify, with_res, or_raise, moved, next_on, query, next_row, rows_count, is_null,
  get_string, get_string_at, get_double, fetch, null_or_empty, no_value,
}

abbrev pub HasRes : {R : Type 0} → Option R → Type 0
HasRes none = ⊥
HasRes (some r) = Unit

-- no call went through a null pointer, and `m_res` is not null afterwards
abbrev pub Intact : {R A : Type 0} → Exit A → Option R → Type 0
Intact fault res = ⊥
Intact (ok a) res = HasRes res
Intact skip res = HasRes res
Intact raised res = HasRes res

abbrev pub Sound : {R W A : Type 0} → Exit A × Context R W → Type 0
Sound (x, c) = Intact x c.res

pub record Safe {R W A : Type 0} (m : Action R W A) : Type 0 where
  pub at : (c : Context R W) → HasRes c.res → Sound (m c)

module _ {R W : Type 0} where
  or_raise-Sound :
      {A : Type 0} (o : Option A) (c : Context R W) → HasRes c.res → Sound (or_raise o c)
  or_raise-Sound none c h = h
  or_raise-Sound (some a) c h = h

  with_res-Sound :
      {A : Type 0} (f : R → Option A) (row : ReportData W) (res : Option R)
      → HasRes res
      → Sound (with_res f (record { row = row; res = res }))
  unfolding with_res
  with_res-Sound f row none h = absurd h
  with_res-Sound f row (some r) h = or_raise-Sound (f r) _ h

  Safe-with_res : {A : Type 0} (f : R → Option A) → Safe {W = W} (with_res f)
  Safe-with_res f = record { at = λ c h. with_res-Sound f c.row c.res h }

  and_then-Sound :
      {A B : Type 0} (x : Exit A) (c : Context R W) (f : A → Action R W B)
      → Sound (x, c)
      → ((a : A) → Safe (f a))
      → Sound (and_then (x, c) f)
  and_then-Sound (ok a) c f h k = (k a).at c h
  and_then-Sound skip c f h k = h
  and_then-Sound raised c f h k = h
  and_then-Sound fault c f h k = absurd h

  pub Safe-bind :
      {A B : Type 0} (m : Action R W A) (f : A → Action R W B)
      → Safe m
      → ((a : A) → Safe (f a))
      → Safe (m >>= f)
  unfolding ◌>>=◌
  Safe-bind m f km kf = record { at = λ c h. and_then-Sound (m c).0 (m c).1 f (km.at c h) kf }

  pub Safe-then :
      {B : Type 0} (m : Action R W (Unit {0})) (k : Action R W B) → Safe m → Safe k → Safe (m >> k)
  unfolding ◌>>◌
  Safe-then m k km kk = Safe-bind m (λ _. k) km (λ _. kk)

  pub Safe-if :
      {A : Type 0} (b : Bool) (m n : Action R W A) → Safe m → Safe n → Safe (if b then m else n)
  Safe-if true m n km kn = km
  Safe-if false m n km kn = kn

  pub Safe-pure : {A : Type 0} (a : A) → Safe {R = R} {W = W} (pure a)
  unfolding pure
  Safe-pure a = record { at = λ c h. h }

  pub Safe-continue_loop : {A : Type 0} → Safe {R = R} {W = W} {A = A} continue_loop
  unfolding continue_loop
  Safe-continue_loop = record { at = λ c h. h }

  pub Safe-this_row : Safe {R = R} {W = W} this_row
  unfolding this_row
  Safe-this_row = record { at = λ c h. h }

  pub Safe-modify : (f : ReportData W → ReportData W) → Safe {R = R} (modify f)
  unfolding modify
  Safe-modify f = record { at = λ c h. h }

module _ {R W : Type 0} ⦃e : Env R W⦄ where
  moved-Sound : (c : Context R W) (m : Option (Bool × R)) → HasRes c.res → Sound (moved m c)
  moved-Sound c none h = h
  moved-Sound c (some (found, r)) h = tt

  next_on-Sound :
      (c : Context R W) (res : Option R) → HasRes c.res → HasRes res → Sound (next_on res c)
  next_on-Sound c none h k = absurd k
  next_on-Sound c (some r) h k = moved-Sound c (e.next r) h

  Safe-next_row : Safe {R = R} {W = W} next_row
  unfolding next_row
  Safe-next_row = record { at = λ c h. next_on-Sound c c.res h h }

  Safe-query : (sql : Text) → Safe {R = R} {W = W} (query sql)
  unfolding query
  Safe-query sql = record {
    at = λ c h. elim (Option-cases (e.execute sql)) [
      | inl failed ↦ rw (failed, query) h
      | inr (r, got) ↦ rw (got, query) tt
    ];
  }

  pub Safe-fetch : (sql : Text) → Safe {R = R} {W = W} (fetch sql)
  unfolding fetch
  Safe-fetch sql = search (Safe-then, Safe-bind, Safe-query, Safe-next_row, Safe-pure)

  Safe-rows_count : Safe {R = R} {W = W} rows_count
  unfolding rows_count
  Safe-rows_count = Safe-with_res (λ r. some (e.rows_count r))

  pub Safe-is_null : (label : Text) → Safe {R = R} {W = W} (is_null label)
  unfolding is_null
  Safe-is_null label = Safe-with_res _

  pub Safe-get_string : (label : Text) → Safe {R = R} {W = W} (get_string label)
  unfolding get_string
  Safe-get_string label = Safe-with_res _

  pub Safe-get_string_at : (n : ℕ) → Safe {R = R} {W = W} (get_string_at n)
  unfolding get_string_at
  Safe-get_string_at n = Safe-with_res _

  pub Safe-get_double : (label : Text) → Safe {R = R} {W = W} (get_double label)
  unfolding get_double
  Safe-get_double label = Safe-with_res _

  pub Safe-null_or_empty : (label : Text) (n : ℕ) → Safe {R = R} {W = W} (null_or_empty label n)
  unfolding null_or_empty
  Safe-null_or_empty label n =
      search (Safe-bind, Safe-if, Safe-is_null, Safe-get_string_at, Safe-pure)

  pub Safe-no_value : (label : Text) → Safe {R = R} {W = W} (no_value label)
  unfolding no_value
  Safe-no_value label = search (Safe-bind, Safe-if, Safe-rows_count, Safe-null_or_empty, Safe-pure)

pub ruleset safe_rules = (
  Safe-bind, Safe-then, Safe-if, Safe-pure, Safe-continue_loop, Safe-this_row, Safe-modify,
  Safe-fetch, Safe-is_null, Safe-get_string, Safe-get_string_at, Safe-get_double,
  Safe-null_or_empty, Safe-no_value,
)
