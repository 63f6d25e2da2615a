-- ===== src/Report/Action.antt =====
-- One round of a loop of all_month_report.cpp (src/tools/all_report): a computation on the current
-- report line and on the member `m_res`, which every query replaces.
use asio_coro_frame.Base.{ℕ, Bool, true, Option, none, some, Text, [], text_eq, ltb, if◌then◌else◌}
use asio_coro_frame.Report.{ReportData, Env}

-- The current line and `m_res`, which is null until a query succeeds.
pub record Context (R W : Type 0) : Type 0 where
  pub row : ReportData W
  pub res : Option R

-- How a computation ends: with a value, by `continue`, by a thrown SQLException, or by a call
-- through the null pointer `m_res`.
pub data Exit (A : Type 0) : Type 0 where
  ok : A → Exit A
  skip raised fault : Exit A

abbrev pub Action : Type 0 → Type 0 → Type 0 → Type 0
Action R W A = Context R W → Exit A × Context R W

abbrev pub and_then :
    {R W A B : Type 0} → Exit A × Context R W → (A → Action R W B) → Exit B × Context R W
and_then (ok a, c) f = f a c
and_then (skip, c) f = (skip, c)
and_then (raised, c) f = (raised, c)
and_then (fault, c) f = (fault, c)

infixl 5 ◌>>=◌ ◌>>◌
unfoldable pub ◌>>=◌ : {R W A B : Type 0} → Action R W A → (A → Action R W B) → Action R W B
◌>>=◌ m f c = and_then (m c) f

unfoldable pub ◌>>◌ : {R W B : Type 0} → Action R W (Unit {0}) → Action R W B → Action R W B
unfolding ◌>>=◌
m >> k = m >>= λ _. k

unfoldable pub pure : {R W A : Type 0} → A → Action R W A
pure a c = (ok a, c)

-- `continue`
unfoldable pub continue_loop : {R W A : Type 0} → Action R W A
continue_loop c = (skip, c)

unfoldable pub this_row : {R W : Type 0} → Action R W (ReportData W)
this_row c = (ok c.row, c)

-- an assignment to fields of the line
unfoldable pub modify : {R W : Type 0} → (ReportData W → ReportData W) → Action R W (Unit {0})
modify f c = (ok tt, record c { row = f c.row })

abbrev pub or_raise : {R W A : Type 0} → Option A → Context R W → Exit A × Context R W
or_raise none c = (raised, c)
or_raise (some a) c = (ok a, c)

-- a call through `m_res`
unfoldable pub with_res : {R W A : Type 0} → (R → Option A) → Action R W A
with_res f c = elim c.res [ none ↦ (fault, c) | some r ↦ or_raise (f r) c ]

abbrev pub moved : {R W : Type 0} → Option (Bool × R) → Context R W → Exit Bool × Context R W
moved none c = (raised, c)
moved (some (found, r)) c = (ok found, record c { res = some r })

module _ {R W : Type 0} ⦃e : Env R W⦄ where
  -- month_report::query, which catches the exception and leaves `m_res` as it was
  unfoldable pub query : Text → Action R W (Unit {0})
  query sql c = elim (e.execute sql) [
    | none ↦ (ok tt, c)
    | some r ↦ (ok tt, record c { res = some r })
  ]

  abbrev pub next_on : Option R → Context R W → Exit Bool × Context R W
  next_on none c = (fault, c)
  next_on (some r) c = moved (e.next r) c

  -- m_res->next()
  unfoldable pub next_row : Action R W Bool
  next_row c = next_on c.res c

  unfoldable pub rows_count : Action R W ℕ
  unfolding with_res
  rows_count = with_res (λ r. some (e.rows_count r))

  unfoldable pub is_null : Text → Action R W Bool
  unfolding with_res
  is_null label = with_res (λ r. e.is_null r label)

  unfoldable pub get_string : Text → Action R W Text
  unfolding with_res
  get_string label = with_res (λ r. e.get_string r label)

  unfoldable pub get_string_at : ℕ → Action R W Text
  unfolding with_res
  get_string_at column = with_res (λ r. e.get_string_at r column)

  unfoldable pub get_double : Text → Action R W W
  unfolding with_res
  get_double label = with_res (λ r. e.get_double r label)

  -- `query(sql); m_res->next();`
  unfoldable pub fetch : Text → Action R W (Unit {0})
  unfolding query next_row ◌>>=◌ ◌>>◌ pure
  fetch sql = query sql >> (next_row >>= λ _. pure tt)

  -- m_res->isNull(label)||m_res->getString(column)==""
  unfoldable pub null_or_empty : Text → ℕ → Action R W Bool
  unfolding is_null get_string_at ◌>>=◌ pure
  null_or_empty label column = do
    null ← is_null label
    if null then pure true else do s ← get_string_at column; pure (text_eq s [])

  -- m_res->rowsCount()<1||m_res->isNull(label)||m_res->getString(1)==""
  unfoldable pub no_value : Text → Action R W Bool
  unfolding rows_count null_or_empty ◌>>=◌ pure
  no_value label = do n ← rows_count; if ltb n 1 then pure true else null_or_empty label 1
