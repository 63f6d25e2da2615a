-- ===== src/Config/Instance.antt =====
-- iconfig::get_instance (src/common/config.cpp) on several threads, statement by statement.
pub mod Once
use asio_coro_frame.Base.{
  ℕ, suc, ◌+◌, Bool, true, false, List, [], ◌∷◌, Option, none, some, ◌==◌, if◌then◌else◌,
}

-- Where a thread stands: before the first test of m_ps, before the lock, before the second test,
-- before the assignment, before the end of the block, before `return m_ps`, and after it; or out of
-- the function with the exception of the constructor.
pub data Place : Type 0 where
  first_test locking second_test assigning unlocking returning thrown : Place
  returned : Option ℕ → Place

-- m_ps as the number of the object, m_mu as the thread that holds it, how often the constructor was
-- called, the objects made, the threads
pub record Shared : Type 0 where
  pub m_ps : Option ℕ
  pub m_mu : Option ℕ
  pub calls : ℕ
  pub made : ℕ
  pub place : ℕ → Place

abbrev pub goes_to : ℕ → Place → Shared → Shared
goes_to i p s = record s { place = λ j. if j == i then p else s.place j }

abbrev pub test_of : ℕ → Option ℕ → Place → Place → Shared → Shared
test_of i none absent present s = goes_to i absent s
test_of i (some n) absent present s = goes_to i present s

abbrev pub lock_by : ℕ → Option ℕ → Shared → Shared
lock_by i none s = goes_to i second_test (record s { m_mu = some i })
lock_by i (some j) s = s

-- `new iconfig(filename)`: an exception leaves the block, and the lock with it, before the assignment.
abbrev pub assign_by : ℕ → Bool → Shared → Shared
assign_by i true s = goes_to i thrown (record s { m_mu = none; calls = s.calls + 1 })
assign_by i false s =
    goes_to i unlocking (record s { m_ps = some s.made; calls = s.calls + 1; made = s.made + 1 })

-- `fails n`: whether the n-th call of the constructor throws
module _ (fails : ℕ → Bool) where
  abbrev pub statement : ℕ → Place → Shared → Shared
  statement i first_test s = test_of i s.m_ps locking returning s
  statement i locking s = lock_by i s.m_mu s
  statement i second_test s = test_of i s.m_ps assigning unlocking s
  statement i assigning s = assign_by i (fails s.calls) s
  statement i unlocking s = goes_to i returning (record s { m_mu = none })
  statement i returning s = goes_to i (returned s.m_ps) s
  statement i (returned o) s = s
  statement i thrown s = s

  -- the next statement of thread `i`; a thread that waits for the lock does not move
  unfoldable pub step : ℕ → Shared → Shared
  step i s = statement i (s.place i) s

  -- the threads in any order
  unfoldable pub run : List ℕ → Shared → Shared
  unfolding step
  run [] s = s
  run (i ∷ is) s = run is (step i s)

abbrev pub before : Shared
before = record { m_ps = none; m_mu = none; calls = 0; made = 0; place = λ i. first_test }
