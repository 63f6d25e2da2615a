-- ===== src/Config/Instance/Once.antt =====
-- Every thread that get_instance (src/common/config.cpp) returns to has the one object.
use asio_coro_frame.Base.{
  ℕ, ◌+◌, ◌≡◌, ◌≢◌, refl, ◌∙◌, ◌⊎◌, inl, inr, List, [], ◌∷◌, Option, none, some, ◌==◌, arith, Bool,
  true, false, Bool-cases,
}
use asio_coro_frame.Config.Instance.{
  Place, first_test, locking, second_test, assigning, unlocking, returning, thrown, returned,
  Shared, goes_to, test_of, lock_by, assign_by, statement, step, run, before,
}

-- what the place of thread `i` says of the shared state
abbrev Allows : Option ℕ → Option ℕ → ℕ → Place → Type 0
Allows ps mu i first_test = Unit
Allows ps mu i locking = Unit
Allows ps mu i second_test = mu ≡ some i
Allows ps mu i assigning = (mu ≡ some i) × (ps ≡ none)
Allows ps mu i unlocking = (mu ≡ some i) × (ps ≡ some 0)
Allows ps mu i returning = ps ≡ some 0
Allows ps mu i thrown = Unit
Allows ps mu i (returned o) = (ps ≡ some 0) × (o ≡ some 0)

record IsSafe (s : Shared) : Type 0 where
  once : ((s.m_ps ≡ none) × (s.made ≡ 0)) ⊎ ((s.m_ps ≡ some 0) × (s.made ≡ 1))
  allowed : (j : ℕ) → Allows s.m_ps s.m_mu j (s.place j)

-- A step of another thread leaves a thread what it was allowed.
Allows-others :
    (ps mu ps' mu' : Option ℕ) (j : ℕ) (q : Place)
    → (ps ≡ some 0 → ps' ≡ some 0)
    → (mu ≡ some j → (mu' ≡ some j) × (ps' ≡ ps))
    → Allows ps mu j q
    → Allows ps' mu' j q
Allows-others ps mu ps' mu' j first_test h k a = tt
Allows-others ps mu ps' mu' j locking h k a = tt
Allows-others ps mu ps' mu' j second_test h k a = (k a).0
Allows-others ps mu ps' mu' j assigning h k a = ((k a.0).0, (k a.0).1 ∙ a.1)
Allows-others ps mu ps' mu' j unlocking h k a = ((k a.0).0, h a.1)
Allows-others ps mu ps' mu' j returning h k a = h a
Allows-others ps mu ps' mu' j thrown h k a = tt
Allows-others ps mu ps' mu' j (returned o) h k a = (h a.0, a.1)

goes_to-IsSafe :
    (i : ℕ) (p : Place) (s t : Shared)
    → t.place ≡ s.place
    → ((t.m_ps ≡ none) × (t.made ≡ 0)) ⊎ ((t.m_ps ≡ some 0) × (t.made ≡ 1))
    → Allows t.m_ps t.m_mu i p
    → (s.m_ps ≡ some 0 → t.m_ps ≡ some 0)
    → ((j : ℕ) → j ≢ i → s.m_mu ≡ some j → (t.m_mu ≡ some j) × (t.m_ps ≡ s.m_ps))
    → IsSafe s
    → IsSafe (goes_to i p t)
goes_to-IsSafe i p s t same once here ps mu safe = record {
  once = once;
  allowed = λ j. elim (Bool-cases (j == i)) [
    | inl this_one ↦ let equal : j ≡ i = ground arith in rw this_one (rw equal here)
    | inr other ↦
        rw (other, same)
          (Allows-others s.m_ps s.m_mu t.m_ps t.m_mu j (s.place j) ps (mu j (ground arith))
            (safe.allowed j))
  ];
}

module _ (fails : ℕ → Bool) (i : ℕ) (s : Shared) (safe : IsSafe s) where
  here-Allows : (p : Place) → s.place i ≡ p → Allows s.m_ps s.m_mu i p
  here-Allows p here = rw (← here) (safe.allowed i)

  stay : (p : Place) → Allows s.m_ps s.m_mu i p → IsSafe (goes_to i p s)
  stay p a = goes_to-IsSafe i p s s refl safe.once a (λ h. h) (λ j other h. (h, refl)) safe

  first_test-IsSafe : (o : Option ℕ) → s.m_ps ≡ o → IsSafe (test_of i o locking returning s)
  first_test-IsSafe none ps = stay locking tt
  first_test-IsSafe (some n) ps = stay returning (ground (arith, safe.once))

  second_test-IsSafe :
      (o : Option ℕ) → s.m_ps ≡ o → s.m_mu ≡ some i → IsSafe (test_of i o assigning unlocking s)
  second_test-IsSafe none ps mu = stay assigning (mu, ps)
  second_test-IsSafe (some n) ps mu = stay unlocking (mu, ground (arith, safe.once))

  locking-IsSafe : (o : Option ℕ) → s.m_mu ≡ o → IsSafe (lock_by i o s)
  locking-IsSafe (some j) mu = safe
  locking-IsSafe none mu =
      goes_to-IsSafe i second_test s (record s { m_mu = some i }) refl safe.once refl (λ h. h)
        (λ j other h. ground arith) safe

  assigning-IsSafe : (b : Bool) → s.m_mu ≡ some i → s.m_ps ≡ none → IsSafe (assign_by i b s)
  assigning-IsSafe true mu ps =
      goes_to-IsSafe i thrown s (record s { m_mu = none; calls = s.calls + 1 }) refl safe.once tt
        (λ h. h) (λ j other h. ground arith) safe
  assigning-IsSafe false mu ps =
      let first : s.made ≡ 0 = ground (arith, safe.once) in
      goes_to-IsSafe i unlocking s
        (record s { m_ps = some s.made; calls = s.calls + 1; made = s.made + 1 }) refl
        (inr (rw first refl, rw first refl)) (mu, rw first refl) (λ h. rw first refl)
        (λ j other h. ground arith) safe

  unlocking-IsSafe : s.m_mu ≡ some i → s.m_ps ≡ some 0 → IsSafe (statement fails i unlocking s)
  unlocking-IsSafe mu ps =
      goes_to-IsSafe i returning s (record s { m_mu = none }) refl safe.once ps (λ h. h)
        (λ j other h. ground arith) safe

  statement-IsSafe : (p : Place) → s.place i ≡ p → IsSafe (statement fails i p s)
  statement-IsSafe first_test here = first_test-IsSafe s.m_ps refl
  statement-IsSafe locking here = locking-IsSafe s.m_mu refl
  statement-IsSafe second_test here = second_test-IsSafe s.m_ps refl (here-Allows second_test here)
  statement-IsSafe assigning here =
      let a = here-Allows assigning here in assigning-IsSafe (fails s.calls) a.0 a.1
  statement-IsSafe unlocking here = let a = here-Allows unlocking here in unlocking-IsSafe a.0 a.1
  statement-IsSafe returning here =
      let a = here-Allows returning here in stay (returned s.m_ps) (a, a)
  statement-IsSafe thrown here = safe
  statement-IsSafe (returned o) here = safe

run-IsSafe : (fails : ℕ → Bool) (is : List ℕ) (s : Shared) → IsSafe s → IsSafe (run fails is s)
unfolding run
run-IsSafe fails [] s safe = safe
run-IsSafe fails (i ∷ is) s safe =
    run-IsSafe fails is (step fails i s) (statement-IsSafe fails i s safe (s.place i) refl)

before-IsSafe : IsSafe before
before-IsSafe = record { once = inl (refl, refl); allowed = λ j. tt }

-- In whatever order the statements of the threads run, and whichever calls of the constructor throw,
-- one object at most is made, and every thread that get_instance has returned to has got that object.
pub get_instance-once :
    (fails : ℕ → Bool) (is : List ℕ) (i : ℕ) (o : Option ℕ)
    → (run fails is before).place i ≡ returned o
    → (o ≡ some 0) × ((run fails is before).m_ps ≡ some 0) × ((run fails is before).made ≡ 1)
get_instance-once fails is i o there =
    let safe = run-IsSafe fails is before before-IsSafe in
    let a = here-Allows fails i (run fails is before) safe (returned o) there in
    (a.1, a.0, ground (arith, safe.once))
