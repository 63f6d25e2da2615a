-- ===== src/Trials/Task.antt =====
-- The coroutine `task` of src/test/test1.hpp, and `test_coro`, which calls it for ever.
use asio_coro_frame.Base.{
  ℕ, zero, suc, ◌+◌, ◌-◌, ◌*◌, ◌/◌, ◌≤◌, ◌<◌, ◌≡◌, refl, ap, ◌∙◌, ◌⊎◌, List, [], ◌∷◌, ◌++◌, ltb,
  if◌then◌else◌, arith,
}

-- The value of boost::asio::coroutine: which `yield` it goes on from.
pub data Point : Type 0 where
  at_start first_yield second_yield terminated : Point

pub record Task : Type 0 where
  pub point : Point
  pub m_i : ℕ

pub data Line : Type 0 where
  number : ℕ → Line
  break : Line

abbrev pub printed : Point → ℕ → List Line × Task
printed at i = (number i ∷ [], record { point = at; m_i = i + 1 })

-- operator(): what one call prints, and the coroutine after it
unfoldable pub resume : Task → List Line × Task
resume t = elim t.point [
  | at_start ↦ printed first_yield t.m_i
  | first_yield ↦ printed second_yield t.m_i
  | second_yield ↦
      if ltb 10 t.m_i
      then (break ∷ [], record t { point = terminated })
      else printed first_yield t.m_i
  | terminated ↦ ([], t)
]

-- The loop of `test_coro`, by the number of calls.
unfoldable pub calls : ℕ → Task → List Line
unfolding resume
calls zero t = []
calls (suc n) t = let (lines, after) = resume t in lines ++ calls n after

abbrev pub task : ℕ → Task
task i = record { point = at_start; m_i = i }

abbrev pub numbers : ℕ → ℕ → List Line
numbers i zero = []
numbers i (suc n) = number i ∷ numbers (i + 1) n

terminated-silent : (n i : ℕ) → calls n (record { point = terminated; m_i = i }) ≡ []
unfolding calls resume
terminated-silent zero i = refl
terminated-silent (suc n) i = terminated-silent n i

second_yield-again :
    (i m : ℕ)
    → i ≤ 10
    → calls (suc (suc m)) (record { point = second_yield; m_i = i })
      ≡ number i ∷ number (i + 1) ∷ calls m (record { point = second_yield; m_i = i + 1 + 1 })
unfolding calls resume
second_yield-again i m small = ground arith

second_yield-break :
    (i m : ℕ) → 10 < i → calls (suc m) (record { point = second_yield; m_i = i }) ≡ break ∷ []
unfolding calls resume
second_yield-break i m large = ground (arith, terminated-silent m i)

-- At the second `yield` with `i`: `k` more pairs, and the break.
second_yield-calls :
    (k i n : ℕ)
    → (k ≡ 0) ⊎ (i + 2 * k ≤ 12)
    → 10 < i + 2 * k
    → calls (2 * k + 1 + n) (record { point = second_yield; m_i = i })
      ≡ numbers i (2 * k) ++ break ∷ []
second_yield-calls zero i n low high =
    ap (λ m. calls m (record { point = second_yield; m_i = i })) (omega arith)
    ∙ second_yield-break i n (omega arith)
second_yield-calls (suc k) i n low high =
    ap (λ m. calls m (record { point = second_yield; m_i = i })) (omega arith)
    ∙ second_yield-again i (2 * k + 1 + n) (ground arith)
    ∙ ap (λ (t : List Line). number i ∷ number (i + 1) ∷ t)
        (second_yield-calls k (i + 1 + 1) n (ground arith) (omega arith))
    ∙ ap (λ m. numbers i m ++ break ∷ []) {x = suc (suc (2 * k))} {y = 2 * suc k} (omega arith)

-- How many pairs of numbers a task that starts at `i` prints.
abbrev pub pairs : ℕ → ℕ
pairs i = (10 - i) / 2 + 1

-- A task that starts at `i` prints numbers in pairs from `i` on, up to the first pair after which
-- the count is over 10, then "break", and nothing at all in however many calls follow.
pub calls-task :
    (i n : ℕ) → calls (2 * pairs i + 1 + n) (task i) ≡ numbers i (2 * pairs i) ++ break ∷ []
unfolding calls resume
calls-task i n =
    ap (λ m. calls m (task i)) {x = 2 * pairs i + 1 + n}
      {y = suc (suc (2 * ((10 - i) / 2) + 1 + n))} (omega arith)
    ∙ ap (λ (t : List Line). number i ∷ number (i + 1) ∷ t)
        (second_yield-calls ((10 - i) / 2) (i + 1 + 1) n (ground arith) (omega arith))
    ∙ ap (λ m. numbers i m ++ break ∷ []) {x = suc (suc (2 * ((10 - i) / 2)))} {y = 2 * pairs i}
        (omega arith)
