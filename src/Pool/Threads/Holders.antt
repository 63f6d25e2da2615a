-- ===== src/Pool/Threads/Holders.antt =====
-- Which thread has which connection of a ConPool of `ThreadedPool` (src/serverResource.hpp).
use asio_coro_frame.Base.{
  get_elem?, ◌∙◌, ℕ, ◌≤◌, ◌≡◌, List, [], ◌∷◌, some, arith, Bool-cases, ◌==◌, ==_iff, if◌then◌else◌,
  inl, inr,
}
use asio_coro_frame.Base.Places.{set_elem, total, get_elem?-set_elem_ne}
use asio_coro_frame.Pool.{ConQueue}
use asio_coro_frame.Pool.Counting.{count}
use asio_coro_frame.Pool.Threads.Load.{weigh, moved_load, Reach-load, idle_threads-weigh}
use asio_coro_frame.Pool.Threads.{Place, outside, holding, Monitor, Reach, start_with}

abbrev pub same : ℕ → ℕ → ℕ
same con c = if c == con then 1 else 0

pub count-total : (con : ℕ) (queue : ConQueue) → count con queue ≡ total (same con) queue
count-total con [] = omega arith
count-total con (c ∷ queue) = omega (arith, count-total con queue)

module _ (con : ℕ) where
  -- Two threads that have the connection are two of its places.
  two_hold :
      (i j : ℕ) (threads : List Place)
      → ¬ (i ≡ j)
      → get_elem? threads i ≡ some (holding con)
      → get_elem? threads j ≡ some (holding con)
      → 2 ≤ total (weigh (same con)) threads
  two_hold i j threads ne at_i at_j =
      let still = get_elem?-set_elem_ne i j outside threads ne ∙ at_j in
      ground (
        arith,
        moved_load (same con) i (holding con) outside threads at_i,
        moved_load (same con) j (holding con) outside (set_elem i outside threads) still,
      )

-- No connection is with two threads, and none is idle while a thread has it: in every state that
-- threads reach from a pool that holds the connection once, with none of them in it, two threads that
-- have the connection are one thread, and the queue does not hold it.
pub holder-once :
    (queue : ConQueue) (n : ℕ) (s : Monitor)
    → Reach (start_with queue n) s
    → (con : ℕ) → count con queue ≤ 1
    → (i j : ℕ) → get_elem? s.threads i ≡ some (holding con)
    → get_elem? s.threads j ≡ some (holding con)
    → (i ≡ j) × (count con s.queue ≡ 0)
holder-once queue n s r con once i j at_i at_j =
    let idle = count-total con s.queue in
    let at_first = count-total con queue in
    let kept = Reach-load (same con) r in
    let none_held = idle_threads-weigh (same con) n in
    let mine = moved_load (same con) i (holding con) outside s.threads at_i in
    elim (Bool-cases (i == j)) [
      | inl same ↦ ((==_iff i j).0 same, ground arith)
      | inr other ↦ absurd (
          omega (
            arith,
            kept,
            at_first,
            none_held,
            once,
            two_hold con i j s.threads (λ e. ground arith) at_i at_j,
          ))
    ]
