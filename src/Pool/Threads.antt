-- ===== src/Pool/Threads.antt =====
-- The threads at one ConPool of `ThreadedPool` (src/serverResource.hpp): `pullConnection` and
-- `pushConnection` with the condition variable. A step is what one thread does under the mutex, or a
-- call of `notify_one`, which `pushConnection` makes after it has unlocked the mutex.
pub mod WakeUp
pub mod Bag
pub mod Load
pub mod Holders
pub mod Drain
mod Tests
use asio_coro_frame.Base.{
  get_elem?, ℕ, zero, suc, ◌+◌, ◌≡◌, refl, Bool, true, false, List, [], ◌∷◌, Option, none, some,
}
use asio_coro_frame.Base.Places.{set_elem, total}
use asio_coro_frame.Pool.{ConQueue, pull_connection, push_connection}

-- Where a thread stands.
pub data Place : Type 0 where
  outside : Place  -- in no method, with no connection
  entering : Place  -- in `getConnection`, before it has the mutex
  sleeping : Place  -- in `wait`
  woken : Place  -- leaving `wait`, before it has the mutex again
  holding : ℕ → Place  -- with the connection that `pullConnection` returned
  notifying : Place  -- in `pushConnection`, between `unlock` and `notify_one`

-- The test of the `while` comes next, as soon as the thread has the mutex.
abbrev pub is_asking : Place → Bool
is_asking entering = true
is_asking woken = true
is_asking _ = false

abbrev pub is_sleeping : Place → ℕ
is_sleeping sleeping = 1
is_sleeping _ = 0

pub record Monitor : Type 0 where
  pub queue : ConQueue
  pub threads : List Place

abbrev pub move : ℕ → Place → Monitor → Monitor
move i p s = record s { threads = set_elem i p s.threads }

pub data Step (s : Monitor) : Monitor → Type 0 where
  call : (i : ℕ) → get_elem? s.threads i ≡ some outside → Step s (move i entering s)
  pull :
      (i : ℕ) (p : Place) (con : ℕ) (queue : ConQueue)
      → get_elem? s.threads i ≡ some p
      → is_asking p ≡ true
      → pull_connection s.queue ≡ some (con, queue)
      → Step s (move i (holding con) (record s { queue = queue }))
  wait :
      (i : ℕ) (p : Place)
      → get_elem? s.threads i ≡ some p
      → is_asking p ≡ true
      → pull_connection s.queue ≡ none
      → Step s (move i sleeping s)
  -- `wait` may return with no notification.
  wake_up : (i : ℕ) → get_elem? s.threads i ≡ some sleeping → Step s (move i woken s)
  push :
      (i con : ℕ)
      → get_elem? s.threads i ≡ some (holding con)
      → Step s (move i notifying (record s { queue = push_connection s.queue con }))
  -- `notify_one` wakes one of the threads that wait, whichever, and nobody if none does.
  notify :
      (i j : ℕ)
      → get_elem? s.threads i ≡ some notifying
      → get_elem? s.threads j ≡ some sleeping
      → Step s (move j woken (move i outside s))
  notify_nobody :
      (i : ℕ)
      → get_elem? s.threads i ≡ some notifying
      → total is_sleeping s.threads ≡ 0
      → Step s (move i outside s)

-- Any number of steps, one after the other.
pub data Reach (s : Monitor) : Monitor → Type 0 where
  here : Reach s s
  next : {t u : Monitor} → Reach s t → Step t u → Reach s u

-- `n` threads outside, with a filled pool
abbrev pub idle_threads : ℕ → List Place
idle_threads zero = []
idle_threads (suc n) = outside ∷ idle_threads n

abbrev pub start_with : ConQueue → ℕ → Monitor
start_with queue n = record { queue = queue; threads = idle_threads n }
