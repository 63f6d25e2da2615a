-- ===== src/Pool/Threads/Tests.antt =====
-- Two threads at a ConPool of one connection (src/serverResource.hpp): the second one sleeps, and the
-- first one has given the connection back but not yet notified.
use asio_coro_frame.Base.{ℕ, ◌≡◌, refl, [], ◌∷◌, arith}
use asio_coro_frame.Pool.{pull_connection, push_connection}
use asio_coro_frame.Pool.Threads.{
  entering, sleeping, holding, notifying, Monitor, call, pull, wait, push, Reach, here, next,
  start_with,
}
use asio_coro_frame.Pool.Counting.{count}
use asio_coro_frame.Pool.Threads.Holders.{holder-once}
use asio_coro_frame.Pool.Threads.Bag.{view, Accesses, Reach-view}

abbrev at_start : Monitor
at_start = start_with (7 ∷ []) 2

abbrev before_notify : Monitor
before_notify = record { queue = 7 ∷ []; threads = notifying ∷ sleeping ∷ [] }

given_back : Reach at_start before_notify
unfolding pull_connection push_connection
given_back =
    next
      (next
        (next (next (next here (call 0 refl)) (pull 0 entering 7 [] refl refl refl)) (call 1 refl))
        (wait 1 entering refl refl refl))
      (push 0 7 refl)

Reach-view_example : Accesses (view at_start) (view before_notify)
Reach-view_example = Reach-view given_back

-- The first thread has the connection, and the second one has come for it.
abbrev held_once : Monitor
held_once = record { queue = []; threads = holding 7 ∷ entering ∷ [] }

pulled_once : Reach at_start held_once
unfolding pull_connection
pulled_once =
    next (next (next here (call 0 refl)) (pull 0 entering 7 [] refl refl refl)) (call 1 refl)

holder-once_example : (◌≡◌ {A = ℕ} 0 0) × (count 7 held_once.queue ≡ 0)
holder-once_example = holder-once (7 ∷ []) 2 held_once pulled_once 7 (omega arith) 0 0 refl refl
