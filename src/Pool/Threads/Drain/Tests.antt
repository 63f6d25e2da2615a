-- ===== src/Pool/Threads/Drain/Tests.antt =====
-- `disconnect` of a ConPool of ten connections (src/serverResource.hpp) by the second of three threads:
-- the first one has a connection and gives it back, and the third one waits for ever.
use asio_coro_frame.Base.{get_elem?, ℕ, ◌≡◌, ◌≢◌, refl, inl, inr, List, [], ◌∷◌, some, arith}
use asio_coro_frame.Pool.{pull_connection, push_connection}
use asio_coro_frame.Pool.Counting.{count}
use asio_coro_frame.Pool.Threads.{
  entering, sleeping, woken, holding, outside, call, pull, wait, push, notify,
}
use asio_coro_frame.Pool.Threads.Drain.{
  Closing, DrainStep, runs, frees, Drained, here, next, in_use, Drained-freed,
}

infixl 5 ◌▸◌
abbrev ◌▸◌ : {s t u : Closing} → Drained 1 s t → DrainStep 1 t u → Drained 1 s u
r ▸ st = next r st

abbrev ten : List ℕ
ten = 1 ∷ 2 ∷ 3 ∷ 4 ∷ 5 ∷ 6 ∷ 7 ∷ 8 ∷ 9 ∷ 10 ∷ []

-- The first thread has the connection that `disconnect` sleeps for.
abbrev one_missing : Closing
one_missing = record {
  monitor = record { queue = []; threads = holding 1 ∷ sleeping ∷ outside ∷ [] };
  freed = 2 ∷ 3 ∷ 4 ∷ 5 ∷ 6 ∷ 7 ∷ 8 ∷ 9 ∷ 10 ∷ [];
}

waits_for_one : Drained 1 (in_use 1 ten 3) one_missing
unfolding pull_connection
waits_for_one =
    here
    ▸ runs (call 0 refl) tt (ground arith)
    ▸ runs (pull 0 entering 1 (2 ∷ 3 ∷ 4 ∷ 5 ∷ 6 ∷ 7 ∷ 8 ∷ 9 ∷ 10 ∷ []) refl refl refl) (inl refl)
        (ground arith)
    ▸ runs (call 1 refl) tt (ground arith)
    ▸ runs (pull 1 entering 2 (3 ∷ 4 ∷ 5 ∷ 6 ∷ 7 ∷ 8 ∷ 9 ∷ 10 ∷ []) refl refl refl) (inr refl)
        (ground arith)
    ▸ frees 2 refl (omega arith)
    ▸ runs (pull 1 entering 3 (4 ∷ 5 ∷ 6 ∷ 7 ∷ 8 ∷ 9 ∷ 10 ∷ []) refl refl refl) (inr refl)
        (ground arith)
    ▸ frees 3 refl (omega arith)
    ▸ runs (pull 1 entering 4 (5 ∷ 6 ∷ 7 ∷ 8 ∷ 9 ∷ 10 ∷ []) refl refl refl) (inr refl)
        (ground arith)
    ▸ frees 4 refl (omega arith)
    ▸ runs (pull 1 entering 5 (6 ∷ 7 ∷ 8 ∷ 9 ∷ 10 ∷ []) refl refl refl) (inr refl) (ground arith)
    ▸ frees 5 refl (omega arith)
    ▸ runs (pull 1 entering 6 (7 ∷ 8 ∷ 9 ∷ 10 ∷ []) refl refl refl) (inr refl) (ground arith)
    ▸ frees 6 refl (omega arith)
    ▸ runs (pull 1 entering 7 (8 ∷ 9 ∷ 10 ∷ []) refl refl refl) (inr refl) (ground arith)
    ▸ frees 7 refl (omega arith)
    ▸ runs (pull 1 entering 8 (9 ∷ 10 ∷ []) refl refl refl) (inr refl) (ground arith)
    ▸ frees 8 refl (omega arith)
    ▸ runs (pull 1 entering 9 (10 ∷ []) refl refl refl) (inr refl) (ground arith)
    ▸ frees 9 refl (omega arith)
    ▸ runs (pull 1 entering 10 [] refl refl refl) (inr refl) (ground arith)
    ▸ frees 10 refl (omega arith)
    ▸ runs (wait 1 entering refl refl refl) (inr refl) (ground arith)

abbrev drained : Closing
drained = record {
  monitor = record { queue = []; threads = outside ∷ outside ∷ sleeping ∷ [] };
  freed = 2 ∷ 3 ∷ 4 ∷ 5 ∷ 6 ∷ 7 ∷ 8 ∷ 9 ∷ 10 ∷ 1 ∷ [];
}

drains : Drained 1 (in_use 1 ten 3) drained
unfolding pull_connection push_connection
drains =
    waits_for_one
    ▸ runs (call 2 refl) tt (ground arith)
    ▸ runs (wait 2 entering refl refl refl) (inl refl) (ground arith)
    ▸ runs (push 0 1 refl) (inl refl) (ground arith)
    ▸ runs (notify 0 1 refl refl) tt (ground arith)
    ▸ runs (pull 1 woken 1 [] refl refl refl) (inl refl) (ground arith)
    ▸ frees 1 refl (omega arith)

Drained-freed_example :
    (drained.monitor.queue ≡ [])
    × (get_elem? drained.monitor.threads 2 ≢ some (holding 7))
    × (count 7 drained.freed ≡ count 7 ten)
Drained-freed_example = Drained-freed 1 3 ten drained refl drains refl 2 7
