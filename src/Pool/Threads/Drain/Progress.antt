-- ===== src/Pool/Threads/Drain/Progress.antt =====
-- `disconnect` of a ConPool of `ThreadedPool` (src/serverResource.hpp) always can come to its end.
use asio_coro_frame.Base.{Bool, true, false}
use asio_coro_frame.Pool.Threads.{Place, entering, sleeping, woken, holding}
use asio_coro_frame.Pool.Threads.Drain.Frees.{Frees}

-- in the loop of `disconnect`
abbrev pub is_closing : Place → Bool
is_closing entering = true
is_closing sleeping = true
is_closing woken = true
is_closing (holding con) = true
is_closing _ = false
