-- ===== src/Pool/Keys.antt =====
-- The comparator of the slot ranges of `ThreadedPool` (src/serverResource.hpp) is a strict weak order.
use asio_coro_frame.Base.{arith}
use asio_coro_frame.Base.StdMap.{IsComparator}
use asio_coro_frame.Pool.{range_lt}

pub range_lt-IsComparator : IsComparator range_lt
range_lt-IsComparator = record {
  irrefl = λ a. ground arith;
  trans = λ a b c h k. ground arith;
  left = λ a b c h k. ground arith;
  right = λ a b c h k. ground arith;
}
