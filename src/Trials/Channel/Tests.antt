-- ===== src/Trials/Channel/Tests.antt =====
-- The theorems about src/test/test2.hpp at a concrete channel.
use asio_coro_frame.Base.{
  ℕ, ◌<◌, ◌≡◌, refl, ◌⊎◌, List, [], ◌∷◌, ◌++◌, none, some, length, ltb, leb, if◌then◌else◌, arith,
}
use asio_coro_frame.Trials.Channel.{
  Pointer, object, Channel, IsBuffer, written, read, Test3, test3, test, write, read_on, Step,
  writes, reads, Reach, here, next,
}
use asio_coro_frame.Trials.Channel.Consistent.{Two}
use asio_coro_frame.Trials.Channel.Order.{test3-course, test-prints}
use asio_coro_frame.Trials.Product.{multiply, foo, factorial, foo-bounds}

foo-bounds_example :
    (multiply 13 1 1 ≡ (if leb 13 12 then some (factorial 13) else none)) × (foo 0 ≡ none)
foo-bounds_example = foo-bounds 13 0

-- a queue with room for one
abbrev queue : {A : Type 0} → Channel (List A) A
queue = record {
  co_chan = λ n. [];
  push = λ a c. if ltb (length c) 1 then some (c ++ a ∷ []) else none;
  pop = λ c. elim c [ [] ↦ none | a ∷ others ↦ some (a, others) ];
}

queue-IsBuffer : {A : Type 0} → IsBuffer {A = A} queue 1
queue-IsBuffer = record {
  waiting = λ c. c;
  start = refl;
  pushed = λ a c h. (c ++ a ∷ [], ground arith, refl);
  full = λ a c h. ground arith;
  popped = λ a others c h. (others, ground arith, refl);
  empty = λ c h. ground arith;
}

abbrev done : Test3 (List Pointer)
done = record { channel = []; x = 4; writer = written; reader = read object; printed = 3 ∷ 4 ∷ [] }

-- The first coroutine counts up before the second one prints.
done-Reach : Reach queue 8 done
unfolding test3 write read_on
done-Reach =
    next
      (next
        (next
          (next
            (next (next (next (next here (writes refl)) (reads refl)) (writes refl)) (reads refl))
            (reads refl))
          (writes refl))
        (reads refl))
      (reads refl)

test3-course_example :
    ((8 < 8) × ((t : Test3 (List Pointer)) × Step queue done t))
    ⊎ ((◌≡◌ {A = ℕ} 8 8) × Two done.printed)
test3-course_example = test3-course queue queue-IsBuffer 8 done done-Reach

eleven_printed : test {A = ℕ} queue 11 ≡ some 11
eleven_printed = test-prints queue queue-IsBuffer 11
