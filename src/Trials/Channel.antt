-- ===== src/Trials/Channel.antt =====
-- `test` and `test3` of src/test/test2.hpp: two coroutines that hand a shared_ptr over a co_chan. The
-- channel is libgo's and a parameter. A step is a statement of one coroutine; the coroutines share one
-- thread, so that no two statements run at once.
pub mod Consistent
pub mod Steps
pub mod Order
mod Tests
use asio_coro_frame.Base.{ℕ, zero, ◌+◌, ◌<◌, ◌≡◌, List, [], ◌∷◌, ◌++◌, Option, none, some, length}

-- The pointer that the first coroutine makes; the two coroutines count the int behind it up.
pub data Pointer : Type 0 where
  object : Pointer

-- co_chan<A>: `none` is a call that waits.
pub record Channel (C A : Type 0) : Type 0 where
  pub co_chan : ℕ → C
  pub push : A → C → Option C
  pub pop : C → Option (A × C)

-- What libgo documents: first in, first out, and as many values in the channel as it has room for.
pub record IsBuffer {C A : Type 0} (chan : Channel C A) (size : ℕ) : Type 0 where
  pub waiting : C → List A
  pub start : waiting (chan.co_chan size) ≡ []
  pub pushed :
      (a : A) (c : C)
      → length (waiting c) < size
      → (c' : C) × (chan.push a c ≡ some c') × (waiting c' ≡ waiting c ++ a ∷ [])
  pub full : (a : A) (c : C) → length (waiting c) ≡ size → chan.push a c ≡ none
  pub popped :
      (a : A) (others : List A) (c : C)
      → waiting c ≡ a ∷ others
      → (c' : C) × (chan.pop c ≡ some (a, c')) × (waiting c' ≡ others)
  pub empty : (c : C) → waiting c ≡ [] → chan.pop c ≡ none

module _ {C A : Type 0} (chan : Channel C A) where
  abbrev pub value_of : Option (A × C) → Option A
  value_of none = none
  value_of (some (a, c)) = some a

  abbrev pub then_pop : Option C → Option A
  then_pop none = none
  then_pop (some c) = value_of (chan.pop c)

  -- test, with what it prints; `none` waits for ever
  unfoldable pub test : A → Option A
  test eleven = then_pop (chan.push eleven (chan.co_chan 1))

-- The statement that comes next in the first coroutine of test3.
pub data Writer : Type 0 where
  first_push increment second_push written : Writer

-- In the second one; it has the pointer from `first_print` on.
pub data Reader : Type 0 where
  first_pop : Reader
  first_print increase second_pop second_print read : Pointer → Reader

pub record Test3 (C : Type 0) : Type 0 where
  pub channel : C
  -- the int behind the pointer
  pub x : ℕ
  pub writer : Writer
  pub reader : Reader
  pub printed : List ℕ

module _ {C : Type 0} where
  abbrev pub after_push : Writer → Test3 C → Option C → Option (Test3 C)
  after_push w s none = none
  after_push w s (some c) = some (record s { channel = c; writer = w })

  abbrev pub after_pop : (Pointer → Reader) → Test3 C → Option (Pointer × C) → Option (Test3 C)
  after_pop r s none = none
  after_pop r s (some (p, c)) = some (record s { channel = c; reader = r p })

module _ {C : Type 0} (chan : Channel C Pointer) where
  unfoldable pub test3 : Test3 C
  test3 = record {
    channel = chan.co_chan 1;
    x = 2;
    writer = first_push;
    reader = first_pop;
    printed = [];
  }

  -- The next statement of the first coroutine; `none` if it waits or has ended.
  unfoldable pub write : Test3 C → Option (Test3 C)
  write s = elim s.writer [
    | first_push ↦ after_push increment s (chan.push object s.channel)
    | increment ↦ some (record s { x = s.x + 1; writer = second_push })
    | second_push ↦ after_push written s (chan.push object s.channel)
    | written ↦ none
  ]

  -- The next statement of the second coroutine.
  unfoldable pub read_on : Test3 C → Option (Test3 C)
  read_on s = elim s.reader [
    | first_pop ↦ after_pop first_print s (chan.pop s.channel)
    | first_print p ↦ some (record s { printed = s.printed ++ s.x ∷ []; reader = increase p })
    | increase p ↦ some (record s { x = s.x + 1; reader = second_pop p })
    | second_pop p ↦ after_pop second_print s (chan.pop s.channel)
    | second_print p ↦ some (record s { printed = s.printed ++ s.x ∷ []; reader = read p })
    | read p ↦ none
  ]

  pub data Step (s : Test3 C) : Test3 C → Type 0 where
    writes : {t : Test3 C} → write s ≡ some t → Step s t
    reads : {t : Test3 C} → read_on s ≡ some t → Step s t

  -- A state of test3 after so many statements.
  pub data Reach : ℕ → Test3 C → Type 0 where
    here : Reach 0 test3
    next : {n : ℕ} {s t : Test3 C} → Reach n s → Step s t → Reach (n + 1) t
