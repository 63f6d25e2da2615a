-- ===== src/Trials/Channel/Order.antt =====
-- What test3 of src/test/test2.hpp prints.
use asio_coro_frame.Base.{
  ℕ, ◌+◌, ◌≤◌, ◌<◌, ◌≡◌, refl, ap, ◌⊎◌, inl, inr, [], ◌∷◌, ◌++◌, some, length, arith,
}
use asio_coro_frame.Trials.Channel.{
  Pointer, object, Channel, IsBuffer, Writer, first_push, increment, second_push, written, Reader,
  first_pop, first_print, increase, second_pop, second_print, read, Test3, write, read_on,
  after_push, after_pop, Step, writes, reads, Reach, here, next, test,
}
use asio_coro_frame.Trials.Channel.Consistent.{
  pushes, pops, writer_done, reader_done, Two, Consistent, Consistent-start, room-cases,
}
use asio_coro_frame.Trials.Channel.Steps.{write-Consistent, read_on-Consistent, lines_at}

abbrev IsOwn : Reader → Type 0
IsOwn (first_print p) = Unit {0}
IsOwn (increase p) = Unit {0}
IsOwn (second_print p) = Unit {0}
IsOwn _ = ⊥

reader_done-le : (r : Reader) → reader_done r ≤ 5
reader_done-le first_pop = omega arith
reader_done-le (first_print p) = omega arith
reader_done-le (increase p) = omega arith
reader_done-le (second_pop p) = omega arith
reader_done-le (second_print p) = omega arith
reader_done-le (read p) = omega arith

module _ {C : Type 0} (chan : Channel C Pointer) (law : IsBuffer chan 1) where
  Step-Consistent :
      {n : ℕ} {s t : Test3 C}
      → Step chan s t
      → Consistent chan law n s
      → Consistent chan law (n + 1) t
  Step-Consistent {n = n} {s = s} {t = t} (writes run) h =
      write-Consistent chan law n s t s.writer refl h run
  Step-Consistent {n = n} {s = s} {t = t} (reads run) h =
      read_on-Consistent chan law n s t s.reader refl h run

  Reach-Consistent : {n : ℕ} {s : Test3 C} → Reach chan n s → Consistent chan law n s
  Reach-Consistent here = Consistent-start chan law
  Reach-Consistent (next r step) = Step-Consistent step (Reach-Consistent r)

  push-goes :
      (s : Test3 C) (w : Writer)
      → length (law.waiting s.channel) ≡ 0
      → (t : Test3 C) × (after_push w s (chan.push object s.channel) ≡ some t)
  push-goes s w free =
      let (c, pushed, holds) = law.pushed object s.channel (omega (arith, free)) in
      (record s { channel = c; writer = w }, rw pushed refl)

  pop-goes :
      (s : Test3 C) (r : Pointer → Reader)
      → length (law.waiting s.channel) ≡ 1
      → (t : Test3 C) × (after_pop r s (chan.pop s.channel) ≡ some t)
  pop-goes s r one = elim (room-cases (law.waiting s.channel) (omega (arith, one))) [
    | inl nothing ↦ ground (arith, ap length nothing)
    | inr (a, there) ↦
        let (c, popped, holds) = law.popped a [] s.channel there in
        (record s { channel = c; reader = r a }, rw popped refl)
  ]

  abbrev Goes : ℕ → Test3 C → Type 0
  Goes n s = ((n < 8) × ((t : Test3 C) × Step chan s t)) ⊎ ((n ≡ 8) × Two s.printed)

  writes_on : (n : ℕ) (s : Test3 C) → n < 8 → ((t : Test3 C) × (write chan s ≡ some t)) → Goes n s
  writes_on n s early (t, run) = inl (early, (t, writes run))

  reads_on : (n : ℕ) (s : Test3 C) → n < 8 → ((t : Test3 C) × (read_on chan s ≡ some t)) → Goes n s
  reads_on n s early (t, run) = inl (early, (t, reads run))

  -- A print or an increment never waits.
  own-Goes : (n : ℕ) (s : Test3 C) (r : Reader) → n < 8 → s.reader ≡ r → IsOwn r → Goes n s
  unfolding read_on
  own-Goes n s (first_print p) early at_r own =
      reads_on n s early
        (record s { printed = s.printed ++ s.x ∷ []; reader = increase p }, rw (at_r, read_on) refl)
  own-Goes n s (increase p) early at_r own =
      reads_on n s early (record s { x = s.x + 1; reader = second_pop p }, rw (at_r, read_on) refl)
  own-Goes n s (second_print p) early at_r own =
      reads_on n s early
        (record s { printed = s.printed ++ s.x ∷ []; reader = read p }, rw (at_r, read_on) refl)
  own-Goes n s first_pop early at_r own = absurd own
  own-Goes n s (second_pop p) early at_r own = absurd own
  own-Goes n s (read p) early at_r own = absurd own

  -- the second coroutine, after the first one has ended
  written-Goes :
      (n : ℕ) (s : Test3 C) (r : Reader)
      → s.writer ≡ written
      → s.reader ≡ r
      → Consistent chan law n s
      → Goes n s
  unfolding read_on
  written-Goes n s first_pop at_w at_r h =
      absurd (omega (arith, h.balance, h.room, ap pushes at_w, ap pops at_r))
  written-Goes n s (first_print p) at_w at_r h =
      own-Goes n s _ (omega (arith, h.statements, ap writer_done at_w, ap reader_done at_r)) at_r tt
  written-Goes n s (increase p) at_w at_r h =
      own-Goes n s _ (omega (arith, h.statements, ap writer_done at_w, ap reader_done at_r)) at_r tt
  written-Goes n s (second_pop p) at_w at_r h =
      reads_on n s (omega (arith, h.statements, ap writer_done at_w, ap reader_done at_r)) (
        rw (at_r, read_on)
          (pop-goes s second_print (omega (arith, h.balance, ap pushes at_w, ap pops at_r))))
  written-Goes n s (second_print p) at_w at_r h =
      own-Goes n s _ (omega (arith, h.statements, ap writer_done at_w, ap reader_done at_r)) at_r tt
  written-Goes n s (read p) at_w at_r h = inr (
    omega (arith, h.statements, ap writer_done at_w, ap reader_done at_r),
    lines_at chan law n s (read p) at_r h,
  )

  -- the first coroutine before its second push
  second_push-Goes :
      (n : ℕ) (s : Test3 C) (r : Reader)
      → s.writer ≡ second_push
      → s.reader ≡ r
      → Consistent chan law n s
      → Goes n s
  unfolding write read_on
  second_push-Goes n s first_pop at_w at_r h =
      reads_on n s (omega (arith, h.statements, ap writer_done at_w, ap reader_done at_r)) (
        rw (at_r, read_on)
          (pop-goes s first_print (omega (arith, h.balance, ap pushes at_w, ap pops at_r))))
  second_push-Goes n s (first_print p) at_w at_r h =
      own-Goes n s _ (omega (arith, h.statements, ap writer_done at_w, ap reader_done at_r)) at_r tt
  second_push-Goes n s (increase p) at_w at_r h =
      own-Goes n s _ (omega (arith, h.statements, ap writer_done at_w, ap reader_done at_r)) at_r tt
  second_push-Goes n s (second_pop p) at_w at_r h =
      writes_on n s (omega (arith, h.statements, ap writer_done at_w, ap reader_done at_r)) (
        rw (at_w, write)
          (push-goes s written (omega (arith, h.balance, ap pushes at_w, ap pops at_r))))
  second_push-Goes n s (second_print p) at_w at_r h =
      absurd (omega (arith, h.balance, ap pushes at_w, ap pops at_r))
  second_push-Goes n s (read p) at_w at_r h =
      absurd (omega (arith, h.balance, ap pushes at_w, ap pops at_r))

  goes : (n : ℕ) (s : Test3 C) (w : Writer) → s.writer ≡ w → Consistent chan law n s → Goes n s
  unfolding write
  goes n s first_push at_w h =
      writes_on n s (omega (arith, h.statements, ap writer_done at_w, reader_done-le s.reader))
        (rw (at_w, write) (push-goes s increment (omega (arith, h.balance, ap pushes at_w))))
  goes n s increment at_w h =
      writes_on n s (omega (arith, h.statements, ap writer_done at_w, reader_done-le s.reader))
        (record s { x = s.x + 1; writer = second_push }, rw (at_w, write) refl)
  goes n s second_push at_w h = second_push-Goes n s s.reader at_w refl h
  goes n s written at_w h = written-Goes n s s.reader at_w refl h

  -- Whatever the order in which the two coroutines of test3 get on, no state is a deadlock and every
  -- run is over after eight statements: before that some statement can be executed, and after them
  -- the second coroutine has printed 2 or 3, and then 4.
  pub test3-course :
      (n : ℕ) (s : Test3 C)
      → Reach chan n s
      → ((n < 8) × ((t : Test3 C) × Step chan s t)) ⊎ ((n ≡ 8) × Two s.printed)
  test3-course n s reach = goes n s s.writer refl (Reach-Consistent reach)

-- test prints the number that it puts into the channel.
pub test-prints :
    {C A : Type 0} (chan : Channel C A) → IsBuffer chan 1 → (a : A) → test chan a ≡ some a
unfolding test
test-prints chan law a =
    let (c, pushed, holds) = law.pushed a (chan.co_chan 1) (rw law.start (omega arith)) in
    let (d, popped, rest) = law.popped a [] c (rw (holds, law.start) refl) in
    rw (pushed, popped) refl
