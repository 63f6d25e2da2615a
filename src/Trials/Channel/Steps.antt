-- ===== src/Trials/Channel/Steps.antt =====
-- Every statement of test3 of src/test/test2.hpp keeps what holds of its states.
use asio_coro_frame.Base.{
  ℕ, ◌+◌, ◌≤◌, ◌≡◌, refl, ap, inl, inr, List, [], ◌∷◌, ◌++◌, some, length, arith, Option-cases,
}
use mathlib.Core.Path.{subst}
use asio_coro_frame.Trials.Channel.{
  Pointer, object, Channel, IsBuffer, Writer, first_push, increment, second_push, written, Reader,
  first_pop, first_print, increase, second_pop, second_print, read, Test3, write, read_on,
  after_push, after_pop,
}
use asio_coro_frame.Trials.Channel.Consistent.{
  pushes, pops, writer_counts, reader_counts, writer_done, reader_done, One, Two, Printed,
  Consistent, room-cases,
}

writer_counts-le : (w : Writer) → writer_counts w ≤ 1
writer_counts-le first_push = omega arith
writer_counts-le increment = omega arith
writer_counts-le second_push = omega arith
writer_counts-le written = omega arith

pushes-writer_counts : (w : Writer) → 2 ≤ pushes w → writer_counts w ≡ 1
pushes-writer_counts first_push h = omega arith
pushes-writer_counts increment h = omega arith
pushes-writer_counts second_push h = refl
pushes-writer_counts written h = refl

print-One : (printed : List ℕ) (x : ℕ) → printed ≡ [] → 2 ≤ x → x ≤ 3 → One (printed ++ x ∷ [])
print-One printed x none_yet low high = (x, low, high, ap (λ (t : List ℕ). t ++ x ∷ []) none_yet)

print-Two : (printed : List ℕ) (x : ℕ) → One printed → x ≡ 4 → Two (printed ++ x ∷ [])
print-Two printed x (a, low, high, one) four = (a, low, high, rw (one, four) refl)

module _ {C : Type 0} (chan : Channel C Pointer) (law : IsBuffer chan 1) where
  -- a push that does not wait
  push-waiting :
      (c c' : C)
      → chan.push object c ≡ some c'
      → length (law.waiting c) ≤ 1
      → (length (law.waiting c) ≡ 0) × (length (law.waiting c') ≡ 1)
  push-waiting c c' pushed room = elim (room-cases (law.waiting c) room) [
    | inl nothing ↦
        let (d, into, holds) = law.pushed object c (rw nothing (omega arith)) in
        let same : d ≡ c' = cc in (ap length nothing, rw (← same) (rw (holds, nothing) refl))
    | inr (a, one) ↦ let waits = law.full object c (rw one refl) in ground arith
  ]

  pop-waiting :
      (c c' : C) (p : Pointer)
      → chan.pop c ≡ some (p, c')
      → length (law.waiting c) ≤ 1
      → (length (law.waiting c) ≡ 1) × (length (law.waiting c') ≡ 0)
  pop-waiting c c' p popped room = elim (room-cases (law.waiting c) room) [
    | inl nothing ↦ let waits = law.empty c nothing in ground arith
    | inr (a, one) ↦
        let (d, out, holds) = law.popped a [] c one in
        let same : d ≡ c' = cc in (ap length one, rw (← same) (ap length holds))
  ]

  moved-Consistent :
      (n : ℕ) (s t : Test3 C) → some s ≡ some t → Consistent chan law n s → Consistent chan law n t
  moved-Consistent n s t run =
      let same : s ≡ t = cc in subst (λ (u : Test3 C). Consistent chan law n u) same

  push-Consistent :
      (n : ℕ) (s t : Test3 C) (w : Writer)
      → pushes w ≡ pushes s.writer + 1
      → writer_counts w ≡ writer_counts s.writer
      → writer_done w ≡ writer_done s.writer + 1
      → Consistent chan law n s
      → after_push w s (chan.push object s.channel) ≡ some t
      → Consistent chan law (n + 1) t
  push-Consistent n s t w one same done h run = elim (Option-cases (chan.push object s.channel)) [
    | inl waits ↦ ground (arith, rw waits at run)
    | inr (c, pushed) ↦
        let (before, after) = push-waiting s.channel c pushed h.room in
        moved-Consistent (n + 1) (record s { channel = c; writer = w }) t (rw pushed at run)
          (record {
            statements = omega (arith, h.statements, done);
            balance = omega (arith, h.balance, one, before, after);
            room = omega (arith, after);
            value = omega (arith, h.value, same);
            lines = h.lines;
          })
  ]

  pop-Consistent :
      (n : ℕ) (s t : Test3 C) (r : Pointer → Reader)
      → ((p : Pointer)
          → (pops (r p) ≡ pops s.reader + 1)
            × (reader_counts (r p) ≡ reader_counts s.reader)
            × (reader_done (r p) ≡ reader_done s.reader + 1)
            × Printed (r p) s.printed)
      → Consistent chan law n s
      → after_pop r s (chan.pop s.channel) ≡ some t
      → Consistent chan law (n + 1) t
  pop-Consistent n s t r law_of_r h run = elim (Option-cases (chan.pop s.channel)) [
    | inl waits ↦ ground (arith, rw waits at run)
    | inr ((p, c), popped) ↦
        let (before, after) = pop-waiting s.channel c p popped h.room in
        let (one, same, done, printed) = law_of_r p in
        moved-Consistent (n + 1) (record s { channel = c; reader = r p }) t (rw popped at run)
          (record {
            statements = omega (arith, h.statements, done);
            balance = omega (arith, h.balance, one, before, after);
            room = omega (arith, after);
            value = omega (arith, h.value, same);
            lines = printed;
          })
  ]

  pub write-Consistent :
      (n : ℕ) (s t : Test3 C) (w : Writer)
      → s.writer ≡ w
      → Consistent chan law n s
      → write chan s ≡ some t
      → Consistent chan law (n + 1) t
  unfolding write
  write-Consistent n s t first_push here_at h run =
      push-Consistent n s t increment (rw here_at refl) (rw here_at refl) (rw here_at refl) h
        (rw (here_at, write) at run)
  write-Consistent n s t increment here_at h run =
      moved-Consistent (n + 1) (record s { x = s.x + 1; writer = second_push }) t
        (rw (here_at, write) at run)
        (record {
          statements = omega (arith, h.statements, ap writer_done here_at);
          balance = omega (arith, h.balance, ap pushes here_at);
          room = h.room;
          value = omega (arith, h.value, ap writer_counts here_at);
          lines = h.lines;
        })
  write-Consistent n s t second_push here_at h run =
      push-Consistent n s t written (rw here_at refl) (rw here_at refl) (rw here_at refl) h
        (rw (here_at, write) at run)
  write-Consistent n s t written here_at h run = ground (arith, rw (here_at, write) at run)

  pub lines_at :
      (n : ℕ) (s : Test3 C) (r : Reader)
      → s.reader ≡ r
      → Consistent chan law n s
      → Printed r s.printed
  lines_at n s r here_at h = subst (λ (q : Reader). Printed q s.printed) here_at h.lines

  -- a statement of the second coroutine that does not use the channel
  own-Consistent :
      (n : ℕ) (s t : Test3 C) (r : Reader) (x : ℕ) (printed : List ℕ)
      → pops r ≡ pops s.reader
      → reader_done r ≡ reader_done s.reader + 1
      → x + reader_counts s.reader ≡ s.x + reader_counts r
      → Printed r printed
      → Consistent chan law n s
      → some (record s { x = x; reader = r; printed = printed }) ≡ some t
      → Consistent chan law (n + 1) t
  own-Consistent n s t r x printed same done counts lines h run =
      moved-Consistent (n + 1) (record s { x = x; reader = r; printed = printed }) t run
        (record {
          statements = omega (arith, h.statements, done);
          balance = omega (arith, h.balance, same);
          room = h.room;
          value = omega (arith, h.value, counts);
          lines = lines;
        })

  pub read_on-Consistent :
      (n : ℕ) (s t : Test3 C) (r : Reader)
      → s.reader ≡ r
      → Consistent chan law n s
      → read_on chan s ≡ some t
      → Consistent chan law (n + 1) t
  unfolding read_on
  read_on-Consistent n s t first_pop here_at h run =
      pop-Consistent n s t first_print
        (λ p. (rw here_at refl, rw here_at refl, rw here_at refl, lines_at n s _ here_at h)) h
        (rw (here_at, read_on) at run)
  read_on-Consistent n s t (first_print p) here_at h run =
      own-Consistent n s t (increase p) s.x (s.printed ++ s.x ∷ []) (rw here_at refl)
        (rw here_at refl) (rw here_at refl)
        (print-One s.printed s.x (lines_at n s _ here_at h) (omega (arith, h.value))
          (omega (arith, h.value, ap reader_counts here_at, writer_counts-le s.writer)))
        h (rw (here_at, read_on) at run)
  read_on-Consistent n s t (increase p) here_at h run =
      own-Consistent n s t (second_pop p) (s.x + 1) s.printed (rw here_at refl) (rw here_at refl)
        (rw here_at (omega arith)) (lines_at n s _ here_at h) h (rw (here_at, read_on) at run)
  read_on-Consistent n s t (second_pop p) here_at h run =
      pop-Consistent n s t second_print
        (λ q. (rw here_at refl, rw here_at refl, rw here_at refl, lines_at n s _ here_at h)) h
        (rw (here_at, read_on) at run)
  read_on-Consistent n s t (second_print p) here_at h run =
      let counted : writer_counts s.writer ≡ 1 =
        pushes-writer_counts s.writer (omega (arith, h.balance, ap pops here_at)) in
      own-Consistent n s t (read p) s.x (s.printed ++ s.x ∷ []) (rw here_at refl) (rw here_at refl)
        (rw here_at refl)
        (print-Two s.printed s.x (lines_at n s _ here_at h)
          (omega (arith, h.value, counted, ap reader_counts here_at)))
        h (rw (here_at, read_on) at run)
  read_on-Consistent n s t (read p) here_at h run = ground (arith, rw (here_at, read_on) at run)
