-- ===== src/Trials/Channel/Consistent.antt =====
-- What holds of every state of test3 of src/test/test2.hpp.
use asio_coro_frame.Base.{ℕ, ◌+◌, ◌≤◌, ◌≡◌, refl, ◌⊎◌, inl, inr, List, [], ◌∷◌, length, arith}
use asio_coro_frame.Trials.Channel.{
  Pointer, Channel, IsBuffer, Writer, first_push, increment, second_push, written, Reader,
  first_pop, first_print, increase, second_pop, second_print, read, Test3, test3,
}

abbrev pub pushes : Writer → ℕ
pushes first_push = 0
pushes increment = 1
pushes second_push = 1
pushes written = 2

abbrev pub pops : Reader → ℕ
pops first_pop = 0
pops (first_print p) = 1
pops (increase p) = 1
pops (second_pop p) = 1
pops (second_print p) = 2
pops (read p) = 2

-- how often each coroutine has counted the int up
abbrev pub writer_counts : Writer → ℕ
writer_counts first_push = 0
writer_counts increment = 0
writer_counts _ = 1

abbrev pub reader_counts : Reader → ℕ
reader_counts first_pop = 0
reader_counts (first_print p) = 0
reader_counts (increase p) = 0
reader_counts _ = 1

-- the statements before the next one
abbrev pub writer_done : Writer → ℕ
writer_done first_push = 0
writer_done increment = 1
writer_done second_push = 2
writer_done written = 3

abbrev pub reader_done : Reader → ℕ
reader_done first_pop = 0
reader_done (first_print p) = 1
reader_done (increase p) = 2
reader_done (second_pop p) = 3
reader_done (second_print p) = 4
reader_done (read p) = 5

abbrev pub One : List ℕ → Type 0
One printed = (a : ℕ) × (2 ≤ a) × (a ≤ 3) × (printed ≡ a ∷ [])

abbrev pub Two : List ℕ → Type 0
Two printed = (a : ℕ) × (2 ≤ a) × (a ≤ 3) × (printed ≡ a ∷ 4 ∷ [])

abbrev pub Printed : Reader → List ℕ → Type 0
Printed first_pop printed = printed ≡ []
Printed (first_print p) printed = printed ≡ []
Printed (increase p) printed = One printed
Printed (second_pop p) printed = One printed
Printed (second_print p) printed = One printed
Printed (read p) printed = Two printed

pub room-cases : (xs : List Pointer) → length xs ≤ 1 → (xs ≡ []) ⊎ ((a : Pointer) × (xs ≡ a ∷ []))
room-cases [] h = inl refl
room-cases (a ∷ []) h = inr (a, refl)
room-cases (a ∷ b ∷ xs) h = ground arith

module _ {C : Type 0} (chan : Channel C Pointer) (law : IsBuffer chan 1) where
  pub record Consistent (n : ℕ) (s : Test3 C) : Type 0 where
    pub statements : n ≡ writer_done s.writer + reader_done s.reader
    pub balance : pushes s.writer ≡ pops s.reader + length (law.waiting s.channel)
    pub room : length (law.waiting s.channel) ≤ 1
    pub value : s.x ≡ 2 + writer_counts s.writer + reader_counts s.reader
    pub lines : Printed s.reader s.printed

  pub Consistent-start : Consistent 0 (test3 chan)
  unfolding test3
  Consistent-start =
      let nothing = law.start in
      record {
        statements = refl;
        balance = rw nothing refl;
        room = rw nothing (omega arith);
        value = refl;
        lines = refl;
      }
