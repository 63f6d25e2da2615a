-- ===== src/Trials/Strand.antt =====
-- The class `test_strand` of src/test/test.hpp: one accepted connection, echoed by the stackless
-- coroutine `do_some_stackless`.
use asio_coro_frame.Base.{
  All, ◌++◌, ℕ, zero, suc, ◌+◌, ◌*◌, length, arith, ◌≡◌, refl, ap, Bool, true, false, List, [], ◌∷◌,
  if◌then◌else◌,
}

-- Which `yield` the coroutine goes on from.
pub data Point : Type 0 where
  at_start after_read after_write : Point

pub data Operation : Type 0 where
  async_read_some : Operation
  -- with the size of the buffer
  async_write : ℕ → Operation

-- What an operation ends with, the arguments of the handler.
pub record Completion : Type 0 where
  pub is_error : Bool
  pub n : ℕ

-- do_some_stackless: it reads no `ec`.
unfoldable pub do_some_stackless : Point → Completion → Operation × Point
do_some_stackless at_start c = (async_read_some, after_read)
do_some_stackless after_read c = (async_write c.n, after_write)
do_some_stackless after_write c = (async_read_some, after_read)

-- The operations started by a coroutine that gets the given completions.
unfoldable pub operations : Point → List Completion → List Operation
unfolding do_some_stackless
operations at [] = []
operations at (c ∷ cs) =
    let (operation, after) = do_some_stackless at c in operation ∷ operations after cs

-- do_accept, with `listening` for `m_acceptor.is_open()`: it is called once.
unfoldable pub do_accept : Bool → Bool → List Completion → List Operation
unfolding operations
do_accept listening is_error cs =
    if listening
    then (if is_error then [] else operations at_start (record { is_error = is_error; n = 0 } ∷ cs))
    else []

-- A read that got `r.n` bytes and the write that followed it.
abbrev pub rounds : List (Completion × Completion) → List Completion
rounds [] = []
rounds ((r, w) ∷ rs) = r ∷ w ∷ rounds rs

abbrev pub echoed : List (Completion × Completion) → List Operation
echoed [] = []
echoed ((r, w) ∷ rs) = async_write r.n ∷ async_read_some ∷ echoed rs

operations-rounds :
    (rs : List (Completion × Completion)) → operations after_read (rounds rs) ≡ echoed rs
unfolding operations do_some_stackless
operations-rounds [] = refl
operations-rounds ((r, w) ∷ rs) =
    ap (λ (t : List Operation). async_write r.n ∷ async_read_some ∷ t) (operations-rounds rs)

-- For an accepted connection and any number of completed rounds, whether they ended in errors or not, the
-- coroutine wrote as many bytes as each read got, and has one more read under way.
pub do_accept-rounds :
    (rs : List (Completion × Completion))
    → do_accept true false (rounds rs) ≡ async_read_some ∷ echoed rs
unfolding do_accept operations do_some_stackless
do_accept-rounds rs = ap (λ (t : List Operation). async_read_some ∷ t) (operations-rounds rs)

-- A peer that is gone: every read ends with an error and no bytes.
abbrev pub gone : ℕ → List (Completion × Completion)
gone zero = []
gone (suc k) = (record { is_error = true; n = 0 }, record { is_error = true; n = 0 }) ∷ gone k

-- After the peer is gone the coroutine goes on for ever: it writes nothing, and reads again.
pub do_accept-gone : (k : ℕ) → length (do_accept true false (rounds (gone k))) ≡ 2 * k + 1
do_accept-gone k = omega (arith, ap length (do_accept-rounds (gone k)), echoed-gone k)
  where
    echoed-gone : (k : ℕ) → length (echoed (gone k)) ≡ 2 * k
    echoed-gone zero = omega arith
    echoed-gone (suc k) = omega (arith, echoed-gone k)

-- Where the stackful coroutine `do_some` stands: at a read, at the write of its bytes, or out of the
-- loop after an exception.
pub data Stand : Type 0 where
  at_read at_write stopped : Stand

-- do_some: an operation that ends with an error throws, and the `catch` only prints it.
unfoldable pub do_some : Stand → List Completion → List Operation × Stand
do_some at [] = ([], at)
do_some at_read (c ∷ cs) =
    let rest = do_some at_write cs in
    if c.is_error then ([], stopped) else (async_write c.n ∷ rest.0, rest.1)
do_some at_write (c ∷ cs) =
    let rest = do_some at_read cs in
    if c.is_error then ([], stopped) else (async_read_some ∷ rest.0, rest.1)
do_some stopped (c ∷ cs) = ([], stopped)

abbrev pub AllOk : List Completion → Type 0
AllOk = All (λ (c : Completion). c.is_error ≡ false)

-- The two coroutines start the same operations as long as no operation ends with an error.
pub do_some-operations :
    (cs : List Completion)
    → AllOk cs
    → ((do_some at_read cs).0 ≡ operations after_read cs)
      × ((do_some at_write cs).0 ≡ operations after_write cs)
unfolding do_some operations do_some_stackless
do_some-operations [] h = (refl, refl)
do_some-operations (c ∷ cs) h = ground (arith, do_some-operations cs h.1)

-- After the first error the stackful one has returned.
pub do_some-stopped :
    (cs more : List Completion) (c : Completion)
    → AllOk cs
    → c.is_error ≡ true
    → ((do_some at_read (cs ++ c ∷ more)).1 ≡ stopped)
      × ((do_some at_write (cs ++ c ∷ more)).1 ≡ stopped)
unfolding do_some
do_some-stopped [] more c h e = ground arith
do_some-stopped (d ∷ cs) more c h e = ground (arith, do_some-stopped cs more c h.1 e)
