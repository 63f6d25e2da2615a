-- ===== src/Pool/Events.antt =====
-- Threads that share one `ThreadedPool` (src/serverResource.hpp): each call of a method is one event
-- under the mutex, and a history is any sequence of them.
use asio_coro_frame.Base.{ℕ, zero, suc, List, [], ◌∷◌, Option, none, some, Text}
use asio_coro_frame.Base.Numbers.{ℤ}
use asio_coro_frame.Pool.{
  SlotRange, ThreadedPool, ConQueue, ClusterNodes, Dialled, Outcome, done, insert_slots,
  insert_host, get_connection, release_slots, release_host, empty_pool,
}

-- A connection that some thread holds: SlotConnection or HostConnection.
pub data Lease : Type 0 where
  slot : SlotRange → ℕ → Lease
  host : Text → ℕ → Lease

abbrev pub lease_con : Lease → ℕ
lease_con (slot slots con) = con
lease_con (host key con) = con

pub record System : Type 0 where
  pub pool : ThreadedPool
  pub leased : List Lease

pub data Event : Type 0 where
  adds : SlotRange → Text → ℤ → Event
  asks : ℕ → Event
  redirects : Text → Text → Event
  -- the thread that holds the n-th lease gives it back
  returns : ℕ → Event

abbrev pub with_slot : System → Outcome (SlotRange × ℕ) × ThreadedPool → System
with_slot s (done (slots, con), p) = record { pool = p; leased = slot slots con ∷ s.leased }
with_slot s (_, p) = record s { pool = p }

abbrev pub with_host : System → Outcome (Text × ℕ) × ThreadedPool → System
with_host s (done (key, con), p) = record { pool = p; leased = host key con ∷ s.leased }
with_host s (_, p) = record s { pool = p }

-- The n-th lease, with those before and after it.
unfoldable pub pick : ℕ → List Lease → Option (Lease × List Lease)
pick n [] = none
pick zero (l ∷ ls) = some (l, ls)
pick (suc n) (l ∷ ls) = elim (pick n ls) [ none ↦ none | some (x, rest) ↦ some (x, l ∷ rest) ]

abbrev pub give_back : Lease → ThreadedPool → ThreadedPool
give_back (slot slots con) p = (release_slots slots con p).1
give_back (host key con) p = (release_host key con p).1

module _ (connect : ℕ → Text → ℤ → Dialled)
    (search : ℕ → ClusterNodes → Option (SlotRange × ConQueue)) where
  unfoldable pub step : System → Event → System
  unfolding pick
  step s (adds slots name port) = record s {
    pool = (insert_slots connect search slots name port s.pool).1;
  }
  step s (asks index) = with_slot s (get_connection connect search index s.pool)
  step s (redirects name port) = with_host s (insert_host connect search name port s.pool)
  step s (returns n) = elim (pick n s.leased) [
    | none ↦ s
    | some (l, rest) ↦ record { pool = give_back l s.pool; leased = rest }
  ]

  unfoldable pub run : System → List Event → System
  run s [] = s
  run s (e ∷ es) = run (step s e) es

abbrev pub initial : System
initial = record { pool = empty_pool; leased = [] }
