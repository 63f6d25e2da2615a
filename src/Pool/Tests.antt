-- ===== src/Pool/Tests.antt =====
-- Concrete runs of the model of `ThreadedPool` (src/serverResource.hpp).
use asio_coro_frame.Base.{
  ℕ, ◌≤◌, ◌≡◌, refl, ◌↔◌, inl, true, List, [], ◌∷◌, ◌++◌, Option, none, some, Text, lit, arith,
  ◌&&◌, leb, if◌then◌else◌,
}
use asio_coro_frame.Base.StdMap.{find, put}
use asio_coro_frame.Base.Numbers.{ℤ, stoi}
use asio_coro_frame.Pool.{
  SlotRange, ThreadedPool, ConQueue, ClusterNodes, Dialled, null, live, done, waits,
  connection_failed, insert_host, insert_slots, get_connection, fill_pool, disconnect, empty_pool,
  range_lt, pull_connection, host_key, pool_size,
}
use asio_coro_frame.Pool.Exclusive.{IsFresh, Finds, places, run-initial-once}
use asio_coro_frame.Pool.Disconnect.{disconnect-full, failed_insert_host-disconnect, all_idle}
use asio_coro_frame.Pool.Capacity.{get_connection-waits, held, unused}
use asio_coro_frame.Pool.Events.{Event, adds, asks, redirects, returns, run, step, initial}

-- The n-th dial gives the connection n.
abbrev numbered : ℕ → Text → ℤ → Dialled
numbered n host port = live n

numbered-IsFresh : IsFresh numbered
numbered-IsFresh n m g h p q c e k = ground arith

-- Two dials succeed, and then the host is gone.
abbrev failing : ℕ → Text → ℤ → Dialled
failing n host port = if leb 2 n then null else live n

abbrev with_key : SlotRange → Option ConQueue → Option (SlotRange × ConQueue)
with_key r none = none
with_key r (some q) = some (r, q)

search_in : ℕ → ClusterNodes → ClusterNodes → Option (SlotRange × ConQueue)
search_in i nodes [] = none
search_in i nodes ((r, q) ∷ m) =
    if leb r.first i && leb i r.second
    then with_key r (find range_lt r nodes)
    else search_in i nodes m

search : ℕ → ClusterNodes → Option (SlotRange × ConQueue)
unfolding search_in
search i nodes = search_in i nodes nodes

search_in-Finds :
    (i : ℕ) (nodes m : ClusterNodes) (r : SlotRange) (q : ConQueue)
    → search_in i nodes m ≡ some (r, q)
    → find range_lt r nodes ≡ some q
unfolding search_in
search_in-Finds i nodes [] r q e = ground arith
search_in-Finds i nodes ((x, w) ∷ m) r q e = ground (arith, search_in-Finds i nodes m r q)

search-Finds : Finds search
unfolding search
search-Finds i m r q e = search_in-Finds i m m r q e

abbrev all_slots : SlotRange
all_slots = record { first = 0; second = 16383 }

abbrev history : List Event
history =
    adds all_slots (lit "a") (ℤ.pos 6379)
    ∷ asks 5
    ∷ asks 7
    ∷ returns 1
    ∷ redirects (lit "b") (lit "1")
    ∷ []

run-initial-once_example : places 3 (run numbered search initial history) ≤ 1
run-initial-once_example = run-initial-once numbered search numbered-IsFresh search-Finds history 3

-- The cluster of `history` after its set-up.
abbrev ready : ThreadedPool
ready = record {
  nodes = (all_slots, 0 ∷ 1 ∷ 2 ∷ 3 ∷ 4 ∷ 5 ∷ 6 ∷ 7 ∷ 8 ∷ 9 ∷ []) ∷ [];
  connections = [];
  dials = 10;
}

insert_slots-ready :
    insert_slots numbered search all_slots (lit "a") (ℤ.pos 6379) empty_pool ≡ (done tt, ready)
unfolding insert_slots fill_pool put
insert_slots-ready = refl

disconnect-full_example :
    disconnect true ready
    ≡ some (all_idle ready.nodes ++ [], record { nodes = []; connections = []; dials = 10 })
disconnect-full_example = disconnect-full ready (refl, tt) tt

abbrev ten_asks : List Event
ten_asks =
    asks 0 ∷ asks 1 ∷ asks 2 ∷ asks 3 ∷ asks 4 ∷ asks 5 ∷ asks 6 ∷ asks 7 ∷ asks 8 ∷ asks 9 ∷ []

ten_asks_found :
    search 5 (run numbered search (unused ready) ten_asks).pool.nodes ≡ some (all_slots, [])
unfolding run step get_connection search find put pull_connection
ten_asks_found = refl

get_connection-waits_example :
    ((get_connection numbered search 5 (run numbered search (unused ready) ten_asks).pool).0
      ≡ waits)
    ↔ (held all_slots (run numbered search (unused ready) ten_asks).leased ≡ pool_size)
get_connection-waits_example =
    get_connection-waits numbered search search-Finds ready (refl, tt) ten_asks (omega arith) 5
      all_slots [] ten_asks_found

-- Two connections were made before the host was gone.
abbrev two_left : ThreadedPool
two_left = record {
  nodes = [];
  connections = (host_key (lit "b") (lit "1"), 0 ∷ 1 ∷ []) ∷ [];
  dials = 3;
}

insert_host-fails :
    (insert_host failing search (lit "b") (lit "1") empty_pool).0 ≡ connection_failed
unfolding insert_host fill_pool find stoi lit
insert_host-fails = refl

failed_insert_host-disconnect_example :
    disconnect true (insert_host failing search (lit "b") (lit "1") empty_pool).1 ≡ none
failed_insert_host-disconnect_example =
    failed_insert_host-disconnect failing search (lit "b") (lit "1") empty_pool
      (inl insert_host-fails)
