-- ===== src/Pool.antt =====
-- The class `ThreadedPool` of src/serverResource.hpp (src/fastcgi/redis_cluster.hpp holds a copy).
-- A method that waits for a connection is one that answers `waits` and changes nothing; the thread
-- that called it calls again after another thread has given a connection back.
pub mod Events
mod Counting
mod Keys
pub mod Exclusive
pub mod Disconnect
pub mod Capacity
pub mod Threads
mod Tests
use asio_coro_frame.Base.{
  ℕ, zero, suc, ◌+◌, String, Bool, true, false, ◌&&◌, List, [], ◌∷◌, ◌++◌, Option, none, some, Text,
  ltb, ◌==◌, if◌then◌else◌, lit, text_lt,
}
use asio_coro_frame.Base.StdMap.{find, put}
use asio_coro_frame.Base.Numbers.{ℤ, stoi}

-- RCluster::SlotRange
pub record SlotRange : Type 0 where
  pub first : ℕ
  pub second : ℕ

-- RCluster::SlotComparator
abbrev pub range_lt : SlotRange → SlotRange → Bool
range_lt a b = ltb a.first b.first

-- What `connect_` returns: NULL, a connection with `err` set, or a usable connection.
pub data Dialled : Type 0 where
  null : Dialled
  broken : ℕ → Dialled
  live : ℕ → Dialled

-- ConPool: the queue of idle connections, the front at the head
abbrev pub ConQueue : Type 0
ConQueue = List ℕ

abbrev pub ClusterNodes : Type 0
ClusterNodes = List (SlotRange × ConQueue)

abbrev pub RedirectConnections : Type 0
RedirectConnections = List (Text × ConQueue)

pub record ThreadedPool : Type 0 where
  pub nodes : ClusterNodes
  pub connections : RedirectConnections
  -- how many calls of `connect_` were made
  pub dials : ℕ

-- How a method ends. `null_pool` is a call through a null or missing pool pointer.
pub data Outcome (A : Type 0) : Type 0 where
  done : A → Outcome A
  waits connection_failed node_search_failed bad_port null_pool : Outcome A

abbrev pub pool_size : ℕ
pool_size = 10

abbrev pub empty_pool : ThreadedPool
empty_pool = record { nodes = []; connections = []; dials = 0 }

-- pullConnection: `none` means that the thread waits
unfoldable pub pull_connection : ConQueue → Option (ℕ × ConQueue)
pull_connection [] = none
pull_connection (con ∷ queue) = some (con, queue)

-- pushConnection
unfoldable pub push_connection : ConQueue → ℕ → ConQueue
push_connection queue con = queue ++ con ∷ []

-- What `fillPool` leaves: whether it returned, the queue, and the number of dials.
pub record Filled : Type 0 where
  pub returned : Bool
  pub queue : ConQueue
  pub dials : ℕ

abbrev pub host_key : Text → Text → Text
host_key host port = host ++ (lit ":" ++ port)

-- `connect n host port` is the result of the n-th call of the connect callback. `search` is
-- `DefaultContainer::searchBySlots`, with `none` for its exception.
module _ (connect : ℕ → Text → ℤ → Dialled)
    (search : ℕ → ClusterNodes → Option (SlotRange × ConQueue)) where
  -- the loop of `fillPool`, by the rounds left
  unfoldable pub fill_pool : ℕ → Text → ℤ → ConQueue → ℕ → Filled
  fill_pool zero host port queue dials = record { returned = true; queue = queue; dials = dials }
  fill_pool (suc n) host port queue dials = elim (connect dials host port) [
    | null ↦ record { returned = false; queue = queue; dials = dials + 1 }
    | broken con ↦ record { returned = false; queue = queue; dials = dials + 1 }
    | live con ↦ fill_pool n host port (queue ++ con ∷ []) (dials + 1)
  ]

  -- insert(slots, host, port)
  unfoldable pub insert_slots :
      SlotRange → Text → ℤ → ThreadedPool → Outcome (Unit {0}) × ThreadedPool
  insert_slots slots host port p =
      let filled = fill_pool pool_size host port [] p.dials in
      (
        if filled.returned then done tt else connection_failed,
        record p { nodes = put range_lt slots filled.queue p.nodes; dials = filled.dials },
      )

  -- the part of insert(host, port) that makes a pool for a new key
  unfoldable pub make_host : Text → Text → Text → ThreadedPool → Outcome (Text × ℕ) × ThreadedPool
  unfolding pull_connection
  make_host key host port p = elim (stoi port) [
    | none ↦ (bad_port, record p { connections = put text_lt key [] p.connections })
    | some number ↦
        let filled = fill_pool pool_size host number [] p.dials in
        let failed = record p {
          connections = put text_lt key filled.queue p.connections;
          dials = filled.dials;
        } in
        if filled.returned
        then elim (pull_connection filled.queue) [
          | none ↦ (waits, failed)
          | some (con, rest) ↦
              (done (key, con), record failed { connections = put text_lt key rest p.connections })
        ]
        else (connection_failed, failed)
  ]

  -- insert(host, port)
  unfoldable pub insert_host : Text → Text → ThreadedPool → Outcome (Text × ℕ) × ThreadedPool
  unfolding make_host
  insert_host host port p =
      let key = host_key host port in
      elim (find text_lt key p.connections) [
        | none ↦ make_host key host port p
        | some queue ↦ elim (pull_connection queue) [
          | none ↦ (waits, p)
          | some (con, rest) ↦
              (done (key, con), record p { connections = put text_lt key rest p.connections })
        ]
      ]

  -- getConnection
  unfoldable pub get_connection : ℕ → ThreadedPool → Outcome (SlotRange × ℕ) × ThreadedPool
  unfolding pull_connection
  get_connection index p = elim (search index p.nodes) [
    | none ↦ (node_search_failed, p)
    | some (slots, queue) ↦ elim (pull_connection queue) [
      | none ↦ (waits, p)
      | some (con, rest) ↦ (done (slots, con), record p { nodes = put range_lt slots rest p.nodes })
    ]
  ]

-- releaseConnection(SlotConnection)
unfoldable pub release_slots : SlotRange → ℕ → ThreadedPool → Outcome (Unit {0}) × ThreadedPool
unfolding push_connection
release_slots slots con p = elim (find range_lt slots p.nodes) [
  | none ↦ (null_pool, p)
  | some queue ↦
      (done tt, record p { nodes = put range_lt slots (push_connection queue con) p.nodes })
]

-- releaseConnection(HostConnection)
unfoldable pub release_host : Text → ℕ → ThreadedPool → Outcome (Unit {0}) × ThreadedPool
unfolding push_connection
release_host key con p = elim (find text_lt key p.connections) [
  | none ↦ (null_pool, p)
  | some queue ↦ (
    done tt,
    record p { connections = put text_lt key (push_connection queue con) p.connections },
  )
]

-- the inner loop of `disconnect`, by the rounds left: the connections freed, `none` if it waits
unfoldable pub free_pool : ℕ → ConQueue → Option (List ℕ)
free_pool zero queue = some []
free_pool (suc n) [] = none
free_pool (suc n) (con ∷ queue) = elim (free_pool n queue) [
  | none ↦ none
  | some freed ↦ some (con ∷ freed)
]

-- disconnect<T> of one map, run with no other thread in between
unfoldable pub free_pools {ℓ} : {K : Type ℓ} → List (K × ConQueue) → Option (List ℕ)
unfolding free_pool
free_pools [] = some []
free_pools ((k, queue) ∷ m) = elim (free_pool pool_size queue) [
  | none ↦ none
  | some freed ↦ elim (free_pools m) [ none ↦ none | some more ↦ some (freed ++ more) ]
]

-- disconnect(): the connections handed to `disconnect_`, and the pool after it; `none` if the
-- thread waits for a connection that is not given back. `can_free` is `disconnect_ != NULL`.
unfoldable pub disconnect : Bool → ThreadedPool → Option (List ℕ × ThreadedPool)
unfolding free_pools
disconnect false p = some ([], record p { nodes = []; connections = [] })
disconnect true p = elim (free_pools p.nodes) [
  | none ↦ none
  | some freed ↦ elim (free_pools p.connections) [
    | none ↦ none
    | some more ↦ some (freed ++ more, record p { nodes = []; connections = [] })
  ]
]
