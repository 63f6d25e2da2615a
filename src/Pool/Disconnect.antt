-- ===== src/Pool/Disconnect.antt =====
-- `disconnect` of `ThreadedPool` (src/serverResource.hpp), and what a failed `insert` leaves to it.
use asio_coro_frame.Base.{
  text_lt, ℕ, zero, suc, ◌+◌, ◌<◌, ◌≡◌, refl, ◌⊎◌, inl, inr, Bool, true, false, List, [], ◌∷◌, ◌++◌,
  Option, none, some, Text, arith, length, length-append, All, Option-cases, Bool-cases,
}
use asio_coro_frame.Base.StdMap.{find, put}
use asio_coro_frame.Base.Numbers.{ℤ, stoi}
use asio_coro_frame.Pool.Counting.{Dialled-cases}
use asio_coro_frame.Pool.{
  ThreadedPool, ConQueue, ClusterNodes, SlotRange, Dialled, connection_failed, bad_port, fill_pool,
  free_pool, free_pools, disconnect, pool_size, insert_host, make_host, host_key, pull_connection,
}

abbrev pub all_idle {ℓ} : {K : Type ℓ} → List (K × ConQueue) → List ℕ
all_idle [] = []
all_idle ((k, q) ∷ m) = q ++ all_idle m

free_pool-full : (n : ℕ) (q : ConQueue) → length q ≡ n → free_pool n q ≡ some q
unfolding free_pool
free_pool-full zero [] h = refl
free_pool-full zero (c ∷ q) h = absurd (omega arith)
free_pool-full (suc n) [] h = absurd (omega arith)
free_pool-full (suc n) (c ∷ q) h = rw (free_pool-full n q (omega arith))

free_pool-short : (n : ℕ) (q : ConQueue) → length q < n → free_pool n q ≡ none
unfolding free_pool
free_pool-short zero q h = absurd (omega arith)
free_pool-short (suc n) [] h = refl
free_pool-short (suc n) (c ∷ q) h = rw (free_pool-short n q (omega arith))

free_pools-full {ℓ} :
    {K : Type ℓ} (m : List (K × ConQueue))
    → All (λ (e : K × ConQueue). length e.1 ≡ pool_size) m
    → free_pools m ≡ some (all_idle m)
unfolding free_pools
free_pools-full [] h = refl
free_pools-full ((k, q) ∷ m) h = rw (free_pool-full pool_size q h.0, free_pools-full m h.1)

free_pools-cons_none {ℓ} :
    {K : Type ℓ} (e : K × ConQueue) (m : List (K × ConQueue))
    → free_pools m ≡ none
    → free_pools (e ∷ m) ≡ none
unfolding free_pools
free_pools-cons_none (k, q) m h = elim (Option-cases (free_pool pool_size q)) [
  | inl short ↦ rw short
  | inr (freed, all) ↦ rw (all, h)
]

free_pools-head_short {ℓ} :
    {K : Type ℓ} (k : K) (q : ConQueue) (m : List (K × ConQueue))
    → length q < pool_size
    → free_pools ((k, q) ∷ m) ≡ none
unfolding free_pools
free_pools-head_short k q m h = rw (free_pool-short pool_size q h)

free_pools-put_short {ℓ} :
    {K : Type ℓ} (lt : K → K → Bool) (k : K) (q : ConQueue) (m : List (K × ConQueue))
    → length q < pool_size
    → free_pools (put lt k q m) ≡ none
unfolding put
free_pools-put_short lt k q [] h = free_pools-head_short k q [] h
free_pools-put_short lt k q ((j, w) ∷ m) h = ground (
  arith,
  free_pools-head_short j q m h,
  free_pools-head_short k q ((j, w) ∷ m) h,
  free_pools-cons_none (j, w) (put lt k q m) (free_pools-put_short lt k q m h),
)

-- When every queue is full, so when no thread holds a connection of a pool that was filled,
-- `disconnect` frees each idle connection, the slots' first, in order, and leaves no pool.
pub disconnect-full :
    (p : ThreadedPool)
    → All (λ (e : SlotRange × ConQueue). length e.1 ≡ pool_size) p.nodes
    → All (λ (e : Text × ConQueue). length e.1 ≡ pool_size) p.connections
    → disconnect true p
      ≡ some (
        all_idle p.nodes ++ all_idle p.connections,
        record { nodes = []; connections = []; dials = p.dials },
      )
unfolding disconnect
disconnect-full p h k = rw (free_pools-full p.nodes h, disconnect, free_pools-full p.connections k)

disconnect-connections_none :
    (p : ThreadedPool) → free_pools p.connections ≡ none → disconnect true p ≡ none
unfolding disconnect
disconnect-connections_none p h = elim (Option-cases (free_pools p.nodes)) [
  | inl e ↦ rw (e, disconnect)
  | inr (freed, e) ↦ rw (e, disconnect, h)
]

module _ (connect : ℕ → Text → ℤ → Dialled)
    (search : ℕ → ClusterNodes → Option (SlotRange × ConQueue)) where
  fill_pool-short :
      (n : ℕ) (h : Text) (p : ℤ) (q : ConQueue) (d : ℕ)
      → (fill_pool connect search n h p q d).returned ≡ false
      → length (fill_pool connect search n h p q d).queue < length q + n
  unfolding fill_pool
  fill_pool-short zero h p q d e = ground arith
  fill_pool-short (suc n) h p q d e = elim (Dialled-cases (connect d h p)) [
    | inl (c, got) ↦
        rw (got, fill_pool)
          (omega (
            arith,
            fill_pool-short n h p (q ++ c ∷ []) (d + 1) (rw (got, fill_pool) at e),
            length-append q (c ∷ []),
          ))
    | inr (inl dead) ↦ rw (dead, fill_pool) (omega arith)
    | inr (inr (c, dead)) ↦ rw (dead, fill_pool) (omega arith)
  ]

  -- What a failed `insert(host, port)` leaves in the map.
  record Leaves (key : Text) (p t : ThreadedPool) : Type 0 where
    queue : ConQueue
    short : length queue < pool_size
    stored : t.connections ≡ put text_lt key queue p.connections

  make_host-Leaves :
      (key host port : Text) (p : ThreadedPool)
      → ((make_host connect search key host port p).0 ≡ connection_failed)
        ⊎ ((make_host connect search key host port p).0 ≡ bad_port)
      → Leaves key p (make_host connect search key host port p).1
  unfolding make_host
  make_host-Leaves key host port p e = elim (Option-cases (stoi port)) [
    | inl bad ↦ rw (bad, make_host) (record { queue = []; short = omega arith; stored = refl })
    | inr (n, read) ↦
        let f = fill_pool connect search pool_size host n [] p.dials in
        elim (Bool-cases f.returned) [
          | inl all ↦ absurd (ground arith)
          | inr failed ↦
              rw (read, make_host, failed)
                (record {
                  queue = f.queue;
                  short = fill_pool-short pool_size host n [] p.dials failed;
                  stored = refl;
                })
        ]
  ]

  insert_host-Leaves :
      (host port : Text) (p : ThreadedPool)
      → ((insert_host connect search host port p).0 ≡ connection_failed)
        ⊎ ((insert_host connect search host port p).0 ≡ bad_port)
      → Leaves (host_key host port) p (insert_host connect search host port p).1
  unfolding insert_host pull_connection
  insert_host-Leaves host port p e =
      elim (Option-cases (find text_lt (host_key host port) p.connections)) [
        | inl missing ↦
            rw (missing, insert_host)
              (make_host-Leaves (host_key host port) host port p (rw (missing, insert_host) at e))
        | inr (q, found) ↦ absurd (ground arith)
      ]

  -- When `insert(host, port)` throws, the pool that it began stays in the map with too few
  -- connections, so `disconnect`, which the destructor runs, waits for a connection for ever.
  pub failed_insert_host-disconnect :
      (host port : Text) (p : ThreadedPool)
      → ((insert_host connect search host port p).0 ≡ connection_failed)
        ⊎ ((insert_host connect search host port p).0 ≡ bad_port)
      → disconnect true (insert_host connect search host port p).1 ≡ none
  failed_insert_host-disconnect host port p e =
      let l = insert_host-Leaves host port p e in
      disconnect-connections_none _ (
        rw l.stored
          (free_pools-put_short text_lt (host_key host port) l.queue p.connections l.short))
