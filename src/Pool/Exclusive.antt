-- ===== src/Pool/Exclusive.antt =====
-- No connection of `ThreadedPool` (src/serverResource.hpp) is idle twice, held by two threads, or
-- idle while a thread holds it.
mod Places
mod Filling
pub use Filling.{IsFresh, Between}
pub use Places.{places, Finds, pull_connection-eq}
use asio_coro_frame.Base.{
  text_lt, ℕ, zero, suc, ◌+◌, ◌≤◌, ◌<◌, ◌≡◌, refl, Bool, true, false, ◌⊎◌, inl, inr, List, [], ◌∷◌,
  ◌++◌, Option, none, some, Text, arith, ◌==◌, ==_iff, if◌then◌else◌, Option-cases, Bool-cases, ap,
}
use asio_coro_frame.Base.StdMap.{find, put}
use asio_coro_frame.Base.Numbers.{ℤ, stoi}
use asio_coro_frame.Pool.{
  SlotRange, range_lt, ThreadedPool, ConQueue, ClusterNodes, Dialled, live, Outcome, done, waits,
  connection_failed, bad_port, Filled, fill_pool, pool_size, insert_slots, make_host, insert_host,
  get_connection, release_slots, release_host, pull_connection, push_connection, host_key,
}
use asio_coro_frame.Pool.Counting.{
  count, count-append, count_pools, count_pools-put, count_pools-push, count_pools-pull,
}
use asio_coro_frame.Pool.Events.{
  Lease, slot, host, lease_con, System, Event, adds, asks, redirects, returns, pick, step, run,
  initial, with_slot, with_host, give_back,
}
use Filling.{fill_pool-Fills, widen}
use Places.{count_pool, count_leased, count_leased-pick, give_back-le, dials-give_back}

module _ (connect : ℕ → Text → ℤ → Dialled)
    (search : ℕ → ClusterNodes → Option (SlotRange × ConQueue)) where
  -- One event: each connection gains no place, or it is new and gains one.
  record Grows (s t : System) : Type 0 where
    dialled : s.pool.dials ≤ t.pool.dials
    grown :
        (c : ℕ)
        → (places c t ≤ places c s)
          ⊎ ((places c t ≤ places c s + 1) × Between connect search s.pool.dials t.pool.dials c)

  insert_slots-Grows :
      IsFresh connect
      → (s : System) (r : SlotRange) (h : Text) (p : ℤ)
      → Grows s (record s { pool = (insert_slots connect search r h p s.pool).1 })
  unfolding insert_slots
  insert_slots-Grows fresh s r h p = record {
    dialled = (fill_pool-Fills connect search fresh 0 pool_size h p [] s.pool.dials).dialled;
    grown = λ c.
        let filled = fill_pool connect search pool_size h p [] s.pool.dials in
        let f = fill_pool-Fills connect search fresh c pool_size h p [] s.pool.dials in
        elim f.added [
          | inl kept ↦ inl (omega (arith, count_pools-put range_lt c r filled.queue s.pool.nodes))
          | inr (more, b) ↦
              inr (omega (arith, count_pools-put range_lt c r filled.queue s.pool.nodes), b)
        ];
  }

  kept-Grows :
      (s t : System) → s.pool.dials ≤ t.pool.dials → ((c : ℕ) → places c t ≤ places c s) → Grows s t
  kept-Grows s t d h = record { dialled = d; grown = λ c. inl (h c) }

  get_connection-Grows :
      Finds search
      → (s : System) (i : ℕ) → Grows s (with_slot s (get_connection connect search i s.pool))
  unfolding get_connection
  get_connection-Grows finds s i = elim (Option-cases (search i s.pool.nodes)) [
    | inl missing ↦
        rw (missing, with_slot, get_connection) (kept-Grows _ _ (omega arith) (λ c. omega arith))
    | inr ((r, []), found) ↦
        rw (found, with_slot, get_connection) (kept-Grows _ _ (omega arith) (λ c. omega arith))
    | inr ((r, con ∷ q), found) ↦
        rw (found, with_slot, get_connection)
          (kept-Grows _ _ (omega arith) (λ c. omega (
            arith,
            count_pools-pull range_lt c con r q s.pool.nodes
                (finds i s.pool.nodes r (con ∷ q) found),
          )))
  ]

  returns-Grows : (s : System) (n : ℕ) → Grows s (step connect search s (returns n))
  unfolding step
  returns-Grows s n = elim (Option-cases (pick n s.leased)) [
    | inl missing ↦ rw (missing, step) (kept-Grows _ _ (omega arith) (λ c. omega arith))
    | inr ((l, rest), found) ↦
        rw (found, step)
          (kept-Grows _ _ (omega (arith, dials-give_back l s.pool)) (λ c.
            omega (arith, count_leased-pick c n s.leased rest l found, give_back-le c l s.pool)))
  ]

  -- What `make_host` leaves once the dials are made.
  filled-Grows :
      IsFresh connect
      → (s : System) (key h : Text) (number : ℤ) → (t : System)
      → t.pool.dials ≡ (fill_pool connect search pool_size h number [] s.pool.dials).dials
      → ((c : ℕ)
          → places c t
            ≤ places c s
              + count c (fill_pool connect search pool_size h number [] s.pool.dials).queue)
      → Grows s t
  filled-Grows fresh s key h number t d le = record {
    dialled = omega (
      arith,
      (fill_pool-Fills connect search fresh 0 pool_size h number [] s.pool.dials).dialled,
    );
    grown = λ c.
        let f = fill_pool-Fills connect search fresh c pool_size h number [] s.pool.dials in
        elim f.added [
          | inl kept ↦ inl (omega (arith, le c))
          | inr (more, b) ↦ inr (omega (arith, le c), rw d b)
        ];
  }

  make_host-Grows :
      IsFresh connect
      → (s : System) (key h p : Text)
      → Grows s (with_host s (make_host connect search key h p s.pool))
  unfolding make_host
  make_host-Grows fresh s key h p = elim (Option-cases (stoi p)) [
    | inl bad ↦
        rw (bad, with_host, make_host)
          (kept-Grows _ _ (omega arith)
            (λ c. omega (arith, count_pools-put text_lt c key [] s.pool.connections)))
    | inr (number, read) ↦
        let filled = fill_pool connect search pool_size h number [] s.pool.dials in
        let m = s.pool.connections in
        rw (read, with_host, make_host)
          (elim (Bool-cases filled.returned) [
            | inl all ↦ elim (Option-cases (pull_connection filled.queue)) [
              | inl no_con ↦
                  rw (all, no_con, with_host, make_host)
                    (filled-Grows fresh s key h number _ refl
                      (λ c. omega (arith, count_pools-put text_lt c key filled.queue m)))
              | inr ((con, rest), pulled) ↦
                  rw (all, pulled, with_host, make_host)
                    (filled-Grows fresh s key h number _ refl (λ c. omega (
                      arith,
                      count_pools-put text_lt c key rest m,
                      ap (count c) (pull_connection-eq filled.queue rest con pulled),
                    )))
            ]
            | inr some_failed ↦
                rw (some_failed, with_host, make_host)
                  (filled-Grows fresh s key h number _ refl
                    (λ c. omega (arith, count_pools-put text_lt c key filled.queue m)))
          ])
  ]

  redirects-Grows :
      IsFresh connect
      → (s : System) (h p : Text) → Grows s (with_host s (insert_host connect search h p s.pool))
  unfolding insert_host
  redirects-Grows fresh s h p =
      let key = host_key h p in
      elim (Option-cases (find text_lt key s.pool.connections)) [
        | inl missing ↦ rw (missing, with_host, insert_host) (make_host-Grows fresh s key h p)
        | inr ([], found) ↦
            rw (found, with_host, insert_host) (kept-Grows _ _ (omega arith) (λ c. omega arith))
        | inr (con ∷ q, found) ↦
            rw (found, with_host, insert_host)
              (kept-Grows _ _ (omega arith)
                (λ c. omega (arith, count_pools-pull text_lt c con key q s.pool.connections found)))
      ]

  step-Grows :
      IsFresh connect → Finds search → (s : System) (e : Event) → Grows s (step connect search s e)
  unfolding step
  step-Grows fresh finds s (adds r h p) = insert_slots-Grows fresh s r h p
  step-Grows fresh finds s (asks i) = get_connection-Grows finds s i
  step-Grows fresh finds s (redirects h p) = redirects-Grows fresh s h p
  step-Grows fresh finds s (returns n) = returns-Grows s n

  -- Each connection has one place at most, and came from a call of the callback.
  pub record IsExclusive (s : System) : Type 0 where
    pub once : (c : ℕ) → places c s ≤ 1
    pub known : (c : ℕ) → (places c s ≡ 0) ⊎ Between connect search 0 s.pool.dials c

  Grows-IsExclusive : IsFresh connect → (s t : System) → Grows s t → IsExclusive s → IsExclusive t
  Grows-IsExclusive fresh s t g x = record {
    once = λ c. elim (g.grown c) [
      | inl le ↦ omega (arith, x.once c)
      | inr (le, b) ↦ elim (x.known c) [
        | inl absent ↦ omega arith
        | inr old ↦ absurd (
            omega (
              arith,
              old.below,
              b.above,
              fresh old.call b.call old.name b.name old.port b.port c old.made b.made,
            ))
      ]
    ];
    known = λ c. elim (g.grown c) [
      | inl le ↦ elim (x.known c) [
        | inl absent ↦ inl (omega arith)
        | inr old ↦ inr (record {
          call = old.call;
          name = old.name;
          port = old.port;
          above = omega arith;
          below = omega (arith, old.below, g.dialled);
          made = old.made;
        })
      ]
      | inr (le, b) ↦ inr (widen connect search 0 (omega arith) b)
    ];
  }

  run-keeps :
      IsFresh connect
      → Finds search
      → (s : System) (es : List Event) → IsExclusive s
      → IsExclusive (run connect search s es)
  unfolding run
  run-keeps fresh finds s [] x = x
  run-keeps fresh finds s (e ∷ es) x =
      run-keeps fresh finds (step connect search s e) es
        (Grows-IsExclusive fresh s _ (step-Grows fresh finds s e) x)

  -- Whatever the order of the threads' calls, from a new `ThreadedPool` on, no connection is at two
  -- places: in two queues, twice in one, with two threads, or both idle and held by a thread. The
  -- connect callback never returns one connection twice, and `searchBySlots` finds entries of the map.
  pub run-initial-once :
      IsFresh connect
      → Finds search
      → (es : List Event) (c : ℕ) → places c (run connect search initial es) ≤ 1
  run-initial-once fresh finds es =
      (run-keeps fresh finds initial es
        (record { once = λ c. omega arith; known = λ c. inl (omega arith) })).once
