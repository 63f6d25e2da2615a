-- ===== src/Pool/Capacity.antt =====
-- When a thread that asks `ThreadedPool` (src/serverResource.hpp) for a slot's connection waits.
use asio_coro_frame.Base.{
  ℕ, zero, suc, ◌+◌, ◌≡◌, ◌↔◌, List, [], ◌∷◌, ◌++◌, inl, inr, ◌∙◌, ap, sym, Option, some, Text,
  arith, length, length-append, All, Option-cases, if◌then◌else◌,
}
use asio_coro_frame.Base.StdMap.{find, put, find-put, find-same, same}
use asio_coro_frame.Base.Numbers.{ℤ}
use asio_coro_frame.Pool.{
  ThreadedPool, ConQueue, ClusterNodes, SlotRange, Dialled, Outcome, done, waits, pool_size,
  range_lt, get_connection, insert_host, make_host, release_slots, release_host, pull_connection,
  push_connection, host_key,
}
use asio_coro_frame.Pool.Keys.{range_lt-IsComparator}
use asio_coro_frame.Pool.Exclusive.{Finds}
use asio_coro_frame.Pool.Events.{
  Lease, slot, host, System, Event, adds, asks, redirects, returns, pick, step, run, with_host,
  give_back,
}

-- How many connections of the slot range threads hold.
abbrev pub held : SlotRange → List Lease → ℕ
held r [] = 0
held r (slot x con ∷ ls) = (if same range_lt r x then 1 else 0) + held r ls
held r (host key con ∷ ls) = held r ls

abbrev pub held_by : SlotRange → Lease → ℕ
held_by r (slot x con) = if same range_lt r x then 1 else 0
held_by r (host key con) = 0

-- For every slot range the idle connections and the ones held make ten.
abbrev pub IsBalanced : System → Type 0
IsBalanced s =
    (r : SlotRange) (q : ConQueue)
    → find range_lt r s.pool.nodes ≡ some q
    → length q + held r s.leased ≡ pool_size

-- The calls after the cluster is set up: all but `insert(slots, host, port)`.
abbrev pub IsUse : Event → Type 0
IsUse (adds slots name port) = ⊥
IsUse _ = Unit

held-pick :
    (r : SlotRange) (n : ℕ) (ls rest : List Lease) (l : Lease)
    → pick n ls ≡ some (l, rest)
    → held r ls ≡ held_by r l + held r rest
unfolding pick
held-pick r n [] rest l e = ground arith
held-pick r zero (slot x c ∷ ls) rest l e = ground arith
held-pick r zero (host k c ∷ ls) rest l e = ground arith
held-pick r (suc n) (x ∷ ls) rest l e = elim (Option-cases (pick n ls)) [
  | inl missing ↦ ground arith
  | inr ((y, more), found) ↦ go x e y more found (held-pick r n ls more y found)
]
  where
    go :
        (x : Lease)
        → pick (suc n) (x ∷ ls) ≡ some (l, rest)
        → (y : Lease) (more : List Lease) → pick n ls ≡ some (y, more)
        → held r ls ≡ held_by r y + held r more
        → held r (x ∷ ls) ≡ held_by r l + held r rest
    go (slot z c) e y more found ih = ground arith
    go (host z c) e y more found ih = ground arith

nodes-make_host :
    (connect : ℕ → Text → ℤ → Dialled) (search : ℕ → ClusterNodes → Option (SlotRange × ConQueue))
    (key h p : Text) (t : ThreadedPool)
    → (make_host connect search key h p t).1.nodes ≡ t.nodes
unfolding make_host
nodes-make_host connect search key h p t = ground arith

nodes-insert_host :
    (connect : ℕ → Text → ℤ → Dialled) (search : ℕ → ClusterNodes → Option (SlotRange × ConQueue))
    (h p : Text) (t : ThreadedPool)
    → (insert_host connect search h p t).1.nodes ≡ t.nodes
unfolding insert_host
nodes-insert_host connect search h p t =
    ground (arith, nodes-make_host connect search (host_key h p) h p t)

-- a pool no connection of which is out
abbrev pub unused : ThreadedPool → System
unused p = record { pool = p; leased = [] }

length-find :
    (r : SlotRange) (q : ConQueue) (m : ClusterNodes)
    → All (λ (e : SlotRange × ConQueue). length e.1 ≡ pool_size) m
    → find range_lt r m ≡ some q
    → length q ≡ pool_size
unfolding find
length-find r q [] full h = ground arith
length-find r q ((x, w) ∷ m) full h = ground (arith, length-find r q m)

module _ (connect : ℕ → Text → ℤ → Dialled)
    (search : ℕ → ClusterNodes → Option (SlotRange × ConQueue)) where
  with_host-IsBalanced :
      (s : System) (o : Outcome (Text × ℕ)) (p : ThreadedPool)
      → p.nodes ≡ s.pool.nodes
      → IsBalanced s
      → IsBalanced (with_host s (o, p))
  with_host-IsBalanced s (done (k, c)) p e b r q h = b r q (ap (find range_lt r) (sym e) ∙ h)
  with_host-IsBalanced s _ p e b r q h = b r q (ap (find range_lt r) (sym e) ∙ h)

  -- One connection moves from the queue of `x` to a thread.
  pull-IsBalanced :
      (s : System) (x : SlotRange) (con : ℕ) (rest : ConQueue)
      → find range_lt x s.pool.nodes ≡ some (con ∷ rest)
      → IsBalanced s
      → IsBalanced (record {
        pool = record s.pool { nodes = put range_lt x rest s.pool.nodes };
        leased = slot x con ∷ s.leased;
      })
  pull-IsBalanced s x con rest found b r q h = ground (
    arith,
    find-put range_lt range_lt-IsComparator r x rest s.pool.nodes,
    b r q,
    b x (con ∷ rest),
  )

  -- A thread gives its connection back.
  push-IsBalanced :
      (s : System) (l : Lease) (n : ℕ) (rest : List Lease)
      → pick n s.leased ≡ some (l, rest)
      → IsBalanced s
      → IsBalanced (record { pool = give_back l s.pool; leased = rest })
  unfolding release_slots release_host push_connection
  push-IsBalanced s (slot x con) n rest picked b r q h =
      elim (Option-cases (find range_lt x s.pool.nodes)) [
        | inl missing ↦ ground (
          arith,
          held-pick r n s.leased rest (slot x con) picked,
          find-same range_lt range_lt-IsComparator r x s.pool.nodes,
          b r q,
        )
        | inr (old, found) ↦ ground (
          arith,
          find-put range_lt range_lt-IsComparator r x (old ++ con ∷ []) s.pool.nodes,
          length-append old (con ∷ []),
          held-pick r n s.leased rest (slot x con) picked,
          b r q,
          b x old,
        )
      ]
  push-IsBalanced s (host k con) n rest picked b r q h =
      ground (arith, held-pick r n s.leased rest (host k con) picked, b r q)

  step-IsBalanced :
      Finds search
      → (s : System) (e : Event) → IsUse e
      → IsBalanced s
      → IsBalanced (step connect search s e)
  unfolding step get_connection pull_connection
  step-IsBalanced finds s (adds x h p) u b = absurd u
  step-IsBalanced finds s (asks i) u b = elim (Option-cases (search i s.pool.nodes)) [
    | inl missing ↦ rw (missing, step, get_connection) b
    | inr ((x, []), found) ↦ rw (found, step, get_connection) b
    | inr ((x, con ∷ rest), found) ↦
        rw (found, step, get_connection)
          (pull-IsBalanced s x con rest (finds i s.pool.nodes x (con ∷ rest) found) b)
  ]
  step-IsBalanced finds s (redirects h p) u b =
      with_host-IsBalanced s _ _ (nodes-insert_host connect search h p s.pool) b
  step-IsBalanced finds s (returns n) u b = elim (Option-cases (pick n s.leased)) [
    | inl missing ↦ rw (missing, step) b
    | inr ((l, rest), found) ↦ rw (found, step) (push-IsBalanced s l n rest found b)
  ]

  run-IsBalanced :
      Finds search
      → (s : System) (es : List Event) → All IsUse es
      → IsBalanced s
      → IsBalanced (run connect search s es)
  unfolding run
  run-IsBalanced finds s [] u b = b
  run-IsBalanced finds s (e ∷ es) u b =
      run-IsBalanced finds (step connect search s e) es u.1 (step-IsBalanced finds s e u.0 b)

  waits_iff_held :
      Finds search
      → (s : System) → IsBalanced s
      → (i : ℕ) (x : SlotRange) (q : ConQueue) → search i s.pool.nodes ≡ some (x, q)
      → ((get_connection connect search i s.pool).0 ≡ waits) ↔ (held x s.leased ≡ pool_size)
  unfolding get_connection pull_connection
  waits_iff_held finds s b i x [] found =
      rw (found, get_connection) (ground (arith, b x [] (finds i s.pool.nodes x [] found)))
  waits_iff_held finds s b i x (con ∷ q) found =
      rw (found, get_connection)
        (ground (arith, b x (con ∷ q) (finds i s.pool.nodes x (con ∷ q) found)))

  -- From a cluster whose slot pools are full, whatever calls other than
  -- `insert(slots, host, port)` the threads make, `getConnection` for a slot of a known range waits
  -- exactly when threads hold ten connections of that range. `searchBySlots` finds entries of the map.
  pub get_connection-waits :
      Finds search
      → (p : ThreadedPool) → All (λ (e : SlotRange × ConQueue). length e.1 ≡ pool_size) p.nodes
      → (es : List Event) → All IsUse es
      → (i : ℕ) (x : SlotRange) (q : ConQueue)
      → search i (run connect search (unused p) es).pool.nodes ≡ some (x, q)
      → ((get_connection connect search i (run connect search (unused p) es).pool).0 ≡ waits)
        ↔ (held x (run connect search (unused p) es).leased ≡ pool_size)
  get_connection-waits finds p full es u i x q found =
      waits_iff_held finds (run connect search (unused p) es)
        (run-IsBalanced finds (unused p) es u
          (λ r q h. omega (arith, length-find r q p.nodes full h)))
        i x q found
