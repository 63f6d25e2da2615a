-- ===== src/Pool/Exclusive/Places.antt =====
-- Where a connection of `ThreadedPool` (src/serverResource.hpp) is: in an idle queue, or with a thread.
use asio_coro_frame.Base.{
  text_lt, ℕ, zero, suc, ◌+◌, ◌≤◌, ◌≡◌, inl, inr, List, [], ◌∷◌, Option, some, arith, ◌==◌,
  if◌then◌else◌, Option-cases,
}
use asio_coro_frame.Base.StdMap.{find}
use asio_coro_frame.Pool.{
  SlotRange, range_lt, ThreadedPool, ConQueue, ClusterNodes, release_slots, release_host,
  pull_connection,
}
use asio_coro_frame.Pool.Counting.{count_pools, count_pools-push}
use asio_coro_frame.Pool.Events.{Lease, slot, host, lease_con, System, pick, give_back}

abbrev pub count_pool : ℕ → ThreadedPool → ℕ
count_pool c p = count_pools c p.nodes + count_pools c p.connections

abbrev pub count_leased : ℕ → List Lease → ℕ
count_leased c [] = 0
count_leased c (l ∷ ls) = (if lease_con l == c then 1 else 0) + count_leased c ls

-- How many places hold the connection: idle queues and threads.
abbrev pub places : ℕ → System → ℕ
places c s = count_pool c s.pool + count_leased c s.leased

-- What `searchBySlots` is relied on for: it finds an entry of the map.
abbrev pub Finds : (ℕ → ClusterNodes → Option (SlotRange × ConQueue)) → Type 0
Finds search =
    (i : ℕ) (m : ClusterNodes) (r : SlotRange) (q : ConQueue)
    → search i m ≡ some (r, q)
    → find range_lt r m ≡ some q

-- A connection given back leaves the thread that held it.
pub count_leased-pick :
    (c n : ℕ) (ls rest : List Lease) (l : Lease)
    → pick n ls ≡ some (l, rest)
    → count_leased c ls ≡ (if lease_con l == c then 1 else 0) + count_leased c rest
unfolding pick
count_leased-pick c n [] rest l e = ground arith
count_leased-pick c zero (x ∷ ls) rest l e = ground arith
count_leased-pick c (suc n) (x ∷ ls) rest l e = elim (Option-cases (pick n ls)) [
  | inl missing ↦ ground arith
  | inr ((y, more), found) ↦ ground (arith, count_leased-pick c n ls more y found)
]

pub give_back-le :
    (c : ℕ) (l : Lease) (p : ThreadedPool)
    → count_pool c (give_back l p) ≤ count_pool c p + (if lease_con l == c then 1 else 0)
unfolding release_slots release_host
give_back-le c (slot r con) p = elim (Option-cases (find range_lt r p.nodes)) [
  | inl missing ↦ rw (missing, give_back) (omega arith)
  | inr (q, found) ↦
      rw (found, give_back) (omega (arith, count_pools-push range_lt c con r q p.nodes found))
]
give_back-le c (host k con) p = elim (Option-cases (find text_lt k p.connections)) [
  | inl missing ↦ rw (missing, give_back) (omega arith)
  | inr (q, found) ↦
      rw (found, give_back) (omega (arith, count_pools-push text_lt c con k q p.connections found))
]

pub dials-give_back : (l : Lease) (p : ThreadedPool) → (give_back l p).dials ≡ p.dials
unfolding release_slots release_host
dials-give_back (slot r con) p = ground arith
dials-give_back (host k con) p = ground arith

pub pull_connection-eq :
    (q rest : ConQueue) (con : ℕ) → pull_connection q ≡ some (con, rest) → q ≡ con ∷ rest
unfolding pull_connection
pull_connection-eq [] rest con e = ground arith
pull_connection-eq (x ∷ q) rest con e = ground arith
