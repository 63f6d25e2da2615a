-- ===== src/Pool/Counting.antt =====
-- How often a connection occurs in the queues of `ThreadedPool` (src/serverResource.hpp).
use asio_coro_frame.Base.{
  ℕ, ◌+◌, ◌≡◌, refl, ap, ◌⊎◌, inl, inr, Bool, List, [], ◌∷◌, ◌++◌, Option, none, some, arith, ◌==◌,
  if◌then◌else◌,
}
use asio_coro_frame.Base.StdMap.{find, put}
use asio_coro_frame.Pool.{ConQueue, Dialled, null, broken, live}

-- A dial returns a usable connection, or none that `fillPool` keeps.
pub Dialled-cases :
    (r : Dialled) → ((c : ℕ) × (r ≡ live c)) ⊎ ((r ≡ null) ⊎ ((c : ℕ) × (r ≡ broken c)))
Dialled-cases null = inr (inl refl)
Dialled-cases (broken c) = inr (inr (c, refl))
Dialled-cases (live c) = inl (c, refl)

abbrev pub count : ℕ → List ℕ → ℕ
count c [] = 0
count c (x ∷ xs) = (if x == c then 1 else 0) + count c xs

pub count-append : (c : ℕ) (xs ys : List ℕ) → count c (xs ++ ys) ≡ count c xs + count c ys
count-append c [] ys = omega arith
count-append c (x ∷ xs) ys = omega (arith, count-append c xs ys)

abbrev pub count_found : ℕ → Option ConQueue → ℕ
count_found c none = 0
count_found c (some q) = count c q

module _ {ℓ} {K : Type ℓ} where
  abbrev pub count_pools : ℕ → List (K × ConQueue) → ℕ
  count_pools c [] = 0
  count_pools c ((k, q) ∷ m) = count c q + count_pools c m

  -- An assignment replaces the queue that was found under the key.
  pub count_pools-put :
      (lt : K → K → Bool) (c : ℕ) (k : K) (q : ConQueue) (m : List (K × ConQueue))
      → count_pools c (put lt k q m) + count_found c (find lt k m) ≡ count_pools c m + count c q
  unfolding put find
  count_pools-put lt c k q [] = omega arith
  count_pools-put lt c k q ((j, w) ∷ m) = ground (arith, count_pools-put lt c k q m)

  -- One connection at the end of the queue under the key.
  pub count_pools-push :
      (lt : K → K → Bool) (c con : ℕ) (k : K) (q : ConQueue) (m : List (K × ConQueue))
      → find lt k m ≡ some q
      → count_pools c (put lt k (q ++ con ∷ []) m) ≡ count_pools c m + (if con == c then 1 else 0)
  count_pools-push lt c con k q m e = omega (
    arith,
    count_pools-put lt c k (q ++ con ∷ []) m,
    ap (count_found c) e,
    count-append c q (con ∷ []),
  )

  -- One connection off the front of the queue under the key.
  pub count_pools-pull :
      (lt : K → K → Bool) (c con : ℕ) (k : K) (q : ConQueue) (m : List (K × ConQueue))
      → find lt k m ≡ some (con ∷ q)
      → count_pools c (put lt k q m) + (if con == c then 1 else 0) ≡ count_pools c m
  count_pools-pull lt c con k q m e =
      omega (arith, count_pools-put lt c k q m, ap (count_found c) e)
