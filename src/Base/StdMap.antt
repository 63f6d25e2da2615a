-- ===== src/Base/StdMap.antt =====
-- `std::map` as a list of entries that is sorted by a comparator. Keys that neither precede one
-- another are one key; an assignment through `operator[]` keeps the key that is there.
use mathlib.Core.Path.{◌≡◌, refl}
use mathlib.Core.Bool.{Bool, true, false, ◌&&◌, not}
use mathlib.Core.Option.{Option, none, some}
use mathlib.Core.List.{List, [], ◌∷◌}
use native.Mathlib.Omega.{arith}
use asio_coro_frame.Base.Tests.{if◌then◌else◌}

-- A strict weak order, what the standard asks of a comparator.
pub record IsComparator {ℓ} {K : Type ℓ} (lt : K → K → Bool) : Type ℓ where
  pub irrefl : (a : K) → lt a a ≡ false
  pub trans : (a b c : K) → lt a b ≡ true → lt b c ≡ true → lt a c ≡ true
  pub left : (a b c : K) → lt a b ≡ false → lt b a ≡ false → lt a c ≡ lt b c
  pub right : (a b c : K) → lt a b ≡ false → lt b a ≡ false → lt c a ≡ lt c b

module _ {ℓ} {K : Type ℓ} (lt : K → K → Bool) where
  abbrev pub same : K → K → Bool
  same a b = not (lt a b) && not (lt b a)

module _ {ℓ κ} {K : Type ℓ} {V : Type κ} (lt : K → K → Bool) where
  -- `m.at(k)`, with `none` for the exception
  unfoldable pub find : K → List (K × V) → Option V
  find k [] = none
  find k ((j, v) ∷ m) = if same lt k j then some v else if lt k j then none else find k m

  -- `m[k] = v`
  unfoldable pub put : K → V → List (K × V) → List (K × V)
  put k v [] = (k, v) ∷ []
  put k v ((j, w) ∷ m) =
      if same lt k j then (j, v) ∷ m else if lt k j then (k, v) ∷ (j, w) ∷ m else (j, w) ∷ put k v m

  pub find-put :
      IsComparator lt
      → (k j : K) (v : V) (m : List (K × V))
      → find k (put j v m) ≡ (if same lt k j then some v else find k m)
  unfolding find put
  find-put o k j v [] = ground arith
  find-put o k j v ((i, w) ∷ m) = ground (
    arith,
    o.trans k j i,
    o.trans j i k,
    o.trans i k j,
    o.trans k i j,
    o.left k j i,
    o.right k j i,
    o.left j i k,
    o.right j i k,
    o.left k i j,
    o.right k i j,
    find-put o k j v m,
  )

  pub find-put_self :
      IsComparator lt → (k : K) (v : V) (m : List (K × V)) → find k (put k v m) ≡ some v
  find-put_self o k v m = ground (arith, o.irrefl k, find-put o k k v m)

  -- Keys that are one to the comparator find one value.
  pub find-same :
      IsComparator lt
      → (k j : K) (m : List (K × V)) → lt k j ≡ false
      → lt j k ≡ false
      → find k m ≡ find j m
  unfolding find
  find-same o k j [] h h' = refl
  find-same o k j ((i, w) ∷ m) h h' =
      ground (arith, o.left k j i h h', o.right k j i h h', find-same o k j m h h')
