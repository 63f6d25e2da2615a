-- ===== src/Base/Places.antt =====
-- A list updated at an index, as a table of threads is, and a sum of weights over it.
use Prim.Native.Nat.{ℕ, zero, suc, ◌+◌, ◌<◌}
use mathlib.Core.Path.{◌≡◌, refl, ap}
use mathlib.Core.List.{List, [], ◌∷◌, ◌++◌, map}
use mathlib.Core.Option.{some}
use native.Mathlib.Decide.{dec_lt}
use native.Mathlib.Omega.{arith}
use asio_coro_frame.Base.Lists.{get_elem?}

module _ {ℓ} {A : Type ℓ} where
  -- Out of range nothing changes.
  abbrev pub set_elem : ℕ → A → List A → List A
  set_elem i a [] = []
  set_elem zero a (x ∷ xs) = a ∷ xs
  set_elem (suc i) a (x ∷ xs) = x ∷ set_elem i a xs

  abbrev pub total : (A → ℕ) → List A → ℕ
  total w [] = 0
  total w (x ∷ xs) = w x + total w xs

  pub total-set_elem :
      (w : A → ℕ) (i : ℕ) (a b : A) (xs : List A)
      → get_elem? xs i ≡ some b
      → total w (set_elem i a xs) + w b ≡ total w xs + w a
  total-set_elem w i a b [] e = ground arith
  total-set_elem w zero a b (x ∷ xs) e = ground arith
  total-set_elem w (suc i) a b (x ∷ xs) e = omega (arith, total-set_elem w i a b xs e)

  pub total-append : (w : A → ℕ) (xs ys : List A) → total w (xs ++ ys) ≡ total w xs + total w ys
  total-append w [] ys = omega arith
  total-append w (x ∷ xs) ys = omega (arith, total-append w xs ys)

  pub get_elem?-set_elem :
      (i : ℕ) (a b : A) (xs : List A)
      → get_elem? xs i ≡ some b
      → get_elem? (set_elem i a xs) i ≡ some a
  get_elem?-set_elem i a b [] e = ground arith
  get_elem?-set_elem zero a b (x ∷ xs) e = refl
  get_elem?-set_elem (suc i) a b (x ∷ xs) e = get_elem?-set_elem i a b xs e

  -- A positive sum has a positive term.
  pub total-find :
      (w : A → ℕ) (xs : List A)
      → 0 < total w xs
      → (i : ℕ) × (a : A) × (get_elem? xs i ≡ some a) × (0 < w a)
  total-find w [] e = absurd (omega arith)
  total-find w (x ∷ xs) e = elim (dec_lt 0 (w x)) [
    | yes positive ↦ (0, x, refl, positive)
    | no zero_here ↦
        let (i, a, found, positive) = total-find w xs (omega arith) in (suc i, a, found, positive)
  ]

  -- What stands there already changes nothing.
  pub set_elem_same : (i : ℕ) (a : A) (xs : List A) → get_elem? xs i ≡ some a → set_elem i a xs ≡ xs
  set_elem_same i a [] e = refl
  set_elem_same zero a (x ∷ xs) e = ground arith
  set_elem_same (suc i) a (x ∷ xs) e = ap (λ (t : List A). x ∷ t) (set_elem_same i a xs e)

  pub get_elem?-set_elem_ne :
      (i j : ℕ) (a : A) (xs : List A) → ¬ (i ≡ j) → get_elem? (set_elem i a xs) j ≡ get_elem? xs j
  get_elem?-set_elem_ne i j a [] ne = refl
  get_elem?-set_elem_ne zero zero a (x ∷ xs) ne = absurd (ne refl)
  get_elem?-set_elem_ne zero (suc j) a (x ∷ xs) ne = refl
  get_elem?-set_elem_ne (suc i) zero a (x ∷ xs) ne = refl
  get_elem?-set_elem_ne (suc i) (suc j) a (x ∷ xs) ne =
      get_elem?-set_elem_ne i j a xs (λ e. ne (ap suc e))

module _ {ℓ κ} {A : Type ℓ} {B : Type κ} where
  pub map-set_elem :
      (f : A → B) (i : ℕ) (a : A) (xs : List A)
      → map f (set_elem i a xs) ≡ set_elem i (f a) (map f xs)
  map-set_elem f i a [] = refl
  map-set_elem f zero a (x ∷ xs) = refl
  map-set_elem f (suc i) a (x ∷ xs) = ap (λ (t : List B). f x ∷ t) (map-set_elem f i a xs)

  pub get_elem?-map :
      (f : A → B) (i : ℕ) (a : A) (xs : List A)
      → get_elem? xs i ≡ some a
      → get_elem? (map f xs) i ≡ some (f a)
  get_elem?-map f i a [] e = ground arith
  get_elem?-map f zero a (x ∷ xs) e = ground arith
  get_elem?-map f (suc i) a (x ∷ xs) e = get_elem?-map f i a xs e
