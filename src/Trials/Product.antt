-- ===== src/Trials/Product.antt =====
-- The function `foo` of src/test/test2.hpp, which multiplies an `int` by 1, 2, 3, … An `int` has 32 bits,
-- and a product or a sum over its maximum has no defined value, which `none` stands for.
use mathlib.Core.Path.{fun_ext}
use asio_coro_frame.Base.{
  sym, Bool-cases, inl, inr, ℕ, zero, suc, ◌+◌, ◌*◌, ◌-◌, ◌≤◌, ◌≡◌, refl, ◌∙◌, ap, Option, none,
  some, leb, if◌then◌else◌, arith,
}

abbrev pub int_max : ℕ
int_max = 2147483647

-- the value of an `int` expression that is not negative
abbrev pub int : ℕ → Option ℕ
int n = if leb n int_max then some n else none

abbrev pub and_then : Option ℕ → (ℕ → Option ℕ) → Option ℕ
and_then none f = none
and_then (some n) f = f n

-- `rounds` rounds of the loop from `i` on, with the product `v`
unfoldable pub multiply : ℕ → ℕ → ℕ → Option ℕ
multiply zero i v = some v
multiply (suc rounds) i v = and_then (int (v * i)) (multiply rounds (i + 1))

-- foo: the global `c` after it
unfoldable pub foo : ℕ → Option ℕ
unfolding multiply
foo c = and_then (multiply 19999999 1 1) (λ v. int (c + v))

abbrev pub factorial : ℕ → ℕ
factorial zero = 1
factorial (suc n) = factorial n * (n + 1)

and_then_assoc :
    (o : Option ℕ) (f g : ℕ → Option ℕ)
    → and_then (and_then o f) g ≡ and_then o (λ n. and_then (f n) g)
and_then_assoc none f g = refl
and_then_assoc (some n) f g = refl

and_then-some : (o : Option ℕ) → and_then o (λ n. some n) ≡ o
and_then-some none = refl
and_then-some (some n) = refl

multiply-add : (m k i v : ℕ) → multiply (m + k) i v ≡ and_then (multiply m i v) (multiply k (i + m))
unfolding multiply
multiply-add zero k i v =
    ap (λ n. multiply n i v) {x = zero + k} {y = k} (omega arith)
    ∙ ap (λ n. multiply k n v) {x = i} {y = i + zero} (omega arith)
multiply-add (suc m) k i v =
    ap (λ n. multiply n i v) {x = suc m + k} {y = suc (m + k)} (omega arith)
    ∙ ap (and_then (int (v * i))) (fun_ext (λ w. multiply-add m k (i + 1) w))
    ∙ sym (and_then_assoc (int (v * i)) (multiply m (i + 1)) (multiply k (i + 1 + m)))
    ∙ ap (λ n. and_then (multiply (suc m) i v) (multiply k n)) {x = i + 1 + m} {y = i + suc m}
        (omega arith)

multiply-suc :
    (n i v : ℕ) → multiply (n + 1) i v ≡ and_then (multiply n i v) (λ w. int (w * (i + n)))
unfolding multiply
multiply-suc n i v =
    multiply-add n 1 i v
    ∙ ap (and_then (multiply n i v)) (fun_ext (λ w. and_then-some (int (w * (i + n)))))

factorial-suc_le : (m n : ℕ) → m ≤ factorial n → m ≤ factorial (suc n)
factorial-suc_le m n h = grind arith

factorial-le : (n k : ℕ) → factorial n ≤ factorial (k + n)
factorial-le n zero =
    let same : factorial n ≡ factorial (zero + n) =
      ap factorial {x = n} {y = zero + n} (omega arith) in
    omega (arith, same)
factorial-le n (suc k) =
    let same : factorial (suc (k + n)) ≡ factorial (suc k + n) =
      ap factorial {x = suc (k + n)} {y = suc k + n} (omega arith) in
    rw (← same) (factorial-suc_le (factorial n) (k + n) (factorial-le n k))

factorial-small : (n : ℕ) → n ≤ 12 → factorial n ≤ 479001600
factorial-small n h =
    let same : factorial (12 - n + n) ≡ factorial 12 =
      ap factorial {x = 12 - n + n} {y = 12} (omega arith) in
    rw same at (factorial-le n (12 - n))

int-some : (n : ℕ) → n ≤ int_max → int n ≡ some n
int-some n h = ground arith

int_max-le : {n : ℕ} → n ≤ 479001600 → n ≤ int_max
int_max-le h = omega arith

-- up to 12 rounds
multiply-factorial : (n : ℕ) → n ≤ 12 → multiply n 1 1 ≡ some (factorial n)
unfolding multiply
multiply-factorial zero h = refl
multiply-factorial (suc n) h =
    ap (λ m. multiply m 1 1) {x = suc n} {y = n + 1} (omega arith)
    ∙ multiply-suc n 1 1
    ∙ ap (λ o. and_then o (λ w. int (w * (1 + n)))) (multiply-factorial n (omega arith))
    ∙ ap int {x = factorial n * (1 + n)} {y = factorial (suc n)} (grind arith)
    ∙ int-some (factorial (suc n)) (int_max-le (factorial-small (suc n) h))

multiply-overflow : (k : ℕ) → multiply (13 + k) 1 1 ≡ none
unfolding multiply
multiply-overflow k = multiply-add 13 k 1 1

foo-overflow : (c : ℕ) → foo c ≡ none
unfolding foo
foo-overflow c = ap (λ o. and_then o (λ v. int (c + v))) (multiply-overflow 19999986)

-- The product of the loop of foo is n! after n rounds up to 12, and from 13 rounds on it is over the
-- maximum of an int; so foo has no defined value, whatever the global c is.
pub foo-bounds :
    (n c : ℕ) → (multiply n 1 1 ≡ (if leb n 12 then some (factorial n) else none)) × (foo c ≡ none)
foo-bounds n c = elim (Bool-cases (leb n 12)) [
  | inl small ↦ (rw small (multiply-factorial n (ground arith)), foo-overflow c)
  | inr large ↦
      let over : multiply n 1 1 ≡ none =
        ap (λ m. multiply m 1 1) {x = n} {y = 13 + (n - 13)} (ground arith)
        ∙ multiply-overflow (n - 13) in
      (rw large over, foo-overflow c)
]
