-- ===== src/Http/Strings.antt =====
-- `find`, `substr` and `erase` of std::string, as src/serverResource.hpp uses them, and decimal numbers.
use asio_coro_frame.Base.{
  ℕ, zero, suc, ◌+◌, ◌-◌, ◌*◌, ◌/◌, ◌%◌, ◌≤◌, ◌<◌, ◌≡◌, ◌≢◌, refl, true, [], ◌∷◌, ◌++◌, Option,
  none, some, Text, arith, leb, ltb, if◌then◌else◌, starts_with, starts_with-append, take, drop,
  length, Option-cases, Bool-cases, inl, inr,
}

-- the place of the first occurrence
unfoldable pub search : Text → Text → Option ℕ
unfolding starts_with
search p [] = if starts_with [] p then some 0 else none
search p (c ∷ s) =
    let rest = search p s in
    if starts_with (c ∷ s) p then some 0 else elim rest [ none ↦ none | some i ↦ some (suc i) ]

-- s.find(p,pos)
unfoldable pub find_from : Text → Text → ℕ → Option ℕ
unfolding search
find_from p s pos =
    if leb pos (length s)
    then elim (search p (drop pos s)) [ none ↦ none | some i ↦ some (pos + i) ]
    else none

-- s.erase(pos,count)
abbrev pub erase : Text → ℕ → ℕ → Text
erase s pos count = take pos s ++ drop (pos + count) s

-- s.replace(pos,count,value)
abbrev pub replace : Text → ℕ → ℕ → Text → Text
replace s pos count value = take pos s ++ (value ++ drop (pos + count) s)

pub starts_with-length : (s p : Text) → starts_with s p ≡ true → length p ≤ length s
unfolding starts_with
starts_with-length s [] h = omega arith
starts_with-length [] (b ∷ p) h = ground arith
starts_with-length (a ∷ s) (b ∷ p) h = ground (arith, starts_with-length s p)

-- What is found stands there.
pub search-starts_with :
    (p s : Text) (i : ℕ) → search p s ≡ some i → starts_with (drop i s) p ≡ true
unfolding search
search-starts_with p [] zero h = ground arith
search-starts_with p [] (suc i) h = ground arith
search-starts_with p (c ∷ s) zero h = elim (Option-cases (search p s)) [
  | inl gone ↦ ground arith
  | inr (j, found) ↦ ground arith
]
search-starts_with p (c ∷ s) (suc i) h = elim (Option-cases (search p s)) [
  | inl gone ↦ ground arith
  | inr (j, found) ↦ search-starts_with p s i (ground arith)
]

pub search-here : (p s : Text) → starts_with s p ≡ true → search p s ≡ some 0
unfolding search
search-here p [] h = ground arith
search-here p (c ∷ s) h = ground arith

-- What occurs is found.
pub search-occurs : (p before after : Text) → search p (before ++ (p ++ after)) ≢ none
unfolding search
search-occurs p [] after h =
    let here = search-here p (p ++ after) (starts_with-append p after) in ground arith
search-occurs p (c ∷ before) after h = elim (Option-cases (search p (before ++ (p ++ after)))) [
  | inl gone ↦ search-occurs p before after gone
  | inr (i, found) ↦ ground arith
]

-- What is not found in a text is not found in its end.
pub search-tail : (p s : Text) (c : ℕ) → search p (c ∷ s) ≡ none → search p s ≡ none
unfolding search
search-tail p s c h = ground arith

-- `std::to_string` and `<<` of a number, digit by digit
unfoldable pub digits : ℕ → ℕ → Text
digits zero n = []
digits (suc fuel) n =
    let front = digits fuel (n / 10) in
    if ltb n 10 then (b'0' + n) ∷ [] else front ++ (b'0' + n % 10) ∷ []

unfoldable pub decimal : ℕ → Text
unfolding digits
decimal n = digits (n + 1) n

-- the number that decimal digits stand for
unfoldable pub number : Text → ℕ → ℕ
number [] n = n
number (c ∷ s) n = number s (n * 10 + (c - b'0'))

number-append : (s t : Text) (n : ℕ) → number (s ++ t) n ≡ number t (number s n)
unfolding number
number-append [] t n = refl
number-append (c ∷ s) t n = number-append s t (n * 10 + (c - b'0'))

number-digits : (fuel n : ℕ) → n < fuel → number (digits fuel n) 0 ≡ n
unfolding number digits
number-digits zero n h = omega arith
number-digits (suc fuel) n h = elim (Bool-cases (ltb n 10)) [
  | inl small ↦ ground arith
  | inr large ↦
      let front = number-append (digits fuel (n / 10)) ((b'0' + n % 10) ∷ []) 0 in
      let tens = number-digits fuel (n / 10) (ground arith) in ground arith
]

pub number-decimal : (n : ℕ) → number (decimal n) 0 ≡ n
unfolding decimal
number-decimal n = number-digits (n + 1) n (omega arith)
