-- ===== src/Base/TextOrder.antt =====
-- The order of std::string is a strict order on texts.
use mathlib.Core.Path.{◌≡◌, refl, ap}
use mathlib.Core.Bool.{true, false}
use mathlib.Core.List.{[], ◌∷◌}
use native.Mathlib.Omega.{arith}
use asio_coro_frame.Base.Texts.{Text, text_lt}
use asio_coro_frame.Base.StdMap.{IsComparator}

text_lt_irrefl : (s : Text) → text_lt s s ≡ false
text_lt_irrefl [] = refl
text_lt_irrefl (a ∷ s) = ground (arith, text_lt_irrefl s)

text_lt_trans : (s t u : Text) → text_lt s t ≡ true → text_lt t u ≡ true → text_lt s u ≡ true
text_lt_trans [] [] u h k = ground arith
text_lt_trans [] (b ∷ t) [] h k = ground arith
text_lt_trans [] (b ∷ t) (c ∷ u) h k = refl
text_lt_trans (a ∷ s) [] u h k = ground arith
text_lt_trans (a ∷ s) (b ∷ t) [] h k = ground arith
text_lt_trans (a ∷ s) (b ∷ t) (c ∷ u) h k = ground (arith, text_lt_trans s t u)

-- Texts that neither precede one another are equal.
pub text_lt-connex : (s t : Text) → text_lt s t ≡ false → text_lt t s ≡ false → s ≡ t
text_lt-connex [] [] h k = refl
text_lt-connex [] (b ∷ t) h k = ground arith
text_lt-connex (a ∷ s) [] h k = ground arith
text_lt-connex (a ∷ s) (b ∷ t) h k = ground (arith, text_lt-connex s t)

pub text_lt-IsComparator : IsComparator text_lt
text_lt-IsComparator = record {
  irrefl = text_lt_irrefl;
  trans = text_lt_trans;
  left = λ a b c h k. ap (λ (t : Text). text_lt t c) (text_lt-connex a b h k);
  right = λ a b c h k. ap (text_lt c) (text_lt-connex a b h k);
}
