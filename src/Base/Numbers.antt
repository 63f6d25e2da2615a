-- ===== src/Base/Numbers.antt =====
-- Signed numbers, and the number reading that `std::stoi` and `%d` of `sscanf` share.
use Prim.Native.Nat.{ℕ, ◌+◌, ◌*◌, ◌-◌, ◌^◌}
use mathlib.Core.Bool.{Bool, true, false, ◌&&◌, ◌||◌}
use mathlib.Core.Option.{Option, none, some}
use mathlib.Core.List.{[], ◌∷◌}
use asio_coro_frame.Base.Tests.{leb, ltb, ◌==◌, if◌then◌else◌}
use asio_coro_frame.Base.Texts.{Text}

-- `negsuc n` is -(n + 1).
pub data ℤ : Type 0 where
  pos : ℕ → ℤ
  negsuc : ℕ → ℤ

abbrev pub is_digit : ℕ → Bool
is_digit c = leb b'0' c && leb c b'9'

-- `isspace` in the "C" locale
abbrev pub is_space : ℕ → Bool
is_space c = c == 32 || leb 9 c && leb c 13

unfoldable pub skip_spaces : Text → Text
skip_spaces [] = []
skip_spaces (c ∷ t) = if is_space c then skip_spaces t else c ∷ t

-- The value of the digits in front, with what follows them; `seen` says that there was one.
unfoldable pub scan_digits : Bool → ℕ → Text → Option (ℕ × Text)
scan_digits seen n [] = if seen then some (n, []) else none
scan_digits seen n (c ∷ t) =
    let more = scan_digits true (n * 10 + (c - b'0')) t in
    if is_digit c then more else if seen then some (n, c ∷ t) else none

abbrev pub negate : ℕ → ℤ
negate n = if n == 0 then pos 0 else negsuc (n - 1)

-- `int` has 32 bits; a number out of its range is not read.
abbrev pub to_int : Bool → Option (ℕ × Text) → Option (ℤ × Text)
to_int minus none = none
to_int false (some (n, t)) = if ltb n (2 ^ 31) then some (pos n, t) else none
to_int true (some (n, t)) = if leb n (2 ^ 31) then some (negate n, t) else none

unfoldable pub scan_signed : Text → Option (ℤ × Text)
unfolding scan_digits
scan_signed [] = none
scan_signed (c ∷ t) =
    if c == b'-'
    then to_int true (scan_digits false 0 t)
    else if c == b'+'
    then to_int false (scan_digits false 0 t)
    else to_int false (scan_digits false 0 (c ∷ t))

unfoldable pub scan_int : Text → Option (ℤ × Text)
unfolding scan_signed skip_spaces
scan_int t = scan_signed (skip_spaces t)

abbrev first_part : Option (ℤ × Text) → Option ℤ
first_part none = none
first_part (some (n, t)) = some n

-- `std::stoi`, with `none` for its exceptions
unfoldable pub stoi : Text → Option ℤ
unfolding scan_int
stoi t = first_part (scan_int t)
