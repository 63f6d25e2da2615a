-- ===== src/Attendance/Start/Dates.antt =====
-- The dates that StringToDatetime of src/tools/work_attendance/attendance.cpp reads.
use asio_coro_frame.Base.{◌^◌, ◌<◌, ◌≡◌, true, false, [], ◌∷◌, ◌++◌, All, Text, length}
use asio_coro_frame.Base.Numbers.{is_digit}
use asio_coro_frame.Http.Strings.{number}

-- decimal digits that an `int` has room for
pub record IsInt (t : Text) : Type 0 where
  pub digits : All (λ c. is_digit c ≡ true) t
  pub some_digits : 0 < length t
  pub fits : number t 0 < 2 ^ 31

-- The text after a number does not go on with a digit.
abbrev Ends : Text → Type 0
Ends [] = Unit
Ends (c ∷ s) = is_digit c ≡ false

abbrev pub date_text : Text → Text → Text → Text
date_text year month day = year ++ b'-' ∷ (month ++ b'-' ∷ (day ++ []))
