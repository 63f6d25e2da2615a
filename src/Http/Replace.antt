-- ===== src/Http/Replace.antt =====
-- replace_all and replace_all_distinct of src/serverResource.hpp.
pub mod Distinct
pub mod Ends
use asio_coro_frame.Base.{ℕ, zero, suc, ◌+◌, Option, none, some, Text, length}
use asio_coro_frame.Http.Strings.{search, find_from, replace}

-- On fuel: `none` means that the fuel ran out.
unfoldable pub replace_all : ℕ → Text → Text → Text → Option Text
unfolding search
replace_all zero old_value new_value str = none
replace_all (suc fuel) old_value new_value str = elim (search old_value str) [
  | none ↦ some str
  | some pos ↦ replace_all fuel old_value new_value (replace str pos (length old_value) new_value)
]

-- the loop of replace_all_distinct from a place on
unfoldable pub replace_from : ℕ → Text → Text → ℕ → Text → Option Text
unfolding find_from
replace_from zero old_value new_value pos str = none
replace_from (suc fuel) old_value new_value pos str = elim (find_from old_value str pos) [
  | none ↦ some str
  | some at ↦
      replace_from fuel old_value new_value (at + length new_value)
        (replace str at (length old_value) new_value)
]

unfoldable pub replace_all_distinct : ℕ → Text → Text → Text → Option Text
unfolding replace_from
replace_all_distinct fuel old_value new_value str = replace_from fuel old_value new_value 0 str
