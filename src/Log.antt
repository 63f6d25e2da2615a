-- ===== src/Log.antt =====
-- The severity levels of src/common/log.h, and the level below which `initlog` of src/common/log.cpp
-- writes no record.
pub mod Levels
pub mod Init
mod Tests
use asio_coro_frame.Base.{
  ℕ, zero, suc, Bool, List, [], ◌∷◌, Option, none, some, Text, lit, text_lt, leb, get_elem?,
}
use asio_coro_frame.Base.StdMap.{find, put}
use asio_coro_frame.Http.Strings.{decimal}

-- severity_level, a value of which is a number
pub data SeverityLevel : Type 0 where
  normal notification warning error critical : SeverityLevel

-- static_cast
abbrev pub number_of : SeverityLevel → ℕ
number_of normal = 0
number_of notification = 1
number_of warning = 2
number_of error = 3
number_of critical = 4

-- `str` of `operator<<`
abbrev pub names : List Text
names = lit "normal" ∷ lit "notification" ∷ lit "warning" ∷ lit "error" ∷ lit "critical" ∷ []

-- `operator<<` of the level with this number
unfoldable pub print_level : ℕ → Text
print_level lvl = elim (get_elem? names lvl) [ none ↦ decimal lvl | some name ↦ name ]

abbrev pub SeverityMap : Type 0
SeverityMap = List (Text × SeverityLevel)

-- the initial value of `severitymap`, entry by entry
unfoldable pub severitymap : SeverityMap
unfolding put
severitymap = put text_lt (lit "critical") critical (
    put text_lt (lit "error") error (
      put text_lt (lit "warning") warning
        (put text_lt (lit "notification") notification (put text_lt (lit "normal") normal []))))

abbrev pub or_normal : Option SeverityLevel → SeverityLevel
or_normal none = normal
or_normal (some lvl) = lvl

-- `severitymap[name]`: a missing name gets the level with number 0.
unfoldable pub level_of : Text → SeverityMap → SeverityLevel × SeverityMap
unfolding find put
level_of name levels = elim (find text_lt name levels) [
  | none ↦ (normal, put text_lt name normal levels)
  | some lvl ↦ (lvl, levels)
]

-- The filter that `initlog` sets for the configured name of a level: whether a record with this
-- severity is written.
unfoldable pub passes : Text → Option SeverityLevel → Bool
unfolding level_of severitymap
passes name severity =
    leb (number_of (level_of name severitymap).0) (number_of (or_normal severity))
