-- ===== src/Log/Tests.antt =====
-- Concrete names of a level for the log of src/common/log.cpp.
use asio_coro_frame.Base.{◌≡◌, ◌≢◌, refl, ◌⊎◌, true, false, leb, none, some, lit}
use asio_coro_frame.Base.StdMap.{find, put}
use asio_coro_frame.Log.{
  SeverityLevel, notification, error, number_of, print_level, or_normal, passes, level_of,
  severitymap,
}
use asio_coro_frame.Http.Strings.{decimal, digits}
use asio_coro_frame.Log.Levels.{passes-cases}

warning_filter :
    (passes (lit "warning") (some notification) ≡ false)
    × (passes (lit "warning") (some error) ≡ true)
unfolding passes level_of severitymap find put lit
warning_filter = (refl, refl)

-- "WARNING" is no name of a level, and is from then on one of `normal`.
unknown_name : passes (lit "WARNING") none ≡ true
unfolding passes level_of severitymap find put lit
unknown_name = refl

print_level_5 : print_level 5 ≡ lit "5"
unfolding print_level lit decimal digits
print_level_5 = refl

passes-cases_example :
    ((lvl : SeverityLevel) × (lit "warning" ≡ print_level (number_of lvl))
      × (passes (lit "warning") none ≡ leb (number_of lvl) (number_of (or_normal none))))
    ⊎ (((lvl : SeverityLevel) → lit "warning" ≢ print_level (number_of lvl))
        × (passes (lit "warning") none ≡ true))
passes-cases_example = passes-cases (lit "warning") none
