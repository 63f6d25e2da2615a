-- ===== src/Log/Levels.antt =====
-- Which names of a level the log of src/common/log.cpp knows.
use asio_coro_frame.Base.{
  ◌≡◌, ◌≢◌, refl, sym, ap, ◌∙◌, ◌⊎◌, inl, inr, true, [], ◌∷◌, Option, none, some, Text, lit,
  text_lt, leb, All, Option-cases, Bool-cases, arith,
}
use mathlib.Core.Path.{subst}
use mathlib.Core.Option.{none-ne-some}
use asio_coro_frame.Base.StdMap.{find, put, same}
use asio_coro_frame.Base.TextOrder.{text_lt-connex}
use asio_coro_frame.Log.{
  SeverityLevel, normal, notification, warning, error, critical, number_of, print_level,
  SeverityMap, severitymap, or_normal, level_of, passes,
}

-- The value under a key satisfies what all entries satisfy.
find-All :
    (P : Text → SeverityLevel → Type 0) (name : Text) (lvl : SeverityLevel) (levels : SeverityMap)
    → All (λ (e : Text × SeverityLevel). P e.0 e.1) levels
    → find text_lt name levels ≡ some lvl
    → P name lvl
unfolding find
find-All P name lvl [] h e = ground arith
find-All P name lvl ((key, value) ∷ levels) h e = elim (Bool-cases (same text_lt name key)) [
  | inl here ↦
      let same_key : name ≡ key = text_lt-connex name key (ground arith) (ground arith) in
      let same_value : value ≡ lvl = ground arith in
      subst (λ n. P n lvl) (sym same_key) (subst (P key) same_value h.0)
  | inr elsewhere ↦ find-All P name lvl levels h.1 (ground arith)
]

find-printed :
    (name : Text) (lvl : SeverityLevel)
    → find text_lt name severitymap ≡ some lvl
    → name ≡ print_level (number_of lvl)
unfolding severitymap print_level put lit
find-printed name lvl e =
    find-All (λ name lvl. name ≡ print_level (number_of lvl)) name lvl severitymap
      (refl, (refl, (refl, (refl, (refl, tt))))) e

level_of-find :
    (name : Text) (lvl : SeverityLevel) (levels : SeverityMap)
    → find text_lt name levels ≡ some lvl
    → (level_of name levels).0 ≡ lvl
unfolding level_of
level_of-find name lvl levels e = rw (e, level_of) refl

level_of-missing :
    (name : Text) (levels : SeverityMap)
    → find text_lt name levels ≡ none
    → (level_of name levels).0 ≡ normal
unfolding level_of
level_of-missing name levels e = rw (e, level_of) refl

known-passes :
    (name : Text) (lvl : SeverityLevel) (severity : Option SeverityLevel)
    → find text_lt name severitymap ≡ some lvl
    → passes name severity ≡ leb (number_of lvl) (number_of (or_normal severity))
unfolding passes
known-passes name lvl severity e =
    ap (λ l. leb (number_of l) (number_of (or_normal severity)))
      (level_of-find name lvl severitymap e)

unknown-passes :
    (name : Text) (severity : Option SeverityLevel)
    → find text_lt name severitymap ≡ none
    → passes name severity ≡ true
unfolding passes
unknown-passes name severity e =
    ap (λ l. leb (number_of l) (number_of (or_normal severity)))
      (level_of-missing name severitymap e)
    ∙ ground arith

printed-find :
    (lvl : SeverityLevel) → find text_lt (print_level (number_of lvl)) severitymap ≡ some lvl
unfolding severitymap print_level find put lit
printed-find normal = refl
printed-find notification = refl
printed-find warning = refl
printed-find error = refl
printed-find critical = refl

-- The filter for a configured name: for the printed name of a level it lets through a record with
-- that severity or a higher one, where a record with no severity counts as normal, and for any
-- other name it lets through every record.
pub passes-cases :
    (name : Text) (severity : Option SeverityLevel)
    → ((lvl : SeverityLevel) × (name ≡ print_level (number_of lvl))
        × (passes name severity ≡ leb (number_of lvl) (number_of (or_normal severity))))
      ⊎ (((lvl : SeverityLevel) → name ≢ print_level (number_of lvl))
          × (passes name severity ≡ true))
passes-cases name severity = elim (Option-cases (find text_lt name severitymap)) [
  | inl missing ↦ inr (
    (λ lvl same_name.
        none-ne-some lvl
          (sym missing ∙ ap (λ n. find text_lt n severitymap) same_name ∙ printed-find lvl)),
    unknown-passes name severity missing,
  )
  | inr (lvl, found) ↦ inl (lvl, find-printed name lvl found, known-passes name lvl severity found)
]
