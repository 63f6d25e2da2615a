-- ===== src/Log/Init.antt =====
-- `initlog` of src/common/log.cpp as the calls of Boost.Log that it makes, each of which may throw.
use asio_coro_frame.Base.{
  ℕ, ◌*◌, ◌≡◌, refl, ap, ◌⊎◌, inl, inr, Bool, true, false, List, [], ◌∷◌, ◌++◌, Option, none, some,
  Text, lit, if◌then◌else◌, Bool-cases, arith, append-nil,
}
use asio_coro_frame.Config.{IConfig, Logging}
use asio_coro_frame.Log.{SeverityLevel, severitymap, level_of}

pub data LogCall : Type 0 where
  -- file_name, rotation_size, auto_flush
  file_sink : Text → ℕ → Bool → LogCall
  -- target, max_size, min_free_space
  set_file_collector : Text → ℕ → ℕ → LogCall
  scan_for_files : LogCall
  -- the format and the attributes in it
  set_formatter : Text → List Text → LogCall
  set_filter : SeverityLevel → LogCall
  add_sink : LogCall
  add_global_attribute : Text → LogCall

-- the calls up to the one that gives the sink to the core
unfoldable pub sink_calls : Logging → List LogCall
unfolding lit level_of severitymap
sink_calls config =
    file_sink (config.m_log_name ++ lit "_%Y%m%d_%5N.log") (16 * 1024 * 1024)
      config.m_log_auto_flush
    ∷ set_file_collector (lit "logs") (2000 * 1024 * 1024) (100 * 1024 * 1024)
    ∷ scan_for_files
    ∷ set_formatter (lit "%1%: [%2%] [%3%] [%4%] - %5%")
        (lit "RecordID" ∷ lit "Severity" ∷ lit "TimeStamp" ∷ lit "ThreadID" ∷ lit "Message" ∷ [])
    ∷ set_filter (level_of config.m_log_level severitymap).0
    ∷ []

-- the attributes of the core, after `add_sink`
unfoldable pub attribute_calls : List LogCall
unfolding lit
attribute_calls =
    add_global_attribute (lit "TimeStamp")
    ∷ add_global_attribute (lit "RecordID")
    ∷ add_global_attribute (lit "ThreadID")
    ∷ add_global_attribute (lit "ProcessName")
    ∷ add_global_attribute (lit "LineID")
    ∷ []

-- What was done, and whether nothing threw.
unfoldable pub perform : (LogCall → Bool) → List LogCall → List LogCall × Bool
perform throws [] = ([], true)
perform throws (c ∷ calls) =
    let rest = perform throws calls in if throws c then ([], false) else (c ∷ rest.0, rest.1)

-- initlog: what it has done, and whether it returns the sink and not a null pointer. `none` is an
-- exception of get_config, which comes before every call.
unfoldable pub initlog : (LogCall → Bool) → Option IConfig → List LogCall × Bool
unfolding perform sink_calls attribute_calls
initlog throws none = ([], false)
initlog throws (some config) =
    perform throws (sink_calls config.logging ++ add_sink ∷ attribute_calls)

abbrev is_add_sink : LogCall → Bool
is_add_sink add_sink = true
is_add_sink _ = false

-- whether the core has the sink
abbrev pub has_sink : List LogCall → Bool
has_sink [] = false
has_sink (c ∷ calls) = if is_add_sink c then true else has_sink calls

module _ (throws : LogCall → Bool) where
  -- What is done of two lists of calls is a part of the first, or all of it and a part of the second.
  perform-append :
      (xs ys : List LogCall)
      → ((perform throws (xs ++ ys) ≡ perform throws xs) × ((perform throws xs).1 ≡ false))
        ⊎ (perform throws (xs ++ ys) ≡ (xs ++ (perform throws ys).0, (perform throws ys).1))
  unfolding perform
  perform-append [] ys = inr refl
  perform-append (c ∷ xs) ys = elim (Bool-cases (throws c)) [
    | inl thrown ↦ inl (rw thrown refl, rw thrown refl)
    | inr fine ↦ elim (perform-append xs ys) [
      | inl (same, failed) ↦
          inl (rw fine (ap (λ (r : List LogCall × Bool). (c ∷ r.0, r.1)) same), rw fine failed)
      | inr all ↦ inr (rw fine (ap (λ (r : List LogCall × Bool). (c ∷ r.0, r.1)) all))
    ]
  ]

  perform-no_sink :
      (calls : List LogCall) → has_sink calls ≡ false → has_sink (perform throws calls).0 ≡ false
  unfolding perform
  perform-no_sink [] h = refl
  perform-no_sink (c ∷ calls) h = ground (arith, perform-no_sink calls)

  perform-all :
      (calls : List LogCall)
      → (perform throws calls ≡ (calls, true)) ⊎ ((perform throws calls).1 ≡ false)
  unfolding perform
  perform-all [] = inl refl
  perform-all (c ∷ calls) = ground (arith, perform-all calls)

  abbrev pub Cases : List LogCall → List LogCall → List LogCall × Bool → Type 0
  Cases setup others r =
      (r ≡ (setup ++ add_sink ∷ others, true))
      ⊎ ((r.1 ≡ false)
          × ((has_sink r.0 ≡ false) ⊎ ((more : List LogCall) × (r.0 ≡ setup ++ add_sink ∷ more))))

  added-Cases :
      (setup others : List LogCall)
      → has_sink setup ≡ false
      → Cases setup others
          (setup ++ (perform throws (add_sink ∷ others)).0, (perform throws (add_sink ∷ others)).1)
  unfolding perform
  added-Cases setup others h = elim (Bool-cases (throws add_sink)) [
    | inl thrown ↦ rw thrown (inr (refl, inl (rw (append-nil setup) h)))
    | inr fine ↦ elim (perform-all others) [
      | inl all ↦ rw (fine, all) (inl refl)
      | inr failed ↦ rw fine (inr (failed, inr ((perform throws others).0, refl)))
    ]
  ]

  perform-Cases :
      (setup others : List LogCall)
      → has_sink setup ≡ false
      → Cases setup others (perform throws (setup ++ add_sink ∷ others))
  perform-Cases setup others h = elim (perform-append setup (add_sink ∷ others)) [
    | inl (same, failed) ↦ rw same (inr (failed, inl (perform-no_sink setup h)))
    | inr all ↦ rw all (added-Cases setup others h)
  ]

  setup-no_sink : (config : Logging) → has_sink (sink_calls config) ≡ false
  unfolding sink_calls
  setup-no_sink config = refl

  -- initlog returns the sink exactly when nothing throws, and then all is done. Where it returns a null
  -- pointer, either the core has no sink, or it has one with the filter and the files set up, as when
  -- an attribute cannot be added.
  pub initlog-Cases :
      (config : IConfig)
      → Cases (sink_calls config.logging) attribute_calls (initlog throws (some config))
  unfolding initlog
  initlog-Cases config =
      perform-Cases (sink_calls config.logging) attribute_calls (setup-no_sink config.logging)
