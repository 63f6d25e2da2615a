-- ===== src/Http/Replace/Ends.antt =====
-- When replace_all of src/serverResource.hpp comes to an end.
use asio_coro_frame.Base.{
  ℕ, zero, suc, ◌+◌, ◌<◌, ◌≡◌, refl, ◌∙◌, sym, ap, ◌++◌, none, some, Text, arith, take, drop,
  length, length-append, length-drop, length-take, Option-cases, inl, inr, append_assoc,
}
use asio_coro_frame.Http.Strings.{
  search, replace, search-occurs, search-starts_with, starts_with-length,
}
use asio_coro_frame.Http.Replace.{replace_all}

-- what is left holds the old value again
again : (a l old r d : Text) → a ++ ((l ++ (old ++ r)) ++ d) ≡ (a ++ l) ++ (old ++ (r ++ d))
again a l old r d =
    ap (λ (x : Text). a ++ x)
      (append_assoc l (old ++ r) d ∙ ap (λ (x : Text). l ++ x) (append_assoc old r d))
    ∙ sym (append_assoc a l (old ++ (r ++ d)))

-- Where the new value holds the old one, replace_all of a text that holds the old one never ends,
-- whatever the fuel.
pub replace_all-forever :
    (fuel : ℕ) (old l r before after : Text)
    → replace_all fuel old (l ++ (old ++ r)) (before ++ (old ++ after)) ≡ none
unfolding replace_all
replace_all-forever zero old l r before after = refl
replace_all-forever (suc fuel) old l r before after =
    elim (Option-cases (search old (before ++ (old ++ after)))) [
      | inl gone ↦ absurd (search-occurs old before after gone)
      | inr (i, found) ↦
          rw
            (
              found,
              again (take i (before ++ (old ++ after))) l old r
                  (drop (i + length old) (before ++ (old ++ after))),
              replace_all,
            )
            (replace_all-forever fuel old l r (take i (before ++ (old ++ after)) ++ l)
              (r ++ drop (i + length old) (before ++ (old ++ after))))
    ]

replace-shorter :
    (old value s : Text) (i : ℕ)
    → length value < length old
    → search old s ≡ some i
    → length (replace s i (length old) value) < length s
replace-shorter old value s i h found =
    let fits = starts_with-length (drop i s) old (search-starts_with old s i found) in
    omega (
      arith,
      length-append (take i s) (value ++ drop (i + length old) s),
      length-append value (drop (i + length old) s),
      length-drop i s,
      length-drop (i + length old) s,
      length-take i s (omega (arith, length-drop i s)),
    )

-- Where the new value is shorter than the old one, replace_all ends, and its result does not hold the
-- old value.
pub replace_all-ends :
    (fuel : ℕ) (old value s : Text)
    → length value < length old
    → length s < fuel
    → (t : Text) × (replace_all fuel old value s ≡ some t) × (search old t ≡ none)
unfolding replace_all
replace_all-ends zero old value s h k = absurd (omega arith)
replace_all-ends (suc fuel) old value s h k = elim (Option-cases (search old s)) [
  | inl gone ↦ (s, rw (gone, replace_all) refl, gone)
  | inr (i, found) ↦
      let shorter = replace-shorter old value s i h found in
      let (t, run, clean) =
        replace_all-ends fuel old value (replace s i (length old) value) h (omega arith) in
      (t, rw (found, replace_all) run, clean)
]
