-- ===== src/Http/Files/Inside.antt =====
-- The names of files that the handler of src/serverResource.hpp opens.
use asio_coro_frame.Base.{
  ℕ, zero, suc, ◌+◌, ◌<◌, ◌≡◌, ◌≢◌, refl, sym, true, [], ◌∷◌, ◌++◌, none, some, Text, lit, arith,
  take, drop, length, length-append, length-drop, length-take, Option-cases, inl, inr, starts_with,
  starts_with-append, Bool-cases, append_assoc, append-nil,
}
use asio_coro_frame.Http.Strings.{search, erase, search-occurs, search-tail}
use asio_coro_frame.Http.Files.{dots, remove_dots, with_index, filename_of, ends_open}

-- What is found begins inside the text.
search-inside : (s : Text) (i : ℕ) → search dots s ≡ some i → suc i < length s
unfolding search starts_with
search-inside [] i h = ground arith
search-inside (c ∷ []) i h = ground arith
search-inside (c ∷ d ∷ s) i h = elim (Option-cases (search dots (d ∷ s))) [
  | inl gone ↦ ground arith
  | inr (j, found) ↦ let further = search-inside (d ∷ s) j found in ground arith
]

length-erase : (s : Text) (i : ℕ) → i < length s → suc (length (erase s i 1)) ≡ length s
length-erase s i h = omega (
  arith,
  length-append (take i s) (drop (i + 1) s),
  length-take i s (omega arith),
  length-drop (i + 1) s,
)

remove_dots-ends :
    (fuel : ℕ) (path : Text) → length path < fuel → (p : Text) × (remove_dots fuel path ≡ some p)
unfolding remove_dots
remove_dots-ends zero path h = absurd (omega arith)
remove_dots-ends (suc fuel) path h = elim (Option-cases (search dots path)) [
  | inl gone ↦ (path, rw (gone, remove_dots) refl)
  | inr (i, found) ↦
      let shorter = length-erase path i (let inside = search-inside path i found in omega arith) in
      let (p, rest) = remove_dots-ends fuel (erase path i 1) (omega arith) in
      (p, rw (found, remove_dots) rest)
]

remove_dots-none :
    (fuel : ℕ) (path p : Text) → remove_dots fuel path ≡ some p → search dots p ≡ none
unfolding remove_dots
remove_dots-none zero path p h = ground arith
remove_dots-none (suc fuel) path p h = elim (Option-cases (search dots path)) [
  | inl gone ↦ let same : path ≡ p = ground (arith, rw (gone, remove_dots) at h) in rw (← same) gone
  | inr (i, found) ↦ remove_dots-none fuel (erase path i 1) p (rw (found, remove_dots) at h)
]

search-slash_none : (s : Text) → search dots s ≡ none → search dots (b'/' ∷ s) ≡ none
unfolding search starts_with
search-slash_none s h = ground arith

search-slash_some :
    (s : Text) (i : ℕ) → search dots s ≡ some i → search dots (b'/' ∷ s) ≡ some (suc i)
unfolding search starts_with
search-slash_some s i h = ground arith

-- A leading slash stays.
remove_dots-root :
    (fuel : ℕ) (s p : Text) → remove_dots fuel (b'/' ∷ s) ≡ some p → (t : Text) × (p ≡ b'/' ∷ t)
unfolding remove_dots
remove_dots-root zero s p h = ground arith
remove_dots-root (suc fuel) s p h = elim (Option-cases (search dots s)) [
  | inl gone ↦
      let none_left = search-slash_none s gone in
      (s, ground (arith, rw (none_left, remove_dots) at h))
  | inr (i, found) ↦
      remove_dots-root fuel (take i s ++ drop (suc i + 1) (b'/' ∷ s)) p
        (rw (search-slash_some s i found, remove_dots) at h)
]

-- Text that begins and goes on without two dots, where neither meets the other.
search-append_plain :
    (s t : Text) → search (b'.' ∷ []) s ≡ none → search dots t ≡ none → search dots (s ++ t) ≡ none
unfolding search starts_with
search-append_plain [] t h k = k
search-append_plain (c ∷ []) [] h k = ground arith
search-append_plain (c ∷ []) (d ∷ t) h k = ground arith
search-append_plain (c ∷ d ∷ s) t h k =
    let rest = search-append_plain (d ∷ s) t (search-tail (b'.' ∷ []) (d ∷ s) c h) k in ground arith

-- what the rule for directories adds to a name
with_index-suffix :
    (f : Text)
    → search dots f ≡ none
    → (t : Text) × (with_index f ≡ f ++ t) × (search dots (f ++ t) ≡ none)
unfolding with_index lit search starts_with
with_index-suffix f h = elim (Option-cases (search (b'.' ∷ []) f)) [
  | inl plain ↦ elim (Bool-cases (ends_open f)) [
    | inl unclosed ↦ (
      b'/' ∷ lit "index.html",
      rw (plain, unclosed, with_index) (append_assoc f (b'/' ∷ []) (lit "index.html")),
      search-append_plain f (b'/' ∷ lit "index.html") plain refl,
    )
    | inr closed ↦ (
      lit "index.html",
      rw (plain, closed, with_index) refl,
      search-append_plain f (lit "index.html") plain refl,
    )
  ]
  | inr (i, found) ↦ ([], rw (found, with_index) (sym (append-nil f)), rw (append-nil f) h)
]

-- a name in `web/`, without dots
abbrev IsInside : Text → Type 0
IsInside f =
    (starts_with f (lit "web/") ≡ true) × ((before after : Text) → f ≢ before ++ (dots ++ after))

indexed-IsInside :
    (t : Text) → search dots (b'/' ∷ t) ≡ none → IsInside (with_index (lit "web" ++ b'/' ∷ t))
unfolding lit search starts_with
indexed-IsInside t h =
    let (u, same, clean) =
      with_index-suffix (lit "web" ++ b'/' ∷ t)
        (search-append_plain (lit "web") (b'/' ∷ t) refl h) in
    rw same (
      starts_with-append (lit "web/") (t ++ u),
      λ before after split. search-occurs dots before after (rw (← split) clean),
    )

-- The name of a file that is opened for a path from the root is below `web/`, and no two dots stand
-- in it next to each other, so it has no component `..`.
pub filename_of-inside :
    (s : Text)
    → (f : Text) × (filename_of (b'/' ∷ s) ≡ some f)
      × (starts_with f (lit "web/") ≡ true)
      × ((before after : Text) → f ≢ before ++ (dots ++ after))
unfolding filename_of
filename_of-inside s =
    let (p, run) = remove_dots-ends (length (b'/' ∷ s) + 1) (b'/' ∷ s) (omega arith) in
    let (t, root) = remove_dots-root (length (b'/' ∷ s) + 1) s p run in
    let clean = remove_dots-none (length (b'/' ∷ s) + 1) (b'/' ∷ s) p run in
    let inside : IsInside (with_index (lit "web" ++ p)) =
      rw root (indexed-IsInside t (rw root at clean)) in
    (with_index (lit "web" ++ p), rw (run, filename_of) refl, inside.0, inside.1)
