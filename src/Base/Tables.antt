-- ===== src/Base/Tables.antt =====
-- Reading back a text of lines, each of them values with a separator between them.
use Prim.Native.Nat.{ℕ}
use mathlib.Core.Path.{◌≡◌, ap, ◌∙◌}
use mathlib.Core.Logic.{◌≢◌}
use mathlib.Core.List.{List, [], ◌∷◌, ◌++◌, append_assoc, append-nil}
use native.Mathlib.Omega.{arith}
use asio_coro_frame.Base.Tests.{◌==◌, if◌then◌else◌}
use asio_coro_frame.Base.Lists.{All}
use asio_coro_frame.Base.Texts.{Text}

-- One more byte at the front of the first value.
abbrev grow : ℕ → List (List Text) → List (List Text)
grow c [] = ((c ∷ []) ∷ []) ∷ []
grow c ([] ∷ ls) = ((c ∷ []) ∷ []) ∷ ls
grow c ((v ∷ vs) ∷ ls) = ((c ∷ v) ∷ vs) ∷ ls

-- An empty value at the front of the first line.
abbrev fresh : List (List Text) → List (List Text)
fresh [] = ([] ∷ []) ∷ []
fresh (l ∷ ls) = ([] ∷ l) ∷ ls

module _ (separator : ℕ) where
  -- the lines of a text, each of them the values between its separators
  unfoldable pub split_table : Text → List (List Text)
  split_table [] = []
  split_table (c ∷ s) =
      let rest = split_table s in
      if c == 13
      then rest
      else if c == 10
      then ([] ∷ []) ∷ rest
      else if c == separator
      then fresh rest
      else grow c rest

  abbrev pub IsInside : ℕ → Type 0
  IsInside c = (c ≢ separator) × (c ≢ 13) × (c ≢ 10)

  -- no separator and no end of line
  pub record IsPlain (t : Text) : Type 0 where
    pub bytes : All IsInside t

  abbrev pub joined : List Text → Text
  joined [] = []
  joined (v ∷ []) = v
  joined (v ∷ w ∷ ws) = v ++ separator ∷ joined (w ∷ ws)

  split_table-value :
      (t s : Text) (v : Text) (vs : List Text) (ls : List (List Text))
      → All IsInside t
      → split_table s ≡ (v ∷ vs) ∷ ls
      → split_table (t ++ s) ≡ ((t ++ v) ∷ vs) ∷ ls
  unfolding split_table
  split_table-value [] s v vs ls h e = e
  split_table-value (c ∷ t) s v vs ls h e = ground (arith, split_table-value t s v vs ls h.1 e)

  split_table-separator :
      (s : Text) (l : List Text) (ls : List (List Text))
      → separator ≢ 13
      → separator ≢ 10
      → split_table s ≡ l ∷ ls
      → split_table (separator ∷ s) ≡ ([] ∷ l) ∷ ls
  unfolding split_table
  split_table-separator s l ls a b e = ground arith

  -- The values of a line, its end and what follows.
  pub split_table-joined :
      (v : Text) (vs : List Text) (end s : Text)
      → separator ≢ 13
      → separator ≢ 10
      → All IsPlain (v ∷ vs)
      → split_table (end ++ s) ≡ ([] ∷ []) ∷ split_table s
      → split_table (joined (v ∷ vs) ++ (end ++ s)) ≡ (v ∷ vs) ∷ split_table s
  split_table-joined v [] end s a b h e =
      split_table-value v (end ++ s) [] [] (split_table s) h.0.bytes e
      ∙ ap (λ (t : Text). (t ∷ []) ∷ split_table s) (append-nil v)
  split_table-joined v (w ∷ ws) end s a b h e =
      ap split_table (append_assoc v (separator ∷ joined (w ∷ ws)) (end ++ s))
      ∙ split_table-value v _ [] (w ∷ ws) (split_table s) h.0.bytes
          (split_table-separator _ (w ∷ ws) _ a b (split_table-joined w ws end s a b h.1 e))
      ∙ ap (λ (t : Text). (t ∷ w ∷ ws) ∷ split_table s) (append-nil v)
