-- ===== src/Http/Replace/Distinct.antt =====
-- replace_all_distinct of src/serverResource.hpp against a single pass from left to right.
use asio_coro_frame.Base.{
  ℕ, zero, suc, ◌-◌, [], ◌∷◌, ◌++◌, Text, if◌then◌else◌, length, starts_with,
}

-- One pass: where `p` stands, `value` takes its place; `skip` bytes of `p` are still to be passed over.
unfoldable pub substitute : Text → Text → ℕ → Text → Text
unfolding starts_with
substitute p value skip [] = []
substitute p value (suc skip) (c ∷ s) = substitute p value skip s
substitute p value zero (c ∷ s) =
    let hit = value ++ substitute p value (length p - 1) s in
    let miss = c ∷ substitute p value zero s in if starts_with (c ∷ s) p then hit else miss
