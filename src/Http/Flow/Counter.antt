-- ===== src/Http/Flow/Counter.antt =====
-- The numbers that deal_with_flow_number of src/serverResource.hpp hands out.
use asio_coro_frame.Base.{
  ℕ, suc, ◌≡◌, ◌≢◌, refl, ◌∙◌, ap, false, List, [], ◌∷◌, ◌++◌, none, some, Text, lit, arith, ltb,
  length, All,
}
use asio_coro_frame.Http.Strings.{decimal}
use asio_coro_frame.Http.Files.{reply}
use asio_coro_frame.Http.Flow.{
  Redis, replied, Handled, written, out_of_vector, id_name, flow_json, split, deal_with_flow_number,
  with_parts, Step, increments, reads,
}

-- INCR and GET of redis on a counter: `count` is the value under a key.
pub record IsCounter {D : Type 0} (redis : Redis D) (count : Text → D → ℕ) : Type 0 where
  pub incr :
      (name : Text) (d : D)
      → (d' : D) × (redis.command name (lit "incr " ++ name) d ≡ (replied none, d'))
        × (count name d' ≡ suc (count name d))
  pub get :
      (name : Text) (d : D)
      → redis.command name (lit "get " ++ name) d ≡ (replied (some (decimal (count name d))), d)

pub record IsPart (t : Text) : Type 0 where
  pub bytes : All (λ c. c ≢ b'/') t

abbrev pub flow_path : Text → Text → Text
flow_path company type_name = lit "/flowNo/" ++ (company ++ (b'/' ∷ type_name))

split-part : (s t : Text) → All (λ c. c ≢ b'/') s → split (s ++ b'/' ∷ t) ≡ s ∷ split t
unfolding split
split-part [] t h = refl
split-part (c ∷ s) t h = let rest = split-part s t h.1 in ground arith

split-whole : (s : Text) → All (λ c. c ≢ b'/') s → split s ≡ s ∷ []
unfolding split
split-whole [] h = refl
split-whole (c ∷ s) h = let rest = split-whole s h.1 in ground arith

abbrev pub flow_reply : Text → ℕ → Handled
flow_reply now n = written (reply (lit "200 OK") (flow_json (decimal n) now))

-- the value of the counter at each read
abbrev pub numbers : List Step → ℕ → List ℕ
numbers [] n = []
numbers (increments ∷ steps) n = numbers steps (suc n)
numbers (reads ∷ steps) n = n ∷ numbers steps n

module _ {D : Type 0} ⦃redis : Redis D⦄ (count : Text → D → ℕ) (law : IsCounter redis count)
    (now : Text) where
  with_parts-counts :
      (company type_name : Text) (d : D)
      → (d' : D) × (with_parts now (company ∷ type_name ∷ []) d
          ≡ (flow_reply now (suc (count (id_name company type_name) d)), d'))
        × (count (id_name company type_name) d' ≡ suc (count (id_name company type_name) d))
  with_parts-counts company type_name d =
      let (d', run, more) = law.incr (id_name company type_name) d in
      let now_there = law.get (id_name company type_name) d' in
      (d', rw (run, now_there, more) refl, more)

  -- A request for a flow number that no other one comes between answers 200 with the number after the
  -- counter's, and leaves the counter there.
  pub deal_with_flow_number-counts :
      (range company type_name : Text) (d : D)
      → IsPart company
      → IsPart type_name
      → (d' : D) × (deal_with_flow_number now range (flow_path company type_name) d
          ≡ (flow_reply now (suc (count (id_name company type_name) d)), d'))
        × (count (id_name company type_name) d' ≡ suc (count (id_name company type_name) d))
  unfolding deal_with_flow_number
  deal_with_flow_number-counts range company type_name d h k =
      let fits : ltb (length (flow_path company type_name)) (length (lit "/flowNo/")) ≡ false =
        ground arith in
      let parts : split (company ++ (b'/' ∷ type_name)) ≡ company ∷ type_name ∷ [] =
        split-part company type_name h.bytes
        ∙ ap (λ (t : List Text). company ∷ t) (split-whole type_name k.bytes) in
      let (d', run, more) = with_parts-counts company type_name d in
      (d', rw (fits, parts, deal_with_flow_number) run, more)

module _ {D : Type 0} ⦃redis : Redis D⦄ (now range : Text) where
  -- A path with nothing but one name after /flowNo/ makes the handler read a second part that the
  -- vector does not have, before any command is sent.
  pub deal_with_flow_number-out_of_vector :
      (name : Text) (d : D)
      → IsPart name
      → deal_with_flow_number now range (lit "/flowNo/" ++ name) d ≡ (out_of_vector, d)
  unfolding deal_with_flow_number
  deal_with_flow_number-out_of_vector name d h =
      let fits : ltb (length (lit "/flowNo/" ++ name)) (length (lit "/flowNo/")) ≡ false =
        ground arith in
      rw (fits, split-whole name h.bytes, deal_with_flow_number) refl
