-- ===== src/Http/Flow.antt =====
-- deal_with_flow_number and the choice of the handler, src/serverResource.hpp.
pub mod Counter
use asio_coro_frame.Base.{
  ℕ, zero, suc, ◌+◌, ◌-◌, Bool, true, false, List, [], ◌∷◌, ◌++◌, Option, none, some, Text, lit,
  leb, ltb, ◌==◌, if◌then◌else◌, take, drop, length, starts_with,
}
use asio_coro_frame.Http.Files.{Output, reply, serve_file}

-- What a command of HiredisCommand comes to: a thrown std::exception with its what(), another
-- exception, or a reply with its `str`, which may be null.
pub data Answer : Type 0 where
  thrown : Text → Answer
  thrown_other : Answer
  replied : Option Text → Answer

-- The redis cluster behind the pool: a command with its key, on the cluster's state.
pub record Redis (D : Type 0) : Type 0 where
  pub command : Text → Text → D → Answer × D

-- How a request ends: with what it wrote, or with an access outside the vector of its parts.
pub data Handled : Type 0 where
  written : List Output → Handled
  out_of_vector : Handled

abbrev more : ℕ → List Text → List Text
more c [] = (c ∷ []) ∷ []
more c (s ∷ ss) = (c ∷ s) ∷ ss

-- boost::split(parts,s,boost::is_any_of("/"))
unfoldable pub split : Text → List Text
split [] = [] ∷ []
split (c ∷ s) = let rest = split s in if c == b'/' then [] ∷ rest else more c rest

unfoldable pub id_name : Text → Text → Text
unfolding lit
id_name company type_name =
    lit "{" ++ (company ++ (lit "_" ++ (type_name ++ (lit "_" ++ lit "flow_number}:id"))))

unfoldable pub flow_json : Text → Text → Text
unfolding lit
flow_json value now =
    lit "{\"flowNo\":\"" ++ (value ++ (lit "\",\"replyTime\" : \"" ++ (now ++ lit "\"}")))

abbrev pub bad_request : Text → List Output
bad_request content = reply (lit "400 Bad Request") content

abbrev pub text_of : Option Text → Text
text_of none = []
text_of (some s) = s

-- what a request does with the counter, in this order
pub data Step : Type 0 where
  increments reads : Step

module _ {D : Type 0} ⦃redis : Redis D⦄ (now : Text) where
  -- the answer to `get`, and the catch clauses
  abbrev pub answer_get : Answer × D → Handled × D
  answer_get (thrown what, d) = (written (bad_request what), d)
  answer_get (thrown_other, d) = (written (bad_request (lit "unknown error")), d)
  answer_get (replied s, d) = (written (reply (lit "200 OK") (flow_json (text_of s) now)), d)

  -- the answer to `incr`, which only counts when it throws
  abbrev pub answer_incr : Text → Answer × D → Handled × D
  answer_incr name (thrown what, d) = (written (bad_request what), d)
  answer_incr name (thrown_other, d) = (written (bad_request (lit "unknown error")), d)
  answer_incr name (replied s, d) = answer_get (redis.command name (lit "get " ++ name) d)

  -- Requests for one number that the server's threads handle at once: each of them increments and then
  -- reads, and the others' steps may come between.
  unfoldable pub run_steps : Text → List Step → D → List Handled
  run_steps name [] d = []
  run_steps name (increments ∷ steps) d =
      run_steps name steps (redis.command name (lit "incr " ++ name) d).1
  run_steps name (reads ∷ steps) d =
      let (handled, d') = answer_get (redis.command name (lit "get " ++ name) d) in
      handled ∷ run_steps name steps d'

  -- one_pair[0] and one_pair[1]
  abbrev pub with_parts : List Text → D → Handled × D
  with_parts [] d = (out_of_vector, d)
  with_parts (company ∷ []) d = (out_of_vector, d)
  with_parts (company ∷ type_name ∷ _) d =
      answer_incr (id_name company type_name)
        (redis.command (id_name company type_name) (lit "incr " ++ id_name company type_name) d)

  -- `range` is the what() of std::out_of_range, which substr throws on a short path.
  unfoldable pub deal_with_flow_number : Text → Text → D → Handled × D
  unfolding split id_name flow_json reply lit
  deal_with_flow_number range path d =
      if ltb (length path) (length (lit "/flowNo/"))
      then (written (bad_request range), d)
      else with_parts (split (drop (length (lit "/flowNo/")) path)) d

  abbrev pub filed : Option (List Output) → D → Option (Handled × D)
  filed none d = none
  filed (some outputs) d = some (written outputs, d)

  -- server.default_resource["GET"]; `none` means that the fuel of a loop ran out
  unfoldable pub default_get : Text → (Text → Option Text) → Text → D → Option (Handled × D)
  unfolding deal_with_flow_number serve_file starts_with
  default_get range disk path d =
      if starts_with path (lit "/flowNo/")
      then some (deal_with_flow_number range path d)
      else filed (serve_file disk path) d
