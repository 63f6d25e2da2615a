-- ===== src/Http/Tests.antt =====
-- Concrete requests to the handler of src/serverResource.hpp.
use asio_coro_frame.Base.{
  ℕ, suc, ◌≡◌, ◌≢◌, refl, true, List, [], ◌∷◌, ◌++◌, none, some, Text, lit, arith, if◌then◌else◌,
  starts_with, length, All, text_eq, Option,
}
use asio_coro_frame.Http.Strings.{decimal, number, search}
use asio_coro_frame.Http.Files.{
  Output, write, header, dots, filename_of, send_file, send_body, buffer_size,
}
use asio_coro_frame.Http.Files.Inside.{filename_of-inside}
use asio_coro_frame.Http.Files.Body.{bytes, IsUpTo, send_file-bytes, send_body-bytes}
use asio_coro_frame.Http.Flow.{
  Step, increments, reads, Redis, replied, deal_with_flow_number, out_of_vector,
}
use asio_coro_frame.Http.Flow.Counter.{IsPart, deal_with_flow_number-out_of_vector}
use asio_coro_frame.Http.Replace.{replace_all, replace_all_distinct}
use asio_coro_frame.Http.Replace.Ends.{replace_all-forever, replace_all-ends}

filename_example : filename_of (lit "/../../a.txt") ≡ some (lit "web/././a.txt")
unfolding filename_of lit search starts_with
filename_example = refl

index_example : filename_of (lit "/docs") ≡ some (lit "web/docs/index.html")
unfolding filename_of lit search starts_with
index_example = refl

docs_inside :
    (f : Text) × (filename_of (b'/' ∷ lit "../../a.txt") ≡ some f)
    × (starts_with f (lit "web/") ≡ true)
    × ((before after : Text) → f ≢ before ++ (dots ++ after))
docs_inside = filename_of-inside (lit "../../a.txt")

hello_body :
    (outputs : List Output) × (send_body (lit "hello") ≡ some outputs)
    × (bytes outputs ≡ lit "hello")
    × All (IsUpTo buffer_size) outputs
hello_body = send_body-bytes (lit "hello")

hello_file :
    (outputs : List Output) × (send_file (lit "web/a.txt") (some (lit "hello"))
      ≡ some (write (header (lit "200 OK") (length (lit "hello"))) ∷ outputs))
    × (bytes outputs ≡ lit "hello")
    × (number (decimal (length (bytes outputs))) 0 ≡ length (lit "hello"))
hello_file = send_file-bytes (lit "web/a.txt") (some (lit "hello"))

-- one counter
instance counter : Redis ℕ
unfolding starts_with lit
counter = record {
  command = λ name text n.
      if starts_with text (lit "incr ")
      then (replied none, suc n)
      else (replied (some (decimal n)), n);
}

abbrev value : Text → ℕ → ℕ
value name n = n

company-IsPart : IsPart (lit "acme")
unfolding lit
company-IsPart = record { bytes = ground arith }

abbrev interleaved : List Step
interleaved = increments ∷ increments ∷ reads ∷ reads ∷ []

one_name_only :
    deal_with_flow_number {D = ℕ} (lit "now") (lit "range") (lit "/flowNo/" ++ lit "acme") 6
    ≡ (out_of_vector, 6)
one_name_only =
    deal_with_flow_number-out_of_vector (lit "now") (lit "range") (lit "acme") 6 company-IsPart

distinct_example : replace_all_distinct 9 (lit "aa") (lit "a") (lit "aaaaa") ≡ some (lit "aaa")
unfolding replace_all_distinct lit search starts_with
distinct_example = refl

replace_all-forever_example :
    replace_all 9 (lit "a") (lit "b" ++ (lit "a" ++ lit "c")) (lit "x" ++ (lit "a" ++ lit "y"))
    ≡ none
replace_all-forever_example =
    replace_all-forever 9 (lit "a") (lit "b") (lit "c") (lit "x") (lit "y")

replace_all-ends_example :
    (t : Text) × (replace_all 9 (lit "aa") (lit "a") (lit "aaaaa") ≡ some t)
    × (search (lit "aa") t ≡ none)
unfolding lit
replace_all-ends_example =
    replace_all-ends 9 (lit "aa") (lit "a") (lit "aaaaa") (omega arith) (omega arith)

-- A disk with one file.
abbrev one_file : Text → Option Text
one_file name = if text_eq name (lit "web/a.txt") then some (lit "hello") else none
