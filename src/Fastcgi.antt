-- ===== src/Fastcgi.antt =====
-- The FastCGI program, src/fastcgi: one round of router::run with redis_api and pdf_api. The FCGI
-- library, the JSON parser and `system` are parameters.
pub mod Replies
pub mod Router
mod Tests
use asio_coro_frame.Base.{
  ℕ, zero, suc, ◌+◌, ◌*◌, ◌%◌, ◌≡◌, Bool, true, false, List, [], ◌∷◌, ◌++◌, Option, none, some,
  Text, lit, text_eq, ◌==◌, leb, if◌then◌else◌, take, length,
}
use asio_coro_frame.Base.Numbers.{ℤ, pos, negsuc}

-- A request that FCGX_Accept_r gives: its parameters, which may be null, and its input.
pub record Request : Type 0 where
  pub uri : Option Text
  pub content_length : Option Text
  pub input : Text

-- What is left of a request: what was put, and how often FCGX_Finish_r was called on it.
pub record Exchange : Type 0 where
  pub out : List Text
  pub finished : ℕ

-- How reading the content ends: with a text, by an exception, or with a read past the bytes that
-- FCGX_GetStr wrote, to the uninitialised rest of the buffer or beyond its end.
pub data Content : Type 0 where
  got : Text → Content
  thrown : Content
  over_read : Content

-- m_content=content_buffer.get(): up to the first NUL of the bytes that were read; the rest of the
-- buffer is not initialised.
unfoldable pub c_string : Text → Content
c_string [] = over_read
c_string (c ∷ s) =
    let rest = c_string s in
    if c == 0
    then got []
    else elim rest [ got t ↦ got (c ∷ t) | thrown ↦ thrown | over_read ↦ over_read ]

-- What the code relies on: lexical_cast<int>, the JSON parser with the conversions of src and dst,
-- and `system`.
pub record World : Type 0 where
  pub to_int : Text → Option ℤ
  pub parse : Text → Option (Text × Text)
  pub system : Text → ℤ

-- WIFEXITED: the low seven bits are 0, also of a negative status in two's complement
abbrev pub wifexited : ℤ → Bool
wifexited (pos n) = n % 128 == 0
wifexited (negsuc n) = (n + 1) % 128 == 0

abbrev pub command : Text → Text → Text
command src dst = lit "/usr/local/wkhtmltox/bin/wkhtmltopdf " ++ (src ++ (lit " " ++ dst))

-- `new char[content_length]` throws on a negative length; FCGX_GetStr reads that many bytes at most.
abbrev pub read_content : Text → ℤ → Content
read_content input (pos n) = c_string (take n input)
read_content input (negsuc n) = thrown

module _ ⦃world : World⦄ where
  abbrev pub converted_length : Option ℤ → Text → Content
  converted_length none input = thrown
  converted_length (some n) input = read_content input n

  -- A std::string of a null pointer throws std::logic_error, in libstdc++.
  unfoldable pub get_request_content : Request → Content
  unfolding c_string
  get_request_content request = elim request.content_length [
    | none ↦ thrown
    | some [] ↦ read_content request.input (pos 0)
    | some (c ∷ s) ↦ converted_length (world.to_int (c ∷ s)) request.input
  ]

  -- pdf_impl::convert
  unfoldable pub convert : Text → Text → Bool
  convert src dst = wifexited (world.system (command src dst))

  -- do_convert: m_response
  unfoldable pub do_convert : Text → Text → Text
  unfolding convert lit
  do_convert src dst = if convert src dst then lit "ok" else lit "failed"

  abbrev pub parsed : Option (Text × Text) → Text
  parsed none = lit "failed"
  parsed (some (src, dst)) = do_convert src dst

  -- the try block and its handler; `none` is the read past the content
  unfoldable pub pdf_response : Request → Option Text
  unfolding get_request_content do_convert lit
  pdf_response request = elim (get_request_content request) [
    | got content ↦ some (parsed (world.parse content))
    | thrown ↦ some (lit "failed")
    | over_read ↦ none
  ]

  -- FCGX_PutStr and FCGX_Finish_r
  abbrev pub put_str : Text → Exchange → Exchange
  put_str s x = record x { out = x.out ++ s ∷ [] }

  abbrev pub finish : Exchange → Exchange
  finish x = record x { finished = x.finished + 1 }

  -- pdf_api::run
  unfoldable pub pdf_run : Request → Exchange → Option Exchange
  unfolding pdf_response
  pdf_run request x = elim (pdf_response request) [
    | none ↦ none
    | some response ↦ some (finish (put_str response x))
  ]

  -- redis_api::run with do_redis_read
  unfoldable pub redis_run : Exchange → Exchange
  unfolding lit
  redis_run x = finish (put_str (lit "redis_api") x)

  abbrev pub fcgi_header : Text
  fcgi_header =
      lit "Content-Type: application/xml; charset=UTF-8"
      ++ (13 ∷ 10 ∷ (lit "Content-Encoding: gzip" ++ (13 ∷ 10 ∷ 13 ∷ 10 ∷ [])))

  abbrev pub then_finish : Option Exchange → Option Exchange
  then_finish none = none
  then_finish (some x) = some (finish x)

  -- the comparison of the uri
  unfoldable pub dispatch : Text → Request → Exchange → Option Exchange
  unfolding pdf_run redis_run lit
  dispatch uri request x =
      if text_eq uri (lit "/redis")
      then some (redis_run x)
      else if text_eq uri (lit "/pdf")
      then pdf_run request x
      else some (put_str (lit "other fake") x)

  -- One round of router::run on an accepted request. A null REQUEST_URI throws out of run.
  unfoldable pub serve : Request → Option Exchange
  unfolding dispatch lit
  serve request = elim request.uri [
    | none ↦ none
    | some uri ↦
        then_finish (dispatch uri request (record { out = fcgi_header ∷ []; finished = 0 }))
  ]
