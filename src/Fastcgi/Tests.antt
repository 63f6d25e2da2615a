-- ===== src/Fastcgi/Tests.antt =====
-- Concrete requests to the model of src/fastcgi.
use asio_coro_frame.Base.{
  ◌≡◌, refl, List, Option, [], ◌∷◌, none, some, lit, text_eq, if◌then◌else◌, ◌||◌, length,
}
use asio_coro_frame.Base.Numbers.{pos}
use asio_coro_frame.Fastcgi.{Request, Exchange, World, serve, fcgi_header, dispatch, redis_run}
use asio_coro_frame.Fastcgi.Router.{message, fastcgi_main, router_run}
use asio_coro_frame.Fastcgi.Router.Stops.{Course, fastcgi_main-course}
use asio_coro_frame.Fastcgi.Replies.{serve-finished}

-- The converter ends with exit code 1.
instance failing_converter : World
unfolding lit
failing_converter = record {
  to_int = λ t. some (pos 5);
  parse = λ t. some (lit "a", lit "b");
  system = λ t. pos 256;
}

abbrev five_bytes : Request
five_bytes = record {
  uri = some (lit "/pdf");
  content_length = some (b'5' ∷ []);
  input = b'{' ∷ b'a' ∷ b'b' ∷ b'c' ∷ b'}' ∷ [];
}

abbrev redis_request : Request
redis_request = record { uri = some (lit "/redis"); content_length = none; input = [] }

answered : Exchange
unfolding lit
answered = record { out = fcgi_header ∷ lit "redis_api" ∷ []; finished = 2 }

redis_served : serve redis_request ≡ some answered
unfolding serve answered lit dispatch redis_run
redis_served = refl

serve-finished_example :
    (answered.finished ≡ (
      if text_eq (lit "/redis") (lit "/redis") || text_eq (lit "/redis") (lit "/pdf")
      then 2
      else 1))
    × (length answered.out ≡ 2)
serve-finished_example = serve-finished redis_request (lit "/redis") answered refl redis_served

abbrev nameless : Request
nameless = record { uri = none; content_length = none; input = [] }

-- A refused accept, a request that is answered, one without a uri, and one more.
abbrev four_accepts : List (Option Request)
four_accepts = none ∷ some redis_request ∷ some nameless ∷ some redis_request ∷ []

nameless_ends : fastcgi_main four_accepts ≡ message (answered ∷ [])
unfolding fastcgi_main router_run serve answered lit dispatch redis_run
nameless_ends = refl

fastcgi_main-course_example : Course four_accepts [] (fastcgi_main four_accepts)
fastcgi_main-course_example = fastcgi_main-course four_accepts
