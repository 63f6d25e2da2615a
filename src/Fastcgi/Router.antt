-- ===== src/Fastcgi/Router.antt =====
-- The loop of router::run and main of src/fastcgi/main.cpp, over the results of FCGX_Accept_r.
pub mod Stops
use asio_coro_frame.Base.{◌≡◌, List, [], ◌∷◌, ◌++◌, Option, none, some}
use asio_coro_frame.Fastcgi.{Request, Exchange, World, serve}

-- Where the program is when the accepts have been dealt with, with what it has answered: it waits
-- in FCGX_Accept_r, it has printed the message of an exception and ended, or it has read past a
-- request's content.
pub data Running : Type 0 where
  accepting : List Exchange → Running
  message : List Exchange → Running
  past_content : List Exchange → Running

module _ ⦃world : World⦄ where
  -- router::run on the results of FCGX_Accept_r, where `none` is a negative one. A std::string of a
  -- null REQUEST_URI throws.
  unfoldable pub router_run : List (Option Request) → List Exchange → Running
  unfolding serve
  router_run [] answers = accepting answers
  router_run (none ∷ accepts) answers = router_run accepts answers
  router_run (some request ∷ accepts) answers = elim request.uri [
    | none ↦ message answers
    | some uri ↦ elim (serve request) [
      | none ↦ past_content answers
      | some x ↦ router_run accepts (answers ++ x ∷ [])
    ]
  ]

  -- main
  unfoldable pub fastcgi_main : List (Option Request) → Running
  unfolding router_run
  fastcgi_main accepts = router_run accepts []

  -- The accepts that are answered, with the answers in order.
  pub data Answered : List (Option Request) → List Exchange → Type 0 where
    no_accept : Answered [] []
    refused :
        {accepts : List (Option Request)} {answers : List Exchange}
        → Answered accepts answers
        → Answered (none ∷ accepts) answers
    answered :
        {accepts : List (Option Request)} {answers : List Exchange} {x : Exchange}
        (request : Request)
        → serve request ≡ some x
        → Answered accepts answers
        → Answered (some request ∷ accepts) (x ∷ answers)
