-- ===== src/Fastcgi/Router/Stops.antt =====
-- Up to which request the program of src/fastcgi answers.
use asio_coro_frame.Base.{
  ◌≡◌, refl, ◌∙◌, ap, sym, ◌⊎◌, inl, inr, List, [], ◌∷◌, ◌++◌, Option, none, some, Text,
  Option-cases, append_assoc, append-nil,
}
use asio_coro_frame.Fastcgi.{Request, Exchange, World, serve}
use asio_coro_frame.Fastcgi.Router.{
  Running, accepting, message, past_content, router_run, fastcgi_main, Answered, no_accept, refused,
  answered,
}

module _ ⦃world : World⦄ where
  -- The request at which the loop stops, and how.
  abbrev pub Stop : Request → List Exchange → Running → Type 0
  Stop request answers end =
      ((request.uri ≡ none) × (end ≡ message answers))
      ⊎ ((uri : Text) × (request.uri ≡ some uri)
          × (serve request ≡ none)
          × (end ≡ past_content answers))

  abbrev pub Course : List (Option Request) → List Exchange → Running → Type 0
  Course accepts before end =
      (answers : List Exchange) × ((Answered accepts answers
          × (end ≡ accepting (before ++ answers)))
        ⊎ ((served : List (Option Request)) × (request : Request) × (rest : List (Option Request))
            × (accepts ≡ served ++ some request ∷ rest)
            × Answered served answers
            × Stop request (before ++ answers) end))

  Course-none :
      (accepts : List (Option Request)) (before : List Exchange) (end : Running)
      → Course accepts before end
      → Course (none ∷ accepts) before end
  Course-none accepts before end (answers, inl (all, e)) = (answers, inl (refused all, e))
  Course-none accepts before end (answers, inr (served, request, rest, split, done, stop)) =
      (answers, inr (none ∷ served, request, rest, ap (λ xs. none ∷ xs) split, refused done, stop))

  Course-some :
      (request : Request) (x : Exchange) (accepts : List (Option Request)) (before : List Exchange)
      (end : Running)
      → serve request ≡ some x
      → Course accepts (before ++ x ∷ []) end
      → Course (some request ∷ accepts) before end
  Course-some request x accepts before end s (answers, inl (all, e)) = (
    x ∷ answers,
    inl (answered request s all, e ∙ ap accepting (append_assoc before (x ∷ []) answers)),
  )
  Course-some r x accepts before end s (answers, inr (served, request, rest, split, done, stop)) = (
    x ∷ answers,
    inr (
      some r ∷ served,
      request,
      rest,
      ap (λ xs. some r ∷ xs) split,
      answered r s done,
      rw (← append_assoc before (x ∷ []) answers) stop,
    ),
  )

  stopped :
      (request : Request) (rest : List (Option Request)) (before : List Exchange) (end : Running)
      → Stop request before end
      → Course (some request ∷ rest) before end
  stopped request rest before end stop =
      ([], inr ([], request, rest, refl, no_accept, rw (append-nil before) stop))

  router_run-answered :
      (request : Request) (uri : Text) (x : Exchange) (accepts : List (Option Request))
      (before : List Exchange)
      → request.uri ≡ some uri
      → serve request ≡ some x
      → router_run (some request ∷ accepts) before ≡ router_run accepts (before ++ x ∷ [])
  unfolding router_run
  router_run-answered request uri x accepts before there served = rw (there, served) refl

  router_run-course :
      (accepts : List (Option Request)) (before : List Exchange)
      → Course accepts before (router_run accepts before)
  unfolding router_run
  router_run-course [] before = ([], inl (no_accept, ap accepting (sym (append-nil before))))
  router_run-course (none ∷ accepts) before =
      Course-none accepts before _ (router_run-course accepts before)
  router_run-course (some request ∷ accepts) before = elim (Option-cases request.uri) [
    | inl null ↦ stopped request accepts before _ (inl (null, rw null refl))
    | inr (uri, there) ↦ elim (Option-cases (serve request)) [
      | inl past ↦ stopped request accepts before _ (inr (uri, there, past, rw (there, past) refl))
      | inr (x, served) ↦ rw (router_run-answered request uri x accepts before there served) (
          Course-some request x accepts before _ served
            (router_run-course accepts (before ++ x ∷ [])))
    ]
  ]

  -- The FastCGI program answers the accepted requests in order, each as `serve` does. It goes on to
  -- accept as long as all are answered. At the first request without a REQUEST_URI it ends with the
  -- message of the exception, and at the first one for which pdf_api reads past the content its
  -- behaviour is undefined; no later request is answered in either case.
  pub fastcgi_main-course :
      (accepts : List (Option Request)) → Course accepts [] (fastcgi_main accepts)
  unfolding fastcgi_main
  fastcgi_main-course accepts = router_run-course accepts []
