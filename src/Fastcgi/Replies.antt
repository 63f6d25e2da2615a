-- ===== src/Fastcgi/Replies.antt =====
-- What src/fastcgi answers.
use asio_coro_frame.Base.{
  ℕ, ◌+◌, ◌*◌, ◌<◌, ◌≡◌, refl, inl, inr, ◌↔◌, true, some, Text, lit, text_eq, arith, if◌then◌else◌,
  Bool-cases, Option-cases, ◌||◌, length,
}
use asio_coro_frame.Base.Numbers.{pos}
use asio_coro_frame.Fastcgi.{
  Request, Exchange, World, wifexited, command, convert, do_convert, pdf_response, pdf_run,
  redis_run, dispatch, serve,
}

same_exchange :
    (y x : Exchange) (n : ℕ)
    → some y ≡ some x
    → y.finished ≡ n
    → length y.out ≡ 2
    → (x.finished ≡ n) × (length x.out ≡ 2)
same_exchange y x n run f o = let same : y ≡ x = cc in rw (← same) (f, o)

module _ ⦃world : World⦄ where
  exited :
      (code signal : ℕ)
      → signal < 128
      → (wifexited (pos (code * 256 + signal)) ≡ true) ↔ (signal ≡ 0)
  exited code signal small = ground arith

  -- Whatever the exit code with which the converter ends, pdf_api answers `ok`, and it answers
  -- something else where a signal ends it.
  pub do_convert-ok :
      (src dst : Text) (code signal : ℕ)
      → world.system (command src dst) ≡ pos (code * 256 + signal)
      → signal < 128
      → (do_convert src dst ≡ lit "ok") ↔ (signal ≡ 0)
  unfolding do_convert convert lit
  do_convert-ok src dst code signal status small =
      let same = exited code signal small in
      elim (Bool-cases (wifexited (pos (code * 256 + signal)))) [
        | inl exit ↦ rw (status, exit, do_convert, convert) (ground arith)
        | inr killed ↦ rw (status, killed, do_convert, convert) (ground arith)
      ]

  -- An accepted request to /redis or /pdf is finished twice, once by its handler and once by the
  -- router, any other one once, and two texts are put for each: the header and the answer.
  pub serve-finished :
      (request : Request) (uri : Text) (x : Exchange)
      → request.uri ≡ some uri
      → serve request ≡ some x
      → (x.finished ≡ (if text_eq uri (lit "/redis") || text_eq uri (lit "/pdf") then 2 else 1))
        × (length x.out ≡ 2)
  unfolding serve dispatch pdf_run redis_run
  serve-finished request uri x there run = elim (Bool-cases (text_eq uri (lit "/redis"))) [
    | inl redis ↦
        rw redis
          (same_exchange _ x 2 (rw (there, redis, serve, dispatch, redis_run) at run) refl refl)
    | inr other ↦ elim (Bool-cases (text_eq uri (lit "/pdf"))) [
      | inl pdf ↦ elim (Option-cases (pdf_response request)) [
        | inl crashed ↦
            ground (arith, rw (there, other, pdf, crashed, serve, dispatch, pdf_run) at run)
        | inr (response, answered) ↦
            rw (other, pdf)
              (same_exchange _ x 2
                (rw (there, other, pdf, answered, serve, dispatch, pdf_run) at run) refl refl)
      ]
      | inr neither ↦
          rw (other, neither)
            (same_exchange _ x 1 (rw (there, other, neither, serve, dispatch) at run) refl refl)
    ]
  ]
