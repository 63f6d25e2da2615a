-- ===== src/Trials/Tests.antt =====
-- Concrete runs of the programs of src/test.
use asio_coro_frame.Base.{
  List, ◌+◌, ◌*◌, ◌≤◌, ◌≡◌, refl, ◌⊎◌, true, false, [], ◌∷◌, ◌++◌, none, some, length, arith,
}
use asio_coro_frame.Trials.Session.Documented.{documented, documented-IsDocumented}
use asio_coro_frame.Trials.Session.{
  Bytes, Session, Reader, writing, Watcher, timeout, buffer_size, go, resume_reader, run_reader,
  arrive, own, net, Reach, here, next, OwnReach,
}
use asio_coro_frame.Trials.Server.{accepted, ServerReach, started, later, accept, turn, server-echo}
use asio_coro_frame.Trials.Session.Ends.{session-ends}
use asio_coro_frame.Trials.Client.{request, client, shown, client-echo}
use asio_coro_frame.Trials.Task.{number, break, resume, calls, task, numbers, pairs, calls-task}
use asio_coro_frame.Trials.Strand.{
  async_read_some, do_accept, rounds, echoed, do_accept-rounds, gone,
}

-- Two bytes have been read, and the write is under way.
abbrev mid_write : (s : Session) × Reach documented (go 0) s
unfolding go resume_reader
mid_write = (
  _,
  next (next here (net (arrive (104 ∷ 105 ∷ []) refl (omega arith) (omega arith))))
      (own run_reader),
)

mid_write-reader : mid_write.0.reader ≡ writing (104 ∷ 105 ∷ [])
unfolding go resume_reader
mid_write-reader = refl

-- A server with two sessions, where the first one has read two bytes.
abbrev two_sessions : (sessions : List Session) × ServerReach documented sessions
unfolding go resume_reader accepted
two_sessions = (
  _,
  later
      (later
        (later (later started (accept false 0))
          (turn 0 refl (net (arrive (104 ∷ 105 ∷ []) refl (omega arith) (omega arith)))))
        (accept false 3))
      (turn 0 refl (own run_reader)),
)

server-echo_example :
    (unsent : Bytes) × (mid_write.0.received ≡ mid_write.0.sent ++ unsent)
    × (length unsent ≤ buffer_size)
unfolding go resume_reader accepted
server-echo_example =
    server-echo documented two_sessions.0 0 mid_write.0 documented-IsDocumented two_sessions.1 refl

session-ends_example :
    (t : Session) × OwnReach documented mid_write.0 t
    × (t.is_open ≡ false)
    × (t.reader ≡ Reader.returned)
    × (t.watcher ≡ Watcher.returned)
    × (t.now ≤ mid_write.0.now + timeout)
session-ends_example = session-ends documented 0 mid_write.0 documented-IsDocumented mid_write.1

request_long : request (104 ∷ 105 ∷ 0 ∷ 106 ∷ []) ≡ 104 ∷ 105 ∷ []
unfolding request
request_long = refl

client_gets_nothing :
    (client (104 ∷ 105 ∷ []) mid_write.0.sent ≡ none)
    ⊎ (client (104 ∷ 105 ∷ []) mid_write.0.sent ≡ some (shown (request (104 ∷ 105 ∷ []))))
unfolding go resume_reader request
client_gets_nothing =
    client-echo documented (104 ∷ 105 ∷ []) 0 mid_write.0 documented-IsDocumented mid_write.1 refl

nine_to_break : calls 5 (task 9) ≡ number 9 ∷ number 10 ∷ break ∷ []
unfolding calls resume
nine_to_break = refl

calls-task_example : calls (2 * pairs 0 + 1 + 7) (task 0) ≡ numbers 0 (2 * pairs 0) ++ break ∷ []
calls-task_example = calls-task 0 7

two_failed_rounds : do_accept true false (rounds (gone 2)) ≡ async_read_some ∷ echoed (gone 2)
two_failed_rounds = do_accept-rounds (gone 2)
