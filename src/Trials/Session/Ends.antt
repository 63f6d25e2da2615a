-- ===== src/Trials/Session/Ends.antt =====
-- A `session` (src/test/test1.hpp) comes to an end with no help from its peer.
use asio_coro_frame.Base.{ℕ, ◌+◌, ◌-◌, ◌≤◌, ◌≡◌, refl, Bool, false, arith}
use mathlib.Core.Path.{subst}
use asio_coro_frame.Trials.Session.Documented.{
  documented, IsDocumented, to_documented, own_from_documented,
}
use asio_coro_frame.Trials.Session.{
  Asio, Reader, failed, Watcher, waiting, woken, Session, timeout, close, cancel, start_round,
  resume_reader, close_expired, resume_watcher, go, tick, expire, run_reader, run_watcher, arrive,
  written, fail_read, fail_write, Step, own, net, Reach, here, next, OwnReach, rest, more,
}
use asio_coro_frame.Trials.Session.Invariant.{ReaderFits, WatcherFits, IsValid, Reach-IsValid}

abbrev IsTimely : Session → Type 0
IsTimely s = s.deadline ≤ s.now + timeout

resume_reader-IsTimely : (s : Session) → IsTimely s → IsTimely (resume_reader documented s)
unfolding resume_reader start_round close cancel
resume_reader-IsTimely s h = ground arith

resume_watcher-IsTimely : (s : Session) → IsTimely s → IsTimely (resume_watcher documented s)
unfolding resume_watcher close_expired close
resume_watcher-IsTimely s h = ground arith

Step-IsTimely : {s t : Session} → Step documented s t → IsTimely s → IsTimely t
Step-IsTimely {s} (own (tick n)) h = omega arith
Step-IsTimely {s} (own (expire w late)) h = h
Step-IsTimely {s} (own run_reader) h = resume_reader-IsTimely s h
Step-IsTimely {s} (own run_watcher) h = resume_watcher-IsTimely s h
Step-IsTimely {s} (net (arrive bytes e some_bytes fits)) h = h
Step-IsTimely {s} (net (written bytes e)) h = h
Step-IsTimely {s} (net (fail_read e)) h = h
Step-IsTimely {s} (net (fail_write n bytes e)) h = h

Reach-IsTimely : (now : ℕ) {s : Session} → Reach documented (go now) s → IsTimely s
unfolding go
Reach-IsTimely now here = omega arith
Reach-IsTimely now (next r st) = Step-IsTimely st (Reach-IsTimely now r)

-- The state when the timer has run out and the watcher waits at `at`.
abbrev late : Session → Watcher → Session
late s at = record s { now = s.now + (s.deadline - s.now); watcher = at }

abbrev roused : Watcher → Watcher
roused waiting = woken
roused w = w

WatcherFits-roused : (b : Bool) (w : Watcher) → WatcherFits b w → WatcherFits b (roused w)
WatcherFits-roused b w f = ground arith

roused_ne_waiting : (w : Watcher) → ¬ (roused w ≡ waiting)
roused_ne_waiting w e = ground arith

late-OwnReach :
    (s : Session) (w : Watcher) → s.watcher ≡ w → OwnReach documented s (late s (roused w))
late-OwnReach s waiting e = more (more rest (tick (s.deadline - s.now))) (expire e (omega arith))
late-OwnReach s woken e =
    subst (λ w. OwnReach documented s (late s w)) e (more rest (tick (s.deadline - s.now)))
late-OwnReach s Watcher.returned e =
    subst (λ w. OwnReach documented s (late s w)) e (more rest (tick (s.deadline - s.now)))

-- Then the watcher runs once and the reader twice.
finish : Session → Session
finish s =
    resume_reader documented
      (resume_reader documented (resume_watcher documented (late s (roused s.watcher))))

finish-OwnReach : (s : Session) → OwnReach documented s (finish s)
unfolding finish
finish-OwnReach s =
    more (more (more (late-OwnReach s s.watcher refl) run_watcher) run_reader) run_reader

late_watcher-closed :
    (s : Session)
    → IsValid s
    → s.deadline ≤ s.now
    → ¬ (s.watcher ≡ waiting)
    → let t = resume_watcher documented s in
      (t.is_open ≡ false)
      × (t.watcher ≡ Watcher.returned)
      × (t.now ≡ s.now)
      × ReaderFits false t.reader
unfolding resume_watcher close_expired close
late_watcher-closed s v over awake = ground arith

-- With the socket closed the reader fails at its next operation, and returns.
abbrev IsFailing : Reader → Type 0
IsFailing failed = Unit
IsFailing Reader.returned = Unit
IsFailing _ = ⊥

reader-fails :
    (s : Session)
    → s.is_open ≡ false
    → s.watcher ≡ Watcher.returned
    → ReaderFits false s.reader
    → let t = resume_reader documented s in
      (t.is_open ≡ false) × (t.watcher ≡ Watcher.returned) × IsFailing t.reader × (t.now ≡ s.now)
unfolding resume_reader start_round close cancel
reader-fails s closed watched fits = ground arith

failing-returns :
    (s : Session)
    → s.is_open ≡ false
    → s.watcher ≡ Watcher.returned
    → IsFailing s.reader
    → let t = resume_reader documented s in
      (t.is_open ≡ false)
      × (t.watcher ≡ Watcher.returned)
      × (t.reader ≡ Reader.returned)
      × (t.now ≡ s.now)
unfolding resume_reader start_round close cancel
failing-returns s closed watched fails = ground arith

-- No session is kept for ever, where Boost.Asio does what its documentation says: from every state
-- that a session reaches there are steps, all of them its own or the clock's and none of the peer's,
-- after which the socket is closed and both coroutines have returned, at most ten seconds later.
pub session-ends :
    (asio : Asio) (now : ℕ) (s : Session)
    → IsDocumented asio
    → Reach asio (go now) s
    → (t : Session) × OwnReach asio s t
      × (t.is_open ≡ false)
      × (t.reader ≡ Reader.returned)
      × (t.watcher ≡ Watcher.returned)
      × (t.now ≤ s.now + timeout)
unfolding finish
session-ends asio now s law r =
    let r' = to_documented asio law (go now) s r in
    let valid = Reach-IsValid now r' in
    let ready = late s (roused s.watcher) in
    let after = resume_watcher documented ready in
    let (shut, gone, same, fits) =
      late_watcher-closed ready (valid.0, WatcherFits-roused s.is_open s.watcher valid.1)
        (omega arith) (roused_ne_waiting s.watcher) in
    let (shut', gone', fails, same') = reader-fails after shut gone fits in
    let (shut'', gone'', done, same'') =
      failing-returns (resume_reader documented after) shut' gone' fails in
    (
      finish s,
      own_from_documented asio law s (finish s) (finish-OwnReach s),
      shut'',
      done,
      gone'',
      omega (arith, same, same', same'', Reach-IsTimely now r'),
    )
