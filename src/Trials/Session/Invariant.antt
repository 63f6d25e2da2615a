-- ===== src/Trials/Session/Invariant.antt =====
-- What every reachable state of a `session` (src/test/test1.hpp) satisfies.
use asio_coro_frame.Base.{ℕ, ◌≤◌, ◌≡◌, refl, ◌⊎◌, Bool, true, false, arith}
use asio_coro_frame.Trials.Session.Documented.{documented, aborted, cancelled}
use asio_coro_frame.Trials.Session.{
  Reader, reading, writing, failed, Watcher, waiting, woken, Session, close, cancel, start_round,
  resume_reader, close_expired, resume_watcher, go, Own, tick, expire, run_reader, run_watcher, Net,
  arrive, written, fail_read, fail_write, Step, own, net, Reach, here, next,
}

-- An operation under way needs an open socket, and a coroutine that has returned a closed one.
abbrev pub ReaderFits : Bool → Reader → Type 0
ReaderFits is_open reading = is_open ≡ true
ReaderFits is_open (writing bytes) = is_open ≡ true
ReaderFits is_open Reader.returned = is_open ≡ false
ReaderFits is_open _ = Unit

abbrev pub WatcherFits : Bool → Watcher → Type 0
WatcherFits is_open waiting = is_open ≡ true
WatcherFits is_open woken = Unit
WatcherFits is_open Watcher.returned = is_open ≡ false

abbrev pub IsValid : Session → Type 0
IsValid s = ReaderFits s.is_open s.reader × WatcherFits s.is_open s.watcher

ReaderFits-aborted :
    (is_open : Bool) (r : Reader) → ReaderFits is_open r → ReaderFits false (aborted r)
ReaderFits-aborted is_open r f = ground arith

WatcherFits-cancelled :
    (is_open : Bool) (w : Watcher) → WatcherFits is_open w → WatcherFits is_open (cancelled w)
WatcherFits-cancelled is_open w f = ground arith

WatcherFits-closed :
    (is_open : Bool) (w : Watcher) → WatcherFits is_open w → WatcherFits false (cancelled w)
WatcherFits-closed is_open w f = ground arith

resume_reader-IsValid : (s : Session) → IsValid s → IsValid (resume_reader documented s)
unfolding resume_reader start_round close cancel
resume_reader-IsValid s v = ground arith

resume_watcher-IsValid : (s : Session) → IsValid s → IsValid (resume_watcher documented s)
unfolding resume_watcher close_expired close
resume_watcher-IsValid s v = ground arith

Own-IsValid : {s t : Session} → Own documented s t → IsValid s → IsValid t
Own-IsValid {s} (tick n) v = v
Own-IsValid {s} (expire e late) v = (v.0, tt)
Own-IsValid {s} run_reader v = resume_reader-IsValid s v
Own-IsValid {s} run_watcher v = resume_watcher-IsValid s v

Net-IsValid : {s t : Session} → Net s t → IsValid s → IsValid t
Net-IsValid (arrive bytes e some_bytes fits) v = (tt, v.1)
Net-IsValid (written bytes e) v = (tt, v.1)
Net-IsValid (fail_read e) v = (tt, v.1)
Net-IsValid (fail_write n bytes e) v = (tt, v.1)

pub Reach-IsValid : (now : ℕ) {s : Session} → Reach documented (go now) s → IsValid s
unfolding go
Reach-IsValid now here = (refl, refl)
Reach-IsValid now (next r (own st)) = Own-IsValid st (Reach-IsValid now r)
Reach-IsValid now (next r (net st)) = Net-IsValid st (Reach-IsValid now r)

-- Only a failed operation or an expired timer closes the socket.
pub closed-reason :
    (s t : Session)
    → Step documented s t
    → s.is_open ≡ true
    → t.is_open ≡ false
    → (s.reader ≡ failed) ⊎ (s.deadline ≤ s.now)
unfolding resume_reader start_round close cancel resume_watcher close_expired
closed-reason s t (own (tick n)) before after = ground arith
closed-reason s t (own (expire w late)) before after = ground arith
closed-reason s t (own run_reader) before after = ground arith
closed-reason s t (own run_watcher) before after = ground arith
closed-reason s t (net (arrive bytes e some_bytes fits)) before after = ground arith
closed-reason s t (net (written bytes e)) before after = ground arith
closed-reason s t (net (fail_read e)) before after = ground arith
closed-reason s t (net (fail_write n bytes e)) before after = ground arith
