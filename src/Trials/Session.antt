-- ===== src/Trials/Session.antt =====
-- The class `session` of src/test/test1.hpp: two coroutines on one strand, one that echoes what it
-- reads and one that closes the socket when a round takes more than ten seconds. A step is what a
-- coroutine does from one `yield` to the next, or the completion of an asynchronous operation.
pub mod Documented
pub mod Invariant
pub mod Echo
pub mod Ends
use asio_coro_frame.Base.{
  ℕ, ◌+◌, ◌≤◌, ◌<◌, ◌≡◌, Bool, true, false, List, [], ◌++◌, take, length, leb, if◌then◌else◌,
}

abbrev pub Bytes : Type 0
Bytes = List ℕ

-- Where the first coroutine stands: before the completion of an operation, or with the completion
-- waiting for the strand.
pub data Reader : Type 0 where
  reading : Reader
  has_read : Bytes → Reader
  writing : Bytes → Reader
  has_written : Reader
  failed : Reader
  returned : Reader

-- Where the second coroutine stands, likewise.
pub data Watcher : Type 0 where
  waiting woken returned : Watcher

pub record Session : Type 0 where
  pub is_open : Bool
  pub now : ℕ
  pub deadline : ℕ
  pub reader : Reader
  pub watcher : Watcher
  pub received : Bytes
  pub sent : Bytes

-- size of `data`
abbrev pub buffer_size : ℕ
buffer_size = 128

-- seconds
abbrev pub timeout : ℕ
timeout = 10

abbrev pub again : Bool → Watcher
again true = waiting
again false = Watcher.returned

-- `go`, up to the first `yield` of each coroutine
unfoldable pub go : ℕ → Session
go now = record {
  is_open = true;
  now = now;
  deadline = now + timeout;
  reader = reading;
  watcher = waiting;
  received = [];
  sent = [];
}

-- What the peer and the network do to the operation under way.
pub data Net (s : Session) : Session → Type 0 where
  arrive :
      (bytes : Bytes)
      → s.reader ≡ reading
      → 0 < length bytes
      → length bytes ≤ buffer_size
      → Net s (record s { reader = has_read bytes; received = s.received ++ bytes })
  written :
      (bytes : Bytes)
      → s.reader ≡ writing bytes
      → Net s (record s { reader = has_written; sent = s.sent ++ bytes })
  fail_read : s.reader ≡ reading → Net s (record s { reader = failed })
  -- Some of the bytes may have gone out.
  fail_write :
      (n : ℕ) (bytes : Bytes)
      → s.reader ≡ writing bytes
      → Net s (record s { reader = failed; sent = s.sent ++ take n bytes })

-- What the session uses of Boost.Asio: where an operation stands that is started on a socket, where
-- the reader stands when its socket is closed, and the watcher when its timer is cancelled.
pub record Asio : Type 0 where
  pub started : Bool → Reader → Reader
  pub aborted : Reader → Reader
  pub cancelled : Watcher → Watcher

module _ (asio : Asio) where
  -- m_socket.close()
  unfoldable pub close : Session → Session
  close s = record s { is_open = false; reader = asio.aborted s.reader }

  -- m_timer.cancel()
  unfoldable pub cancel : Session → Session
  cancel s = record s { watcher = asio.cancelled s.watcher }

  -- The top of the loop: `expires_from_now`, which cancels a wait, and `async_read_some`.
  unfoldable pub start_round : Session → Session
  start_round s = record s {
    deadline = s.now + timeout;
    watcher = asio.cancelled s.watcher;
    reader = asio.started s.is_open reading;
  }

  -- The first coroutine goes on with the completion it waited for.
  unfoldable pub resume_reader : Session → Session
  unfolding start_round close cancel
  resume_reader s = elim s.reader [
    | has_read bytes ↦ record s { reader = asio.started s.is_open (writing bytes) }
    | has_written ↦ start_round s
    | failed ↦ record (cancel (close s)) { reader = Reader.returned }
    | r ↦ s
  ]

  -- `if(m_timer.expires_from_now()<=boost::posix_time::seconds(0))`
  unfoldable pub close_expired : Session → Session
  unfolding close
  close_expired s = if leb s.deadline s.now then close s else s

  -- The second coroutine goes on after `async_wait`, and tests `is_open` again.
  unfoldable pub resume_watcher : Session → Session
  unfolding close_expired
  resume_watcher s = elim s.watcher [
    | woken ↦ record (close_expired s) { watcher = again (close_expired s).is_open }
    | w ↦ s
  ]

  -- What happens with no help from the peer.
  pub data Own (s : Session) : Session → Type 0 where
    tick : (seconds : ℕ) → Own s (record s { now = s.now + seconds })
    expire : s.watcher ≡ waiting → s.deadline ≤ s.now → Own s (record s { watcher = woken })
    run_reader : Own s (resume_reader s)
    run_watcher : Own s (resume_watcher s)

  pub data Step (s t : Session) : Type 0 where
    own : Own s t → Step s t
    net : Net s t → Step s t

  pub data Reach (s : Session) : Session → Type 0 where
    here : Reach s s
    next : {t u : Session} → Reach s t → Step t u → Reach s u

  pub data OwnReach (s : Session) : Session → Type 0 where
    rest : OwnReach s s
    more : {t u : Session} → OwnReach s t → Own t u → OwnReach s u
