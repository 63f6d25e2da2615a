-- ===== src/Trials/Session/Documented.antt =====
-- The documented behaviour of Boost.Asio that the `session` of src/test/test1.hpp relies on.
use asio_coro_frame.Base.{◌≡◌, refl, sym, Bool, true, false}
use mathlib.Core.Path.{subst}
use asio_coro_frame.Trials.Session.{
  Reader, reading, writing, failed, Watcher, waiting, woken, Asio, Session, Reach, OwnReach,
}

-- An operation on a closed socket completes with an error.
abbrev pub if_open : Bool → Reader → Reader
if_open true r = r
if_open false r = failed

-- When a socket is closed, the operation under way completes with an error; a completion that waits for
-- the strand stays as it is.
abbrev pub aborted : Reader → Reader
aborted reading = failed
aborted (writing bytes) = failed
aborted r = r

-- When a timer is cancelled, or set anew, the wait on it completes.
abbrev pub cancelled : Watcher → Watcher
cancelled waiting = woken
cancelled w = w

abbrev pub documented : Asio
documented = record { started = if_open; aborted = aborted; cancelled = cancelled }

pub record IsDocumented (asio : Asio) : Type 0 where
  pub starts : (is_open : Bool) (r : Reader) → asio.started is_open r ≡ if_open is_open r
  pub aborts : (r : Reader) → asio.aborted r ≡ aborted r
  pub cancels : (w : Watcher) → asio.cancelled w ≡ cancelled w

documented_unique : (asio : Asio) → IsDocumented asio → documented ≡ asio
documented_unique asio law = λ i. record {
  started = λ is_open r. sym (law.starts is_open r) i;
  aborted = λ r. sym (law.aborts r) i;
  cancelled = λ w. sym (law.cancels w) i;
}

pub to_documented :
    (asio : Asio) → IsDocumented asio → (s t : Session) → Reach asio s t → Reach documented s t
to_documented asio law s t = subst (λ a. Reach a s t) (sym (documented_unique asio law))

pub from_documented :
    (asio : Asio) → IsDocumented asio → (s t : Session) → Reach documented s t → Reach asio s t
from_documented asio law s t = subst (λ a. Reach a s t) (documented_unique asio law)

pub own_from_documented :
    (asio : Asio)
    → IsDocumented asio
    → (s t : Session) → OwnReach documented s t
    → OwnReach asio s t
own_from_documented asio law s t = subst (λ a. OwnReach a s t) (documented_unique asio law)

pub documented-IsDocumented : IsDocumented documented
documented-IsDocumented = record {
  starts = λ is_open r. refl;
  aborts = λ r. refl;
  cancels = λ w. refl;
}
