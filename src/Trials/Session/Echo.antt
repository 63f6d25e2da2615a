-- ===== src/Trials/Session/Echo.antt =====
-- What a `session` (src/test/test1.hpp) sends back.
use asio_coro_frame.Base.{
  ℕ, ◌≤◌, ◌≡◌, refl, sym, ap, ◌∙◌, Bool, [], ◌++◌, take, drop, length-drop, take-append-drop,
  append_assoc, append-nil, length, arith,
}
use mathlib.Core.Path.{subst}
use asio_coro_frame.Trials.Session.Documented.{documented, IsDocumented, to_documented, if_open}
use asio_coro_frame.Trials.Session.{
  Asio, Bytes, Reader, reading, has_read, writing, has_written, Session, buffer_size, close, cancel,
  start_round, resume_reader, close_expired, resume_watcher, go, Own, tick, expire, run_reader,
  run_watcher, Net, arrive, written, fail_read, fail_write, own, net, Reach, here, next,
}

-- What has been read and not been written yet; after a failure it may be anything.
abbrev pub InFlight : Reader → Bytes → Type 0
InFlight reading unsent = unsent ≡ []
InFlight (has_read bytes) unsent = unsent ≡ bytes
InFlight (writing bytes) unsent = unsent ≡ bytes
InFlight has_written unsent = unsent ≡ []
InFlight _ unsent = Unit

record Echo (s : Session) : Type 0 where
  unsent : Bytes
  in_order : s.received ≡ s.sent ++ unsent
  fits : length unsent ≤ buffer_size
  in_flight : InFlight s.reader unsent

InFlight-if_open :
    (b : Bool) (r : Reader) (unsent : Bytes) → InFlight r unsent → InFlight (if_open b r) unsent
InFlight-if_open b r unsent f = ground arith

InFlight-resume_reader :
    (s : Session) (unsent : Bytes)
    → InFlight s.reader unsent
    → InFlight (resume_reader documented s).reader unsent
unfolding resume_reader start_round close cancel
InFlight-resume_reader s unsent f = ground arith

InFlight-resume_watcher :
    (s : Session) (unsent : Bytes)
    → InFlight s.reader unsent
    → InFlight (resume_watcher documented s).reader unsent
unfolding resume_watcher close_expired close
InFlight-resume_watcher s unsent f = ground arith

resume_reader-received :
    (s : Session)
    → ((resume_reader documented s).received ≡ s.received)
      × ((resume_reader documented s).sent ≡ s.sent)
unfolding resume_reader start_round close cancel
resume_reader-received s = ground arith

resume_watcher-received :
    (s : Session)
    → ((resume_watcher documented s).received ≡ s.received)
      × ((resume_watcher documented s).sent ≡ s.sent)
unfolding resume_watcher close_expired close
resume_watcher-received s = ground arith

Own-Echo : {s t : Session} → Own documented s t → Echo s → Echo t
Own-Echo {s} (tick n) e = record {
  unsent = e.unsent;
  in_order = e.in_order;
  fits = e.fits;
  in_flight = e.in_flight;
}
Own-Echo {s} (expire w late) e = record {
  unsent = e.unsent;
  in_order = e.in_order;
  fits = e.fits;
  in_flight = e.in_flight;
}
Own-Echo {s} run_reader e =
    let (r, t) = resume_reader-received s in
    record {
      unsent = e.unsent;
      in_order = rw (r, t) e.in_order;
      fits = e.fits;
      in_flight = InFlight-resume_reader s e.unsent e.in_flight;
    }
Own-Echo {s} run_watcher e =
    let (r, t) = resume_watcher-received s in
    record {
      unsent = e.unsent;
      in_order = rw (r, t) e.in_order;
      fits = e.fits;
      in_flight = InFlight-resume_watcher s e.unsent e.in_flight;
    }

flight_of : {s : Session} {r : Reader} (e : Echo s) → s.reader ≡ r → InFlight r e.unsent
flight_of e same = subst (λ r. InFlight r e.unsent) same e.in_flight

Net-Echo : {s t : Session} → Net s t → Echo s → Echo t
Net-Echo {s} (arrive bytes e some_bytes fits) echo = record {
  unsent = bytes;
  in_order =
      ap (λ (t : Bytes). t ++ bytes)
        (echo.in_order ∙ ap (λ (t : Bytes). s.sent ++ t) (flight_of echo e) ∙ append-nil s.sent);
  fits = fits;
  in_flight = refl;
}
Net-Echo {s} (written bytes e) echo = record {
  unsent = [];
  in_order =
      echo.in_order
      ∙ ap (λ (t : Bytes). s.sent ++ t) (flight_of echo e)
      ∙ sym (append-nil (s.sent ++ bytes));
  fits = omega arith;
  in_flight = refl;
}
Net-Echo {s} (fail_read e) echo = record {
  unsent = echo.unsent;
  in_order = echo.in_order;
  fits = echo.fits;
  in_flight = tt;
}
Net-Echo {s} (fail_write n bytes e) echo = record {
  unsent = drop n bytes;
  in_order =
      echo.in_order
      ∙ ap (λ (t : Bytes). s.sent ++ t) (flight_of echo e ∙ sym (take-append-drop n bytes))
      ∙ sym (append_assoc s.sent (take n bytes) (drop n bytes));
  fits = omega (arith, length-drop n bytes, ap length (flight_of echo e), echo.fits);
  in_flight = tt;
}

Reach-Echo : (now : ℕ) {t : Session} → Reach documented (go now) t → Echo t
unfolding go
Reach-Echo now here = record { unsent = []; in_order = refl; fits = omega arith; in_flight = refl }
Reach-Echo now (next q (own st)) = Own-Echo st (Reach-Echo now q)
Reach-Echo now (next q (net st)) = Net-Echo st (Reach-Echo now q)

-- The echo, where Boost.Asio does what its documentation says: in every state that a session reaches
-- what was written is the front of what was read, in order, and at most a buffer of 128 bytes is
-- missing.
pub received-echo :
    (asio : Asio) (now : ℕ) (s : Session)
    → IsDocumented asio
    → Reach asio (go now) s
    → (unsent : Bytes) × (s.received ≡ s.sent ++ unsent) × (length unsent ≤ buffer_size)
received-echo asio now s law r =
    let e = Reach-Echo now (to_documented asio law (go now) s r) in (e.unsent, e.in_order, e.fits)
