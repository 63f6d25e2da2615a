-- ===== src/Pool/Threads/Load.antt =====
-- What steps of threads leave at a ConPool of `ThreadedPool` (src/serverResource.hpp): the sum of a
-- weight over its connections, in the queue and with threads.
use asio_coro_frame.Base.{
  get_elem?, ℕ, zero, suc, ◌+◌, ◌≡◌, refl, ap, ◌∙◌, List, [], ◌∷◌, some, arith, true,
}
use asio_coro_frame.Base.Places.{
  set_elem, total, total-set_elem, total-append, get_elem?-set_elem_ne,
}
use asio_coro_frame.Pool.{push_connection}
use asio_coro_frame.Pool.Exclusive.{pull_connection-eq}
use asio_coro_frame.Pool.Threads.WakeUp.{ne_of_places}
use asio_coro_frame.Pool.Threads.{
  Place, outside, entering, sleeping, woken, holding, notifying, is_asking, Monitor, Step, call,
  pull, wait, wake_up, push, notify, notify_nobody, Reach, here, next, idle_threads,
}

abbrev pub weigh : (ℕ → ℕ) → Place → ℕ
weigh w (holding c) = w c
weigh w _ = 0

abbrev pub load : (ℕ → ℕ) → Monitor → ℕ
load w s = total w s.queue + total (weigh w) s.threads

module _ (w : ℕ → ℕ) where
  asking-weigh : (p : Place) → is_asking p ≡ true → weigh w p ≡ 0
  asking-weigh p e = ground arith

  pub moved_load :
      (i : ℕ) (p q : Place) (threads : List Place)
      → get_elem? threads i ≡ some p
      → total (weigh w) (set_elem i q threads) + weigh w p ≡ total (weigh w) threads + weigh w q
  moved_load i p q threads e = total-set_elem (weigh w) i q p threads e

  pub Step-load : {s t : Monitor} → Step s t → load w t ≡ load w s
  unfolding push_connection
  Step-load {s} (call i e) = omega (arith, moved_load i outside entering s.threads e)
  Step-load {s} (pull i p c queue e asks pulled) = omega (
    arith,
    moved_load i p (holding c) s.threads e,
    asking-weigh p asks,
    ap (total w) (pull_connection-eq s.queue queue c pulled),
  )
  Step-load {s} (wait i p e asks empty) =
      omega (arith, moved_load i p sleeping s.threads e, asking-weigh p asks)
  Step-load {s} (wake_up i e) = omega (arith, moved_load i sleeping woken s.threads e)
  Step-load {s} (push i c e) =
      omega (arith, moved_load i (holding c) notifying s.threads e, total-append w s.queue (c ∷ []))
  Step-load {s} (notify i j e f) =
      let still =
        get_elem?-set_elem_ne i j outside s.threads
          (ne_of_places i j notifying sleeping s.threads e f refl refl)
        ∙ f in
      omega (
        arith,
        moved_load i notifying outside s.threads e,
        moved_load j sleeping woken (set_elem i outside s.threads) still,
      )
  Step-load {s} (notify_nobody i e nobody) =
      omega (arith, moved_load i notifying outside s.threads e)

  pub Reach-load : {s t : Monitor} → Reach s t → load w t ≡ load w s
  Reach-load here = refl
  Reach-load (next r st) = Step-load st ∙ Reach-load r

  pub idle_threads-weigh : (n : ℕ) → total (weigh w) (idle_threads n) ≡ 0
  idle_threads-weigh zero = refl
  idle_threads-weigh (suc n) = omega (arith, idle_threads-weigh n)
