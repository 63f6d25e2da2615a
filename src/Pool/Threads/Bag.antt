-- ===== src/Pool/Threads/Bag.antt =====
-- `pullConnection` and `pushConnection` of `ThreadedPool` (src/serverResource.hpp), seen by their
-- callers: a bag of idle connections, from which a connection is taken and to which it is given back
-- in one step, with no order, no mutex and no condition variable.
use asio_coro_frame.Base.{
  get_elem?, ℕ, ◌≡◌, refl, sym, ap, ◌∙◌, ◌⊎◌, inl, inr, List, [], ◌∷◌, ◌++◌, map, append-nil,
  Option, none, some, arith, true,
}
use asio_coro_frame.Base.Places.{
  set_elem, set_elem_same, map-set_elem, get_elem?-map, get_elem?-set_elem_ne,
}
use mathlib.Core.Path.{subst}
use mathlib.Core.List.{Perm, perm_middle}
use mathlib.Core.List.Perm
use mathlib.Core.Quot
use mathlib.Core.Quot.{Quot, Quot-set}
use asio_coro_frame.Pool.{ConQueue, pull_connection, push_connection}
use asio_coro_frame.Pool.Exclusive.{pull_connection-eq}
use asio_coro_frame.Pool.Threads.WakeUp.{ne_of_places}
use asio_coro_frame.Pool.Threads.{
  Place, outside, entering, sleeping, woken, holding, notifying, is_asking, Monitor, Step, call,
  pull, wait, wake_up, push, notify, notify_nobody, Reach, here, next,
}

-- Queues up to the order of their connections.
abbrev pub Bag : Type 0
Bag = Quot (Perm {A = ℕ})

abbrev pub bag : ConQueue → Bag
bag queue = Quot.mk queue

pub add : ℕ → Bag → Bag
add con = Quot.lift Quot-set (λ q. Quot.mk (con ∷ q)) (λ q r same. Quot.sound (Perm.cons con same))

-- What the callers see: the idle connections, and which thread has which one.
pub record Shared : Type 0 where
  pub idle : Bag
  pub held : List (Option ℕ)

pub data Access (s t : Shared) : Type 0 where
  takes :
      (i con : ℕ)
      → get_elem? s.held i ≡ some none
      → s.idle ≡ add con t.idle
      → t.held ≡ set_elem i (some con) s.held
      → Access s t
  gives :
      (i con : ℕ)
      → get_elem? s.held i ≡ some (some con)
      → t.idle ≡ add con s.idle
      → t.held ≡ set_elem i none s.held
      → Access s t

pub data Accesses (s : Shared) : Shared → Type 0 where
  none_yet : Accesses s s
  then_one : {t u : Shared} → Accesses s t → Access t u → Accesses s u

abbrev pub carried : Place → Option ℕ
carried (holding con) = some con
carried _ = none

abbrev pub view : Monitor → Shared
view s = record { idle = bag s.queue; held = map carried s.threads }

asking-carried : (p : Place) → is_asking p ≡ true → carried p ≡ none
asking-carried p e = ground arith

-- A thread that moves with nothing in its hand.
move_unseen :
    (i : ℕ) (p q : Place) (threads : List Place)
    → get_elem? threads i ≡ some p
    → carried p ≡ carried q
    → map carried (set_elem i q threads) ≡ map carried threads
move_unseen i p q threads at_i same =
    map-set_elem carried i q threads
    ∙ set_elem_same i (carried q) (map carried threads)
        (get_elem?-map carried i p threads at_i ∙ ap some same)

same_view :
    (queue : ConQueue) (threads threads' : List Place)
    → map carried threads' ≡ map carried threads
    → view (record { queue = queue; threads = threads' })
      ≡ view (record { queue = queue; threads = threads })
same_view queue threads threads' e = cc

push_connection-Perm : (queue : ConQueue) (con : ℕ) → Perm (push_connection queue con) (con ∷ queue)
unfolding push_connection
push_connection-Perm queue con =
    subst (λ (q : ConQueue). Perm (queue ++ con ∷ []) (con ∷ q)) (append-nil queue)
      (perm_middle queue [])

-- A step is one access, or none.
Step-view : {s t : Monitor} → Step s t → (view t ≡ view s) ⊎ Access (view s) (view t)
unfolding add pull_connection push_connection
Step-view {s} (call i e) =
    inl (same_view s.queue s.threads _ (move_unseen i outside entering s.threads e refl))
Step-view {s} (wait i p e asks empty) =
    inl
      (same_view s.queue s.threads _ (move_unseen i p sleeping s.threads e (asking-carried p asks)))
Step-view {s} (wake_up i e) =
    inl (same_view s.queue s.threads _ (move_unseen i sleeping woken s.threads e refl))
Step-view {s} (notify i j e f) = inl (
    same_view s.queue (set_elem i outside s.threads) _ (
      move_unseen j sleeping woken (set_elem i outside s.threads)
        (get_elem?-set_elem_ne i j outside s.threads
            (ne_of_places i j notifying sleeping s.threads e f refl refl)
          ∙ f)
        refl)
    ∙ same_view s.queue s.threads _ (move_unseen i notifying outside s.threads e refl))
Step-view {s} (notify_nobody i e nobody) =
    inl (same_view s.queue s.threads _ (move_unseen i notifying outside s.threads e refl))
Step-view {s} (pull i p con queue e asks pulled) = inr (
    takes i con (get_elem?-map carried i p s.threads e ∙ ap some (asking-carried p asks))
      (ap bag (pull_connection-eq s.queue queue con pulled))
      (map-set_elem carried i (holding con) s.threads))
Step-view {s} (push i con e) = inr (
    gives i con (get_elem?-map carried i (holding con) s.threads e)
      (Quot.sound (push_connection-Perm s.queue con)) (map-set_elem carried i notifying s.threads))

-- The refinement: for any steps of the threads, in any order and with wake-ups for no reason, the
-- callers see a sequence of accesses to a bag of idle connections, each of which takes one of them
-- for a thread that has none, or puts back the one that a thread has.
pub Reach-view : {s t : Monitor} → Reach s t → Accesses (view s) (view t)
Reach-view here = none_yet
Reach-view {s} (next r st) = elim (Step-view st) [
  | inl unseen ↦ subst (Accesses (view s)) (sym unseen) (Reach-view r)
  | inr access ↦ then_one (Reach-view r) access
]
