-- ===== src/Pool/Threads/WakeUp.antt =====
-- No wake-up is lost at a ConPool of `ThreadedPool` (src/serverResource.hpp).
use asio_coro_frame.Base.{
  get_elem?, ℕ, zero, suc, ◌+◌, ◌≤◌, ◌<◌, ◌≡◌, refl, ◌⊎◌, List, [], ◌∷◌, none, some, arith, length,
  length-append, ◌∙◌, ap, true,
}
use asio_coro_frame.Base.Places.{set_elem, total, total-set_elem, get_elem?-set_elem_ne}
use asio_coro_frame.Pool.{ConQueue, pull_connection, push_connection}
use asio_coro_frame.Pool.Exclusive.{pull_connection-eq}
use asio_coro_frame.Pool.Threads.{
  Place, outside, entering, sleeping, woken, holding, notifying, is_asking, is_sleeping, Monitor,
  Step, call, pull, wait, wake_up, push, notify, notify_nobody, Reach, here, next, idle_threads,
  start_with,
}

-- The thread will look at the queue, or wake one that will.
abbrev pub is_active : Place → ℕ
is_active woken = 1
is_active notifying = 1
is_active _ = 0

-- While a thread sleeps, there is a woken or notifying thread for each idle connection.
abbrev pub NoLostWakeUp : Monitor → Type 0
NoLostWakeUp s = 0 < total is_sleeping s.threads → length s.queue ≤ total is_active s.threads

pull_connection-empty : (queue : ConQueue) → pull_connection queue ≡ none → length queue ≡ 0
unfolding pull_connection
pull_connection-empty [] e = omega arith
pull_connection-empty (x ∷ queue) e = ground arith

asking-is_sleeping : (p : Place) → is_asking p ≡ true → is_sleeping p ≡ 0
asking-is_sleeping p e = ground arith

is_active-le : (p : Place) → is_active p ≤ 1
is_active-le p = ground arith

-- What the move of a thread from `p` to `q` does to both sums.
record Moves (i : ℕ) (p q : Place) (threads : List Place) : Type 0 where
  sleepers :
      total is_sleeping (set_elem i q threads) + is_sleeping p
      ≡ total is_sleeping threads + is_sleeping q
  actives :
      total is_active (set_elem i q threads) + is_active p ≡ total is_active threads + is_active q

moves :
    (i : ℕ) (p q : Place) (threads : List Place)
    → get_elem? threads i ≡ some p
    → Moves i p q threads
moves i p q threads e = record {
  sleepers = total-set_elem is_sleeping i q p threads e;
  actives = total-set_elem is_active i q p threads e;
}

pub ne_of_places :
    (i j : ℕ) (p q : Place) (threads : List Place)
    → get_elem? threads i ≡ some p
    → get_elem? threads j ≡ some q
    → is_sleeping p ≡ 0
    → is_sleeping q ≡ 1
    → ¬ (i ≡ j)
ne_of_places i j p q threads at_i at_j awake asleep same = ground arith

pub Step-NoLostWakeUp : {s t : Monitor} → Step s t → NoLostWakeUp s → NoLostWakeUp t
unfolding push_connection
Step-NoLostWakeUp {s} (call i e) inv =
    let m = moves i outside entering s.threads e in λ h. omega (arith, inv, m.sleepers, m.actives)
Step-NoLostWakeUp {s} (pull i p con queue e asks pulled) inv =
    let m = moves i p (holding con) s.threads e in
    λ h. ground (
      arith,
      inv,
      m.sleepers,
      m.actives,
      ap length (pull_connection-eq s.queue queue con pulled),
      asking-is_sleeping p asks,
      is_active-le p,
    )
Step-NoLostWakeUp {s} (wait i p e asks empty) inv =
    λ h. omega (arith, pull_connection-empty s.queue empty)
Step-NoLostWakeUp {s} (wake_up i e) inv =
    let m = moves i sleeping woken s.threads e in λ h. omega (arith, inv, m.sleepers, m.actives)
Step-NoLostWakeUp {s} (push i con e) inv =
    let m = moves i (holding con) notifying s.threads e in
    λ h. omega (arith, inv, m.sleepers, m.actives, length-append s.queue (con ∷ []))
Step-NoLostWakeUp {s} (notify i j e f) inv =
    let m = moves i notifying outside s.threads e in
    let n = moves j sleeping woken (set_elem i outside s.threads) (
      get_elem?-set_elem_ne i j outside s.threads
        (ne_of_places i j notifying sleeping s.threads e f refl refl)
      ∙ f) in
    λ h. omega (arith, inv, m.sleepers, m.actives, n.sleepers, n.actives)
Step-NoLostWakeUp {s} (notify_nobody i e nobody) inv =
    let m = moves i notifying outside s.threads e in λ h. omega (arith, nobody, m.sleepers)

idle_threads-total : (n : ℕ) → total is_sleeping (idle_threads n) ≡ 0
idle_threads-total zero = refl
idle_threads-total (suc n) = omega (arith, idle_threads-total n)

pub Reach-NoLostWakeUp :
    (queue : ConQueue) (n : ℕ) (s : Monitor) → Reach (start_with queue n) s → NoLostWakeUp s
Reach-NoLostWakeUp queue n s here = λ h. omega (arith, idle_threads-total n)
Reach-NoLostWakeUp queue n s (next r st) = Step-NoLostWakeUp st (Reach-NoLostWakeUp queue n _ r)

-- No wake-up is lost: in every state that threads reach from a pool with none of them in it, if some
-- thread sleeps in `pullConnection`, at least as many threads are woken or about to call
-- `notify_one` as connections are idle, although `pushConnection` unlocks before it notifies.
pub idle-le-active :
    (queue : ConQueue) (n : ℕ) (s : Monitor)
    → Reach (start_with queue n) s
    → 0 < total is_sleeping s.threads
    → length s.queue ≤ total is_active s.threads
idle-le-active queue n s r asleep = Reach-NoLostWakeUp queue n s r asleep

pub sleeping-total :
    (i : ℕ) (threads : List Place)
    → get_elem? threads i ≡ some sleeping
    → 0 < total is_sleeping threads
sleeping-total i threads e = omega (arith, total-set_elem is_sleeping i outside sleeping threads e)

pub active-cases : (p : Place) → 0 < is_active p → (p ≡ woken) ⊎ (p ≡ notifying)
active-cases p e = ground arith
