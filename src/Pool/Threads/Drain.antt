-- ===== src/Pool/Threads/Drain.antt =====
-- `disconnect` of one ConPool of `ThreadedPool` (src/serverResource.hpp) while other threads use it: the
-- thread `d` pulls and frees ten connections, waits for those that others have, and keeps the mutex
-- from one pull to the next unless it waits.
pub mod Frees
pub mod Progress
mod Tests
use asio_coro_frame.Base.{
  get_elem?, ℕ, zero, suc, ◌+◌, ◌<◌, ◌≡◌, ◌≢◌, refl, ap, ◌∙◌, ◌⊎◌, inl, inr, Bool, true, false,
  List, [], ◌∷◌, ◌++◌, Option, none, some, arith, length, ltb, ◌==◌, if◌then◌else◌, not,
}
use asio_coro_frame.Base.Places.{set_elem, total, total-append}
use asio_coro_frame.Pool.{ConQueue, pool_size}
use asio_coro_frame.Pool.Counting.{count}
use asio_coro_frame.Pool.Threads.Holders.{same, count-total}
use asio_coro_frame.Pool.Threads.Load.{weigh, load, moved_load, Step-load, idle_threads-weigh}
use asio_coro_frame.Pool.Threads.{
  Place, outside, entering, sleeping, woken, holding, notifying, Monitor, move, Step, call, pull,
  wait, wake_up, push, notify, notify_nobody, start_with,
}

-- The ConPool with its threads, and what `disconnect_` has been called on.
pub record Closing : Type 0 where
  pub monitor : Monitor
  pub freed : List ℕ

-- A thread that needs the mutex for this step. `wait` lets go of it, and a thread that is woken or
-- calls a method does not have it yet; `notify_one` is called without it.
abbrev pub locker : {s t : Monitor} → Step s t → Option ℕ
locker (call i _) = none
locker (pull i _ _ _ _ _ _) = some i
locker (wait i _ _ _ _) = some i
locker (wake_up i _) = none
locker (push i _ _) = some i
locker (notify i j _ _) = none
locker (notify_nobody i _ _) = none

module _ (d : ℕ) where
  -- whether `d` has the mutex: with a connection to free, or after it has freed one
  abbrev pub keeps_mutex : Option Place → List ℕ → Bool
  keeps_mutex (some (holding con)) freed = true
  keeps_mutex (some entering) [] = false
  keeps_mutex (some entering) (con ∷ freed) = true
  keeps_mutex _ freed = false

  abbrev pub Free : Closing → Option ℕ → Type 0
  Free s none = Unit
  Free s (some i) = (keeps_mutex (get_elem? s.monitor.threads d) s.freed ≡ false) ⊎ (i ≡ d)

  -- back to the loop, or out of it
  abbrev pub after_free : List ℕ → Place
  after_free freed = if length freed + 1 == pool_size then outside else entering

  pub data DrainStep (s : Closing) : Closing → Type 0 where
    -- `d` pulls and waits as the other threads do, and gives nothing back.
    runs :
        {t : Monitor} (st : Step s.monitor t)
        → Free s (locker st)
        → get_elem? t.threads d ≢ some notifying
        → DrainStep s (record s { monitor = t })
    -- disconnect_(con)
    frees :
        (con : ℕ)
        → get_elem? s.monitor.threads d ≡ some (holding con)
        → length s.freed < pool_size
        → DrainStep s (record {
          monitor = move d (after_free s.freed) s.monitor;
          freed = s.freed ++ con ∷ [];
        })

  pub data Drained (s : Closing) : Closing → Type 0 where
    here : Drained s s
    next : {t u : Closing} → Drained s t → DrainStep t u → Drained s u

  abbrev pub in_use : ConQueue → ℕ → Closing
  in_use queue n = record { monitor = start_with queue n; freed = [] }

  -- the weight of all connections, the freed ones included
  abbrev weight : (ℕ → ℕ) → Closing → ℕ
  weight w s = total w s.freed + load w s.monitor

  after_free-weigh : (w : ℕ → ℕ) (freed : List ℕ) → weigh w (after_free freed) ≡ 0
  after_free-weigh w freed = ground arith

  DrainStep-weight : (w : ℕ → ℕ) {s t : Closing} → DrainStep s t → weight w t ≡ weight w s
  DrainStep-weight w (runs st free own) = omega (arith, Step-load w st)
  DrainStep-weight w {s} (frees con at_d more) = omega (
    arith,
    total-append w s.freed (con ∷ []),
    after_free-weigh w s.freed,
    moved_load w d (holding con) (after_free s.freed) s.monitor.threads at_d,
  )

  Drained-weight : (w : ℕ → ℕ) {s t : Closing} → Drained s t → weight w t ≡ weight w s
  Drained-weight w here = refl
  Drained-weight w (next r st) = DrainStep-weight w st ∙ Drained-weight w r

total-length : (xs : List ℕ) → total (λ _. 1) xs ≡ length xs
total-length [] = omega arith
total-length (x ∷ xs) = omega (arith, total-length xs)

nobody_holds :
    (w : ℕ → ℕ) (threads : List Place)
    → total (weigh (λ _. 1)) threads ≡ 0
    → total (weigh w) threads ≡ 0
nobody_holds w [] e = refl
nobody_holds w (p ∷ threads) e = ground (arith, nobody_holds w threads)

length-nil : (xs : List ℕ) → length xs ≡ 0 → xs ≡ []
length-nil [] e = refl
length-nil (x ∷ xs) e = ground arith

-- disconnect takes every connection of the pool out of use before it deletes the pool: in every state
-- that its thread and the other ones reach from a full pool, once it has freed ten connections, each
-- connection has been freed as often as the pool had it, none is idle, and no thread has one or ever
-- gets one, also if it waits for one.
pub Drained-freed :
    (d n : ℕ) (queue : ConQueue) (s : Closing)
    → length queue ≡ pool_size
    → Drained d (in_use d queue n) s
    → length s.freed ≡ pool_size
    → (i con : ℕ)
    → (s.monitor.queue ≡ [])
      × (get_elem? s.monitor.threads i ≢ some (holding con))
      × (count con s.freed ≡ count con queue)
Drained-freed d n queue s full r all_freed i con =
    let kept = Drained-weight d (λ _. 1) r in
    let kept_con = Drained-weight d (same con) r in
    let none_held = idle_threads-weigh (λ _. 1) n in
    let con_not_held = idle_threads-weigh (same con) n in
    let idle : length s.monitor.queue ≡ 0 = omega (
      arith,
      kept,
      none_held,
      all_freed,
      full,
      total-length s.freed,
      total-length queue,
      total-length s.monitor.queue,
    ) in
    let held : total (weigh (λ _. 1)) s.monitor.threads ≡ 0 =
      omega (arith, kept, none_held, all_freed, full, total-length s.freed, total-length queue) in
    let empty = length-nil s.monitor.queue idle in
    (
      empty,
      λ at_i.
          absurd (
            omega
              (arith, held, moved_load (λ _. 1) i (holding con) outside s.monitor.threads at_i)),
      omega (
        arith,
        kept_con,
        con_not_held,
        ap (total (same con)) empty,
        nobody_holds (same con) s.monitor.threads held,
        count-total con s.freed,
        count-total con queue,
      ),
    )
