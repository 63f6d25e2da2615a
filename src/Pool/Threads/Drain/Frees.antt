-- ===== src/Pool/Threads/Drain/Frees.antt =====
-- How the thread of `disconnect` of a ConPool of `ThreadedPool` (src/serverResource.hpp) gets one more
-- connection to free.
use asio_coro_frame.Base.{
  get_elem?, ℕ, ◌+◌, ◌<◌, ◌≡◌, ◌≢◌, refl, ◌∙◌, inl, inr, true, [], ◌∷◌, ◌++◌, Option, some, arith,
  length, length-append,
}
use asio_coro_frame.Base.Places.{set_elem, get_elem?-set_elem, get_elem?-set_elem_ne}
use asio_coro_frame.Pool.{ConQueue, pool_size, pull_connection, push_connection}
use asio_coro_frame.Pool.Threads.{
  Place, outside, sleeping, woken, holding, notifying, is_asking, Monitor, move, pull, push, notify,
}
use asio_coro_frame.Pool.Threads.WakeUp.{ne_of_places}
use asio_coro_frame.Pool.Threads.Drain.{
  Closing, DrainStep, runs, frees, Drained, here, next, after_free,
}

module _ (d : ℕ) where
  pub Drained-trans : {s t u : Closing} → Drained d s t → Drained d t u → Drained d s u
  Drained-trans r here = r
  Drained-trans r (next q st) = next (Drained-trans r q) st

  -- one more connection is freed, and the thread is back in its loop or out of it
  abbrev pub Frees : Closing → Type 0
  Frees s =
      (u : Closing) × Drained d s u
      × (length u.freed ≡ length s.freed + 1)
      × (get_elem? u.monitor.threads d ≡ some (after_free d s.freed))

  pub holding-Frees :
      (s : Closing) (con : ℕ)
      → get_elem? s.monitor.threads d ≡ some (holding con)
      → length s.freed < pool_size
      → Frees s
  holding-Frees s con at_d more = (
    _,
    next here (frees con at_d more),
    length-append s.freed (con ∷ []),
    get_elem?-set_elem d (after_free d s.freed) (holding con) s.monitor.threads at_d,
  )

  pub not_notifying :
      (o : Option Place) (p : Place) → o ≡ some p → p ≢ notifying → o ≢ some notifying
  not_notifying o p at_o other e = ground arith

  -- a step that frees nothing, and what comes after it
  pub then-Frees :
      (s : Closing) (m : Monitor)
      → DrainStep d s (record s { monitor = m })
      → Frees (record s { monitor = m })
      → Frees s
  then-Frees s m st (u, r, one, back) = (u, Drained-trans (next here st) r, one, back)

  pub asking-Frees :
      (s : Closing) (p : Place) (con : ℕ) (rest : ConQueue)
      → get_elem? s.monitor.threads d ≡ some p
      → is_asking p ≡ true
      → s.monitor.queue ≡ con ∷ rest
      → length s.freed < pool_size
      → Frees s
  unfolding pull_connection
  asking-Frees s p con rest at_d asks full more =
      let at_d' = get_elem?-set_elem d (holding con) p s.monitor.threads at_d in
      then-Frees s _
        (runs (pull d p con rest at_d asks (rw full refl)) (inr refl)
          (not_notifying _ (holding con) at_d' (λ e. ground arith)))
        (holding-Frees
          (record s { monitor = move d (holding con) (record s.monitor { queue = rest }) }) con
          at_d' more)

  pub notifying-Frees :
      (s : Closing) (k con : ℕ) (rest : ConQueue)
      → get_elem? s.monitor.threads d ≡ some sleeping
      → get_elem? s.monitor.threads k ≡ some notifying
      → s.monitor.queue ≡ con ∷ rest
      → length s.freed < pool_size
      → Frees s
  notifying-Frees s k con rest at_d at_k full more =
      let still =
        get_elem?-set_elem_ne k d outside s.monitor.threads
          (ne_of_places k d notifying sleeping s.monitor.threads at_k at_d refl refl)
        ∙ at_d in
      let at_d' =
        get_elem?-set_elem d woken sleeping (set_elem k outside s.monitor.threads) still in
      then-Frees s _
        (runs (notify k d at_k at_d) tt (not_notifying _ woken at_d' (λ e. ground arith)))
        (asking-Frees (record s { monitor = move d woken (move k outside s.monitor) }) woken con
          rest at_d' refl full more)

  snoc-cons :
      (queue : ConQueue) (con : ℕ)
      → (c : ℕ) × (rest : ConQueue) × (push_connection queue con ≡ c ∷ rest)
  unfolding push_connection
  snoc-cons [] con = (con, [], refl)
  snoc-cons (c ∷ queue) con = (c, queue ++ con ∷ [], refl)

  -- Another thread gives its connection back.
  pub holder-Frees :
      (s : Closing) (k con : ℕ)
      → get_elem? s.monitor.threads d ≡ some sleeping
      → get_elem? s.monitor.threads k ≡ some (holding con)
      → length s.freed < pool_size
      → Frees s
  holder-Frees s k con at_d at_k more =
      let threads = s.monitor.threads in
      let still =
        get_elem?-set_elem_ne k d notifying threads
          (ne_of_places k d (holding con) sleeping threads at_k at_d refl refl)
        ∙ at_d in
      let (c, rest, full) = snoc-cons s.monitor.queue con in
      then-Frees s _
        (runs (push k con at_k) (inl (rw at_d refl))
          (not_notifying _ sleeping still (λ e. ground arith)))
        (notifying-Frees
          (record s {
            monitor =
                move k notifying (record s.monitor { queue = push_connection s.monitor.queue con });
          })
          k c rest still (get_elem?-set_elem k notifying (holding con) threads at_k) full more)

  -- Another thread that was woken takes a connection and gives it back.
  pub woken-Frees :
      (s : Closing) (k con : ℕ) (rest : ConQueue)
      → get_elem? s.monitor.threads d ≡ some sleeping
      → get_elem? s.monitor.threads k ≡ some woken
      → s.monitor.queue ≡ con ∷ rest
      → length s.freed < pool_size
      → Frees s
  unfolding pull_connection
  woken-Frees s k con rest at_d at_k full more =
      let threads = s.monitor.threads in
      let still =
        get_elem?-set_elem_ne k d (holding con) threads
          (ne_of_places k d woken sleeping threads at_k at_d refl refl)
        ∙ at_d in
      then-Frees s _
        (runs (pull k woken con rest at_k refl (rw full refl)) (inl (rw at_d refl))
          (not_notifying _ sleeping still (λ e. ground arith)))
        (holder-Frees
          (record s { monitor = move k (holding con) (record s.monitor { queue = rest }) }) k con
          still (get_elem?-set_elem k (holding con) woken threads at_k) more)
