-- ===== src/Trials/Server.antt =====
-- The function `server` of src/test/test1.hpp: it accepts sockets for ever and starts a session for
-- each of them, and the sessions run side by side.
use asio_coro_frame.Base.{
  ℕ, zero, suc, ◌≤◌, ◌≡◌, sym, ap, ◌∙◌, ◌⊎◌, inl, inr, Bool, true, false, List, [], ◌∷◌, ◌++◌, some,
  arith, length, get_elem?, Bool-cases, ◌==◌, ==_iff, if◌then◌else◌,
}
use mathlib.Core.Path.{subst}
use mathlib.Core.Option.{some-injective}
use asio_coro_frame.Base.Places.{set_elem, get_elem?-set_elem, get_elem?-set_elem_ne}
use asio_coro_frame.Trials.Session.{Asio, Bytes, Session, go, Step, Reach, here, next, buffer_size}
use asio_coro_frame.Trials.Session.Documented.{IsDocumented}
use asio_coro_frame.Trials.Session.Echo.{received-echo}

-- `if(!ec)` after `async_accept` at a time
unfoldable pub accepted : Bool → ℕ → List Session → List Session
unfolding go
accepted is_error now sessions = if is_error then sessions else sessions ++ go now ∷ []

module _ (asio : Asio) where
  pub data ServerStep (sessions : List Session) : List Session → Type 0 where
    accept : (is_error : Bool) (now : ℕ) → ServerStep sessions (accepted is_error now sessions)
    turn :
        (i : ℕ) {s t : Session}
        → get_elem? sessions i ≡ some s
        → Step asio s t
        → ServerStep sessions (set_elem i t sessions)

  -- from the start of `server`, with no session
  pub data ServerReach : List Session → Type 0 where
    started : ServerReach []
    later :
        {before after : List Session}
        → ServerReach before
        → ServerStep before after
        → ServerReach after

-- The last one of the list, or one before it.
snoc-cases {ℓ} :
    {A : Type ℓ} (xs : List A) (x y : A) (i : ℕ)
    → get_elem? (xs ++ x ∷ []) i ≡ some y
    → (get_elem? xs i ≡ some y) ⊎ (y ≡ x)
snoc-cases [] x y zero e = ground arith
snoc-cases [] x y (suc i) e = ground arith
snoc-cases (z ∷ xs) x y zero e = inl e
snoc-cases (z ∷ xs) x y (suc i) e = snoc-cases xs x y i e

-- Whether it is the one at the index that is set.
set_elem-cases {ℓ} :
    {A : Type ℓ} (xs : List A) (i j : ℕ) (x y z : A)
    → get_elem? xs i ≡ some x
    → get_elem? (set_elem i y xs) j ≡ some z
    → ((i ≡ j) × (z ≡ y)) ⊎ (get_elem? xs j ≡ some z)
set_elem-cases xs i j x y z at_i at_j = elim (Bool-cases (i == j)) [
  | inl same ↦
      let equal : i ≡ j = (==_iff i j).0 same in
      inl (
        equal,
        some-injective z y (
            sym at_j
            ∙ ap (get_elem? (set_elem i y xs)) (sym equal)
            ∙ get_elem?-set_elem i y x xs at_i),
      )
  | inr other ↦ inr (sym (get_elem?-set_elem_ne i j y xs (λ equal. ground arith)) ∙ at_j)
]

abbrev ByThemselves : Asio → List Session → Type 0
ByThemselves asio sessions =
    (i : ℕ) (s : Session) → get_elem? sessions i ≡ some s → (now : ℕ) × Reach asio (go now) s

accepted-ByThemselves :
    (asio : Asio) (is_error : Bool) (now : ℕ) (sessions : List Session)
    → ByThemselves asio sessions
    → ByThemselves asio (accepted is_error now sessions)
unfolding accepted
accepted-ByThemselves asio true now sessions h = h
accepted-ByThemselves asio false now sessions h = λ i s e.
    elim (snoc-cases sessions (go now) s i e) [
      | inl older ↦ h i s older
      | inr newest ↦ (now, subst (Reach asio (go now)) (sym newest) here)
    ]

turn-ByThemselves :
    (asio : Asio) (sessions : List Session) (i : ℕ) (s t : Session)
    → get_elem? sessions i ≡ some s
    → Step asio s t
    → ByThemselves asio sessions
    → ByThemselves asio (set_elem i t sessions)
turn-ByThemselves asio sessions i s t at_i step h = λ j u e.
    elim (set_elem-cases sessions i j s t u at_i e) [
      | inl (equal, moved) ↦
          let (now, r) = h i s at_i in (now, subst (Reach asio (go now)) (sym moved) (next r step))
      | inr other ↦ h j u other
    ]

ServerStep-ByThemselves :
    {asio : Asio} {before after : List Session}
    → ServerStep asio before after
    → ByThemselves asio before
    → ByThemselves asio after
ServerStep-ByThemselves {asio} {before} (accept is_error now) h =
    accepted-ByThemselves asio is_error now before h
ServerStep-ByThemselves {asio} {before} (turn i at_i step) h =
    turn-ByThemselves asio before i _ _ at_i step h

ServerReach-ByThemselves :
    {asio : Asio} {sessions : List Session} → ServerReach asio sessions → ByThemselves asio sessions
ServerReach-ByThemselves started = λ i s e. ground arith
ServerReach-ByThemselves (later r step) = ServerStep-ByThemselves step (ServerReach-ByThemselves r)

-- However many sessions a server has started and in whatever order they run, where Boost.Asio does
-- what its documentation says: what each session has written is the front of what it has itself
-- read, with at most a buffer of 128 bytes missing. No bytes of another session get into it.
pub server-echo :
    (asio : Asio) (sessions : List Session) (i : ℕ) (s : Session)
    → IsDocumented asio
    → ServerReach asio sessions
    → get_elem? sessions i ≡ some s
    → (unsent : Bytes) × (s.received ≡ s.sent ++ unsent) × (length unsent ≤ buffer_size)
server-echo asio sessions i s law r at_i =
    let (now, alone) = ServerReach-ByThemselves r i s at_i in received-echo asio now s law alone
