-- ===== src/Trials/Client.antt =====
-- The function `client` of src/test/test1.hpp, and what it gets from a `session`.
use asio_coro_frame.Base.{
  ℕ, suc, ◌≤◌, ◌<◌, ◌≡◌, refl, sym, ap, ◌∙◌, ◌⊎◌, inl, inr, Bool-cases, true, List, [], ◌∷◌, ◌++◌,
  Option, none, some, Text, lit, take, length, leb, length-append, arith, append-nil, ◌==◌,
  if◌then◌else◌,
}
use asio_coro_frame.Trials.Session.Documented.{documented, IsDocumented}
use asio_coro_frame.Trials.Session.{Asio, Bytes, Session, reading, buffer_size, go, Reach}
use asio_coro_frame.Trials.Session.Echo.{received-echo}

abbrev pub max_length : ℕ
max_length = 1024

-- `getline` keeps the characters of the line that fit, and a zero after them.
abbrev pub getline : Bytes → Bytes
getline line = take 1023 line

-- strlen
abbrev pub strlen : Bytes → ℕ
strlen [] = 0
strlen (c ∷ cs) = if c == 0 then 0 else suc (strlen cs)

-- What `write` sends.
unfoldable pub request : Bytes → Bytes
request line = take (strlen (getline line)) (getline line)

-- `read` of exactly `n` bytes from what the server sends: `none` if it ends too early, the exception.
unfoldable pub read : ℕ → Bytes → Option Bytes
read n sent = if leb n (length sent) then some (take n sent) else none

-- What `client` prints after the prompt; `none` for the exception.
unfoldable pub client : Bytes → Bytes → Option Text
unfolding request read
client line sent = elim (read (length (request line)) sent) [
  | none ↦ none
  | some reply ↦ some (lit "Reply is: " ++ reply ++ lit "\n")
]

take-length {ℓ} : {A : Type ℓ} (xs : List A) → take (length xs) xs ≡ xs
take-length [] = refl
take-length {A} (x ∷ xs) = ap (λ (t : List A). x ∷ t) (take-length xs)

-- What was sent of the text so far, when at least its length was.
all_sent :
    (text sent unsent : Bytes) → text ≡ sent ++ unsent → length text ≤ length sent → sent ≡ text
all_sent text sent [] whole enough = sym (whole ∙ append-nil sent)
all_sent text sent (x ∷ unsent) whole enough =
    absurd (omega (arith, enough, ap length whole, length-append sent (x ∷ unsent)))

abbrev pub shown : Bytes → Text
shown reply = lit "Reply is: " ++ reply ++ lit "\n"

client-whole : (line : Bytes) → client line (request line) ≡ some (shown (request line))
unfolding client read
client-whole line = ground (arith, take-length (request line))

-- The client of a session that has received its request, in whatever state the session is, shows
-- the request itself or gets no reply: no other reply is possible.
pub client-echo :
    (asio : Asio) (line : Bytes) (now : ℕ) (s : Session)
    → IsDocumented asio
    → Reach asio (go now) s
    → s.received ≡ request line
    → (client line s.sent ≡ none) ⊎ (client line s.sent ≡ some (shown (request line)))
unfolding client read
client-echo asio line now s law r arrived =
    let (unsent, whole, fits) = received-echo asio now s law r in
    elim (Bool-cases (leb (length (request line)) (length s.sent))) [
      | inl enough ↦ inr (
          rw (all_sent (request line) s.sent unsent (sym arrived ∙ whole) (ground arith))
            (client-whole line))
      | inr short ↦ inl (ground arith)
    ]

record Echoed (now : ℕ) (text : Bytes) : Type 0 where
  state : Session
  reached : Reach documented (go now) state
  still_open : state.is_open ≡ true
  at_read : state.reader ≡ reading
  got : state.received ≡ text
  gave : state.sent ≡ text

abbrev pub IsChunk : Bytes → Type 0
IsChunk bytes = (0 < length bytes) × (length bytes ≤ buffer_size)

abbrev pub concat : List Bytes → Bytes
concat [] = []
concat (c ∷ cs) = c ++ concat cs
