-- ===== src/Http/Files/Body.antt =====
-- What the handler of src/serverResource.hpp sends for a file.
use asio_coro_frame.Base.{
  ℕ, zero, suc, ◌+◌, ◌≤◌, ◌<◌, ◌≡◌, refl, ◌∙◌, ap, List, [], ◌∷◌, ◌++◌, Option, none, some, Text,
  lit, arith, ltb, take, drop, length, length-drop, length-take-le, take-append-drop, Bool-cases,
  inl, inr, All, append-nil,
}
use asio_coro_frame.Http.Strings.{number, decimal, number-decimal}
use asio_coro_frame.Http.Files.{
  Output, write, flush, header, reply, send_chunks, send_body, send_file, buffer_size, sent,
}

-- the bytes that are sent
unfoldable pub bytes : List Output → Text
bytes [] = []
bytes (write s ∷ outputs) = s ++ bytes outputs
bytes (flush ∷ outputs) = bytes outputs

abbrev pub IsUpTo : ℕ → Output → Type 0
IsUpTo size (write s) = length s ≤ size
IsUpTo size flush = Unit

send_chunks-bytes :
    (fuel size : ℕ) (content : Text)
    → length content < fuel
    → 0 < size
    → (outputs : List Output) × (send_chunks fuel size content ≡ some outputs)
      × (bytes outputs ≡ content)
      × All (IsUpTo size) outputs
unfolding send_chunks bytes
send_chunks-bytes zero size content h k = absurd (omega arith)
send_chunks-bytes (suc fuel) size [] h k = ([], refl, refl, tt)
send_chunks-bytes (suc fuel) size (c ∷ rest) h k =
    let fewer = length-drop size (c ∷ rest) in
    let (outputs, run, all, small) =
      send_chunks-bytes fuel size (drop size (c ∷ rest)) (omega arith) k in
    (
      write (take size (c ∷ rest)) ∷ flush ∷ outputs,
      rw (run, send_chunks) refl,
      rw all (take-append-drop size (c ∷ rest)),
      (length-take-le size (c ∷ rest), (tt, small)),
    )

-- A file is sent whole, in writes of at most 128 KB.
pub send_body-bytes :
    (content : Text)
    → (outputs : List Output) × (send_body content ≡ some outputs)
      × (bytes outputs ≡ content)
      × All (IsUpTo buffer_size) outputs
unfolding send_body bytes
send_body-bytes content = elim (Bool-cases (ltb buffer_size (length content))) [
  | inl large ↦
      let (outputs, run, all, small) =
        send_chunks-bytes (length content + 1) buffer_size content (omega arith) (omega arith) in
      (outputs, rw (large, run, send_body) refl, all, small)
  | inr small ↦
      (write content ∷ [], rw (small, send_body) refl, append-nil content, (ground arith, tt))
]

-- what is answered for a name and what the disk has under it
abbrev pub answer : Text → Option Text → Text × Text
answer filename none = (lit "400 Bad Request", lit "Could not open file " ++ filename)
answer filename (some content) = (lit "200 OK", content)

-- Whatever the size of the file and whether it opens: the response is a header with the number of the
-- bytes that follow it, in decimal, and these are the bytes of the file or the message.
pub send_file-bytes :
    (filename : Text) (found : Option Text)
    → (outputs : List Output) × (send_file filename found
        ≡ some
            (write (header (answer filename found).0 (length (answer filename found).1)) ∷ outputs))
      × (bytes outputs ≡ (answer filename found).1)
      × (number (decimal (length (bytes outputs))) 0 ≡ length (answer filename found).1)
unfolding send_file bytes reply
send_file-bytes filename none =
    let message : Text = lit "Could not open file " ++ filename in
    (
      write message ∷ [],
      refl,
      append-nil message,
      number-decimal (length (message ++ [])) ∙ ap length (append-nil message),
    )
send_file-bytes filename (some content) =
    let (outputs, run, all, small) = send_body-bytes content in
    (outputs, rw (run, sent) refl, all, number-decimal (length (bytes outputs)) ∙ ap length all)
