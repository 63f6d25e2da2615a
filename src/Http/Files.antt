-- ===== src/Http/Files.antt =====
-- The handler that defaultindex of src/serverResource.hpp registers, for the paths of files.
pub mod Inside
pub mod Body
use asio_coro_frame.Base.{
  ℕ, zero, suc, ◌+◌, ◌-◌, Bool, true, false, List, [], ◌∷◌, ◌++◌, Option, none, some, Text, lit,
  leb, ltb, ◌==◌, if◌then◌else◌, take, drop, length,
}
use asio_coro_frame.Http.Strings.{search, erase, decimal}

-- what the handler does with the response's stream
pub data Output : Type 0 where
  write : Text → Output
  flush : Output

-- "HTTP/1.1 " << status << "\r\nContent-Length: " << length << "\r\n\r\n"
unfoldable pub header : Text → ℕ → Text
unfolding decimal lit
header status n =
    lit "HTTP/1.1 "
    ++ (status ++ (13 ∷ 10 ∷ (lit "Content-Length: " ++ (decimal n ++ (13 ∷ 10 ∷ 13 ∷ 10 ∷ [])))))

abbrev pub dots : Text
dots = b'.' ∷ b'.' ∷ []

-- while((pos=path.find(".."))!=string::npos) path.erase(pos, 1); `none` means that the fuel ran out
unfoldable pub remove_dots : ℕ → Text → Option Text
unfolding search
remove_dots zero path = none
remove_dots (suc fuel) path = elim (search dots path) [
  | none ↦ some path
  | some pos ↦ remove_dots fuel (erase path pos 1)
]

-- filename[filename.length()-1]!='/', which is undefined on the empty text
abbrev pub ends_open : Text → Bool
ends_open [] = true
ends_open (c ∷ []) = if c == b'/' then false else true
ends_open (c ∷ d ∷ s) = ends_open (d ∷ s)

unfoldable pub with_index : Text → Text
unfolding search lit
with_index filename = elim (search (b'.' ∷ []) filename) [
  | none ↦ (if ends_open filename then filename ++ b'/' ∷ [] else filename) ++ lit "index.html"
  | some pos ↦ filename
]

unfoldable pub filename_of : Text → Option Text
unfolding remove_dots with_index lit
filename_of path = elim (remove_dots (length path + 1) path) [
  | none ↦ none
  | some p ↦ some (with_index (lit "web" ++ p))
]

abbrev pub buffer_size : ℕ
buffer_size = 131072

-- while((read_length=ifs.read(&buffer[0], buffer_size).gcount())>0), on fuel
unfoldable pub send_chunks : ℕ → ℕ → Text → Option (List Output)
send_chunks zero size rest = none
send_chunks (suc fuel) size [] = some []
send_chunks (suc fuel) size (c ∷ rest) = elim (send_chunks fuel size (drop size (c ∷ rest))) [
  | none ↦ none
  | some outputs ↦ some (write (take size (c ∷ rest)) ∷ flush ∷ outputs)
]

unfoldable pub send_body : Text → Option (List Output)
unfolding send_chunks
send_body content =
    if ltb buffer_size (length content)
    then send_chunks (length content + 1) buffer_size content
    else some (write content ∷ [])

-- a whole response at once
unfoldable pub reply : Text → Text → List Output
unfolding header
reply status content = write (header status (length content)) ∷ write content ∷ []

abbrev pub sent : Text → Option (List Output) → Option (List Output)
sent content none = none
sent content (some outputs) = some (write (header (lit "200 OK") (length content)) ∷ outputs)

-- the part after ifs.open, which gives the bytes of a file that it can open
unfoldable pub send_file : Text → Option Text → Option (List Output)
unfolding send_body reply lit
send_file filename none =
    some (reply (lit "400 Bad Request") (lit "Could not open file " ++ filename))
send_file filename (some content) = sent content (send_body content)

-- The handler after its test for "/flowNo/"; `disk` is the file system.
unfoldable pub serve_file : (Text → Option Text) → Text → Option (List Output)
unfolding filename_of send_file
serve_file disk path = elim (filename_of path) [
  | none ↦ none
  | some filename ↦ send_file filename (disk filename)
]
