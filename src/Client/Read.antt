-- ===== src/Client/Read.antt =====
-- `_read_line`: the reply of the daemon, read in pieces from the socket.
use freebsd_laboratory.Base.{
  ℕ, suc, ◌+◌, ◌*◌, List, [], ◌∷◌, ◌++◌, Option, none, some, ltb, ◌==◌, if◌then◌else◌, length, take,
  is_nil,
}
use freebsd_laboratory.Base.Text.{Text}
use freebsd_laboratory.Evidence.Json.{Json}

-- What `recv` does: it returns bytes, of which none means that the peer closed the connection, or it
-- raises OSError or TimeoutError.
pub data Received : Type 0 where
  bytes : Text → Received
  broken : Received

-- The RuntimeControlErrors. `refused` keeps the value whose str() is the message.
pub data ControlError : Type 0 where
  unavailable size_limit closed invalid_json not_an_object no_detail invalid_result : ControlError
  refused : Json → ControlError

pub data Returned (A : Type 0) : Type 0 where
  failed : ControlError → Returned A
  got : A → Returned A

unfoldable pub max_response_bytes : ℕ
max_response_bytes = 1024 * 1024

-- chunk.find(b"\n"), which is -1 where there is none
unfoldable pub find_newline : Text → Option ℕ
find_newline [] = none
find_newline (c ∷ s) =
    let rest = find_newline s in
    if c == 10 then some 0 else elim rest [ none ↦ none | some i ↦ some (suc i) ]

-- b"".join(chunks)
unfoldable pub join : List Text → Text
join [] = []
join (chunk ∷ chunks) = chunk ++ join chunks

-- What follows the loop, for the chunks and the size at its end.
unfoldable pub end_of_loop : List Text → ℕ → Returned Text
end_of_loop chunks size =
    if ltb max_response_bytes size
    then failed size_limit
    else if is_nil chunks
    then failed closed
    else got (join chunks)

-- The loop: `stream` is what `recv` returns or raises, one after the other; at its end the
-- connection is closed.
unfoldable pub read_loop : List Text → ℕ → List Received → Returned Text
read_loop chunks size [] = end_of_loop chunks size
read_loop chunks size (broken ∷ stream) = failed unavailable
read_loop chunks size (bytes [] ∷ stream) = end_of_loop chunks size
read_loop chunks size (bytes (c ∷ chunk) ∷ stream) =
    let longer = size + length (c ∷ chunk) in
    let rest = read_loop (chunks ++ (c ∷ chunk) ∷ []) longer stream in
    elim (find_newline (c ∷ chunk)) [
      | some newline ↦
          let head = take newline (c ∷ chunk) in
          end_of_loop (chunks ++ head ∷ []) (size + length head)
      | none ↦ if ltb max_response_bytes longer then failed size_limit else rest
    ]

unfoldable pub read_line : List Received → Returned Text
read_line stream = read_loop [] 0 stream
