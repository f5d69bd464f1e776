-- ===== src/Comfoconnect/Socket.antt =====
-- pkg/comfoconnect/comfoconnect.go: `ReadBytes`.
pub mod Stream
pub mod Reads
use comfoconnectbridge.Prelude.{
  ℕ, zero, suc, ◌+◌, ◌-◌, ◌<◌, ◌≤◌, ◌≡◌, List, [], ◌∷◌, ◌++◌, length, take, drop, if◌then◌else◌,
  ltb, ◌==◌,
}
use comfoconnectbridge.Go.Errors.{GoError, io_eof, new_error, wrapped}
use comfoconnectbridge.Go.Binary.{Bytes}
use comfoconnectbridge.Go.Conn.{
  ReadEvent, chunk, fault, closed, Conn, Outcome, returned, failed, waiting, M,
}

-- What a read leaves of a chunk stands in front of the rest.
unfoldable pub unread : Bytes → List ReadEvent → List ReadEvent
unread [] es = es
unread (b ∷ bs) es = chunk (b ∷ bs) ∷ es

-- The loop: `size` bytes are still to be read, `result` has been. A read returns at most `size` bytes,
-- so the branch "read too many bytes" is never taken.
unfoldable pub read_loop : Conn → ℕ → Bytes → List ReadEvent → Outcome GoError Bytes
unfolding unread
read_loop c size result [] = waiting (record c { inbox = [] })
read_loop c size result (fault e ∷ es) =
    failed (wrapped "reading from socket" e) (record c { inbox = es })
read_loop c size result (closed ∷ es) =
    failed (wrapped "reading from socket" io_eof) (record c { inbox = closed ∷ es })
read_loop c size result (chunk bs ∷ es) =
    let result' = result ++ take size bs in
    let size' = size - length (take size bs) in
    let again = read_loop c size' result' es in
    if size' == 0 then returned result' (record c { inbox = unread (drop size bs) es }) else again

unfoldable pub read_bytes : ℕ → M GoError Bytes
unfolding read_loop
read_bytes size c =
    if ltb size 1
    then failed (new_error "Invalid size: %d" (size ∷ [])) c
    else read_loop c size [] c.inbox
