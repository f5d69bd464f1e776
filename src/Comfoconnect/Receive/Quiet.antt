-- ===== src/Comfoconnect/Receive/Quiet.antt =====
-- What `get_message_from_socket` writes.
use comfoconnectbridge.Prelude.{ℕ, ◌≡◌, refl, ◌∙◌, arith, List, [], ◌∷◌, ◌++◌, ◌-◌, length, take}
use comfoconnectbridge.Go.Binary.{Bytes}
use comfoconnectbridge.Go.Conn.{ReadEvent, chunk, fault, closed, Conn}
use comfoconnectbridge.Proto.Codec.{Codec}
use comfoconnectbridge.Comfoconnect.Socket.{read_loop, read_bytes}
use comfoconnectbridge.Comfoconnect.Receive.{get_message_from_socket}
use comfoconnectbridge.Comfoconnect.Receive.Keeps.{Relation, left, get_message_from_socket-Keeps}

abbrev pub IsKept : Conn → Conn → Type 0
IsKept c c' = (c'.sent ≡ c.sent) × (c'.writes ≡ c.writes)

read_loop-IsKept :
    (c : Conn) (size : ℕ) (result : Bytes) (es : List ReadEvent)
    → IsKept c (left (read_loop c size result es))
unfolding read_loop
read_loop-IsKept c size result [] = (refl, refl)
read_loop-IsKept c size result (fault e ∷ es) = (refl, refl)
read_loop-IsKept c size result (closed ∷ es) = (refl, refl)
read_loop-IsKept c size result (chunk bs ∷ es) =
    let again : IsKept c
        (left (read_loop c (size - length (take size bs)) (result ++ take size bs) es)) =
      read_loop-IsKept c (size - length (take size bs)) (result ++ take size bs) es in
    ground arith

read_bytes-IsKept : (n : ℕ) (c : Conn) → IsKept c (left (read_bytes n c))
unfolding read_bytes
read_bytes-IsKept n c = ground (arith, read_loop-IsKept c n [] c.inbox)

abbrev quiet : Relation
quiet = record {
  Related = IsKept;
  unchanged = λ c. (refl, refl);
  chained = λ c1 c2 c3 p q. (q.0 ∙ p.0, q.1 ∙ p.1);
  read = read_bytes-IsKept;
}

-- Receiving a message writes nothing, however it ends.
pub get_message_from_socket-IsKept :
    (codec : Codec) (c : Conn) → IsKept c (left (get_message_from_socket codec c))
get_message_from_socket-IsKept codec c = (get_message_from_socket-Keeps quiet codec).keeps c
