-- ===== src/Comfoconnect/Session/Calls.antt =====
-- The calls of a session where they succeed.
use comfoconnectbridge.Prelude.{◌≡◌, refl, ap, String, true, Option, some, [], ◌∷◌, ◌++◌}
use comfoconnectbridge.Go.Errors.{wrapped}
use comfoconnectbridge.Go.Conn.{Conn, returned, map_error, write, write_next}
use comfoconnectbridge.Proto.Enums.{OperationType, type_text, is_name}
use comfoconnectbridge.Proto.Payload.{Payload}
use comfoconnectbridge.Proto.Codec.{Codec}
use comfoconnectbridge.Comfoconnect.Message.{Message, pack_message, encode}
use comfoconnectbridge.Comfoconnect.Receive.{Failure, get_message_from_socket}
use comfoconnectbridge.Comfoconnect.Session.{send_bytes, expect_type, send_message, receive_message}

pub expect_type-returned :
    (name : String) (o : Option OperationType) (t : OperationType) (c : Conn)
    → o ≡ some t
    → is_name (type_text t) name ≡ true
    → expect_type name o c ≡ returned tt c
expect_type-returned name o t c ho hn = rw (ho, hn) refl

module _ (codec : Codec) where
  pub send_message-returned :
      (text : String) (m : Message) (p : Payload) (c : Conn)
      → m.operation_type ≡ some p
      → c.writes ≡ []
      → send_message codec text m c
        ≡ returned tt (record c { sent = c.sent ++ (pack_message codec m m.operation p ∷ []) })
  unfolding send_message send_bytes encode write write_next
  send_message-returned text m p c hp hw = rw (hp, hw) refl

  pub receive_message-returned :
      (text : String) (c c' : Conn) (m : Message)
      → get_message_from_socket codec c ≡ returned m c'
      → receive_message codec text c ≡ returned m c'
  unfolding receive_message
  receive_message-returned text c c' m h =
      ap (λ o. map_error (λ (f : Failure). wrapped text f.error) (λ _. o) c) h
