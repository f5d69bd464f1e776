-- ===== src/Tests/Assertions.antt =====
-- The payload of a received message at a concrete input.
use comfoconnectbridge.Prelude.{◌≡◌, ap, arith, some, [], ◌∷◌}
use comfoconnectbridge.Go.Binary.{Bytes}
use comfoconnectbridge.Go.Conn.{chunk}
use comfoconnectbridge.Proto.Payload.{Payload, struct_name}
use comfoconnectbridge.Proto.Codec.{KeepsStruct}
use comfoconnectbridge.Comfoconnect.Receive.Assertions.{IsTyped, get_message_from_socket-IsTyped}
use comfoconnectbridge.Tests.Wire.{small_codec, conn_with}
use comfoconnectbridge.Tests.Framing.{three_chunks, received_message, time_message_received}

unmarshal-struct :
    (z p : Payload) (b : Bytes) → small_codec.unmarshal z b ≡ some p → struct_name p ≡ struct_name z
unmarshal-struct (Payload.cn_time_request r) p [] h = ap struct_name (cc)
unmarshal-struct (Payload.cn_time_request r) p (a ∷ []) h = cc
unmarshal-struct (Payload.cn_time_request r) p (a ∷ n ∷ []) h = unfold struct_name in ground arith
unmarshal-struct (Payload.cn_time_request r) p (a ∷ n ∷ k ∷ ks) h = cc
unmarshal-struct Payload.register_app_confirm p [] h = unfold struct_name in ground arith
unmarshal-struct (Payload.start_session_confirm r) p [] h = unfold struct_name in ground arith
unmarshal-struct (Payload.start_session_request r) p [] h = unfold struct_name in ground arith
unmarshal-struct Payload.cn_rpdo_confirm p [] h = unfold struct_name in ground arith
unmarshal-struct _ p [] h = absurd (ground arith)
unmarshal-struct _ p (a ∷ b) h = absurd (ground arith)

small_codec-KeepsStruct : KeepsStruct small_codec
small_codec-KeepsStruct = record { unmarshal_struct = unmarshal-struct }

get_message_from_socket-IsTyped_example : IsTyped received_message
get_message_from_socket-IsTyped_example =
    get_message_from_socket-IsTyped small_codec three_chunks received_message
      (conn_with (chunk (99 ∷ []) ∷ [])) small_codec-KeepsStruct time_message_received
