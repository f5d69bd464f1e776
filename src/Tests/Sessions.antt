-- ===== src/Tests/Sessions.antt =====
-- A session with the mock gateway at a concrete input.
use comfoconnectbridge.Prelude.{◌+◌, ◌≡◌, refl, arith, Option, some, [], ◌∷◌, ◌++◌}
use mathlib.Core.Option
use comfoconnectbridge.Go.Binary.{Bytes, put_uint32, put_uint16, uint32, uint16}
use comfoconnectbridge.Go.Errors.{GoError, io_eof, wrapped, is_timeout}
use comfoconnectbridge.Go.Conn.{Conn, chunk, closed, returned}
use comfoconnectbridge.Proto.Enums
use comfoconnectbridge.Proto.Enums.{OperationType, GatewayResult}
use comfoconnectbridge.Proto.Messages.{GatewayOperation}
use comfoconnectbridge.Proto.Payload.{Payload}
use comfoconnectbridge.Proto.Codec.{Codec}
use comfoconnectbridge.Comfoconnect.Types.{get_struct_for_type}
use comfoconnectbridge.Comfoconnect.Socket.{read_bytes}
use comfoconnectbridge.Comfoconnect.Socket.Stream.{items, all_bytes, end}
use comfoconnectbridge.Comfoconnect.Rounds.{ended}
use comfoconnectbridge.Comfoconnect.Rounds.Delivers.{IsFit, packed}
use comfoconnectbridge.Comfoconnect.Session.{handshake}
use comfoconnectbridge.Comfoconnect.Session.Handshake.{registration, session_start}
use comfoconnectbridge.MockLanC.{handle_client}
use comfoconnectbridge.MockLanC.Sessions.{
  registration_letter, start_letter, registration_confirm, start_confirm, notifications, joined,
  handshake-handle_client,
}
use comfoconnectbridge.Tests.Wire.{small_codec, app_uuid, gateway_uuid, conn_with}

-- A confirmation of a session start is read with the result OK.
abbrev with_result : GatewayOperation → GatewayOperation
with_result o = elim o.type [
  | some OperationType.start_session_confirm_type ↦ record o { result = some GatewayResult.ok }
  | _ ↦ o
]

-- A registration is read as that of the bridge with the PIN 0.
abbrev with_registration : Payload → Bytes → Option Payload
with_registration (Payload.register_app_request r) b = some (
    Payload.register_app_request
      (record { uuid = some app_uuid; pin = some 0; devicename = some "Proxy" }))
with_registration z b = small_codec.unmarshal z b

abbrev session_codec : Codec
session_codec = record small_codec {
  unmarshal_operation = λ b. Option.map with_result (small_codec.unmarshal_operation b);
  unmarshal = with_registration;
}

registration-IsFit : IsFit session_codec (registration_letter app_uuid gateway_uuid 0)
unfolding get_struct_for_type Enums.type_text
registration-IsFit = record {
  sendable = record {
    payload_held = refl;
    src_size = refl;
    dst_size = refl;
    operation_some = omega arith;
    total_capped = omega arith;
  };
  reads_back = record {
    type = _;
    empty = _;
    type_set = refl;
    struct_found = refl;
    operation_back = refl;
    payload_back = refl;
  };
}

start-IsFit : IsFit session_codec (start_letter app_uuid gateway_uuid)
unfolding get_struct_for_type Enums.type_text
start-IsFit = record {
  sendable = record {
    payload_held = refl;
    src_size = refl;
    dst_size = refl;
    operation_some = omega arith;
    total_capped = omega arith;
  };
  reads_back = record {
    type = _;
    empty = _;
    type_set = refl;
    struct_found = refl;
    operation_back = refl;
    payload_back = refl;
  };
}

registration_confirm-IsFit : IsFit session_codec (registration_confirm app_uuid gateway_uuid)
unfolding get_struct_for_type Enums.type_text
registration_confirm-IsFit = record {
  sendable = record {
    payload_held = refl;
    src_size = refl;
    dst_size = refl;
    operation_some = omega arith;
    total_capped = omega arith;
  };
  reads_back = record {
    type = _;
    empty = _;
    type_set = refl;
    struct_found = refl;
    operation_back = refl;
    payload_back = refl;
  };
}

start_confirm-IsFit : IsFit session_codec (start_confirm app_uuid gateway_uuid)
unfolding get_struct_for_type Enums.type_text
start_confirm-IsFit = record {
  sendable = record {
    payload_held = refl;
    src_size = refl;
    dst_size = refl;
    operation_some = omega arith;
    total_capped = omega arith;
  };
  reads_back = record {
    type = _;
    empty = _;
    type_set = refl;
    struct_found = refl;
    operation_back = refl;
    payload_back = refl;
  };
}

abbrev requests : Bytes
requests =
    registration session_codec app_uuid gateway_uuid 0
    ++ session_start session_codec app_uuid gateway_uuid

abbrev gateway : Conn
gateway = conn_with (chunk requests ∷ closed ∷ [])

gateway-requests : items gateway.inbox ≡ all_bytes requests ++ (end ∷ [])
unfolding items
gateway-requests = refl

-- The gateway's connection when the mock gateway is done with it.
abbrev gateway_after : Conn
gateway_after = record {
  inbox = closed ∷ [];
  writes = [];
  sent =
      packed session_codec (registration_confirm app_uuid gateway_uuid)
      ∷ packed session_codec (start_confirm app_uuid gateway_uuid)
      ∷ notifications app_uuid gateway_uuid session_codec;
}

abbrev session_error : GoError
session_error =
    wrapped "tried to read from a closed connection"
      (wrapped "reading message length" (wrapped "reading from socket" io_eof))

gateway-served :
    handle_client session_codec (λ k. 77 + k) 3 gateway ≡ ended session_error 2 gateway_after
unfolding handle_client read_bytes put_uint32 uint32 put_uint16 uint16 is_timeout
gateway-served = refl

-- What the bridge then has on its connection.
abbrev bridge : Conn
bridge = conn_with (chunk (joined gateway_after.sent) ∷ [])

bridge-confirmations : items bridge.inbox ≡ all_bytes (joined gateway_after.sent) ++ []
unfolding items
bridge-confirmations = refl

handshake-handle_client_example :
    (c' : Conn) × (handshake session_codec app_uuid gateway_uuid 0 bridge ≡ returned tt c')
    × (c'.sent
        ≡ []
          ++ (registration session_codec app_uuid gateway_uuid 0
              ∷ session_start session_codec app_uuid gateway_uuid
              ∷ []))
    × (items c'.inbox
        ≡ all_bytes (joined (notifications app_uuid gateway_uuid session_codec)) ++ [])
handshake-handle_client_example =
    handshake-handle_client session_codec (λ k. 77 + k) app_uuid gateway_uuid 0 0 2 gateway
      gateway_after bridge session_error [] (registration-IsFit, start-IsFit)
      (registration_confirm-IsFit, start_confirm-IsFit) refl refl gateway-requests gateway-served
      refl bridge-confirmations
