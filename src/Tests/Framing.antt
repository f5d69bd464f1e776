-- ===== src/Tests/Framing.antt =====
-- Receiving and packing at concrete inputs.
use comfoconnectbridge.Prelude.{
  ◌+◌, ◌<◌, ◌≤◌, ◌^◌, ◌≡◌, refl, arith, true, ◌⊎◌, none, some, [], ◌∷◌, ◌++◌, length, take, drop,
}
use comfoconnectbridge.Go.Errors.{op_error, cause, value}
use comfoconnectbridge.Go.Binary.{uint32, uint16, put_uint32, put_uint16}
use comfoconnectbridge.Go.Conn.{chunk, fault, Conn, returned, failed, panicked}
use comfoconnectbridge.Comfoconnect.Socket.{read_bytes}
use comfoconnectbridge.Comfoconnect.Socket.Stream.{
  byte, broken, items, all_bytes, view, take_bytes, read_bytes-take_bytes,
}
use comfoconnectbridge.Comfoconnect.Message.{Message, pack_message, encode}
use comfoconnectbridge.Comfoconnect.Receive.{
  Frame, complete_message, get_message_from_socket, Failure,
}
use comfoconnectbridge.Comfoconnect.Receive.Taken.{IsFramed}
use comfoconnectbridge.Comfoconnect.Receive.Parsed.{Received, get_message_from_socket_returned}
use comfoconnectbridge.Comfoconnect.Receive.RoundTrip.{
  IsSendable, ReadsBack, get_message_from_socket-pack_message, encode_received,
}
use comfoconnectbridge.Comfoconnect.Receive.Errors.{
  get_message_from_socket_panics, get_message_from_socket_interrupted, raw_message-length,
}
use comfoconnectbridge.Proto.Enums
use comfoconnectbridge.Proto.Payload
use comfoconnectbridge.Proto.Enums.{OperationType}
use comfoconnectbridge.Comfoconnect.Types.{get_struct_for_type}
use comfoconnectbridge.Tests.Wire.{
  small_codec, time_request, time_message, time_wire, app_uuid, gateway_uuid, conn_with,
}

-- The wire bytes cut into three chunks, the second inside the length field.
abbrev pub three_chunks : Conn
three_chunks =
    conn_with (chunk (take 2 time_wire) ∷ chunk [] ∷ chunk (drop 2 time_wire ++ (99 ∷ [])) ∷ [])

abbrev pub received_message : Message
received_message = record time_message { raw_message = time_wire }

time_message_packed : encode small_codec time_message ≡ value time_wire
unfolding encode put_uint32 put_uint16
time_message_packed = refl

pub time_message_received :
    get_message_from_socket small_codec three_chunks
    ≡ returned received_message (conn_with (chunk (99 ∷ []) ∷ []))
unfolding get_message_from_socket read_bytes uint32 uint16 get_struct_for_type Enums.type_text
time_message_received = refl

-- An inbox of bytes and failures.
cut_inbox : items (three_chunks.inbox) ≡ all_bytes time_wire ++ (byte 99 ∷ [])
unfolding items
cut_inbox = refl

packed_inbox :
    items three_chunks.inbox
    ≡ all_bytes (pack_message small_codec time_message time_message.operation time_request)
      ++ (byte 99 ∷ [])
unfolding items pack_message put_uint32 put_uint16
packed_inbox = refl

pub sendable : IsSendable small_codec time_message time_request
sendable = record {
  payload_held = refl;
  src_size = refl;
  dst_size = refl;
  operation_some = omega arith;
  total_capped = omega arith;
}

pub reads_back : ReadsBack small_codec time_message time_request
unfolding get_struct_for_type Enums.type_text
reads_back = record {
  type = OperationType.cn_time_request_type;
  empty = Payload.cn_time_request (record { set_time = none });
  type_set = refl;
  struct_found = refl;
  operation_back = refl;
  payload_back = refl;
}

get_message_from_socket-pack_message_example :
    (c' : Conn) × (get_message_from_socket small_codec three_chunks
      ≡ returned
          (record time_message {
            raw_message = pack_message small_codec time_message time_message.operation time_request;
          })
          c')
    × (items c'.inbox ≡ byte 99 ∷ [])
get_message_from_socket-pack_message_example =
    get_message_from_socket-pack_message small_codec three_chunks time_message time_request
      (byte 99 ∷ []) sendable reads_back packed_inbox

get_message_from_socket_returned_example :
    Received small_codec three_chunks received_message (conn_with (chunk (99 ∷ []) ∷ []))
get_message_from_socket_returned_example =
    get_message_from_socket_returned small_codec three_chunks received_message
      (conn_with (chunk (99 ∷ []) ∷ [])) time_message_received

read_bytes-take_bytes_example :
    view (read_bytes 4 three_chunks) ≡ take_bytes 4 (items three_chunks.inbox)
read_bytes-take_bytes_example = read_bytes-take_bytes 4 three_chunks (omega arith)

abbrev time_frame : Frame
time_frame = record {
  length_bytes = 0 ∷ 0 ∷ 0 ∷ 40 ∷ [];
  src = app_uuid;
  dst = gateway_uuid;
  operation_length_bytes = 0 ∷ 4 ∷ [];
  operation_bytes = 8 ∷ 30 ∷ 32 ∷ 7 ∷ [];
  operation_type_bytes = 8 ∷ 9 ∷ [];
}

-- The frame as it was received, with the parts written out.
abbrev received_time :
    Received small_codec three_chunks received_message (conn_with (chunk (99 ∷ []) ∷ []))
unfolding uint32 uint16 get_struct_for_type Enums.type_text items
received_time = record {
  frame = time_frame;
  framed = record {
    total = 40;
    operation_length = 4;
    length_field = refl;
    total_capped = omega arith;
    operation_field = refl;
    operation_bounds = omega arith;
    length_size = refl;
    src_size = refl;
    dst_size = refl;
    operation_length_size = refl;
    operation_size = refl;
    type_size = refl;
  };
  parsed = record {
    type = OperationType.cn_time_request_type;
    empty = Payload.cn_time_request (record { set_time = none });
    payload = time_request;
    raw_whole = refl;
    src_same = refl;
    dst_same = refl;
    operation_read = refl;
    type_set = refl;
    struct_found = refl;
    payload_read = refl;
    payload_kept = refl;
  };
  taken = refl;
}

encode_received_example : encode small_codec received_message ≡ value time_wire
unfolding received_time uint32 uint16 get_struct_for_type Enums.type_text items
encode_received_example =
    encode_received small_codec three_chunks received_message (conn_with (chunk (99 ∷ []) ∷ []))
      received_time (omega arith) refl refl

raw_message-length_example :
    (length time_wire ≡ 40 + 4) × (34 + 4 ≤ 40)
    ⊎ (length time_wire ≡ 2 ^ 32 + 40 + 4) × (40 < 34 + 4)
unfolding received_time uint32 uint16 get_struct_for_type Enums.type_text items
raw_message-length_example =
    raw_message-length small_codec three_chunks received_message (conn_with (chunk (99 ∷ []) ∷ []))
      received_time

-- A frame whose operation has a reference and no type.
abbrev untyped_frame : Frame
untyped_frame = record time_frame {
  length_bytes = 0 ∷ 0 ∷ 0 ∷ 36 ∷ [];
  operation_length_bytes = 0 ∷ 2 ∷ [];
  operation_bytes = 32 ∷ 7 ∷ [];
  operation_type_bytes = [];
}

abbrev untyped_conn : Conn
untyped_conn = conn_with (chunk (complete_message untyped_frame) ∷ [])

untyped_frame-IsFramed : IsFramed untyped_frame
unfolding uint32 uint16
untyped_frame-IsFramed = record {
  total = 36;
  operation_length = 2;
  length_field = refl;
  total_capped = omega arith;
  operation_field = refl;
  operation_bounds = omega arith;
  length_size = refl;
  src_size = refl;
  dst_size = refl;
  operation_length_size = refl;
  operation_size = refl;
  type_size = refl;
}

untyped_inbox : items untyped_conn.inbox ≡ all_bytes (complete_message untyped_frame) ++ []
unfolding items
untyped_inbox = refl

get_message_from_socket_panics_example :
    (c' : Conn) × (get_message_from_socket small_codec untyped_conn ≡ panicked c')
    × (items c'.inbox ≡ [])
get_message_from_socket_panics_example =
    get_message_from_socket_panics small_codec untyped_conn untyped_frame
      (record { type = none; result = none; result_description = none; reference = some 7 }) []
      untyped_frame-IsFramed untyped_inbox refl refl

abbrev long_conn : Conn
long_conn = conn_with (chunk (0 ∷ 0 ∷ 4 ∷ 1 ∷ 5 ∷ []) ∷ [])

long_length : uint32 (0 ∷ 0 ∷ 4 ∷ 1 ∷ []) ≡ value 1025
unfolding uint32
long_length = refl

long_inbox : items long_conn.inbox ≡ all_bytes (0 ∷ 0 ∷ 4 ∷ 1 ∷ []) ++ (byte 5 ∷ [])
unfolding items
long_inbox = refl

-- A read deadline that passes after two bytes of the length field.
abbrev slow_conn : Conn
slow_conn = conn_with (chunk (0 ∷ 0 ∷ []) ∷ fault (op_error true) ∷ chunk (0 ∷ 40 ∷ []) ∷ [])

slow_inbox :
    items slow_conn.inbox
    ≡ all_bytes (0 ∷ 0 ∷ []) ++ (broken (op_error true) ∷ byte 0 ∷ byte 40 ∷ [])
unfolding items
slow_inbox = refl

get_message_from_socket_interrupted_example :
    (x : Failure) × (c' : Conn) × (get_message_from_socket small_codec slow_conn ≡ failed x c')
    × (cause x.error ≡ cause (op_error true))
    × (items c'.inbox ≡ byte 0 ∷ byte 40 ∷ [])
get_message_from_socket_interrupted_example =
    get_message_from_socket_interrupted small_codec slow_conn (0 ∷ 0 ∷ []) (op_error true)
      (byte 0 ∷ byte 40 ∷ []) (omega arith) slow_inbox
