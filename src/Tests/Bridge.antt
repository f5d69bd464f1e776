-- ===== src/Tests/Bridge.antt =====
-- The bridge and its session at concrete inputs.
use comfoconnectbridge.Prelude.{
  ℕ, ◌+◌, ◌-◌, ◌%◌, ◌≡◌, refl, arith, true, false, none, some, List, [], ◌∷◌, ◌++◌, ◌⊎◌, ltb,
}
use comfoconnectbridge.Go.Errors.{GoError, io_eof, wrapped, cause, is_eof, is_timeout, value}
use comfoconnectbridge.Go.Binary.{put_uint32, put_uint16, uint32, uint16}
use comfoconnectbridge.Go.Conn.{write, Conn, chunk, closed, refused, returned, failed}
use comfoconnectbridge.Proto.Enums
use comfoconnectbridge.Proto.Payload
use comfoconnectbridge.Proto.Enums.{OperationType, type_text, is_name}
use comfoconnectbridge.Comfoconnect.Types.{get_struct_for_type}
use comfoconnectbridge.Comfoconnect.Socket.{read_bytes}
use comfoconnectbridge.Comfoconnect.Socket.Stream.{byte, items, all_bytes}
use comfoconnectbridge.Comfoconnect.Message.{Message, pack_message, encode}
use comfoconnectbridge.Comfoconnect.Receive.{get_message_from_socket}
use comfoconnectbridge.Comfoconnect.Receive.RoundTrip.{IsSendable, ReadsBack}
use comfoconnectbridge.Comfoconnect.Session.{Session, keep_alive, next_reference, handshake}
use comfoconnectbridge.Comfoconnect.Session.Handshake.{
  registration, session_start, Exchanged, handshake_returned,
}
use comfoconnectbridge.Comfoconnect.Session.References.{keep_alive_reference}
use comfoconnectbridge.Proxy.{
  App, Work, masquerade, handle_message, client_send, client_receive, generate_metrics,
  forward_to_gateway,
}
use comfoconnectbridge.Proto.Messages.{CnRpdoNotification}
use comfoconnectbridge.Comfoconnect.Rpdo.{new_ppid}
use comfoconnectbridge.Comfoconnect.Rpdo.Values.{is_panic, needed}
use comfoconnectbridge.Proxy.Metrics.{generate_metrics_panics}
use comfoconnectbridge.Tests.Wire.{
  operation, small_codec, time_request, time_message, app_uuid, gateway_uuid, conn_with,
}
use comfoconnectbridge.Proxy.Forward.{
  is_answered, IsAnswered, client_send-get_message_from_socket, handle_message_lem,
}

abbrev pub bridge_uuid : List ℕ
bridge_uuid = 9 ∷ 9 ∷ 9 ∷ 9 ∷ 9 ∷ 9 ∷ 9 ∷ 9 ∷ 9 ∷ 9 ∷ 9 ∷ 9 ∷ 9 ∷ 9 ∷ 9 ∷ 9 ∷ []

abbrev pub session : Session
session = record { ip = "192.168.0.1"; src = bridge_uuid; dst = gateway_uuid }

abbrev pub idle : Conn
idle = conn_with []

-- The second app's write fails after three bytes.
abbrev apps : List App
apps =
    record { uuid = app_uuid; conn = idle }
    ∷ record {
      uuid = bridge_uuid;
      conn = record { inbox = []; writes = refused 3 io_eof ∷ []; sent = [] };
    }
    ∷ record { uuid = app_uuid; conn = idle }
    ∷ []

abbrev sent_message : Message
sent_message = masquerade bridge_uuid gateway_uuid time_message

abbrev gateway : Conn
gateway = conn_with (
    chunk (
      0 ∷ 0 ∷ 0 ∷ 40 ∷ []
      ++ (bridge_uuid ++ (gateway_uuid ++ (0 ∷ 4 ∷ 8 ∷ 30 ∷ 32 ∷ 7 ∷ 8 ∷ 9 ∷ 77 ∷ []))))
    ∷ [])

gateway_inbox :
    items gateway.inbox
    ≡ all_bytes (pack_message small_codec sent_message time_message.operation time_request)
      ++ (byte 77 ∷ [])
unfolding items pack_message put_uint32 put_uint16
gateway_inbox = refl

sendable : IsSendable small_codec sent_message time_request
sendable = record {
  payload_held = refl;
  src_size = refl;
  dst_size = refl;
  operation_some = omega arith;
  total_capped = omega arith;
}

reads_back : ReadsBack small_codec sent_message time_request
unfolding get_struct_for_type Enums.type_text
reads_back = record {
  type = OperationType.cn_time_request_type;
  empty = Payload.cn_time_request (record { set_time = none });
  type_set = refl;
  struct_found = refl;
  operation_back = refl;
  payload_back = refl;
}

client_send-get_message_from_socket_example :
    (b : List ℕ) × (gateway' : Conn) × (client_send small_codec bridge_uuid session time_message
        idle
      ≡ returned none (record idle { sent = [] ++ (b ∷ []) }))
    × (get_message_from_socket small_codec gateway
        ≡ returned
            (record time_message { src = bridge_uuid; dst = gateway_uuid; raw_message = b })
            gateway')
    × (items gateway'.inbox ≡ byte 77 ∷ [])
client_send-get_message_from_socket_example =
    client_send-get_message_from_socket small_codec bridge_uuid session time_message time_request
      idle gateway (byte 77 ∷ []) sendable reads_back refl gateway_inbox

abbrev lost_error : GoError
lost_error =
    wrapped "lost connection to gateway"
      (wrapped "reading message length" (wrapped "reading from socket" io_eof))

lost :
    client_receive small_codec (conn_with (closed ∷ []))
    ≡ failed lost_error (conn_with (closed ∷ []))
unfolding client_receive get_message_from_socket read_bytes is_eof cause is_timeout
lost = refl

abbrev app : App
app = record { uuid = app_uuid; conn = idle }

handle_message_lem_example :
    (w : Work) × (handle_message small_codec 77 app_uuid time_message ≡ value w)
    × (IsAnswered small_codec time_message OperationType.cn_time_request_type time_request w
        ⊎ (is_answered OperationType.cn_time_request_type ≡ false)
          × (w.replies ≡ [])
          × (w.out ≡ time_message ∷ [])
          × (w.uuid ≡ app_uuid))
handle_message_lem_example =
    handle_message_lem small_codec 77 app_uuid time_message OperationType.cn_time_request_type
      time_request refl refl

two_ticks : (keep_alive small_codec 2 session 1024 idle).0 ≡ some 2
unfolding keep_alive next_reference
two_ticks = refl

keep_alive_reference_example : 2 ≡ (1024 + 2 - 1) % 1024 + 1
keep_alive_reference_example =
    keep_alive_reference small_codec 2 session 1024 idle 2 (omega arith) (omega arith) two_ticks

-- A gateway that confirms the registration and the session start.
abbrev confirmation : ℕ → ℕ → List ℕ
confirmation t r =
    0 ∷ 0 ∷ 0 ∷ 38 ∷ [] ++ (gateway_uuid ++ (bridge_uuid ++ (0 ∷ 4 ∷ 8 ∷ t ∷ 32 ∷ r ∷ [])))

abbrev confirming : Conn
confirming = conn_with (chunk (confirmation 52 1) ∷ chunk (confirmation 53 2) ∷ [])

abbrev confirmed : Conn
confirmed = record {
  inbox = [];
  writes = [];
  sent =
      registration small_codec bridge_uuid gateway_uuid 5
      ∷ session_start small_codec bridge_uuid gateway_uuid
      ∷ [];
}

two_confirmations :
    handshake small_codec bridge_uuid gateway_uuid 5 confirming ≡ returned tt confirmed
unfolding handshake get_message_from_socket read_bytes uint32 uint16 get_struct_for_type
    Enums.type_text is_name pack_message put_uint32 put_uint16 write encode
two_confirmations = refl

handshake_returned_example :
    (registered : Conn) × Exchanged small_codec
      (registration small_codec bridge_uuid gateway_uuid 5)
      "RegisterAppConfirmType"
      confirming
      registered
    × Exchanged small_codec
        (session_start small_codec bridge_uuid gateway_uuid)
        "StartSessionConfirmType"
        registered
        confirmed
    × (confirmed.sent
        ≡ []
          ++ (registration small_codec bridge_uuid gateway_uuid 5
              ∷ session_start small_codec bridge_uuid gateway_uuid
              ∷ []))
handshake_returned_example =
    handshake_returned small_codec bridge_uuid gateway_uuid 5 confirming tt confirmed
      two_confirmations

-- A countdown, process data 81, with two bytes where four are read.
abbrev short_notification : CnRpdoNotification
short_notification = record { pdid = some 81; raw_data = some (1 ∷ 2 ∷ []) }

abbrev short_message : Message
short_message = record time_message {
  operation = operation OperationType.cn_rpdo_notification_type 0;
  operation_type = some (Payload.cn_rpdo_notification short_notification);
}

generate_metrics_panics_example :
    (is_panic (generate_metrics short_message)
      ≡ ltb 2 (needed (new_ppid 81 (some (1 ∷ 2 ∷ []))).kind))
    × (is_panic (forward_to_gateway short_message)
        ≡ ltb 2 (needed (new_ppid 81 (some (1 ∷ 2 ∷ []))).kind))
generate_metrics_panics_example =
    generate_metrics_panics short_message short_notification 81 refl refl refl

short_converter : ltb 2 (needed (new_ppid 81 (some (1 ∷ 2 ∷ []))).kind) ≡ true
unfolding new_ppid
short_converter = refl
