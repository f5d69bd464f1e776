-- ===== src/Tests/Wire.antt =====
-- A small protobuf codec for the tests: the operation's type and reference, and the payloads of a time
-- request and of a process data notification, each number in one byte.
use comfoconnectbridge.Prelude.{ℕ, Option, none, some, List, [], ◌∷◌, ◌++◌, if◌then◌else◌, ◌==◌}
use comfoconnectbridge.Go.Binary.{Bytes}
use comfoconnectbridge.Go.Conn.{ReadEvent, Conn}
use comfoconnectbridge.Proto.Enums.{OperationType}
use comfoconnectbridge.Proto.Messages.{GatewayOperation}
use comfoconnectbridge.Proto.Payload.{Payload}
use comfoconnectbridge.Proto.Codec.{Codec}
use comfoconnectbridge.Comfoconnect.Message.{Message}

abbrev pub type_of : ℕ → OperationType
type_of n =
    if n == 30
    then OperationType.cn_time_request_type
    else if n == 40
    then OperationType.cn_rpdo_notification_type
    else if n == 2
    then OperationType.register_app_request_type
    else if n == 52
    then OperationType.register_app_confirm_type
    else if n == 3
    then OperationType.start_session_request_type
    else if n == 71
    then OperationType.cn_rpdo_confirm_type
    else if n == 53
    then OperationType.start_session_confirm_type
    else OperationType.unrecognized n

abbrev pub number_of : OperationType → ℕ
number_of OperationType.cn_time_request_type = 30
number_of OperationType.cn_rpdo_notification_type = 40
number_of OperationType.register_app_request_type = 2
number_of OperationType.register_app_confirm_type = 52
number_of OperationType.start_session_confirm_type = 53
number_of OperationType.start_session_request_type = 3
number_of OperationType.cn_rpdo_confirm_type = 71
number_of (OperationType.unrecognized n) = n
number_of _ = 0

abbrev pub operation : OperationType → ℕ → GatewayOperation
operation t r = record {
  type = some t;
  result = none;
  result_description = none;
  reference = some r;
}

abbrev marshal_fields : Option OperationType → Option ℕ → Bytes
marshal_fields (some t) (some r) = 8 ∷ number_of t ∷ 32 ∷ r ∷ []
marshal_fields (some t) none = 8 ∷ number_of t ∷ []
marshal_fields none (some r) = 32 ∷ r ∷ []
marshal_fields none none = []

abbrev unmarshal_fields : Bytes → Option GatewayOperation
unmarshal_fields (a ∷ t ∷ b ∷ r ∷ []) = some (operation (type_of t) r)
unmarshal_fields (a ∷ r ∷ []) =
    some (record { type = none; result = none; result_description = none; reference = some r })
unmarshal_fields _ = none

abbrev marshal_number : Option ℕ → Bytes
marshal_number none = []
marshal_number (some n) = 8 ∷ n ∷ []

abbrev marshal_payload : Payload → Bytes
marshal_payload (Payload.cn_time_request r) = marshal_number r.set_time
marshal_payload (Payload.cn_rpdo_notification r) = marshal_number r.pdid
marshal_payload _ = []

abbrev unmarshal_payload : Payload → Bytes → Option Payload
unmarshal_payload (Payload.cn_time_request r) [] = some (Payload.cn_time_request r)
unmarshal_payload (Payload.cn_time_request r) (a ∷ n ∷ []) =
    some (Payload.cn_time_request (record { set_time = some n }))
unmarshal_payload Payload.register_app_confirm [] = some Payload.register_app_confirm
unmarshal_payload (Payload.start_session_confirm r) [] = some (Payload.start_session_confirm r)
unmarshal_payload (Payload.start_session_request r) [] = some (Payload.start_session_request r)
unmarshal_payload Payload.cn_rpdo_confirm [] = some Payload.cn_rpdo_confirm
unmarshal_payload _ _ = none

abbrev pub small_codec : Codec
small_codec = record {
  marshal_operation = λ o. marshal_fields o.type o.reference;
  unmarshal_operation = unmarshal_fields;
  marshal = marshal_payload;
  unmarshal = unmarshal_payload;
  marshal_search = λ b r. b;
  unmarshal_search = λ b. record { ipaddress = none; uuid = some b; version = none };
}

abbrev pub time_request : Payload
time_request = Payload.cn_time_request (record { set_time = some 9 })

abbrev pub app_uuid : Bytes
app_uuid = 1 ∷ 2 ∷ 3 ∷ 4 ∷ 5 ∷ 6 ∷ 7 ∷ 8 ∷ 9 ∷ 10 ∷ 11 ∷ 12 ∷ 13 ∷ 14 ∷ 15 ∷ 16 ∷ []

abbrev pub gateway_uuid : Bytes
gateway_uuid = 0 ∷ 0 ∷ 0 ∷ 0 ∷ 0 ∷ 37 ∷ 16 ∷ 16 ∷ 128 ∷ 1 ∷ 184 ∷ 39 ∷ 235 ∷ 249 ∷ 249 ∷ 18 ∷ []

abbrev pub time_message : Message
time_message = record {
  src = app_uuid;
  dst = gateway_uuid;
  operation = operation OperationType.cn_time_request_type 7;
  raw_message = [];
  operation_type = some time_request;
}

-- The message on the wire, as `packMessage` writes it: the length 40, Src, Dst, 4, the two parts.
abbrev pub time_wire : Bytes
time_wire =
    0 ∷ 0 ∷ 0 ∷ 40 ∷ [] ++ (app_uuid ++ (gateway_uuid ++ (0 ∷ 4 ∷ 8 ∷ 30 ∷ 32 ∷ 7 ∷ 8 ∷ 9 ∷ [])))

abbrev pub conn_with : List ReadEvent → Conn
conn_with es = record { inbox = es; writes = []; sent = [] }
