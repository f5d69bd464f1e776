-- ===== src/Comfoconnect/Answers.antt =====
-- pkg/comfoconnect/comfoconnect.go: the answers that `CreateResponse` puts into the response structs.
use comfoconnectbridge.Prelude.{ℕ, Option, none, some, [], ◌∷◌, if◌then◌else◌, bytes_equal}
use comfoconnectbridge.Go.Errors.{Go, value, panic}
use comfoconnectbridge.Go.Binary.{Bytes}
use comfoconnectbridge.Proto.Enums.{EnumText, is_name, GatewayResult}
use comfoconnectbridge.Proto.Messages.{GatewayOperation}
use comfoconnectbridge.Proto.Payload.{Payload}

-- The fixed contents.
abbrev pub remote_access_uuid : Bytes
remote_access_uuid =
    0x37 ∷ 0x6d ∷ 0xe9 ∷ 0xda ∷ 0x7d ∷ 0xd2 ∷ 0x43 ∷ 0xe6 ∷ 0xb8 ∷ 0xde ∷ 0x5e ∷ 0x47 ∷ 0xc7 ∷ 0x93
    ∷ 0x59 ∷ 0x5c ∷ []

abbrev pub serial_request : Bytes
serial_request = 0x02 ∷ 0x01 ∷ 0x01 ∷ 0x01 ∷ 0x15 ∷ 0x03 ∷ 0x04 ∷ 0x06 ∷ 0x05 ∷ 0x07 ∷ []

abbrev pub serial_answer : Bytes
serial_answer =
    0x02 ∷ 0x42 ∷ 0x45 ∷ 0x41 ∷ 0x30 ∷ 0x30 ∷ 0x34 ∷ 0x31 ∷ 0x38 ∷ 0x35 ∷ 0x30 ∷ 0x33 ∷ 0x31 ∷ 0x39
    ∷ 0x31 ∷ 0x30 ∷ 0x00 ∷ 0x00 ∷ 0x10 ∷ 0x10 ∷ 0xc0 ∷ 0x02 ∷ 0x00 ∷ 0x54 ∷ 0x10 ∷ 0x40 ∷ []

abbrev pub schedule_request : Bytes
schedule_request = 0x87 ∷ 0x15 ∷ 0x01 ∷ []

abbrev pub schedule_answer : Bytes
schedule_answer =
    0x0b ∷ 0x01 ∷ 0x00 ∷ 0x00 ∷ 0x00 ∷ 0x00 ∷ 0xff ∷ 0xff ∷ 0xff ∷ 0xff ∷ 0xff ∷ 0xff ∷ 0xff ∷ 0xff
    ∷ 0x01 ∷ 0x01 ∷ 0x00 ∷ 0x00 ∷ 0x00 ∷ 0x00 ∷ 0xff ∷ 0xff ∷ 0xff ∷ 0xff ∷ 0xff ∷ 0xff ∷ 0xff
    ∷ 0xff ∷ 0x01 ∷ 0x00 ∷ 0x00 ∷ 0x00 ∷ 0x00 ∷ 0x00 ∷ 0x20 ∷ 0x1c ∷ 0x00 ∷ 0x00 ∷ 0x00 ∷ 0x00
    ∷ 0x00 ∷ 0x00 ∷ 0x01 ∷ 0x00 ∷ 0x00 ∷ 0x00 ∷ 0x00 ∷ 0x00 ∷ 0x20 ∷ 0x1c ∷ 0x00 ∷ 0x00 ∷ 0x00
    ∷ 0x00 ∷ 0x00 ∷ 0x00 ∷ 0x01 ∷ 0x01 ∷ 0x00 ∷ 0x00 ∷ 0x00 ∷ 0x00 ∷ 0xff ∷ 0xff ∷ 0xff ∷ 0xff
    ∷ 0xff ∷ 0xff ∷ 0xff ∷ 0xff ∷ 0x01 ∷ 0x00 ∷ 0x00 ∷ 0x00 ∷ 0x00 ∷ 0x00 ∷ 0x58 ∷ 0x02 ∷ 0x00
    ∷ 0x00 ∷ 0x00 ∷ 0x00 ∷ 0x00 ∷ 0x00 ∷ 0x03 ∷ 0x00 ∷ 0x00 ∷ 0x00 ∷ 0x00 ∷ 0x00 ∷ 0x58 ∷ 0x02
    ∷ 0x00 ∷ 0x00 ∷ 0x00 ∷ 0x00 ∷ 0x00 ∷ 0x00 ∷ 0x03 ∷ 0x00 ∷ 0x00 ∷ 0x00 ∷ 0x00 ∷ 0x00 ∷ 0x08
    ∷ 0x07 ∷ 0x00 ∷ 0x00 ∷ 0x00 ∷ 0x00 ∷ 0x00 ∷ 0x00 ∷ 0x03 ∷ 0x00 ∷ 0x00 ∷ 0x00 ∷ 0x00 ∷ 0x00
    ∷ 0x08 ∷ 0x07 ∷ 0x00 ∷ 0x00 ∷ 0x00 ∷ 0x00 ∷ 0x00 ∷ 0x00 ∷ 0x03 ∷ 0x00 ∷ 0x00 ∷ 0x00 ∷ 0x00
    ∷ 0x00 ∷ 0x58 ∷ 0x02 ∷ 0x00 ∷ 0x00 ∷ 0x00 ∷ 0x00 ∷ 0x00 ∷ 0x00 ∷ 0x03 ∷ 0x00 ∷ 0x00 ∷ 0x00
    ∷ 0x00 ∷ 0x00 ∷ 0xb0 ∷ 0x04 ∷ 0x00 ∷ 0x00 ∷ 0x00 ∷ 0x00 ∷ 0x00 ∷ 0x00 ∷ 0x00 ∷ []

abbrev pub property_request : Bytes
property_request = 0x87 ∷ 0x15 ∷ 0x05 ∷ []

abbrev pub property_answer : Bytes
property_answer =
    0x01 ∷ 0x00 ∷ 0x00 ∷ 0x00 ∷ 0x00 ∷ 0x00 ∷ 0x08 ∷ 0x07 ∷ 0x00 ∷ 0x00 ∷ 0x00 ∷ 0x00 ∷ 0x00 ∷ 0x00
    ∷ 0x01 ∷ []

-- A slice that is nil reads as an empty one.
abbrev pub slice : Option Bytes → Bytes
slice none = []
slice (some b) = b

-- Assignments through a type assertion, which panics at another struct.
set_current_time : ℕ → Payload → Go Payload
set_current_time t (Payload.cn_time_confirm r) =
    value (Payload.cn_time_confirm (record r { current_time = some t }))
set_current_time t _ = panic

set_version : Payload → Go Payload
set_version (Payload.version_confirm r) = value (
    Payload.version_confirm (record r {
      gateway_version = some 1049610;
      serial_number = some "DEM0116371204";
      comfo_net_version = some 1073750016;
    }))
set_version _ = panic

set_remote_access_id : Payload → Go Payload
set_remote_access_id (Payload.get_remote_access_id_confirm r) =
    value (Payload.get_remote_access_id_confirm (record r { uuid = some remote_access_uuid }))
set_remote_access_id _ = panic

-- The three tests on the request, in order; each that holds sets the answer.
unfoldable pub rmi_answer : Bytes → Option Bytes → Option Bytes
rmi_answer request m =
    let m1 = if bytes_equal request serial_request then some serial_answer else m in
    let m2 = if bytes_equal request schedule_request then some schedule_answer else m1 in
    if bytes_equal request property_request then some property_answer else m2

set_rmi_answer : Payload → Payload → Go Payload
unfolding rmi_answer
set_rmi_answer (Payload.cn_rmi_request q) (Payload.cn_rmi_response r) =
    value (Payload.cn_rmi_response (record r { message = rmi_answer (slice q.message) r.message }))
set_rmi_answer _ _ = panic

abbrev with_struct : GatewayOperation → Go Payload → Go (GatewayOperation × Payload)
with_struct o (value p) = value (o, p)
with_struct o panic = panic

-- The `switch` over the response type's name: what becomes of the result and of the struct. `now` is
-- the time in seconds since 2000, `request` the payload of the message that is answered.
unfoldable pub overrides :
    ℕ → Payload → EnumText → GatewayOperation → Payload → Go (GatewayOperation × Payload)
unfolding is_name set_current_time set_version set_remote_access_id set_rmi_answer
overrides now request name o p =
    let ok_result = record o { result = some GatewayResult.ok } in
    if is_name name "CnTimeConfirmType"
    then with_struct o (set_current_time now p)
    else if is_name name "StartSessionConfirmType"
    then value (ok_result, p)
    else if is_name name "VersionConfirmType"
    then with_struct ok_result (set_version p)
    else if is_name name "GetRemoteAccessIdConfirmType"
    then with_struct o (set_remote_access_id p)
    else if is_name name "CnRmiResponseType"
    then with_struct o (set_rmi_answer request p)
    else value (o, p)
