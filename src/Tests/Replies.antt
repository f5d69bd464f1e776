-- ===== src/Tests/Replies.antt =====
-- Responses, tables and process data at concrete inputs.
use comfoconnectbridge.Prelude.{
  ◌+◌, ◌≡◌, refl, arith, true, false, ◌⊎◌, none, some, [], ◌∷◌, length,
}
use mathlib.Core.Option
use comfoconnectbridge.Prelude.Int.{pos, negsuc}
use comfoconnectbridge.Go.Errors.{value}
use comfoconnectbridge.Go.Binary.{Bytes, uint32, put_uint32, put_uint16}
use comfoconnectbridge.Proto.Enums.{OperationType, GatewayResult, type_text, to_int32}
use comfoconnectbridge.Comfoconnect.Types.{get_struct_for_type, get_response_type}
use comfoconnectbridge.Comfoconnect.Types.Tables.{has_struct, response-numbers}
use comfoconnectbridge.Comfoconnect.Message.{Message, pack_message, create_response}
use comfoconnectbridge.Comfoconnect.Message.Responses.{IsAnswer, create_response_lem}
use comfoconnectbridge.Comfoconnect.Message.Layout.{pack_message-length}
use comfoconnectbridge.Comfoconnect.Rpdo.{Converter, rpdo_type3, new_ppid, to_float64}
use comfoconnectbridge.Comfoconnect.Rpdo.Values.{is_signed_id, new_ppid_negative}
use comfoconnectbridge.Tests.Wire.{small_codec, time_request, time_message, app_uuid}

response-numbers_example :
    Option.map
      (λ p. to_int32 (get_response_type p))
      (get_struct_for_type (type_text OperationType.set_support_id_request_type))
    ≡ some 0
unfolding to_int32
response-numbers_example = response-numbers OperationType.set_support_id_request_type

create_response_lem_example :
    (has_struct (get_response_type time_request) ≡ false)
      × (create_response small_codec 77 time_message GatewayResult.ok ≡ value none)
    ⊎ ((b : Bytes) × (create_response small_codec 77 time_message GatewayResult.ok ≡ value (some b))
        × IsAnswer small_codec time_message GatewayResult.ok time_request b)
create_response_lem_example =
    create_response_lem small_codec 77 time_message GatewayResult.ok time_request refl

-- A message whose Src has 32 bytes, as `NewSession` makes it where it is given none.
abbrev wide_message : Message
wide_message = record time_message {
  src = 0 ∷ 0 ∷ 0 ∷ 0 ∷ 0 ∷ 0 ∷ 0 ∷ 0 ∷ 0 ∷ 0 ∷ 0 ∷ 0 ∷ 0 ∷ 0 ∷ 0 ∷ 0 ∷ app_uuid;
}

wide_length :
    uint32 (pack_message small_codec wide_message wide_message.operation time_request) ≡ value 40
unfolding uint32 pack_message put_uint32 put_uint16
wide_length = refl

pack_message-length_example :
    40 + 4 + 32 + 16
    ≡ length (pack_message small_codec wide_message wide_message.operation time_request) + 32
pack_message-length_example =
    pack_message-length small_codec wide_message wide_message.operation time_request 40
      (omega arith) wide_length

abbrev short_countdown : Converter
short_countdown = record {
  kind = rpdo_type3;
  id = 81;
  description = "General: Countdown until next fan speed change";
  raw_value = some (1 ∷ 2 ∷ []);
}

minus_tenth : to_float64 (new_ppid 278 (some (255 ∷ 255 ∷ []))) ≡ value (negsuc 0)
unfolding to_float64 new_ppid
minus_tenth = refl

-- The same bytes of the outdoor air temperature are read as unsigned.
unsigned_outdoor : to_float64 (new_ppid 220 (some (255 ∷ 255 ∷ []))) ≡ value (pos 65535)
unfolding to_float64 new_ppid
unsigned_outdoor = refl

new_ppid_negative_example : is_signed_id 278 ≡ true
new_ppid_negative_example = new_ppid_negative 278 (some (255 ∷ 255 ∷ [])) 0 minus_tenth
