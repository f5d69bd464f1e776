-- ===== src/Tests/Letters.antt =====
-- Letters and a connection that holds them.
use comfoconnectbridge.Prelude.{ℕ, refl, arith, some, none, List, [], ◌∷◌, ◌++◌, take, drop}
use comfoconnectbridge.Go.Conn.{Conn, chunk, closed}
use comfoconnectbridge.Proto.Enums
use comfoconnectbridge.Proto.Enums.{OperationType}
use comfoconnectbridge.Proto.Payload.{Payload}
use comfoconnectbridge.Comfoconnect.Types.{get_struct_for_type}
use comfoconnectbridge.Comfoconnect.Receive.RoundTrip.{ReadsBack}
use comfoconnectbridge.Comfoconnect.Rounds.Delivers.{Letter, IsFit}
use comfoconnectbridge.Tests.Wire.{
  small_codec, time_request, time_message, time_wire, app_uuid, gateway_uuid, operation, conn_with,
}
use comfoconnectbridge.Tests.Framing.{sendable, reads_back}

abbrev pub time_letter : Letter
time_letter = record { message = time_message; payload = time_request }

pub time_letter-IsFit : IsFit small_codec time_letter
time_letter-IsFit = record { sendable = sendable; reads_back = reads_back }

abbrev pub letter : OperationType → ℕ → Payload → Letter
letter t r p = record {
  message = record {
    src = app_uuid;
    dst = gateway_uuid;
    operation = operation t r;
    raw_message = [];
    operation_type = some p;
  };
  payload = p;
}

abbrev pub start_letter : Letter
start_letter =
    letter OperationType.start_session_request_type 4
      (Payload.start_session_request (record { takeover = none }))

abbrev pub confirm_letter : Letter
confirm_letter = letter OperationType.cn_rpdo_confirm_type 5 Payload.cn_rpdo_confirm

start_letter-ReadsBack : ReadsBack small_codec start_letter.message start_letter.payload
unfolding get_struct_for_type Enums.type_text
start_letter-ReadsBack = record {
  type = OperationType.start_session_request_type;
  empty = start_letter.payload;
  type_set = refl;
  struct_found = refl;
  operation_back = refl;
  payload_back = refl;
}

pub start_letter-IsFit : IsFit small_codec start_letter
start_letter-IsFit = record {
  sendable = record {
    payload_held = refl;
    src_size = refl;
    dst_size = refl;
    operation_some = omega arith;
    total_capped = omega arith;
  };
  reads_back = start_letter-ReadsBack;
}

confirm_letter-ReadsBack : ReadsBack small_codec confirm_letter.message confirm_letter.payload
unfolding get_struct_for_type Enums.type_text
confirm_letter-ReadsBack = record {
  type = OperationType.cn_rpdo_confirm_type;
  empty = confirm_letter.payload;
  type_set = refl;
  struct_found = refl;
  operation_back = refl;
  payload_back = refl;
}

pub confirm_letter-IsFit : IsFit small_codec confirm_letter
confirm_letter-IsFit = record {
  sendable = record {
    payload_held = refl;
    src_size = refl;
    dst_size = refl;
    operation_some = omega arith;
    total_capped = omega arith;
  };
  reads_back = confirm_letter-ReadsBack;
}

-- The start of a session and a time request, cut inside the first length field, and then the end.
abbrev start_wire : List ℕ
start_wire = 0 ∷ 0 ∷ 0 ∷ 38 ∷ [] ++ (app_uuid ++ (gateway_uuid ++ (0 ∷ 4 ∷ 8 ∷ 3 ∷ 32 ∷ 4 ∷ [])))

abbrev pub two_letters : Conn
two_letters =
    conn_with (chunk (take 3 start_wire) ∷ chunk (drop 3 start_wire ++ time_wire) ∷ closed ∷ [])
