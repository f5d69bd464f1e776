-- ===== src/Tests/SetUp.antt =====
-- A client whose requests are confirmed, at a concrete input.
use comfoconnectbridge.Prelude.{ℕ, ◌≡◌, refl, arith, none, [], ◌∷◌, ◌++◌}
use comfoconnectbridge.Go.Binary.{put_uint32, put_uint16}
use comfoconnectbridge.Go.Conn.{Conn, chunk, returned}
use comfoconnectbridge.Proto.Enums
use comfoconnectbridge.Proto.Enums.{OperationType, is_name}
use comfoconnectbridge.Proto.Payload.{Payload}
use comfoconnectbridge.Comfoconnect.Types.{get_struct_for_type}
use comfoconnectbridge.Comfoconnect.Message.{pack_message}
use comfoconnectbridge.Comfoconnect.Socket.Stream.{byte, all_bytes, items}
use comfoconnectbridge.Comfoconnect.Rounds.Delivers.{Letter, IsFit, packed, stream}
use comfoconnectbridge.Client.{set_up, no_ticks}
use comfoconnectbridge.Client.Requests.{registration, session_start, subscriptions}
use comfoconnectbridge.Client.SetUp.{Confirmation, incoming, IsConfirmed, IsNamed, set_up_confirmed}
use comfoconnectbridge.Tests.Wire.{small_codec, conn_with}
use comfoconnectbridge.Tests.Letters.{letter, time_letter, confirm_letter, confirm_letter-IsFit}
use comfoconnectbridge.Tests.Subscriber.{subscriber, confirm_letter_confirms, All-others}

abbrev registered : Letter
registered = letter OperationType.register_app_confirm_type 1 Payload.register_app_confirm

abbrev started : Letter
started =
    letter OperationType.start_session_confirm_type 3
      (Payload.start_session_confirm (record { devicename = none; resumed = none }))

registered-IsFit : IsFit small_codec registered
unfolding get_struct_for_type Enums.type_text
registered-IsFit = record {
  sendable = record {
    payload_held = refl;
    src_size = refl;
    dst_size = refl;
    operation_some = omega arith;
    total_capped = omega arith;
  };
  reads_back = record {
    type = _;
    empty = _;
    type_set = refl;
    struct_found = refl;
    operation_back = refl;
    payload_back = refl;
  };
}

started-IsFit : IsFit small_codec started
unfolding get_struct_for_type Enums.type_text
started-IsFit = record {
  sendable = record {
    payload_held = refl;
    src_size = refl;
    dst_size = refl;
    operation_some = omega arith;
    total_capped = omega arith;
  };
  reads_back = record {
    type = _;
    empty = _;
    type_set = refl;
    struct_found = refl;
    operation_back = refl;
    payload_back = refl;
  };
}

registered-IsNamed : IsNamed small_codec "RegisterAppConfirmType" registered
unfolding is_name Enums.type_text
registered-IsNamed = record {
  type = OperationType.register_app_confirm_type;
  type_set = refl;
  same_name = refl;
  fit = registered-IsFit;
}

started-IsNamed : IsNamed small_codec "StartSessionConfirmType" started
unfolding is_name Enums.type_text
started-IsNamed = record {
  type = OperationType.start_session_confirm_type;
  type_set = refl;
  same_name = refl;
  fit = started-IsFit;
}

-- Two other messages before the one confirmation.
abbrev confirmation : Confirmation
confirmation = record { others = time_letter ∷ time_letter ∷ []; last = confirm_letter }

confirmation-IsConfirmed : IsConfirmed small_codec confirmation
confirmation-IsConfirmed = record {
  few = omega arith;
  others_fit = All-others 2;
  last_fit = confirm_letter-IsFit;
  confirms = confirm_letter_confirms;
}

abbrev gateway : Conn
gateway = conn_with (
    chunk (
      stream small_codec (registered ∷ started ∷ time_letter ∷ time_letter ∷ confirm_letter ∷ [])
      ++ (99 ∷ []))
    ∷ [])

gateway-answers :
    items gateway.inbox
    ≡ all_bytes (packed small_codec registered)
      ++ (all_bytes (packed small_codec started)
          ++ incoming small_codec (confirmation ∷ []) (byte 99 ∷ []))
unfolding items pack_message put_uint32 put_uint16
gateway-answers = refl

set_up_confirmed_example :
    (r' : ℕ) × (c' : Conn) × (set_up small_codec subscriber no_ticks 0 gateway
      ≡ (r', returned tt c'))
    × (items c'.inbox ≡ byte 99 ∷ [])
    × (c'.sent
        ≡ []
          ++ (registration small_codec subscriber 1
              ∷ session_start small_codec subscriber 3
              ∷ subscriptions small_codec subscriber 4 subscriber.sensors))
set_up_confirmed_example =
    set_up_confirmed small_codec subscriber 0 gateway registered started (confirmation ∷ [])
      (byte 99 ∷ []) refl registered-IsNamed started-IsNamed refl (confirmation-IsConfirmed, tt)
      gateway-answers
