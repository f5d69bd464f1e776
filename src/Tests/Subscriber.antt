-- ===== src/Tests/Subscriber.antt =====
-- The subscribing client at concrete inputs.
use comfoconnectbridge.Prelude.{
  ℕ, zero, suc, ◌+◌, ◌<◌, ◌≡◌, refl, arith, true, false, none, List, [], ◌∷◌, ◌++◌, All, replicate,
}
use comfoconnectbridge.Go.Errors.{other_error, wrapped, cause, is_eof, is_timeout}
use comfoconnectbridge.Go.Binary.{put_uint32, put_uint16, uint32, uint16}
use comfoconnectbridge.Go.Conn.{Conn, chunk, fault, returned, failed, panicked, write}
use comfoconnectbridge.Proto.Enums
use comfoconnectbridge.Proto.Enums.{OperationType, is_name}
use comfoconnectbridge.Comfoconnect.Types.{get_struct_for_type}
use comfoconnectbridge.Comfoconnect.Socket.{read_bytes}
use comfoconnectbridge.Comfoconnect.Socket.Stream.{items}
use comfoconnectbridge.Comfoconnect.Message.{empty_message, pack_message, encode}
use comfoconnectbridge.Comfoconnect.Receive.{Failure, get_message_from_socket}
use comfoconnectbridge.Comfoconnect.Receive.Progress.{size}
use comfoconnectbridge.Comfoconnect.Rounds.{is_over, rounds}
use comfoconnectbridge.Comfoconnect.Rounds.Delivers.{IsFit}
use comfoconnectbridge.Client.Actions.{with_reference, next}
use comfoconnectbridge.Client.{
  Client, set_up, no_ticks, pause, wait_for_confirm, receive_loop, generate_metrics,
}
use comfoconnectbridge.Client.Requests.{registration, session_start, subscriptions, set_up_returned}
use comfoconnectbridge.Client.Writes.{word}
use comfoconnectbridge.Client.Replies.{IsReceived, wait_for_confirm_panics, receive_loop-is_over}
use comfoconnectbridge.Tests.Wire.{small_codec, app_uuid, gateway_uuid, conn_with}
use comfoconnectbridge.Tests.Letters.{time_letter, time_letter-IsFit, confirm_letter, two_letters}

time_letter_other : IsReceived small_codec false time_letter
unfolding is_name Enums.type_text generate_metrics
time_letter_other = record {
  type = OperationType.cn_time_request_type;
  metric = none;
  type_set = refl;
  named = refl;
  metered = refl;
}

pub confirm_letter_confirms : IsReceived small_codec true confirm_letter
unfolding is_name Enums.type_text generate_metrics
confirm_letter_confirms = record {
  type = OperationType.cn_rpdo_confirm_type;
  metric = none;
  type_set = refl;
  named = refl;
  metered = refl;
}

pub All-others :
    (n : ℕ)
    → All (λ l. IsFit small_codec l × IsReceived small_codec false l) (replicate n time_letter)
All-others zero = tt
All-others (suc n) = ((time_letter-IsFit, time_letter_other), All-others n)

-- The connection is reset while the client waits.
abbrev reset : Conn
reset = conn_with (fault (other_error "reset") ∷ [])

abbrev reset_failure : Failure
reset_failure = record {
  message = empty_message;
  error = wrapped "reading message length" (wrapped "reading from socket" (other_error "reset"));
}

reset_failed : get_message_from_socket small_codec reset ≡ failed reset_failure (conn_with [])
unfolding get_message_from_socket read_bytes cause is_timeout
reset_failed = refl

reset_is_no_end : is_eof (cause reset_failure.error) ≡ false
unfolding is_eof cause
reset_is_no_end = refl

wait_for_confirm_panics_example : wait_for_confirm small_codec 10 reset ≡ panicked (conn_with [])
wait_for_confirm_panics_example =
    wait_for_confirm_panics small_codec 9 reset reset_failure (conn_with []) reset_failed
      reset_is_no_end

size-two_letters : size two_letters < 100
unfolding items
size-two_letters = omega arith

receive_loop-is_over_example :
    is_over (rounds small_codec (receive_loop small_codec) 100 tt two_letters) ≡ true
receive_loop-is_over_example = receive_loop-is_over small_codec 100 two_letters size-two_letters

abbrev pub subscriber : Client
subscriber = record {
  gateway_uuid = gateway_uuid;
  device_name = "client";
  pin = 0;
  my_uuid = app_uuid;
  sensors = record { ppid = 81; type = 3 } ∷ [];
}

abbrev confirmation : ℕ → ℕ → List ℕ
confirmation t r =
    0 ∷ 0 ∷ 0 ∷ 38 ∷ [] ++ (gateway_uuid ++ (app_uuid ++ (0 ∷ 4 ∷ 8 ∷ t ∷ 32 ∷ r ∷ [])))

abbrev confirming : Conn
confirming =
    conn_with
      (chunk (confirmation 52 1) ∷ chunk (confirmation 53 3) ∷ chunk (confirmation 71 4) ∷ [])

abbrev confirmed : Conn
confirmed = record {
  inbox = [];
  writes = [];
  sent =
      registration small_codec subscriber 1
      ∷ session_start small_codec subscriber 3
      ∷ subscriptions small_codec subscriber 4 subscriber.sensors;
}

set_up-subscriber : set_up small_codec subscriber no_ticks 0 confirming ≡ (5, returned tt confirmed)
unfolding set_up with_reference pause get_message_from_socket read_bytes uint32 uint16
    get_struct_for_type Enums.type_text is_name pack_message put_uint32 put_uint16 write encode next
set_up-subscriber = refl

set_up_returned_example :
    (5 ≡ word (0 + 4 + 1))
    × (confirmed.sent
        ≡ []
          ++ (registration small_codec subscriber 1
              ∷ session_start small_codec subscriber 3
              ∷ subscriptions small_codec subscriber 4 subscriber.sensors))
set_up_returned_example =
    set_up_returned small_codec subscriber 0 confirming tt 5 confirmed set_up-subscriber
