-- ===== src/Tests/Loops.antt =====
-- The receiving loops at concrete inputs.
use comfoconnectbridge.Prelude.{ℕ, ◌+◌, ◌<◌, ◌≡◌, refl, arith, true, none, List, [], ◌∷◌, ◌++◌, map}
use comfoconnectbridge.Go.Errors.{GoError, cause, is_eof}
use comfoconnectbridge.Go.Binary.{put_uint32, put_uint16}
use comfoconnectbridge.Go.Conn.{Conn}
use comfoconnectbridge.Proto.Enums.{OperationType}
use comfoconnectbridge.Comfoconnect.Message.{pack_message}
use comfoconnectbridge.Comfoconnect.Socket.Stream.{end, all_bytes, items}
use comfoconnectbridge.Comfoconnect.Receive.{get_message_from_socket}
use comfoconnectbridge.Comfoconnect.Receive.Progress.{
  size, HasProgressed, get_message_from_socket-HasProgressed,
}
use comfoconnectbridge.Comfoconnect.Rounds.{ended}
use comfoconnectbridge.Comfoconnect.Rounds.Delivers.{Letter, packed, stream}
use comfoconnectbridge.Testproxy.{copy}
use comfoconnectbridge.Testproxy.Copies.{copy-stream}
use comfoconnectbridge.Dumbproxy.{generate_metrics}
use comfoconnectbridge.Dumbproxy.Passes.{IsMeasured}
use comfoconnectbridge.MockLanC.{handle_client}
use comfoconnectbridge.MockLanC.Answers.{AllReplied}
use comfoconnectbridge.MockLanC.Serves.{handle_client-stream}
use comfoconnectbridge.Tests.Wire.{small_codec, conn_with}
use comfoconnectbridge.Tests.Letters.{
  time_letter, time_letter-IsFit, start_letter, start_letter-IsFit, two_letters,
}

abbrev pub letters : List Letter
letters = start_letter ∷ time_letter ∷ []

pub two_letters_inbox :
    items two_letters.inbox ≡ all_bytes (stream small_codec letters) ++ (end ∷ [])
unfolding items pack_message put_uint32 put_uint16
two_letters_inbox = refl

size-two_letters : size two_letters < 100
unfolding items
size-two_letters = omega arith

abbrev gateway : Conn
gateway = conn_with []

copy-stream_example :
    (to' from' : Conn) × (copy small_codec 3 two_letters gateway ≡ ended tt to' from')
    × (to'.sent ≡ [] ++ map (packed small_codec) letters)
    × (items from'.inbox ≡ end ∷ [])
copy-stream_example =
    copy-stream small_codec letters 0 two_letters gateway
      (start_letter-IsFit, (time_letter-IsFit, tt)) refl two_letters_inbox

pub start_letter-IsMeasured : IsMeasured small_codec start_letter
unfolding generate_metrics
start_letter-IsMeasured = (OperationType.start_session_request_type, none, refl, refl)

pub time_letter-IsMeasured : IsMeasured small_codec time_letter
unfolding generate_metrics
time_letter-IsMeasured = (OperationType.cn_time_request_type, none, refl, refl)

handle_client-stream_example :
    (e : GoError) × (c' : Conn) × (replies : List (List ℕ)) × (handle_client small_codec
        (λ k. 77 + k)
        3
        two_letters
      ≡ ended e 2 c')
    × (is_eof (cause e) ≡ true)
    × (c'.sent ≡ [] ++ replies)
    × AllReplied small_codec letters replies
handle_client-stream_example =
    handle_client-stream small_codec (λ k. 77 + k) letters 0 two_letters
      (start_letter-IsFit, (time_letter-IsFit, tt)) refl two_letters_inbox

get_message_from_socket-HasProgressed_example :
    HasProgressed (size two_letters) (get_message_from_socket small_codec two_letters)
get_message_from_socket-HasProgressed_example =
    get_message_from_socket-HasProgressed small_codec two_letters
