-- ===== src/Tests/Passage.antt =====
-- The way of messages through the bridge at concrete inputs.
use comfoconnectbridge.Prelude.{
  ◌≡◌, refl, true, false, none, some, List, [], ◌∷◌, ◌++◌, map, take, drop,
}
use comfoconnectbridge.Go.Binary.{put_uint32, put_uint16}
use comfoconnectbridge.Go.Conn.{Conn, chunk}
use comfoconnectbridge.Proto.Enums.{OperationType}
use comfoconnectbridge.Comfoconnect.Message.{pack_message}
use comfoconnectbridge.Comfoconnect.Socket.Stream.{items, byte, all_bytes}
use comfoconnectbridge.Comfoconnect.Rounds.Delivers.{Letter, stream, as_received}
use comfoconnectbridge.Proxy.{generate_metrics}
use comfoconnectbridge.Proxy.System.{Handler, Bridge, Run}
use comfoconnectbridge.Proxy.System.Passage.{IsForwarded, IsQuiet, IsIdle, bridged, app_to_gateway}
use comfoconnectbridge.Tests.Wire.{small_codec, time_wire, conn_with}
use comfoconnectbridge.Tests.Letters.{time_letter, time_letter-IsFit}
use comfoconnectbridge.Tests.Bridge.{bridge_uuid, session}

-- The message twice, cut in the middle, and a byte of a third.
abbrev crowded : Conn
crowded =
    conn_with
      (chunk (take 20 time_wire) ∷ chunk (drop 20 time_wire ++ time_wire) ∷ chunk (0 ∷ []) ∷ [])

abbrev letters : List Letter
letters = time_letter ∷ time_letter ∷ []

crowded-letters : items crowded.inbox ≡ all_bytes (stream small_codec letters) ++ (byte 0 ∷ [])
unfolding items pack_message put_uint32 put_uint16
crowded-letters = refl

abbrev writer : Handler
writer = record {
  app = record { uuid = []; conn = crowded };
  found = [];
  queue = [];
  reading = true;
  replies = [];
  out = [];
}

abbrev bridge : Bridge
bridge = record {
  uuid = bridge_uuid;
  session = session;
  link = crowded;
  reference = some 50;
  connected = true;
  listening = false;
  received = [];
  handlers = writer ∷ [];
  forwarded = [];
  to_gateway = [];
  client_to_gateway = [];
  from_gateway = [];
}

writer-IsQuiet : IsQuiet writer
writer-IsQuiet = record {
  still_reading = refl;
  none_found = refl;
  none_queued = refl;
  none_replied = refl;
  none_out = refl;
}

bridge-IsIdle : IsIdle bridge
bridge-IsIdle = record {
  up = refl;
  not_listening = refl;
  none_received = refl;
  none_forwarded = refl;
  none_asked = refl;
  none_waiting = refl;
  fine = refl;
}

time_letter-IsForwarded : IsForwarded small_codec time_letter
unfolding generate_metrics
time_letter-IsForwarded = record {
  fit = time_letter-IsFit;
  type = OperationType.cn_time_request_type;
  type_set = refl;
  not_answered = refl;
  metric = none;
  measured = refl;
}

app_to_gateway_example :
    (b' : Bridge) × Run small_codec bridge (map (as_received small_codec) letters) b'
    × (b'.link.sent ≡ [] ++ map (bridged small_codec bridge_uuid session) letters)
app_to_gateway_example =
    app_to_gateway small_codec letters bridge [] [] writer (byte 0 ∷ []) refl writer-IsQuiet
      bridge-IsIdle (time_letter-IsForwarded, (time_letter-IsForwarded, tt)) crowded-letters
