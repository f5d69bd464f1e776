-- ===== src/Comfoconnect/Session.antt =====
-- pkg/comfoconnect/session.go: a session with the gateway.
pub mod References
pub mod Handshake
pub mod Calls
use comfoconnectbridge.Prelude.{
  ℕ, zero, suc, ◌+◌, ◌≡◌, String, Bool, true, false, Option, none, some, List, [], ◌∷◌, ◌++◌,
  if◌then◌else◌, ltb, take, drop, replicate,
}
use comfoconnectbridge.Go.Errors.{GoError, new_error, wrapped, cause, is_eof, Go, value, panic}
use comfoconnectbridge.Go.Binary.{Bytes}
use comfoconnectbridge.Go.Conn.{
  Conn, Outcome, returned, failed, panicked, waiting, M, pure, fail, lift, map_error, ◌>>=◌, write,
}
use comfoconnectbridge.Proto.Enums
use comfoconnectbridge.Proto.Enums.{OperationType, type_text, is_name}
use comfoconnectbridge.Proto.Messages.{SearchGatewayResponse, RegisterAppRequest}
use comfoconnectbridge.Proto.Payload
use comfoconnectbridge.Proto.Payload.{Payload}
use comfoconnectbridge.Proto.Codec.{Codec}
use comfoconnectbridge.Comfoconnect.Message.{Message, pack_message, encode}
use comfoconnectbridge.Comfoconnect.Receive.{Failure, get_message_from_socket}

-- A message as the program makes it: a type and a reference, no result.
abbrev pub request : Bytes → Bytes → OperationType → ℕ → Payload → Message
request src dst t reference payload = record {
  src = src;
  dst = dst;
  operation = record {
    type = some t;
    result = none;
    result_description = none;
    reference = some reference;
  };
  raw_message = [];
  operation_type = some payload;
}

abbrev pub register_request : Bytes → Bytes → ℕ → String → ℕ → Message
register_request src dst reference device_name pin =
    request src dst OperationType.register_app_request_type reference (
      Payload.register_app_request
        (record { uuid = some src; pin = some pin; devicename = some device_name }))

abbrev pub start_request : Bytes → Bytes → ℕ → Message
start_request src dst reference =
    request src dst OperationType.start_session_request_type reference
      (Payload.start_session_request (record { takeover = none }))

abbrev pub time_request : Bytes → Bytes → ℕ → Message
time_request src dst reference =
    request src dst OperationType.cn_time_request_type reference
      (Payload.cn_time_request (record { set_time = none }))

abbrev pub close_request : Bytes → Bytes → Message
close_request src dst =
    request src dst OperationType.close_session_request_type 1 Payload.close_session_request

-- The error of a write, if any, wrapped.
abbrev written : String → (ℕ × Option GoError) × Conn → Outcome GoError (Unit {0})
written text ((n, none), c) = returned tt c
written text ((n, some e), c) = failed (wrapped text e) c

unfoldable pub send_bytes : String → Bytes → M GoError (Unit {0})
send_bytes text b c = written text (write b c)

-- `m.Operation.Type.String() != name`, with a dereference of the type.
abbrev pub expect_type : String → Option OperationType → M GoError (Unit {0})
expect_type name none = lift panic
expect_type name (some t) =
    if is_name (type_text t) name
    then pure tt
    else fail (new_error "received invalid message type instead of the confirmation" [])

-- What the four calls of `DiscoverGateway` meet: the errors of the first three, and the read.
pub data Reply : Type 0 where
  reply_error : GoError → Reply
  reply_bytes : Bytes → Reply

pub record Datagrams : Type 0 where
  pub resolve_error : Option GoError
  pub dial_error : Option GoError
  pub write_error : Option GoError
  pub reply : Reply

pub data Discovered : Type 0 where
  found : Option Bytes → Discovered
  not_found : GoError → Discovered

-- The reply fills a buffer of 1024 zeros, and the first two bytes are skipped.
abbrev buffer : Bytes → Bytes
buffer b = take 1024 (b ++ replicate 1024 0)

abbrev or_not_found : String → Option GoError → Discovered → Discovered
or_not_found text none d = d
or_not_found text (some e) d = not_found (wrapped text e)

pub record Session : Type 0 where
  pub ip : String
  pub src : Bytes
  pub dst : Bytes

-- How `NewSession` ends: with no connection, or as the handshake over the connection did.
pub data Started : Type 0 where
  unconnected : GoError → Started
  connected : Outcome GoError Session → Started

abbrev session_src : Option Bytes → Bytes → Bytes
session_src (some src) id = src
session_src none id = replicate 16 0 ++ id

abbrev nil_is_empty : Option Bytes → Bytes
nil_is_empty none = []
nil_is_empty (some b) = b

abbrev finish_session : Session → M GoError (Unit {0}) → M GoError Session
finish_session s m = do _ ← m; pure s

-- `reference++`, back to 1 above 1024.
unfoldable pub next_reference : ℕ → ℕ
next_reference r = if ltb 1024 (r + 1) then 1 else r + 1

-- One tick of `keepAlive`: the next reference, or none if the connection is at its end.
unfoldable pub ticked : ℕ → Option GoError → Option ℕ
unfolding next_reference is_eof cause
ticked r none = some (next_reference r)
ticked r (some e) = if is_eof (cause e) then none else some (next_reference r)

abbrev keep_going : (ℕ → Conn → Option ℕ × Conn) → Option ℕ × Conn → Option ℕ × Conn
keep_going rest (none, c) = (none, c)
keep_going rest (some r, c) = rest r c

-- The error of the write, or a panic of `Encode`.
unfoldable pub sent_result : Go Bytes → Conn → Outcome GoError (Option GoError)
unfolding write
sent_result (value b) c = let (r, c') = write b c in returned r.1 c'
sent_result panic c = panicked c

module _ (codec : Codec) where
  -- `conn.Write(m.Encode())`.
  unfoldable pub send_message : String → Message → M GoError (Unit {0})
  unfolding send_bytes
  send_message text m = do b ← lift (encode codec m); send_bytes text b

  unfoldable pub receive_message : String → M GoError Message
  receive_message text =
      map_error (λ (f : Failure). wrapped text f.error) (get_message_from_socket codec)

  -- One request and its confirmation.
  unfoldable pub exchange : String → Message → String → String → M GoError (Unit {0})
  unfolding send_message receive_message
  exchange send_text m receive_text name = do
    _ ← send_message send_text m
    answer ← receive_message receive_text
    expect_type name answer.operation.type

  -- `NewSession` from the registration on: the references are 1 and 2.
  unfoldable pub handshake : Bytes → Bytes → ℕ → M GoError (Unit {0})
  unfolding exchange
  handshake src dst pin = do
    _ ←
        exchange "sending RegisterAppRequest" (register_request src dst 1 "Proxy" pin)
          "receiving RegisterAppConfirm" "RegisterAppConfirmType"
    exchange "sending StartSessionRequest" (start_request src dst 2) "receiving StartSessionConfirm"
        "StartSessionConfirmType"

  abbrev discover_reply : Reply → Discovered
  discover_reply (reply_error e) = not_found (wrapped "reading message from gateway address" e)
  discover_reply (reply_bytes b) = found (codec.unmarshal_search (drop 2 (buffer b))).uuid

  unfoldable pub discover_gateway : Datagrams → Discovered
  discover_gateway u = or_not_found "resolving gateway address" u.resolve_error (
      or_not_found "connectinng to gateway address" u.dial_error (
        or_not_found "writing discovery packet to gateway address" u.write_error
          (discover_reply u.reply)))

  abbrev dialled : Session → ℕ → Option GoError → Conn → Started
  dialled s pin (some e) c = unconnected e
  dialled s pin none c = connected (finish_session s (handshake s.src s.dst pin) c)

  abbrev start_with :
      Discovered → String → ℕ → Option Bytes → Bytes → Option GoError → Conn → Started
  start_with (not_found e) ip pin src id dial c = unconnected (wrapped "discovering gateway" e)
  start_with (found dst) ip pin src id dial c =
      dialled (record { ip = ip; src = session_src src id; dst = nil_is_empty dst }) pin dial c

  -- `NewSession`; `id` stands for `uuid.New()`, `dial` for the error of `net.Dial` and `c` for the fresh
  -- connection. The keep-alive loop that it starts is below.
  unfoldable pub new_session :
      Datagrams → String → ℕ → Option Bytes → Bytes → Option GoError → Conn → Started
  unfolding discover_gateway handshake
  new_session u ip pin src id dial c = start_with (discover_gateway u) ip pin src id dial c

  unfoldable pub keep_alive_tick : Session → ℕ → Conn → Option ℕ × Conn
  unfolding pack_message write ticked
  keep_alive_tick s r c =
      let m = time_request s.src s.dst r in
      let payload = Payload.cn_time_request (record { set_time = none }) in
      let (result, c') = write (pack_message codec m m.operation payload) c in
      (ticked r result.1, c')

  -- `n` ticks.
  unfoldable pub keep_alive : ℕ → Session → ℕ → Conn → Option ℕ × Conn
  unfolding keep_alive_tick
  keep_alive zero s r c = (some r, c)
  keep_alive (suc n) s r c = keep_going (λ r' c'. keep_alive n s r' c') (keep_alive_tick s r c)

  -- `Close` writes a last request and drops the error.
  unfoldable pub close_session : Session → Conn → Conn
  unfolding pack_message write
  close_session s c =
      let m = close_request s.src s.dst in
      (write (pack_message codec m m.operation Payload.close_session_request) c).1

  -- `Send`.
  unfoldable pub session_send : Message → Conn → Outcome GoError (Option GoError)
  unfolding encode sent_result
  session_send m c = sent_result (encode codec m) c
