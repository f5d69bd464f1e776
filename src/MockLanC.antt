-- ===== src/MockLanC.antt =====
-- pkg/mockLanC/mockLanC.go: a gateway that answers every request by itself.
pub mod Answers
pub mod Serves
pub mod Sessions
use comfoconnectbridge.Prelude.{
  ◌≡◌, ℕ, suc, Bool, true, false, Option, none, some, List, if◌then◌else◌,
}
use comfoconnectbridge.Go.Errors.{GoError, wrapped, Go, value, panic, and_then}
use comfoconnectbridge.Go.Binary.{Bytes, or_empty}
use comfoconnectbridge.Go.Conn.{Conn, write}
use comfoconnectbridge.Proto.Enums
use comfoconnectbridge.Proto.Enums.{OperationType, GatewayResult, NodeModeType, type_text, is_name}
use comfoconnectbridge.Proto.Messages.{CnNodeNotification}
use comfoconnectbridge.Proto.Payload
use comfoconnectbridge.Proto.Payload.{Payload}
use comfoconnectbridge.Proto.Codec.{Codec}
use comfoconnectbridge.Comfoconnect.Message.{
  Message, minus_one, create_response, create_custom_response,
}
use comfoconnectbridge.Comfoconnect.Receive.{Failure}
use comfoconnectbridge.Server.{Server, Again, Run, stop}
use comfoconnectbridge.Comfoconnect.Rounds.{Turn, again, ended, crashed, Loop, rounds}

-- `respond`; its callers drop the error.
unfoldable pub respond : Conn → Bytes → Conn
unfolding write
respond conn bytes = (write bytes conn).1

abbrev pub notification : ℕ → ℕ → ℕ → Payload
notification id product zone = Payload.cn_node_notification (record {
  node_id = some id;
  product_id = some product;
  zone_id = some zone;
  mode = some NodeModeType.node_normal;
})

-- The error of `handleClient` at the end of the connection.
abbrev left_error : Failure → GoError
left_error f = wrapped "tried to read from a closed connection" f.error

-- Whether the goroutine of a connection calls `handleClient` again after its result.
abbrev pub goes_on : Again
goes_on none = true
goes_on (some e) = false

-- `Stop` up to its wait.
abbrev pub stop_server : Server → Go Server
stop_server = stop

module _ (codec : Codec) where
  -- The three answers to a session start.
  unfoldable pub start_session : Message → Conn → Option Bytes → Conn
  unfolding respond create_custom_response
  start_session m conn response =
      let first = respond conn (or_empty response) in
      let second = respond first (
        create_custom_response codec m OperationType.cn_node_notification_type
          (notification 1 1 1)) in
      respond second (
        create_custom_response codec m OperationType.cn_node_notification_type
          (notification 48 5 255))

  -- The `switch` on the type.
  unfoldable pub serve_typed : ℕ → Message → Option OperationType → Conn → Go Conn
  unfolding start_session respond create_response is_name type_text
  serve_typed now m none conn = panic
  serve_typed now m (some t) conn =
      if is_name (type_text t) "StartSessionRequestType"
      then (and_then (create_response codec now m GatewayResult.ok)
          λ b. value (start_session m conn b))
      else (and_then (create_response codec now m minus_one) λ b. value (respond conn (or_empty b)))

  abbrev served : ℕ → Conn → Go Conn → Turn ℕ GoError
  served k conn (value conn') = again (suc k) conn'
  served k conn panic = crashed k conn

  -- The loop of `handleClient`; the state counts the messages, and `clock k` is the time of the k-th. A
  -- timeout and any other error but io.EOF lead to the next round.
  abbrev pub client_loop : (ℕ → ℕ) → Loop ℕ GoError
  client_loop clock = record {
    on_message = λ k m conn. served k conn (serve_typed (clock k) m m.operation.type conn);
    on_end = left_error;
  }

  -- `handleClient` in at most `n` rounds.
  unfoldable pub handle_client : (ℕ → ℕ) → ℕ → Conn → Turn ℕ GoError
  unfolding rounds serve_typed
  handle_client clock n conn = rounds codec (client_loop clock) n 0 conn

  -- The results with which a call of `handleClient` can return.
  abbrev pub Returned : Option GoError → Type 0
  Returned r =
      (clock : ℕ → ℕ) × (n : ℕ) × (conn : Conn) × (e : GoError) × (k : ℕ) × (conn' : Conn)
      × (handle_client clock n conn ≡ ended e k conn')
      × (r ≡ some e)

  -- `Run`: the turns of its loop and of its handlers, and the calls of `Stop`.
  abbrev pub Runs : Server → List (Option GoError) → Server → Type 0
  Runs = Run goes_on Returned
