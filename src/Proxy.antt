-- ===== src/Proxy.antt =====
-- pkg/proxy: the apps' side (listener.go), the gateway's side (client.go) and what lies between them
-- (proxy.go). A channel is the list of messages in it, oldest first; spans and log lines are left out.
pub mod Forward
pub mod Metrics
pub mod Shutdown
pub mod System
use comfoconnectbridge.Prelude.{
  ℕ, String, Bool, true, false, Option, none, some, List, [], ◌∷◌, ◌++◌, if◌then◌else◌,
}
use comfoconnectbridge.Prelude.Int.{ℤ}
use comfoconnectbridge.Go.Errors.{GoError, wrapped, cause, is_eof, Go, value, panic, and_then}
use comfoconnectbridge.Go.Binary.{Bytes, or_empty}
use comfoconnectbridge.Go.Conn.{Conn, Outcome, returned, failed, panicked, waiting, write}
use comfoconnectbridge.Proto.Enums
use comfoconnectbridge.Proto.Enums.{OperationType, GatewayResult, NodeModeType, type_text, is_name}
use comfoconnectbridge.Proto.Messages.{CnNodeNotification}
use comfoconnectbridge.Proto.Payload
use comfoconnectbridge.Proto.Payload.{Payload}
use comfoconnectbridge.Proto.Codec.{Codec}
use comfoconnectbridge.Comfoconnect.Message.{
  Message, encode, create_response, create_custom_response,
}
use comfoconnectbridge.Comfoconnect.Receive.{Failure, get_message_from_socket}
use comfoconnectbridge.Gauge.{Metric, metric_of}
use comfoconnectbridge.Comfoconnect.Rpdo.{Converter, to_float64, decode_pdo}
use comfoconnectbridge.Comfoconnect.Session.{Session, session_send}

pub record App : Type 0 where
  pub uuid : Bytes
  pub conn : Conn

-- `a.conn.Write(b)`, whose error is only logged.
unfoldable pub write_app : App → Bytes → App
unfolding write
write_app a b = record a { conn = (write b a.conn).1 }

abbrev pub node : ℕ → ℕ → ℕ → Payload
node id product zone = Payload.cn_node_notification (record {
  node_id = some id;
  product_id = some product;
  zone_id = some zone;
  mode = some NodeModeType.node_normal;
})

unfoldable pub metrics_typed : Message → Option OperationType → Go (Option Metric)
unfolding metric_of decode_pdo is_name type_text
metrics_typed m none = panic
metrics_typed m (some t) =
    if is_name (type_text t) "CnRpdoNotificationType"
    then and_then (decode_pdo m) metric_of
    else value none

-- `generateMetrics`.
unfoldable pub generate_metrics : Message → Go (Option Metric)
unfolding metrics_typed
generate_metrics m = metrics_typed m m.operation.type

-- `Proxy.Run`, a message for the gateway: it is measured and goes on to the client.
unfoldable pub forward_to_gateway : Message → Go (Option Metric × Message)
unfolding generate_metrics
forward_to_gateway m = and_then (generate_metrics m) λ x. value (x, m)

-- The message as it is copied to an app, and as it is sent to the gateway.
abbrev pub masquerade : Bytes → Bytes → Message → Message
masquerade src dst m = record m { src = src; dst = dst }

pub data Round : Type 0 where
  passed_on : Message → Round
  again : Round

-- The count of messages dereferences the type.
abbrev pass_on : Message → Option OperationType → Conn → Outcome GoError Round
pass_on m none c = panicked c
pass_on m (some t) c = returned (passed_on m) c

abbrev client_round : Outcome Failure Message → Outcome GoError Round
client_round (returned m c) = pass_on m m.operation.type c
client_round (failed f c) =
    if is_eof (cause f.error)
    then failed (wrapped "lost connection to gateway" f.error) c
    else returned again c
client_round (panicked c) = panicked c
client_round (waiting c) = waiting c

-- What the main loop of `HandleConnection` does for a message: the app gets the UUID, the replies are
-- written to it one by one, and then the messages are put into the gateway's channel.
pub record Work : Type 0 where
  pub uuid : Bytes
  pub replies : List Bytes
  pub out : List Message

module _ (codec : Codec) where
  -- The two notifications behind the response to a session start.
  abbrev pub notifications : Message → List Bytes
  notifications m =
      create_custom_response codec m OperationType.cn_node_notification_type (node 1 1 1)
      ∷ create_custom_response codec m OperationType.cn_node_notification_type (node 48 5 255)
      ∷ []

  -- The `switch` of `handleMessage` on an app with the UUID `uuid`. The errors of the writes are only
  -- logged.
  unfoldable pub handle_typed : ℕ → Bytes → Message → Option OperationType → Go Work
  unfolding create_custom_response create_response is_name type_text
  handle_typed now uuid m none = panic
  handle_typed now uuid m (some t) =
      if is_name (type_text t) "RegisterAppRequestType"
      then (and_then (create_response codec now m GatewayResult.ok)
          λ b. value (record { uuid = m.src; replies = or_empty b ∷ []; out = [] }))
      else if is_name (type_text t) "StartSessionRequestType"
      then (and_then (create_response codec now m GatewayResult.ok)
          λ b. value (record { uuid = uuid; replies = or_empty b ∷ notifications m; out = [] }))
      else value (record { uuid = uuid; replies = []; out = m ∷ [] })

  -- `handleMessage`.
  unfoldable pub handle_message : ℕ → Bytes → Message → Go Work
  unfolding handle_typed
  handle_message now uuid m = handle_typed now uuid m m.operation.type

  -- One round of the main loop of `HandleConnection`: the app takes the sender's UUID first.
  unfoldable pub handle_next : ℕ → Message → Go Work
  unfolding handle_message
  handle_next now m = handle_message now m.src m

  -- `App.Write`; the count of messages dereferences the type.
  unfoldable pub app_write : App → Message → Go App
  unfolding encode write_app
  app_write a m = elim m.operation.type [
    | none ↦ panic
    | some t ↦ and_then (encode codec m) λ b. value (write_app a b)
  ]

  -- The loop over the apps.
  unfoldable pub copy_to_apps : Bytes → Message → List App → Go (List App)
  unfolding app_write
  copy_to_apps uuid m [] = value []
  copy_to_apps uuid m (a ∷ apps) =
      let rest = copy_to_apps uuid m apps in
      and_then (app_write a (masquerade uuid a.uuid m))
        λ a'. and_then rest λ apps'. value (a' ∷ apps')

  -- `Proxy.Run`, a message from the gateway: it is measured and copied to all apps.
  unfoldable pub forward_to_apps : Bytes → Message → List App → Go (Option Metric × List App)
  unfolding generate_metrics copy_to_apps
  forward_to_apps uuid m apps =
      and_then (generate_metrics m)
        λ x. and_then (copy_to_apps uuid m apps) λ apps'. value (x, apps')

  -- `Client.Run`, a message for the gateway: it gets the bridge's UUID and the gateway's. The
  -- count of messages dereferences the type.
  unfoldable pub client_send : Bytes → Session → Message → Conn → Outcome GoError (Option GoError)
  unfolding session_send
  client_send uuid s m c = elim m.operation.type [
    | none ↦ panicked c
    | some t ↦ session_send codec (masquerade uuid s.dst m) c
  ]

  -- A round of `Client.Run` without a message to send: the message goes into the channel of messages
  -- from the gateway; io.EOF ends the client; any other error, a timeout among them, is dropped.
  unfoldable pub client_receive : Conn → Outcome GoError Round
  unfolding get_message_from_socket is_eof cause
  client_receive c = client_round (get_message_from_socket codec c)
