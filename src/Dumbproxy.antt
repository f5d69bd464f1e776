-- ===== src/Dumbproxy.antt =====
-- pkg/dumbproxy/dumbproxy.go: a proxy that decodes every message, measures it and encodes it again. A
-- channel is the list of the byte slices in it, oldest first.
pub mod Passes
pub mod System
use comfoconnectbridge.Prelude.{
  ℕ, String, Bool, true, false, Option, none, some, List, [], ◌∷◌, ◌++◌, if◌then◌else◌,
}
use comfoconnectbridge.Go.Errors.{Go, value, panic, and_then}
use comfoconnectbridge.Go.Binary.{Bytes}
use comfoconnectbridge.Go.Conn.{Conn, write}
use comfoconnectbridge.Proto.Enums.{OperationType, type_text, is_name}
use comfoconnectbridge.Proto.Messages.{CnRpdoRequest}
use comfoconnectbridge.Proto.Payload
use comfoconnectbridge.Proto.Payload.{Payload}
use comfoconnectbridge.Proto.Codec.{Codec}
use comfoconnectbridge.Gauge.{Metric, metric_of}
use comfoconnectbridge.Comfoconnect.Message.{Message, encode}
use comfoconnectbridge.Comfoconnect.Rpdo.{decode_pdo}
use comfoconnectbridge.Comfoconnect.Rounds.{Turn, again, crashed, Loop, rounds}

-- The log line of a subscription dereferences the three fields.
abbrev logged_fields : Option ℕ → Option ℕ → Option ℕ → Go (Option Metric)
logged_fields (some pdid) (some type) (some zone) = value none
logged_fields _ _ _ = panic

-- `message.OperationType.(*proto.CnRpdoRequest)`.
abbrev logged_request : Option Payload → Go (Option Metric)
logged_request (some (Payload.cn_rpdo_request r)) = logged_fields r.pdid r.type r.zone
logged_request _ = panic

-- `generateMetrics`: what the gauge is set to, if anything.
unfoldable pub generate_metrics : Message → OperationType → Go (Option Metric)
unfolding metric_of decode_pdo is_name type_text
generate_metrics m t =
    if is_name (type_text t) "CnRpdoRequestType"
    then logged_request m.operation_type
    else if is_name (type_text t) "CnRpdoNotificationType"
    then and_then (decode_pdo m) metric_of
    else value none

-- `proxySend` on what is in its channel; the error of a write is only logged.
unfoldable pub proxy_send : Conn → List Bytes → Conn
unfolding write
proxy_send c [] = c
proxy_send c (b ∷ bs) = proxy_send (write b c).1 bs

module _ (codec : Codec) where
  abbrev passed_on : List Bytes → Conn → Go Bytes → Turn (List Bytes) (Unit {0})
  passed_on channel c (value b) = again (channel ++ (b ∷ [])) c
  passed_on channel c panic = crashed channel c

  -- A message is measured and its encoding put into the channel; one without a type is dropped.
  unfoldable pub pass_on :
      List Bytes → Message → Option OperationType → Conn → Turn (List Bytes) (Unit {0})
  unfolding generate_metrics encode
  pass_on channel m none c = again channel c
  pass_on channel m (some t) c =
      passed_on channel c (and_then (generate_metrics m t) λ x. encode codec m)

  -- The loop of `proxyReceiveMessage`; at the end of the connection the process exits.
  abbrev pub receive_loop : Loop (List Bytes) (Unit {0})
  receive_loop = record {
    on_message = λ channel m c. pass_on channel m m.operation.type c;
    on_end = λ f. tt;
  }

  -- `proxyReceiveMessage` in at most `n` rounds.
  unfoldable pub proxy_receive : ℕ → List Bytes → Conn → Turn (List Bytes) (Unit {0})
  unfolding rounds pass_on
  proxy_receive n channel c = rounds codec receive_loop n channel c
