-- ===== src/Client.antt =====
-- pkg/client/client.go: a client of the gateway that subscribes to sensors and exports what it is sent.
-- The keep-alive goroutine is given by its tick, and by how many ticks come while a session is set up.
pub mod Actions
pub mod Writes
pub mod Requests
pub mod Replies
pub mod SetUp
pub mod Command
use comfoconnectbridge.Prelude.{
  ℕ, zero, suc, ◌+◌, ◌%◌, ◌^◌, String, Bool, true, false, Option, none, some, List, [], ◌∷◌,
  if◌then◌else◌,
}
use comfoconnectbridge.Go.Errors.{
  GoError, new_error, wrapped, cause, is_eof, Go, value, panic, and_then,
}
use comfoconnectbridge.Go.Binary.{Bytes}
use comfoconnectbridge.Go.Conn.{Conn, Outcome, returned, failed, panicked, waiting, M, write}
use comfoconnectbridge.Proto.Enums
use comfoconnectbridge.Proto.Enums.{OperationType, type_text, is_name}
use comfoconnectbridge.Proto.Messages.{CnRpdoRequest}
use comfoconnectbridge.Proto.Payload
use comfoconnectbridge.Proto.Payload.{Payload}
use comfoconnectbridge.Proto.Codec.{Codec}
use comfoconnectbridge.Gauge.{Metric, metric_of}
use comfoconnectbridge.Comfoconnect.Message.{Message, pack_message}
use comfoconnectbridge.Comfoconnect.Receive.{Failure, get_message_from_socket}
use comfoconnectbridge.Comfoconnect.Rpdo.{decode_pdo}
use comfoconnectbridge.Comfoconnect.Rounds.{Turn, again, crashed, Loop, rounds}
use comfoconnectbridge.Comfoconnect.Session.{
  request, register_request, start_request, time_request, expect_type, send_message,
  receive_message, ticked,
}
use Actions.{Action, ◌>>=◌, on_conn, pure, next, with_reference}

pub record Sensor : Type 0 where
  pub ppid : ℕ
  pub type : ℕ

-- The fields that no method changes; the reference is the state of the actions.
pub record Client : Type 0 where
  pub gateway_uuid : Bytes
  pub device_name : String
  pub pin : ℕ
  pub my_uuid : Bytes
  pub sensors : List Sensor

abbrev pub rpdo_request : Client → Sensor → ℕ → Message
rpdo_request client s r =
    request client.my_uuid client.gateway_uuid OperationType.cn_rpdo_request_type r (
      Payload.cn_rpdo_request
        (record { pdid = some s.ppid; zone = some 1; type = some s.type; timeout = none }))

unfoldable pub metrics_typed : Message → OperationType → Go (Option Metric)
unfolding metric_of decode_pdo is_name type_text
metrics_typed m t =
    if is_name (type_text t) "CnRpdoNotificationType"
    then and_then (decode_pdo m) metric_of
    else value none

-- `generateMetrics`, which `receive` calls only for a message that has a type.
unfoldable pub generate_metrics : Message → Option OperationType → Go (Option Metric)
unfolding metrics_typed
generate_metrics m none = value none
generate_metrics m (some t) = metrics_typed m t

-- The message after its metrics.
abbrev measured : Message → Conn → Go (Option Metric) → Outcome GoError Message
measured m c (value x) = returned m c
measured m c panic = panicked c

-- `receive` behind its call of `GetMessageFromSocket`: io.EOF is returned; at any other error what there
-- is of a message is returned as if there had been none.
abbrev received : Outcome Failure Message → Outcome GoError Message
received (returned m c) = measured m c (generate_metrics m m.operation.type)
received (failed f c) = if is_eof (cause f.error) then failed f.error c else returned f.message c
received (panicked c) = panicked c
received (waiting c) = waiting c

-- Whether the message has the type of the confirmation; the type is dereferenced.
abbrev is_confirm : Option OperationType → Go Bool
is_confirm none = panic
is_confirm (some t) = value (is_name (type_text t) "CnRpdoConfirmType")

-- How many ticks of `keepAlive` come in a subscription: before its request takes the reference, before it
-- counts the reference up, and before its confirmation; those between the messages that it waits for are
-- given as ticks before the first of these.
pub record Ticks : Type 0 where
  pub before_request : ℕ
  pub before_count : ℕ
  pub before_wait : ℕ

abbrev pub quiet : Ticks
quiet = record { before_request = 0; before_count = 0; before_wait = 0 }

-- No tick of `keepAlive` comes before the session is set up.
abbrev pub no_ticks : List Ticks
no_ticks = []

-- How `startSession` ends: before it has a connection, in what it does first, or in its loop.
pub data Ended : Type 0 where
  undialled : GoError → Ended
  stopped : Outcome GoError (Unit {0}) → Ended
  served : Turn (Unit {0}) GoError → Ended

module _ (codec : Codec) where
  -- A request is sent, its reference is used up, and its confirmation is received.
  unfoldable pub ask : String → Message → String → String → Action (Unit {0})
  unfolding send_message receive_message
  ask send_text m receive_text name = do
    _ ← on_conn (send_message codec send_text m)
    _ ← next
    answer ← on_conn (receive_message codec receive_text)
    on_conn (expect_type name answer.operation.type)

  -- `register`.
  unfoldable pub register : Client → Action (Unit {0})
  unfolding ask
  register client = do
    _ ← next
    with_reference λ r.
        ask "sending RegisterAppRequest"
          (register_request client.my_uuid client.gateway_uuid r client.device_name client.pin)
          "receiving RegisterAppConfirm" "RegisterAppConfirmType"

  -- `sessionRequest`.
  unfoldable pub session_request : Client → Action (Unit {0})
  unfolding ask
  session_request client = do
    _ ← next
    with_reference λ r.
        ask "sending StartSessionRequest" (start_request client.my_uuid client.gateway_uuid r)
          "receiving StartSessionConfirm" "StartSessionConfirmType"

  -- `receive`.
  unfoldable pub receive : M GoError Message
  unfolding get_message_from_socket generate_metrics cause is_eof
  receive c = received (get_message_from_socket codec c)

  abbrev confirmed : M GoError (Unit {0}) → Conn → Go Bool → Outcome GoError (Unit {0})
  confirmed rest c (value true) = returned tt c
  confirmed rest c (value false) = rest c
  confirmed rest c panic = panicked c

  abbrev received_reply :
      M GoError (Unit {0}) → Outcome GoError Message → Outcome GoError (Unit {0})
  received_reply rest (returned m c) = confirmed rest c (is_confirm m.operation.type)
  received_reply rest (failed e c) = failed (wrapped "receiving CnRpdoConfirm" e) c
  received_reply rest (panicked c) = panicked c
  received_reply rest (waiting c) = waiting c

  -- The loop of `subscribe`, with `n` attempts left.
  unfoldable pub wait_for_confirm : ℕ → M GoError (Unit {0})
  unfolding receive is_name type_text
  wait_for_confirm zero c = failed (new_error "Failed to receive CnRpdoConfirm" []) c
  wait_for_confirm (suc n) c = received_reply (λ c'. wait_for_confirm n c') (receive c)

  -- One tick of `keepAlive`: the next reference, or none if the connection is at its end.
  unfoldable pub keep_alive_tick : Client → ℕ → Conn → Option ℕ × Conn
  unfolding pack_message write ticked
  keep_alive_tick client r c =
      let m = time_request client.my_uuid client.gateway_uuid r in
      let payload = Payload.cn_time_request (record { set_time = none }) in
      let (result, c') = write (pack_message codec m m.operation payload) c in
      (ticked r result.1, c')

  abbrev resumed :
      (ℕ → Conn → ℕ × Outcome GoError (Unit {0}))
      → ℕ
      → Option ℕ × Conn
      → ℕ × Outcome GoError (Unit {0})
  resumed rest r (none, c) = (r, returned tt c)
  resumed rest r (some r', c) = rest r' c

  -- At most `n` ticks, which write to the same connection and change the same reference; the goroutine ends
  -- where the connection is at its end.
  unfoldable pub pause : Client → ℕ → Action (Unit {0})
  unfolding keep_alive_tick
  pause client zero r c = (r, returned tt c)
  pause client (suc n) r c = resumed (λ r' c'. pause client n r' c') r (keep_alive_tick client r c)

  -- `subscribe` from the point where the reference `r` is in the request.
  unfoldable pub subscribe_as : Client → Sensor → Ticks → ℕ → Action (Unit {0})
  unfolding send_message wait_for_confirm pause
  subscribe_as client s ticks r = do
    _ ← on_conn (send_message codec "requesting RPDO" (rpdo_request client s r))
    _ ← pause client ticks.before_count
    _ ← next
    _ ← pause client ticks.before_wait
    on_conn (wait_for_confirm 10)

  -- `subscribe`.
  unfoldable pub subscribe : Client → Sensor → Ticks → Action (Unit {0})
  unfolding subscribe_as
  subscribe client s ticks = do
    _ ← pause client ticks.before_request
    with_reference λ r. subscribe_as client s ticks r

  -- `subscribeAll`; no tick comes where `ticks` is used up.
  unfoldable pub subscribe_all : Client → List Sensor → List Ticks → Action (Unit {0})
  unfolding subscribe
  subscribe_all client [] ticks = pure tt
  subscribe_all client (s ∷ sensors) [] = do
    _ ← subscribe client s quiet
    subscribe_all client sensors []
  subscribe_all client (s ∷ sensors) (t ∷ ticks) = do
    _ ← subscribe client s t
    subscribe_all client sensors ticks

  -- What `startSession` does before its loop. The goroutine of `keepAlive`, which it starts behind the
  -- session request, makes the ticks `ticks`.
  unfoldable pub set_up : Client → List Ticks → Action (Unit {0})
  unfolding register session_request subscribe_all
  set_up client ticks = do
    _ ← register client
    _ ← session_request client
    subscribe_all client client.sensors ticks

  abbrev metered : Unit {0} → Conn → Go (Option Metric) → Turn (Unit {0}) GoError
  metered u c (value x) = again u c
  metered u c panic = crashed u c

  -- The loop at the end of `startSession`: an error that `receive` hides leads to the next round.
  abbrev pub receive_loop : Loop (Unit {0}) GoError
  receive_loop = record {
    on_message = λ u m c. metered u c (generate_metrics m m.operation.type);
    on_end = λ f. f.error;
  }

  abbrev run_loop : ℕ → ℕ × Outcome GoError (Unit {0}) → ℕ × Ended
  run_loop n (r, returned u c) = (r, served (rounds codec receive_loop n tt c))
  run_loop n (r, failed e c) = (r, stopped (failed e c))
  run_loop n (r, panicked c) = (r, stopped (panicked c))
  run_loop n (r, waiting c) = (r, stopped (waiting c))

  -- `startSession` with the error of `net.Dial` and the fresh connection, its loop in at most `n` rounds.
  unfoldable pub start_session : Client → List Ticks → ℕ → Option GoError → ℕ → Conn → ℕ × Ended
  unfolding set_up rounds generate_metrics
  start_session client ticks n (some e) r c = (r, undialled e)
  start_session client ticks n none r c = run_loop n (set_up client ticks r c)
