-- ===== src/Proxy/System/Sending.antt =====
-- What each turn does to the messages on their way to the gateway.
use comfoconnectbridge.Prelude.{
  ℕ, ◌≡◌, refl, sym, ap, ◌∙◌, arith, Option, none, some, List, [], ◌∷◌, ◌++◌, append-nil,
  append_assoc,
}
use mathlib.Core.Path.{subst}
use comfoconnectbridge.Gauge.{Metric}
use comfoconnectbridge.Go.Errors.{and_then, GoError, Go, value, panic}
use comfoconnectbridge.Go.Binary.{Bytes}
use comfoconnectbridge.Go.Conn.{Conn, Outcome, returned, failed, panicked, waiting, write}
use comfoconnectbridge.Go.Conn.Adds.{Adds, write-Adds}
use comfoconnectbridge.Proto.Enums.{OperationType}
use comfoconnectbridge.Proto.Payload
use comfoconnectbridge.Proto.Codec.{Codec}
use comfoconnectbridge.Comfoconnect.Message.{Message, pack_message, encode}
use comfoconnectbridge.Comfoconnect.Receive.{Failure, get_message_from_socket}
use comfoconnectbridge.Comfoconnect.Receive.Keeps.{left}
use comfoconnectbridge.Comfoconnect.Receive.Quiet.{IsKept, get_message_from_socket-IsKept}
use comfoconnectbridge.Comfoconnect.Session.{
  Session, time_request, session_send, sent_result, keep_alive_tick,
}
use comfoconnectbridge.Proxy.{
  Round, masquerade, client_send, client_receive, client_round, pass_on, forward_to_gateway,
  generate_metrics,
}
use comfoconnectbridge.Proxy.System.{
  Bridge, Step, accepts, serves, forwards, passes, copies, sends, listens, receives, skips, loses,
  delivers, ticks,
}

left-pass_on : (m : Message) (t : Option OperationType) (c : Conn) → left (pass_on m t c) ≡ c
left-pass_on m none c = refl
left-pass_on m (some t) c = refl

left-client_round : (x : Outcome Failure Message) → left (client_round x) ≡ left x
left-client_round (returned m c) = left-pass_on m m.operation.type c
left-client_round (failed f c) = ground arith
left-client_round (panicked c) = refl
left-client_round (waiting c) = refl

measured-message :
    (g : Go (Option Metric)) (m m' : Message) (x : Option Metric)
    → and_then {B = Option Metric × Message} g (λ y. value (y, m)) ≡ value (x, m')
    → m' ≡ m
measured-message (value y) m m' x h = cc
measured-message panic m m' x h = cc

-- The messages on their way to the gateway, oldest first.
abbrev pub pending : Bridge → List Message
pending b = b.client_to_gateway ++ (b.forwarded ++ b.to_gateway)

module _ (codec : Codec) where
  client_receive-IsKept :
      (c : Conn) (x : Outcome GoError Round) → client_receive codec c ≡ x → IsKept c (left x)
  unfolding client_receive
  client_receive-IsKept c x h =
      let e : left x ≡ left (get_message_from_socket codec c) =
        ap left (sym h) ∙ left-client_round (get_message_from_socket codec c) in
      rw e (get_message_from_socket-IsKept codec c)

  sent_result-returned :
      (g : Go Bytes) (c c' : Conn) (e : Option GoError)
      → sent_result g c ≡ returned e c'
      → (b : Bytes) × (g ≡ value b) × Adds b c c'
  unfolding sent_result
  sent_result-returned (value b) c c' e h =
      let same : (write b c).1 ≡ c' = ap left h in
      (b, refl, subst (λ c'. Adds b c c') same (write-Adds b c))
  sent_result-returned panic c c' e h = cc

  -- The frame of a message on its way to the gateway.
  abbrev pub Frames : Bytes → Session → Message → Bytes → Type 0
  Frames uuid s m b = encode codec (masquerade uuid s.dst m) ≡ value b

  client_sent :
      (uuid : Bytes) (s : Session) (m : Message) (t : Option OperationType) (c c' : Conn)
      (e : Option GoError)
      → m.operation.type ≡ t
      → client_send codec uuid s m c ≡ returned e c'
      → (b : Bytes) × Frames uuid s m b × Adds b c c'
  unfolding client_send session_send
  client_sent uuid s m none c c' e ht h = absurd (ground arith)
  client_sent uuid s m (some t) c c' e ht h =
      sent_result-returned (encode codec (masquerade uuid s.dst m)) c c' e (ground arith)

  -- The frame of a keep-alive message.
  unfoldable pub time_frame : Session → ℕ → Bytes
  time_frame s r =
      let m = time_request s.src s.dst r in
      pack_message codec m m.operation (Payload.cn_time_request (record { set_time = none }))

  keep_alive_tick-Adds :
      (s : Session) (r : ℕ) (reference : Option ℕ) (c c' : Conn)
      → keep_alive_tick codec s r c ≡ (reference, c')
      → Adds (time_frame s r) c c'
  unfolding keep_alive_tick time_frame
  keep_alive_tick-Adds s r reference c c' h =
      subst (λ c'. Adds (time_frame s r) c c') (ap (λ p. p.1) h) (write-Adds (time_frame s r) c)

  -- What a turn does to the messages on their way to the gateway and to the connection to it.
  pub data Effect (b : Bridge) (out : List Message) (b' : Bridge) : Type 0 where
    takes : pending b' ≡ pending b ++ out → IsKept b.link b'.link → Effect b out b'
    gives :
        (m : Message) (frame : Bytes)
        → out ≡ []
        → pending b ≡ m ∷ pending b'
        → Frames b.uuid b.session m frame
        → Adds frame b.link b'.link
        → Effect b out b'
    pings :
        (r : ℕ)
        → out ≡ []
        → pending b' ≡ pending b
        → Adds (time_frame b.session r) b.link b'.link
        → Effect b out b'

  Effect-serves :
      (b b' : Bridge) (out : List Message)
      → b'.client_to_gateway ≡ b.client_to_gateway
      → b'.forwarded ≡ b.forwarded
      → b'.to_gateway ≡ b.to_gateway ++ out
      → b'.link ≡ b.link
      → Effect b out b'
  Effect-serves b b' out e1 e2 e3 e4 =
      takes
        (ap (λ l. l ++ (b'.forwarded ++ b'.to_gateway)) e1
          ∙ ap (λ l. b.client_to_gateway ++ (l ++ b'.to_gateway)) e2
          ∙ ap (λ l. b.client_to_gateway ++ (b.forwarded ++ l)) e3
          ∙ ap (λ l. b.client_to_gateway ++ l) (sym (append_assoc b.forwarded b.to_gateway out))
          ∙ sym (append_assoc b.client_to_gateway (b.forwarded ++ b.to_gateway) out))
        (ap (λ c. c.sent) e4, ap (λ c. c.writes) e4)

  pub Step-Effect : {b b' : Bridge} {out : List Message} → Step codec b out b' → Effect b out b'
  unfolding forward_to_gateway
  Step-Effect {b = b} (accepts c) = takes (sym (append-nil (pending b))) (refl, refl)
  Step-Effect {b = b} {b' = b'} (serves before after h h' out e1 turn room) =
      Effect-serves b b' out refl refl refl refl
  Step-Effect {b = b} (forwards m m' q x e1 e2 e3) =
      let same = measured-message (generate_metrics m) m m' x e3 in
      takes
        (ap (λ m. b.client_to_gateway ++ (m ∷ q)) same
          ∙ ap (λ l. b.client_to_gateway ++ l) (sym e2 ∙ ap (λ l. l ++ b.to_gateway) (sym e1))
          ∙ sym (append-nil (pending b)))
        (refl, refl)
  Step-Effect {b = b} (passes m e1 e2) =
      takes
        (append_assoc b.client_to_gateway (m ∷ []) b.to_gateway
          ∙ ap (λ l. b.client_to_gateway ++ (l ++ b.to_gateway)) (sym e1)
          ∙ sym (append-nil (pending b)))
        (refl, refl)
  Step-Effect {b = b} (copies m q x apps e0 e1 e2) =
      takes (sym (append-nil (pending b))) (refl, refl)
  Step-Effect {b = b} (sends m q e c e1 e2 e3 e4 e5) =
      let (frame, f, adds) = client_sent b.uuid b.session m m.operation.type b.link c e refl e5 in
      gives m frame refl (ap (λ l. l ++ (b.forwarded ++ b.to_gateway)) e4) f adds
  Step-Effect {b = b} (listens e1 e2 e3 e4) = takes (sym (append-nil (pending b))) (refl, refl)
  Step-Effect {b = b} (receives m c e1 e2 e3) =
      takes (sym (append-nil (pending b))) (client_receive-IsKept b.link _ e3)
  Step-Effect {b = b} (skips c e1 e2 e3) =
      takes (sym (append-nil (pending b))) (client_receive-IsKept b.link _ e3)
  Step-Effect {b = b} (loses e c e1 e2 e3) =
      takes (sym (append-nil (pending b))) (client_receive-IsKept b.link _ e3)
  Step-Effect {b = b} (delivers m q e1 e2) = takes (sym (append-nil (pending b))) (refl, refl)
  Step-Effect {b = b} (ticks r reference c e1 e2) =
      pings r refl refl (keep_alive_tick-Adds b.session r reference b.link c e2)
