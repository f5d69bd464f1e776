-- ===== src/Proxy/System/Passage.antt =====
-- The way of a message through the bridge, from an app's socket to the gateway's.
use comfoconnectbridge.Prelude.{
  ℕ, ◌<◌, ◌≡◌, refl, sym, ap, ◌∙◌, arith, Bool, true, false, Option, none, some, List, [], ◌∷◌,
  ◌++◌, append-nil, append_assoc, map, map-append, All, if◌then◌else◌, length,
}
use comfoconnectbridge.Gauge.{Metric}
use comfoconnectbridge.Go.Errors.{Go, value}
use comfoconnectbridge.Go.Binary.{Bytes}
use comfoconnectbridge.Go.Conn.{Conn, returned, write, write_next}
use comfoconnectbridge.Proto.Enums.{OperationType, type_text, is_name}
use comfoconnectbridge.Proto.Payload.{Payload}
use comfoconnectbridge.Proto.Codec.{Codec}
use comfoconnectbridge.Comfoconnect.Socket.Stream.{Item, byte, all_bytes, items}
use comfoconnectbridge.Comfoconnect.Message.{Message, pack_message, encode}
use comfoconnectbridge.Comfoconnect.Receive.{get_message_from_socket}
use comfoconnectbridge.Comfoconnect.Session.{Session, session_send, sent_result}
use comfoconnectbridge.Comfoconnect.Rounds.Delivers.{
  Letter, packed, stream, as_received, IsFit, get_message_from_socket_next,
}
use comfoconnectbridge.Proxy.{
  Work, masquerade, handle_typed, handle_message, handle_next, generate_metrics, forward_to_gateway,
  client_send,
}
use comfoconnectbridge.Proxy.Forward.{is_answered, is_answered-names}
use comfoconnectbridge.Proxy.System.{
  Handler, Bridge, with_conn, with_work, read_socket, AppTurn, reads, queues, handles, asks, Step,
  serves, forwards, passes, sends, Run, here, next,
}
use comfoconnectbridge.Proxy.System.Runs.{Run-append}

typed_if :
    (register start : Bool) (g1 g2 : Go Work) (x : Work)
    → (if register then true else start) ≡ false
    → (if register then g1 else if start then g2 else value x) ≡ value x
typed_if true start g1 g2 x h = cc
typed_if false true g1 g2 x h = cc
typed_if false false g1 g2 x h = refl

-- The socket reader runs, and no message waits between it and `Proxy.Run`.
pub record IsQuiet (h : Handler) : Type 0 where
  pub still_reading : h.reading ≡ true
  pub none_found : h.found ≡ []
  pub none_queued : h.queue ≡ []
  pub none_replied : h.replies ≡ []
  pub none_out : h.out ≡ []

-- The gateway is connected, no message waits for it, `Client.Run` is not in `Receive`, and no write to the
-- gateway fails.
pub record IsIdle (b : Bridge) : Type 0 where
  pub up : b.connected ≡ true
  pub not_listening : b.listening ≡ false
  pub none_received : b.received ≡ []
  pub none_forwarded : b.forwarded ≡ []
  pub none_asked : b.to_gateway ≡ []
  pub none_waiting : b.client_to_gateway ≡ []
  pub fine : b.link.writes ≡ []

module _ (codec : Codec) where
  -- A message that fits a frame, that the bridge does not answer itself, and that can be measured.
  pub record IsForwarded (l : Letter) : Type 0 where
    pub fit : IsFit codec l
    pub type : OperationType
    pub type_set : l.message.operation.type ≡ some type
    pub not_answered : is_answered type ≡ false
    pub metric : Option Metric
    pub measured : generate_metrics (as_received codec l) ≡ value metric

  abbrev forwarded_work : Message → Work
  forwarded_work m = record { uuid = m.src; replies = []; out = m ∷ [] }

  handle_next-forwarded :
      (now : ℕ) (m : Message) (t : OperationType)
      → m.operation.type ≡ some t
      → is_answered t ≡ false
      → handle_next codec now m ≡ value (forwarded_work m)
  unfolding handle_next handle_message handle_typed
  handle_next-forwarded now m t ht h =
      ap (handle_typed codec now m.src m) ht
      ∙ typed_if (is_name (type_text t) "RegisterAppRequestType")
          (is_name (type_text t) "StartSessionRequestType") _ _ _ (sym (is_answered-names t) ∙ h)

  read_socket-found :
      (h : Handler) (m : Message) (t : OperationType) (c : Conn)
      → get_message_from_socket codec h.app.conn ≡ returned m c
      → m.operation.type ≡ some t
      → read_socket codec h ≡ returned (record (with_conn h c) { found = m ∷ [] }) c
  unfolding read_socket
  read_socket-found h m t c e ht = rw (e, ht) refl

  forward_to_gateway-value :
      (m : Message) (x : Option Metric)
      → generate_metrics m ≡ value x
      → forward_to_gateway m ≡ value (x, m)
  unfolding forward_to_gateway
  forward_to_gateway-value m x h = rw h refl

  client_send-returned :
      (uuid : Bytes) (s : Session) (m : Message) (t : OperationType) (p : Payload) (c : Conn)
      → m.operation.type ≡ some t
      → m.operation_type ≡ some p
      → c.writes ≡ []
      → client_send codec uuid s m c
        ≡ returned none (record c {
          sent = c.sent ++ (pack_message codec (masquerade uuid s.dst m) m.operation p ∷ []);
        })
  unfolding client_send session_send sent_result encode write write_next
  client_send-returned uuid s m t p c ht hp hw = rw (ht, hp, hw) refl

  pub stream-first :
      (l : Letter) (ls : List Letter) (r : List Item)
      → all_bytes (stream codec (l ∷ ls)) ++ r
        ≡ all_bytes (packed codec l) ++ (all_bytes (stream codec ls) ++ r)
  stream-first l ls r =
      ap (λ x. x ++ r) (map-append byte (packed codec l) (stream codec ls))
      ∙ append_assoc (all_bytes (packed codec l)) (all_bytes (stream codec ls)) r

  -- The frame of a letter as the bridge sends it to the gateway.
  abbrev pub bridged : Bytes → Session → Letter → Bytes
  bridged uuid s l =
      pack_message codec (masquerade uuid s.dst (as_received codec l)) l.message.operation l.payload

  -- The letter is read, queued, handled, forwarded and sent.
  letter_passed :
      (l : Letter) (b : Bridge) (before after : List Handler) (h : Handler) (r : List Item)
      → b.handlers ≡ before ++ (h ∷ after)
      → IsQuiet h
      → IsIdle b
      → IsForwarded l
      → items h.app.conn.inbox ≡ all_bytes (packed codec l) ++ r
      → (b' : Bridge) × (h' : Handler) × Run codec b (as_received codec l ∷ []) b'
        × (b'.handlers ≡ before ++ (h' ∷ after))
        × IsQuiet h'
        × IsIdle b'
        × (items h'.app.conn.inbox ≡ r)
        × (b'.link.sent ≡ b.link.sent ++ (bridged b.uuid b.session l ∷ []))
        × (b'.uuid ≡ b.uuid)
        × (b'.session ≡ b.session)
  letter_passed l b before after h r eh quiet idle good e =
      let m = as_received codec l in
      let (c, got, rest, kept) = get_message_from_socket_next codec h.app.conn l r good.fit e in
      let h1 = record (with_conn h c) { found = m ∷ [] } in
      let h2 = record h1 { found = []; queue = h1.queue ++ (m ∷ []) } in
      let h3 = with_work h2 [] (forwarded_work m) in
      let h4 = record h3 { out = [] } in
      let b1 = record b { handlers = before ++ (h1 ∷ after); to_gateway = b.to_gateway ++ [] } in
      let b2 = record b1 { handlers = before ++ (h2 ∷ after); to_gateway = b1.to_gateway ++ [] } in
      let b3 = record b2 { handlers = before ++ (h3 ∷ after); to_gateway = b2.to_gateway ++ [] } in
      let b4 = record b3 {
        handlers = before ++ (h4 ∷ after);
        to_gateway = b3.to_gateway ++ (m ∷ []);
      } in
      let b5 = record b4 { to_gateway = []; forwarded = m ∷ [] } in
      let b6 = record b5 { forwarded = []; client_to_gateway = b.client_to_gateway ++ (m ∷ []) } in
      let link = record b.link { sent = b.link.sent ++ (bridged b.uuid b.session l ∷ []) } in
      let b7 = record b6 { client_to_gateway = []; link = link } in
      let read : AppTurn codec h [] h1 =
        reads h1 c quiet.still_reading quiet.none_found
          (read_socket-found h m good.type c got good.type_set) in
      let queue : AppTurn codec h1 [] h2 =
        queues m refl (rw (ap length quiet.none_queued) (omega arith)) in
      let handle : AppTurn codec h2 [] h3 =
        handles m [] 0 (forwarded_work m) quiet.none_replied quiet.none_out
          (ap (λ q. q ++ (m ∷ [])) quiet.none_queued)
          (handle_next-forwarded 0 m good.type good.type_set good.not_answered) in
      let ask : AppTurn codec h3 (m ∷ []) h4 = asks m [] refl refl in
      let asked_room : length b3.to_gateway < 500 =
        rw (ap (λ q. length (((q ++ []) ++ []) ++ [])) idle.none_asked) (omega arith) in
      let run : Run codec b (m ∷ []) b4 =
        next
          (next
            (next (next here (serves before after h h1 [] eh read tt))
              (serves before after h1 h2 [] refl queue tt))
            (serves before after h2 h3 [] refl handle tt))
          (serves before after h3 h4 (m ∷ []) refl ask asked_room) in
      let forward : Step codec b4 [] b5 =
        forwards m m [] good.metric idle.none_forwarded
          (ap (λ q. (((q ++ []) ++ []) ++ []) ++ (m ∷ [])) idle.none_asked)
          (forward_to_gateway-value m good.metric good.measured) in
      let pass : Step codec b5 [] b6 =
        passes m refl (rw (ap length idle.none_waiting) (omega arith)) in
      let send : Step codec b6 [] b7 =
        sends m [] none link idle.up idle.not_listening idle.none_received
          (ap (λ q. q ++ (m ∷ [])) idle.none_waiting)
          (client_send-returned b.uuid b.session m good.type l.payload b.link good.type_set
            good.fit.sendable.payload_held idle.fine) in
      (
        b7,
        h4,
        next (next (next run forward) pass) send,
        refl,
        record {
          still_reading = quiet.still_reading;
          none_found = refl;
          none_queued = refl;
          none_replied = refl;
          none_out = refl;
        },
        record {
          up = idle.up;
          not_listening = idle.not_listening;
          none_received = idle.none_received;
          none_forwarded = refl;
          none_asked = refl;
          none_waiting = refl;
          fine = idle.fine;
        },
        rest,
        refl,
        refl,
        refl,
      )

  -- Where the messages of an app come next on its connection, and none waits for the gateway, the
  -- goroutines of the bridge can go on so that each of them is written to the gateway in a whole frame,
  -- under the bridge's UUID, once and in the same order, and nothing else; if the gateway is connected and
  -- `Client.Run` is not in `Receive`, no write to the gateway fails, the app's socket reader runs and has
  -- nothing left for its main loop, and each message fits a frame, is read back by the protobuf library, is
  -- none that the bridge answers itself, and can be measured.
  pub app_to_gateway :
      (ls : List Letter) (b : Bridge) (before after : List Handler) (h : Handler) (r : List Item)
      → b.handlers ≡ before ++ (h ∷ after)
      → IsQuiet h
      → IsIdle b
      → All IsForwarded ls
      → items h.app.conn.inbox ≡ all_bytes (stream codec ls) ++ r
      → (b' : Bridge) × Run codec b (map (as_received codec) ls) b'
        × (b'.link.sent ≡ b.link.sent ++ map (bridged b.uuid b.session) ls)
  app_to_gateway [] b before after h r eh quiet idle good e =
      (b, here, sym (append-nil b.link.sent))
  app_to_gateway (l ∷ ls) b before after h r eh quiet idle (good, more) e =
      let (b1, h1, run1, eh1, quiet1, idle1, e1, sent1, eu, es) =
        letter_passed l b before after h (all_bytes (stream codec ls) ++ r) eh quiet idle good
          (e ∙ stream-first l ls r) in
      let (b2, run2, sent2) = app_to_gateway ls b1 before after h1 r eh1 quiet1 idle1 more e1 in
      (
        b2,
        Run-append codec run1 run2,
        sent2
            ∙ ap (λ u. b1.link.sent ++ map (bridged u b1.session) ls) eu
            ∙ ap (λ s. b1.link.sent ++ map (bridged b.uuid s) ls) es
            ∙ ap (λ x. x ++ map (bridged b.uuid b.session) ls) sent1
            ∙ append_assoc b.link.sent (bridged b.uuid b.session l ∷ [])
                (map (bridged b.uuid b.session) ls),
      )
