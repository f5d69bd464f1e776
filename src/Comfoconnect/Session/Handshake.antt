-- ===== src/Comfoconnect/Session/Handshake.antt =====
-- What a handshake that succeeds has done: `NewSession` of pkg/comfoconnect/session.go.
use comfoconnectbridge.Prelude.{
  ℕ, String, ◌≡◌, refl, sym, ap, ◌∙◌, Bool, true, false, Option, none, some, List, [], ◌∷◌, ◌++◌,
  append_assoc, if◌then◌else◌,
}
use comfoconnectbridge.Go.Errors.{new_error}
use comfoconnectbridge.Go.Binary.{Bytes}
use comfoconnectbridge.Go.Conn.{
  WriteEvent, accepted, refused, Conn, returned, pure, fail, write, write_next,
}
use comfoconnectbridge.Go.Conn.Bind.{returned-injective, continue_returned, map_error-eq-returned}
use comfoconnectbridge.Proto.Enums.{OperationType, type_text, is_name}
use comfoconnectbridge.Proto.Payload.{Payload}
use comfoconnectbridge.Proto.Codec.{Codec}
use comfoconnectbridge.Comfoconnect.Message.{Message, pack_message, pack_interface, encode}
use comfoconnectbridge.Comfoconnect.Receive.{get_message_from_socket}
use comfoconnectbridge.Comfoconnect.Receive.Keeps.{left}
use comfoconnectbridge.Comfoconnect.Receive.Quiet.{get_message_from_socket-IsKept}
use comfoconnectbridge.Comfoconnect.Session.{
  register_request, start_request, written, send_bytes, expect_type, send_message, receive_message,
  exchange, handshake,
}

append_twice :
    (s s1 s2 : List Bytes) (b1 b2 : Bytes)
    → s1 ≡ s ++ (b1 ∷ [])
    → s2 ≡ s1 ++ (b2 ∷ [])
    → s2 ≡ s ++ (b1 ∷ b2 ∷ [])
append_twice s s1 s2 b1 b2 h k = k ∙ ap (λ x. x ++ (b2 ∷ [])) h ∙ append_assoc s (b1 ∷ []) (b2 ∷ [])

written-eq-returned :
    (text : String) (ws : List WriteEvent) (b : Bytes) (c : Conn) (u : Unit {0}) (c' : Conn)
    → written text (write_next ws b c) ≡ returned u c'
    → (c'.sent ≡ c.sent ++ (b ∷ [])) × (c'.inbox ≡ c.inbox)
unfolding write_next
written-eq-returned text [] b c u c' h =
    let (_, e) = returned-injective h in (sym (ap (λ x. x.sent) e), sym (ap (λ x. x.inbox) e))
written-eq-returned text (accepted ∷ ws) b c u c' h =
    let (_, e) = returned-injective h in (sym (ap (λ x. x.sent) e), sym (ap (λ x. x.inbox) e))
written-eq-returned text (refused n e ∷ ws) b c u c' h = cc

pure_if-eq-returned :
    (b : Bool) (c : Conn) (u : Unit {0}) (c' : Conn)
    → (if b
          then pure tt
          else fail (new_error "received invalid message type instead of the confirmation" []))
        c
      ≡ returned u c'
    → (c ≡ c') × (b ≡ true)
pure_if-eq-returned true c u c' h = (cc, refl)
pure_if-eq-returned false c u c' h = cc

expect_type-eq-returned :
    (name : String) (o : Option OperationType) (c : Conn) (u : Unit {0}) (c' : Conn)
    → expect_type name o c ≡ returned u c'
    → (c ≡ c') × (t : OperationType) × (o ≡ some t) × (is_name (type_text t) name ≡ true)
expect_type-eq-returned name none c u c' h = cc
expect_type-eq-returned name (some t) c u c' h =
    let (e, k) = pure_if-eq-returned (is_name (type_text t) name) c u c' h in (e, t, refl, k)

module _ (codec : Codec) where
  pub send_message-eq-returned :
      (text : String) (m : Message) (p : Payload) (c : Conn) (u : Unit {0}) (c' : Conn)
      → m.operation_type ≡ some p
      → send_message codec text m c ≡ returned u c'
      → (c'.sent ≡ c.sent ++ (pack_message codec m m.operation p ∷ [])) × (c'.inbox ≡ c.inbox)
  unfolding send_message send_bytes encode pack_interface write
  send_message-eq-returned text m p c u c' hp h =
      written-eq-returned text c.writes (pack_message codec m m.operation p) c u c' (rw hp at h)

  -- A request went out as `b`, and a message of the type called `name` was received.
  pub record Exchanged (b : Bytes) (name : String) (c c' : Conn) : Type 0 where
    pub asked : Conn
    pub answer : Message
    pub type : OperationType
    pub sent_more : asked.sent ≡ c.sent ++ (b ∷ [])
    pub inbox_kept : asked.inbox ≡ c.inbox
    pub received : get_message_from_socket codec asked ≡ returned answer c'
    pub type_set : answer.operation.type ≡ some type
    pub named_so : is_name (type_text type) name ≡ true

  exchange-eq-returned :
      (send_text : String) (m : Message) (p : Payload) (receive_text name : String) (c : Conn)
      (u : Unit {0}) (c' : Conn)
      → m.operation_type ≡ some p
      → exchange codec send_text m receive_text name c ≡ returned u c'
      → Exchanged (pack_message codec m m.operation p) name c c'
  unfolding exchange receive_message
  exchange-eq-returned send_text m p receive_text name c u c' hp h =
      continue_returned (send_message codec send_text m c) _ h λ u1 c1 h1 h'.
        continue_returned (receive_message codec receive_text c1) _ h' λ answer c2 h2 h3.
          let (s, i) = send_message-eq-returned send_text m p c u1 c1 hp h1 in
          let (e, t, ht, hn) = expect_type-eq-returned name answer.operation.type c2 u c' h3 in
          record {
            asked = c1;
            answer = answer;
            type = t;
            sent_more = s;
            inbox_kept = i;
            received =
                map_error-eq-returned _ (get_message_from_socket codec) c1 h2
                ∙ ap (returned answer) e;
            type_set = ht;
            named_so = hn;
          }

  Exchanged-sent :
      (b : Bytes) (name : String) (c c' : Conn)
      → Exchanged b name c c'
      → c'.sent ≡ c.sent ++ (b ∷ [])
  Exchanged-sent b name c c' x =
      let (s, _) = get_message_from_socket-IsKept codec x.asked in
      sym (ap (λ o. (left o).sent) x.received) ∙ s ∙ x.sent_more

  -- The two requests of a handshake, as they are packed.
  abbrev pub registration : Bytes → Bytes → ℕ → Bytes
  registration src dst pin =
      let m = register_request src dst 1 "Proxy" pin in
      pack_message codec m m.operation (
        Payload.register_app_request
          (record { uuid = some src; pin = some pin; devicename = some "Proxy" }))

  abbrev pub session_start : Bytes → Bytes → Bytes
  session_start src dst =
      let m = start_request src dst 2 in
      pack_message codec m m.operation (Payload.start_session_request (record { takeover = none }))

  -- A handshake that succeeds has sent the registration with the reference 1 and then the session start
  -- with the reference 2, and nothing else. Each was followed by a message of its confirmation's type,
  -- and the second was sent after the first confirmation was received.
  pub handshake_returned :
      (src dst : Bytes) (pin : ℕ) (c : Conn) (u : Unit {0}) (c' : Conn)
      → handshake codec src dst pin c ≡ returned u c'
      → (registered : Conn) × Exchanged
          (registration src dst pin)
          "RegisterAppConfirmType"
          c
          registered
        × Exchanged (session_start src dst) "StartSessionConfirmType" registered c'
        × (c'.sent ≡ c.sent ++ (registration src dst pin ∷ session_start src dst ∷ []))
  unfolding handshake
  handshake_returned src dst pin c u c' h =
      continue_returned (exchange codec _ (register_request src dst 1 "Proxy" pin) _ _ c) _ h
        λ u1 c1 h1 h2.
          let first =
            exchange-eq-returned _ (register_request src dst 1 "Proxy" pin) _ _ _ c u1 c1 refl h1 in
          let second = exchange-eq-returned _ (start_request src dst 2) _ _ _ c1 u c' refl h2 in
          (
            c1,
            first,
            second,
            append_twice c.sent c1.sent c'.sent (registration src dst pin) (session_start src dst)
                (Exchanged-sent _ _ c c1 first) (Exchanged-sent _ _ c1 c' second),
          )
