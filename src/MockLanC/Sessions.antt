-- ===== src/MockLanC/Sessions.antt =====
-- A session of pkg/comfoconnect/session.go with the mock gateway.
use comfoconnectbridge.Prelude.{
  ℕ, suc, ◌+◌, ◌≡◌, refl, sym, ap, ◌∙◌, arith, String, true, Option, none, some, List, [], ◌∷◌,
  ◌++◌, append-nil, append_assoc, map-append, length,
}
use comfoconnectbridge.Go.Errors.{GoError}
use comfoconnectbridge.Go.Binary.{Bytes}
use comfoconnectbridge.Go.Conn.{Conn, returned, continue, ◌>>=◌}
use comfoconnectbridge.Proto.Enums.{OperationType, GatewayResult, type_text, is_name}
use comfoconnectbridge.Proto.Payload.{Payload}
use comfoconnectbridge.Proto.Codec.{Codec}
use comfoconnectbridge.Comfoconnect.Types.{get_struct_for_type, get_response_type}
use comfoconnectbridge.Comfoconnect.Answers.{overrides}
use comfoconnectbridge.Comfoconnect.Socket.Stream.{Item, end, all_bytes, items}
use comfoconnectbridge.Comfoconnect.Message.{
  Message, pack_message, answer, answer_with, create_response, create_custom_response,
}
use comfoconnectbridge.Comfoconnect.Rounds.{Turn, ended}
use comfoconnectbridge.Comfoconnect.Rounds.Delivers.{
  Letter, packed, outs, as_received, IsFit, get_message_from_socket_next,
}
use comfoconnectbridge.Comfoconnect.Session.{
  register_request, start_request, expect_type, receive_message, exchange, handshake,
}
use comfoconnectbridge.Comfoconnect.Session.Calls.{
  send_message-returned, receive_message-returned, expect_type-returned,
}
use comfoconnectbridge.Comfoconnect.Session.Handshake.{registration, session_start}
use comfoconnectbridge.MockLanC.{handle_client, notification}
use comfoconnectbridge.MockLanC.Serves.{next, out, handle_client-outs}
use comfoconnectbridge.MockLanC.Answers.{reply_bytes}

module _ (src dst : Bytes) where
  -- The two requests, and the two confirmations of the mock gateway.
  abbrev pub registration_letter : ℕ → Letter
  registration_letter pin = record {
    message = register_request src dst 1 "Proxy" pin;
    payload =
        Payload.register_app_request
          (record { uuid = some src; pin = some pin; devicename = some "Proxy" });
  }

  abbrev pub start_letter : Letter
  start_letter = record {
    message = start_request src dst 2;
    payload = Payload.start_session_request (record { takeover = none });
  }

  abbrev confirm : OperationType → Option GatewayResult → ℕ → Payload → Letter
  confirm t result reference p = record {
    message = record {
      src = dst;
      dst = src;
      operation = record {
        type = some t;
        result = result;
        result_description = none;
        reference = some reference;
      };
      raw_message = [];
      operation_type = some p;
    };
    payload = p;
  }

  abbrev pub registration_confirm : Letter
  registration_confirm =
      confirm OperationType.register_app_confirm_type none 1 Payload.register_app_confirm

  abbrev pub start_confirm : Letter
  start_confirm =
      confirm OperationType.start_session_confirm_type (some GatewayResult.ok) 2
        (Payload.start_session_confirm (record { devicename = none; resumed = none }))

  module _ (codec : Codec) where
    registration-reply :
        (pin now : ℕ)
        → reply_bytes codec now
            (as_received codec (registration_letter pin))
            (some OperationType.register_app_request_type)
          ≡ packed codec registration_confirm ∷ []
    unfolding create_response answer answer_with overrides get_response_type get_struct_for_type
        type_text is_name pack_message
    registration-reply pin now = refl

    -- The notifications of the two nodes.
    abbrev pub notifications : List Bytes
    notifications =
        create_custom_response codec (as_received codec start_letter)
          OperationType.cn_node_notification_type (notification 1 1 1)
        ∷ create_custom_response codec (as_received codec start_letter)
            OperationType.cn_node_notification_type (notification 48 5 255)
        ∷ []

    -- The three writes behind a session start.
    abbrev pub start_replies : List Bytes
    start_replies = packed codec start_confirm ∷ notifications

    start-reply :
        (now : ℕ)
        → reply_bytes codec now
            (as_received codec start_letter)
            (some OperationType.start_session_request_type)
          ≡ start_replies
    unfolding create_response answer answer_with overrides get_response_type get_struct_for_type
        type_text is_name pack_message create_custom_response
    start-reply now = refl

-- What has been written, end to end.
abbrev pub joined : List Bytes → Bytes
joined [] = []
joined (b ∷ bs) = b ++ joined bs

all_bytes_twice :
    (a b c : Bytes) (r : List Item)
    → all_bytes (a ++ (b ++ c)) ++ r ≡ all_bytes a ++ (all_bytes b ++ (all_bytes c ++ r))
all_bytes_twice a b c r = simp (map-append, append_assoc)

ended-conn :
    {e e' : GoError} {k k' : ℕ} {c c' : Conn}
    → ◌≡◌ {A = Turn ℕ GoError} (ended e k c) (ended e' k' c')
    → c ≡ c'
ended-conn h = cc

module _ (codec : Codec) where
  -- A request is written, and its confirmation, which comes next, is received.
  exchange-returned :
      (send_text : String) (m : Message) (p : Payload) (receive_text name : String) (c : Conn)
      (l : Letter) (t : OperationType) (r : List Item)
      → m.operation_type ≡ some p
      → c.writes ≡ []
      → items c.inbox ≡ all_bytes (packed codec l) ++ r
      → IsFit codec l
      → l.message.operation.type ≡ some t
      → is_name (type_text t) name ≡ true
      → (c' : Conn) × (exchange codec send_text m receive_text name c ≡ returned tt c')
        × (items c'.inbox ≡ r)
        × (c'.sent ≡ c.sent ++ (pack_message codec m m.operation p ∷ []))
        × (c'.writes ≡ [])
  unfolding exchange
  exchange-returned send_text m p receive_text name c l t r hp hw hi fit ht hn =
      let c1 = record c { sent = c.sent ++ (pack_message codec m m.operation p ∷ []) } in
      let (c', got, rest, kept) = get_message_from_socket_next codec c1 l r fit hi in
      (
        c',
        ap
              (λ o. continue o (λ _. receive_message codec receive_text >>= λ answer.
                expect_type name answer.operation.type))
              (send_message-returned codec send_text m p c hp hw)
            ∙ ap (λ o. continue o (λ answer. expect_type name answer.operation.type))
                (receive_message-returned codec receive_text c1 c' (as_received codec l) got)
            ∙ expect_type-returned name l.message.operation.type t c' ht hn,
        rest,
        kept.0,
        kept.1 ∙ hw,
      )

  -- Over a connection on which the two confirmations come next, the handshake succeeds.
  handshake-returned :
      (src dst : Bytes) (pin : ℕ) (c : Conn) (r : List Item)
      → c.writes ≡ []
      → items c.inbox
        ≡ all_bytes (packed codec (registration_confirm src dst))
          ++ (all_bytes (packed codec (start_confirm src dst)) ++ r)
      → IsFit codec (registration_confirm src dst)
      → IsFit codec (start_confirm src dst)
      → (c' : Conn) × (handshake codec src dst pin c ≡ returned tt c')
        × (items c'.inbox ≡ r)
        × (c'.sent ≡ c.sent ++ (registration codec src dst pin ∷ session_start codec src dst ∷ []))
  unfolding handshake is_name type_text
  handshake-returned src dst pin c r hw hi fit1 fit2 =
      let m1 = (registration_letter src dst pin).message in
      let m2 = (start_letter src dst).message in
      let (c1, e1, i1, s1, w1) =
        exchange-returned "sending RegisterAppRequest" m1 (registration_letter src dst pin).payload
          "receiving RegisterAppConfirm" "RegisterAppConfirmType" c (registration_confirm src dst)
          OperationType.register_app_confirm_type _ refl hw hi fit1 refl refl in
      let (c2, e2, i2, s2, w2) =
        exchange-returned "sending StartSessionRequest" m2 (start_letter src dst).payload
          "receiving StartSessionConfirm" "StartSessionConfirmType" c1 (start_confirm src dst)
          OperationType.start_session_confirm_type r refl w1 i1 fit2 refl refl in
      (
        c2,
        ap
              (λ o. continue o (λ _.
                exchange codec "sending StartSessionRequest" m2 "receiving StartSessionConfirm"
                  "StartSessionConfirmType"))
              e1
            ∙ e2,
        i2,
        s2
            ∙ ap (λ x. x ++ (session_start codec src dst ∷ [])) s1
            ∙ append_assoc c.sent (registration codec src dst pin ∷ [])
                (session_start codec src dst ∷ []),
      )

  -- The bridge opens a session with the mock gateway: if the mock gateway has read the two requests of
  -- the handshake and then the end of the connection, and its replies come next on the connection of the
  -- handshake, then the handshake succeeds and has sent just these requests; behind it are left the two
  -- notifications of the nodes. No write fails, and the requests and the confirmations fit a frame and
  -- are read back by the protobuf library.
  pub handshake-handle_client :
      (clock : ℕ → ℕ) (src dst : Bytes) (pin n k : ℕ) (gateway gateway' c : Conn) (e : GoError)
      (r : List Item)
      → IsFit codec (registration_letter src dst pin) × IsFit codec (start_letter src dst)
      → IsFit codec (registration_confirm src dst) × IsFit codec (start_confirm src dst)
      → gateway.sent ≡ []
      → gateway.writes ≡ []
      → items gateway.inbox
        ≡ all_bytes (registration codec src dst pin ++ session_start codec src dst) ++ (end ∷ [])
      → handle_client codec clock (n + 3) gateway ≡ ended e k gateway'
      → c.writes ≡ []
      → items c.inbox ≡ all_bytes (joined gateway'.sent) ++ r
      → (c' : Conn) × (handshake codec src dst pin c ≡ returned tt c')
        × (c'.sent ≡ c.sent ++ (registration codec src dst pin ∷ session_start codec src dst ∷ []))
        × (items c'.inbox ≡ all_bytes (joined (notifications src dst codec)) ++ r)
  handshake-handle_client clock src dst pin n k gateway gateway' c e r (fit1, fit2) (fit3, fit4)
        fresh fine hg ends hw hi =
      let ls = registration_letter src dst pin ∷ start_letter src dst ∷ [] in
      let (e1, g1, ends1, eof, sent) =
        handle_client-outs codec clock ls n gateway (fit1, (fit2, tt)) fine
          (hg
            ∙ ap (λ x. all_bytes (registration codec src dst pin ++ x) ++ (end ∷ []))
                (sym (append-nil (session_start codec src dst)))) in
      let rounds_same : length ls + suc n ≡ n + 3 = omega arith in
      let same : g1 ≡ gateway' =
        ended-conn (sym ends1 ∙ ap (λ z. handle_client codec clock z gateway) rounds_same ∙ ends) in
      let replies : gateway'.sent
          ≡ packed codec (registration_confirm src dst) ∷ start_replies src dst codec =
        ap (λ g. g.sent) (sym same)
        ∙ sent
        ∙ ap (λ x. x ++ outs codec (next codec clock) (out codec clock) 0 ls) fresh
        ∙ ap (λ x. x ++ (out codec clock 1 (as_received codec (start_letter src dst)) ++ []))
            (registration-reply src dst codec pin (clock 0))
        ∙ ap (λ x. packed codec (registration_confirm src dst) ∷ (x ++ []))
            (start-reply src dst codec (clock 1)) in
      let (c', h, left, out) =
        handshake-returned src dst pin c _ hw
          (hi
            ∙ ap (λ x. all_bytes (joined x) ++ r) replies
            ∙ all_bytes_twice (packed codec (registration_confirm src dst))
                (packed codec (start_confirm src dst)) _ r)
          fit3 fit4 in
      (c', h, out, left)
