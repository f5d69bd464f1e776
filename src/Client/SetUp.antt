-- ===== src/Client/SetUp.antt =====
-- A client whose requests are confirmed.
use comfoconnectbridge.Prelude.{
  ℕ, ◌+◌, ◌<◌, ◌≡◌, refl, ap, ◌∙◌, arith, String, true, false, some, List, [], ◌∷◌, ◌++◌, All,
  length,
}
use comfoconnectbridge.Go.Conn.{Conn, returned}
use comfoconnectbridge.Proto.Enums.{OperationType, type_text, is_name}
use comfoconnectbridge.Proto.Payload.{Payload}
use comfoconnectbridge.Proto.Codec.{Codec}
use comfoconnectbridge.Comfoconnect.Message.{Message}
use comfoconnectbridge.Comfoconnect.Session.{expect_type, receive_message}
use comfoconnectbridge.Comfoconnect.Session.Calls.{
  send_message-returned, receive_message-returned, expect_type-returned,
}
use comfoconnectbridge.Comfoconnect.Socket.Stream.{Item, all_bytes, items}
use comfoconnectbridge.Comfoconnect.Rounds.Delivers.{
  Letter, packed, stream, as_received, IsFit, get_message_from_socket_next,
}
use comfoconnectbridge.Client.Actions.{continue, ◌>>=◌, on_conn, next, with_reference}
use comfoconnectbridge.Client.{
  Sensor, Client, rpdo_request, ask, register, session_request, wait_for_confirm, subscribe_as,
  subscribe, subscribe_all, set_up, quiet, no_ticks, pause,
}
use comfoconnectbridge.Client.Requests.{registration, session_start, subscriptions, set_up_returned}
use comfoconnectbridge.Client.Writes.{word}
use comfoconnectbridge.Client.Replies.{IsReceived, wait_for_confirm_found}

-- What the gateway sends for a subscription: other messages, and the confirmation.
pub record Confirmation : Type 0 where
  pub others : List Letter
  pub last : Letter

module _ (codec : Codec) where
  -- What comes for the subscriptions, and then `r`.
  abbrev pub incoming : List Confirmation → List Item → List Item
  incoming [] r = r
  incoming (a ∷ answers) r =
      all_bytes (stream codec a.others) ++ (all_bytes (packed codec a.last) ++ incoming answers r)

  -- Up to nine other messages, which can be measured, and a confirmation.
  pub record IsConfirmed (a : Confirmation) : Type 0 where
    pub few : length a.others < 10
    pub others_fit : All (λ l. IsFit codec l × IsReceived codec false l) a.others
    pub last_fit : IsFit codec a.last
    pub confirms : IsReceived codec true a.last

  -- A letter with the type that is called `name`.
  pub record IsNamed (name : String) (l : Letter) : Type 0 where
    pub type : OperationType
    pub type_set : l.message.operation.type ≡ some type
    pub same_name : is_name (type_text type) name ≡ true
    pub fit : IsFit codec l

  ask-returned :
      (r : ℕ) (send_text : String) (m : Message) (p : Payload) (receive_text name : String)
      (c : Conn) (l : Letter) (q : List Item)
      → m.operation_type ≡ some p
      → c.writes ≡ []
      → IsNamed name l
      → items c.inbox ≡ all_bytes (packed codec l) ++ q
      → (c' : Conn) × (ask codec send_text m receive_text name r c ≡ (word (r + 1), returned tt c'))
        × (items c'.inbox ≡ q)
        × (c'.writes ≡ [])
  unfolding ask next
  ask-returned r send_text m p receive_text name c l q hp hw good hi =
      let c1 = record c { sent = c.sent ++ (_ ∷ []) } in
      let (c', got, rest, kept) = get_message_from_socket_next codec c1 l q good.fit hi in
      (
        c',
        ap
              (λ o.
                continue (r, o)
                  (λ _. next >>= λ _. on_conn (receive_message codec receive_text) >>= λ answer.
                    on_conn (expect_type name answer.operation.type)))
              (send_message-returned codec send_text m p c hp hw)
            ∙ ap
                (λ o.
                  continue (word (r + 1), o)
                    (λ answer. on_conn (expect_type name answer.operation.type)))
                (receive_message-returned codec receive_text c1 c' (as_received codec l) got)
            ∙ ap (λ o. (word (r + 1), o))
                (expect_type-returned name l.message.operation.type good.type c' good.type_set
                  good.same_name),
        rest,
        kept.1 ∙ hw,
      )

  module _ (client : Client) where
    register-returned :
        (r : ℕ) (c : Conn) (l : Letter) (q : List Item)
        → c.writes ≡ []
        → IsNamed "RegisterAppConfirmType" l
        → items c.inbox ≡ all_bytes (packed codec l) ++ q
        → (r' : ℕ) × (c' : Conn) × (register codec client r c ≡ (r', returned tt c'))
          × (items c'.inbox ≡ q)
          × (c'.writes ≡ [])
    unfolding register next with_reference
    register-returned r c l q hw good hi =
        let (c', e, rest, fine) = ask-returned (word (r + 1)) _ _ _ _ _ c l q refl hw good hi in
        (_, c', e, rest, fine)

    session_request-returned :
        (r : ℕ) (c : Conn) (l : Letter) (q : List Item)
        → c.writes ≡ []
        → IsNamed "StartSessionConfirmType" l
        → items c.inbox ≡ all_bytes (packed codec l) ++ q
        → (r' : ℕ) × (c' : Conn) × (session_request codec client r c ≡ (r', returned tt c'))
          × (items c'.inbox ≡ q)
          × (c'.writes ≡ [])
    unfolding session_request next with_reference
    session_request-returned r c l q hw good hi =
        let (c', e, rest, fine) = ask-returned (word (r + 1)) _ _ _ _ _ c l q refl hw good hi in
        (_, c', e, rest, fine)

    subscribe-returned :
        (s : Sensor) (r : ℕ) (c : Conn) (a : Confirmation) (q : List Item)
        → c.writes ≡ []
        → IsConfirmed a
        → items c.inbox
          ≡ all_bytes (stream codec a.others) ++ (all_bytes (packed codec a.last) ++ q)
        → (c' : Conn) × (subscribe codec client s quiet r c ≡ (word (r + 1), returned tt c'))
          × (items c'.inbox ≡ q)
          × (c'.writes ≡ [])
    unfolding subscribe subscribe_as next with_reference pause
    subscribe-returned s r c a q hw good hi =
        let c1 = record c { sent = c.sent ++ (_ ∷ []) } in
        let (c', e, rest, kept) =
          wait_for_confirm_found codec a.others a.last c1 q good.few good.others_fit good.last_fit
            good.confirms hi in
        (
          c',
          ap
                (λ o.
                  continue (r, o)
                    (λ _. pause codec client 0 >>= λ _. next >>= λ _.
                      pause codec client 0 >>= λ _. on_conn (wait_for_confirm codec 10)))
                (send_message-returned codec "requesting RPDO" (rpdo_request client s r) _ c refl
                  hw)
              ∙ ap (λ o. (word (r + 1), o)) e,
          rest,
          kept.1 ∙ hw,
        )

    subscribe_all-returned :
        (sensors : List Sensor) (answers : List Confirmation) (r : ℕ) (c : Conn) (q : List Item)
        → length answers ≡ length sensors
        → c.writes ≡ []
        → All IsConfirmed answers
        → items c.inbox ≡ incoming answers q
        → (r' : ℕ) × (c' : Conn) × (subscribe_all codec client sensors no_ticks r c
            ≡ (r', returned tt c'))
          × (items c'.inbox ≡ q)
    unfolding subscribe_all
    subscribe_all-returned [] [] r c q n hw good hi = (r, c, refl, hi)
    subscribe_all-returned [] (a ∷ answers) r c q n hw good hi = absurd (omega arith)
    subscribe_all-returned (s ∷ sensors) [] r c q n hw good hi = absurd (omega arith)
    subscribe_all-returned (s ∷ sensors) (a ∷ answers) r c q n hw (good, goods) hi =
        let (c1, e1, i1, w1) = subscribe-returned s r c a (incoming answers q) hw good hi in
        let (r', c', e2, i2) =
          subscribe_all-returned sensors answers (word (r + 1)) c1 q (omega arith) w1 goods i1 in
        (
          r',
          c',
          ap (λ o. continue o (λ _. subscribe_all codec client sensors no_ticks)) e1 ∙ e2,
          i2,
        )

    -- Where the confirmations of the registration and of the session start come next, and then for each
    -- sensor up to nine messages that can be measured and a confirmation, the session of a client is set
    -- up, if these messages fit a frame, the protobuf library reads them back, no write fails and no tick
    -- of the keep-alive goroutine comes before: its
    -- requests are sent, in order and nothing else, and what follows the last confirmation is left for the
    -- loop that receives.
    pub set_up_confirmed :
        (r : ℕ) (c : Conn) (registered started : Letter) (answers : List Confirmation)
        (q : List Item)
        → c.writes ≡ []
        → IsNamed "RegisterAppConfirmType" registered
        → IsNamed "StartSessionConfirmType" started
        → length answers ≡ length client.sensors
        → All IsConfirmed answers
        → items c.inbox
          ≡ all_bytes (packed codec registered)
            ++ (all_bytes (packed codec started) ++ incoming answers q)
        → (r' : ℕ) × (c' : Conn) × (set_up codec client no_ticks r c ≡ (r', returned tt c'))
          × (items c'.inbox ≡ q)
          × (c'.sent
              ≡ c.sent
                ++ (registration codec client (word (r + 1))
                    ∷ session_start codec client (word (r + 3))
                    ∷ subscriptions codec client (word (r + 4)) client.sensors))
    unfolding set_up
    set_up_confirmed r c registered started answers q hw named1 named2 n goods hi =
        let (r1, c1, e1, i1, w1) = register-returned r c registered _ hw named1 hi in
        let (r2, c2, e2, i2, w2) = session_request-returned r1 c1 started _ w1 named2 i1 in
        let (r3, c3, e3, i3) =
          subscribe_all-returned client.sensors answers r2 c2 q n w2 goods i2 in
        let done : set_up codec client no_ticks r c ≡ (r3, returned tt c3) =
          ap
            (λ o. continue o (λ _. session_request codec client >>= λ _.
              subscribe_all codec client client.sensors no_ticks))
            e1
          ∙ ap (λ o. continue o (λ _. subscribe_all codec client client.sensors no_ticks)) e2
          ∙ e3 in
        (r3, c3, done, i3, (set_up_returned codec client r c tt r3 c3 done).1)
