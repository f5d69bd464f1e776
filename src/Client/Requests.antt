-- ===== src/Client/Requests.antt =====
-- Which requests a client has sent, under which references, when its session is set up.
use comfoconnectbridge.Prelude.{
  ℕ, ◌+◌, ◌^◌, ◌<◌, ◌≡◌, refl, ap, ◌∙◌, arith, none, some, List, [], ◌∷◌, ◌++◌, length,
}
use comfoconnectbridge.Go.Binary.{Bytes}
use comfoconnectbridge.Go.Conn.{Conn, returned}
use comfoconnectbridge.Proto.Payload.{Payload}
use comfoconnectbridge.Proto.Codec.{Codec}
use comfoconnectbridge.Comfoconnect.Message.{pack_message}
use comfoconnectbridge.Comfoconnect.Session.{register_request, start_request, send_message}
use comfoconnectbridge.Client.Actions.{Action, ◌>>=◌, on_conn, next, with_reference}
use comfoconnectbridge.Client.{
  Sensor, Client, rpdo_request, subscribe_as, register, session_request, wait_for_confirm,
  subscribe, subscribe_all, set_up, quiet, no_ticks, pause,
}
use comfoconnectbridge.Client.Writes.{
  word, Does, bind-Does, with_reference-Does, recount, next-Does, quiet-Does, pure-Does, ask-Does,
  send-Does, wait_for_confirm-sent,
}

module _ (codec : Codec) where
  module _ (client : Client) where
    -- The requests as they are packed.
    abbrev pub registration : ℕ → Bytes
    registration r =
        let m =
          register_request client.my_uuid client.gateway_uuid r client.device_name client.pin in
        pack_message codec m m.operation (
          Payload.register_app_request (record {
            uuid = some client.my_uuid;
            pin = some client.pin;
            devicename = some client.device_name;
          }))

    abbrev pub session_start : ℕ → Bytes
    session_start r =
        let m = start_request client.my_uuid client.gateway_uuid r in
        pack_message codec m m.operation
          (Payload.start_session_request (record { takeover = none }))

    abbrev pub subscription : Sensor → ℕ → Bytes
    subscription s r =
        let m = rpdo_request client s r in
        pack_message codec m m.operation (
          Payload.cn_rpdo_request
            (record { pdid = some s.ppid; zone = some 1; type = some s.type; timeout = none }))

    -- One request for each sensor, each with a reference of its own.
    abbrev pub subscriptions : ℕ → List Sensor → List Bytes
    subscriptions r [] = []
    subscriptions r (s ∷ sensors) = subscription s r ∷ subscriptions (word (r + 1)) sensors

    register-Does : (r : ℕ) → Does r (register codec client) 2 (registration (word (r + 1)) ∷ [])
    unfolding register
    register-Does r =
        bind-Does next _ (next-Does r)
          λ _. with_reference-Does _ (ask-Does codec (word (r + 1)) _ _ _ _ _ (omega arith) refl)

    session_request-Does :
        (r : ℕ) → Does r (session_request codec client) 2 (session_start (word (r + 1)) ∷ [])
    unfolding session_request
    session_request-Does r =
        bind-Does next _ (next-Does r)
          λ _. with_reference-Does _ (ask-Does codec (word (r + 1)) _ _ _ _ _ (omega arith) refl)

    -- A subscription without a tick.
    abbrev plain_subscribe : Sensor → Action (Unit {0})
    plain_subscribe s = with_reference λ r.
        on_conn (send_message codec "requesting RPDO" (rpdo_request client s r)) >>= λ _.
        next >>= λ _. on_conn (wait_for_confirm codec 10)

    plain_subscribe-Does :
        (r : ℕ) (s : Sensor) → r < 2 ^ 32 → Does r (plain_subscribe s) 1 (subscription s r ∷ [])
    plain_subscribe-Does r s small = with_reference-Does _ (
        bind-Does _ _ (send-Does codec r _ _ _ small refl) λ _.
          bind-Does next _ (next-Does _)
            λ _. quiet-Does _ _ (omega arith) (wait_for_confirm-sent codec 10))

    subscribe-Does :
        (r : ℕ) (s : Sensor)
        → r < 2 ^ 32
        → Does r (subscribe codec client s quiet) 1 (subscription s r ∷ [])
    unfolding subscribe subscribe_as pause with_reference
    subscribe-Does r s small = record {
      does = λ c a r' c' e. (plain_subscribe-Does r s small).does c a r' c' e;
    }

    subscribe_all-Does :
        (sensors : List Sensor) (r : ℕ)
        → r < 2 ^ 32
        → Does r
            (subscribe_all codec client sensors no_ticks)
            (length sensors)
            (subscriptions r sensors)
    unfolding subscribe_all
    subscribe_all-Does [] r small = pure-Does r tt small
    subscribe_all-Does (s ∷ sensors) r small = recount (omega arith) (
        bind-Does _ _ (subscribe-Does r s small)
          λ _. subscribe_all-Does sensors (word (r + 1)) (omega arith))

    -- A client whose session is set up from the reference `r`, before a tick of its keep-alive goroutine
    -- comes, has sent the registration, the session start and one subscription for each sensor, in this
    -- order and nothing else. Each request has a reference of its own: the registration `r + 1`, the session
    -- start `r + 3`, and the subscriptions those from `r + 4` on, with the references taken on uint32. The
    -- reference afterwards is the one behind the last.
    pub set_up_returned :
        (r : ℕ) (c : Conn) (u : Unit {0}) (r' : ℕ) (c' : Conn)
        → set_up codec client no_ticks r c ≡ (r', returned u c')
        → (r' ≡ word (r + 4 + length client.sensors))
          × (c'.sent
              ≡ c.sent
                ++ (registration (word (r + 1))
                    ∷ session_start (word (r + 3))
                    ∷ subscriptions (word (r + 4)) client.sensors))
    unfolding set_up
    set_up_returned r c u r' c' h =
        let e1 : word (word (r + 2) + 1) ≡ word (r + 3) = omega arith in
        let e2 : word (word (r + 2) + 2) ≡ word (r + 4) = omega arith in
        let (q, s) =
          (bind-Does _ _ (register-Does r) λ _.
              bind-Does _ _ (session_request-Does (word (r + 2)))
                λ _. subscribe_all-Does client.sensors (word (word (r + 2) + 2)) (omega arith)).does
            c u r' c' h in
        (q ∙ omega arith, s ∙ ap (λ x. c.sent ++ x) (rw (e1, e2) refl))
