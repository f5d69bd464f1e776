-- ===== src/Proxy/Forward.antt =====
-- What pkg/proxy passes between the apps and the gateway.
use comfoconnectbridge.Prelude.{
  ℕ, ◌≡◌, refl, ap, ◌∙◌, ◌⊎◌, inl, inr, arith, Bool, Bool-cases, true, false, if◌then◌else◌, Option,
  none, some, List, [], ◌∷◌, ◌++◌, take,
}
use comfoconnectbridge.Go.Errors.{GoError, cause, is_eof, value}
use comfoconnectbridge.Go.Binary.{or_empty, Bytes}
use comfoconnectbridge.Go.Conn.{
  Conn, WriteEvent, accepted, refused, Outcome, returned, failed, panicked, waiting, write,
  write_next,
}
use comfoconnectbridge.Proto.Enums.{OperationType, GatewayResult, type_text, is_name}
use comfoconnectbridge.Proto.Payload.{Payload}
use comfoconnectbridge.Proto.Codec.{Codec}
use comfoconnectbridge.Comfoconnect.Socket.Stream.{Item, all_bytes, items}
use comfoconnectbridge.Comfoconnect.Message.{Message, pack_message, encode}
use comfoconnectbridge.Comfoconnect.Receive.{Failure, get_message_from_socket}
use comfoconnectbridge.Comfoconnect.Receive.RoundTrip.{
  IsSendable, ReadsBack, get_message_from_socket-pack_message,
}
use comfoconnectbridge.Comfoconnect.Session.{Session, session_send, sent_result}
use comfoconnectbridge.MockLanC.Answers.{is_start, IsResponse, create_response-value}
use comfoconnectbridge.Proxy.{
  App, write_app, masquerade, handle_message, handle_typed, copy_to_apps, app_write, client_send,
  client_receive, client_round, pass_on, notifications, Work,
}

-- The types that the bridge answers itself.
abbrev pub is_answered : OperationType → Bool
is_answered OperationType.register_app_request_type = true
is_answered OperationType.start_session_request_type = true
is_answered _ = false

pub is_answered-names :
    (t : OperationType)
    → is_answered t ≡ (
        if is_name (type_text t) "RegisterAppRequestType"
        then true
        else is_name (type_text t) "StartSessionRequestType")
unfolding is_name type_text
is_answered-names t = ground arith

register-is_start :
    (t : OperationType) → is_name (type_text t) "RegisterAppRequestType" ≡ true → is_start t ≡ false
unfolding is_name type_text
register-is_start t h = ground arith

-- One write puts the bytes on the connection, or a prefix of them where the write fails.
pub record IsWritten (b : Bytes) (c c' : Conn) : Type 0 where
  pub attempt : Bytes
  pub whole_or_refused :
      (attempt ≡ b)
      ⊎ ((n : ℕ) × (e : GoError) × (ws : List WriteEvent) × (c.writes ≡ refused n e ∷ ws)
          × (attempt ≡ take n b))
  pub sent_more : c'.sent ≡ c.sent ++ (attempt ∷ [])
  pub inbox_kept : c'.inbox ≡ c.inbox

write_next-IsWritten :
    (ws : List WriteEvent) (b : Bytes) (c : Conn)
    → c.writes ≡ ws
    → IsWritten b c (write_next ws b c).1
unfolding write_next
write_next-IsWritten [] b c h = record {
  attempt = b;
  whole_or_refused = inl refl;
  sent_more = refl;
  inbox_kept = refl;
}
write_next-IsWritten (accepted ∷ ws) b c h = record {
  attempt = b;
  whole_or_refused = inl refl;
  sent_more = refl;
  inbox_kept = refl;
}
write_next-IsWritten (refused n e ∷ ws) b c h = record {
  attempt = take n b;
  whole_or_refused = inr (n, e, ws, h, refl);
  sent_more = refl;
  inbox_kept = refl;
}

pass_on_failed :
    (m : Message) (t : Option OperationType) (c : Conn) (e : GoError) (c' : Conn)
    → pass_on m t c ≡ failed e c'
    → ⊥
pass_on_failed m none c e c' h = cc
pass_on_failed m (some t) c e c' h = cc

client_round_failed :
    (x : Outcome Failure Message) (e : GoError) (c' : Conn)
    → client_round x ≡ failed e c'
    → is_eof (cause e) ≡ true
unfolding cause is_eof
client_round_failed (returned m c) e c' h = absurd (pass_on_failed m m.operation.type c e c' h)
client_round_failed (failed f c) e c' h = ground arith
client_round_failed (panicked c) e c' h = ground arith
client_round_failed (waiting c) e c' h = ground arith

module _ (codec : Codec) where
  -- The app `a'` is the app `a` after a copy of the message `m` with the payload `p`.
  pub record IsCopied (uuid : Bytes) (m : Message) (p : Payload) (a a' : App) : Type 0 where
    pub uuid_kept : a'.uuid ≡ a.uuid
    pub copy_written :
        IsWritten (pack_message codec (masquerade uuid a.uuid m) m.operation p) a.conn a'.conn

  abbrev pub AllCopied : Bytes → Message → Payload → List App → List App → Type 0
  AllCopied uuid m p [] [] = Unit
  AllCopied uuid m p (a ∷ apps) (a' ∷ apps') =
      IsCopied uuid m p a a' × AllCopied uuid m p apps apps'
  AllCopied uuid m p _ _ = ⊥

  app_write_copies :
      (uuid : Bytes) (m : Message) (p : Payload) (t : OperationType) (a : App)
      → m.operation.type ≡ some t
      → m.operation_type ≡ some p
      → (a' : App) × (app_write codec a (masquerade uuid a.uuid m) ≡ value a')
        × IsCopied uuid m p a a'
  unfolding app_write write_app encode write
  app_write_copies uuid m p t a ht hp =
      let b : Bytes = pack_message codec (masquerade uuid a.uuid m) m.operation p in
      (
        write_app a b,
        rw (ht, hp) refl,
        record {
          uuid_kept = refl;
          copy_written = write_next-IsWritten a.conn.writes b a.conn refl;
        },
      )

  -- A message from the gateway with a type and a payload reaches every app, in a frame that names the
  -- bridge as its sender and that app as its receiver, whatever becomes of the writes to the other apps:
  -- only an app whose own write fails gets less than the whole frame.
  pub copy_to_apps_lem :
      (uuid : Bytes) (m : Message) (p : Payload) (t : OperationType) (apps : List App)
      → m.operation.type ≡ some t
      → m.operation_type ≡ some p
      → (apps' : List App) × (copy_to_apps codec uuid m apps ≡ value apps')
        × AllCopied uuid m p apps apps'
  unfolding copy_to_apps
  copy_to_apps_lem uuid m p t [] ht hp = ([], refl, tt)
  copy_to_apps_lem uuid m p t (a ∷ apps) ht hp =
      let (a', e, copied) = app_write_copies uuid m p t a ht hp in
      let (apps', es, all) = copy_to_apps_lem uuid m p t apps ht hp in
      (a' ∷ apps', rw (e, es) refl, (copied, all))

  -- What the bridge sends on to the gateway is received there as the app's message with the bridge's
  -- UUID as its sender and the gateway's as its receiver, if the message fits a frame, the protobuf
  -- library reads it back, and the write succeeds.
  pub client_send-get_message_from_socket :
      (uuid : Bytes) (s : Session) (m : Message) (p : Payload) (c gateway : Conn) (r : List Item)
      → IsSendable codec (masquerade uuid s.dst m) p
      → ReadsBack codec (masquerade uuid s.dst m) p
      → c.writes ≡ []
      → items gateway.inbox
        ≡ all_bytes (pack_message codec (masquerade uuid s.dst m) m.operation p) ++ r
      → (b : Bytes) × (gateway' : Conn) × (client_send codec uuid s m c
          ≡ returned none (record c { sent = c.sent ++ (b ∷ []) }))
        × (get_message_from_socket codec gateway
            ≡ returned (record m { src = uuid; dst = s.dst; raw_message = b }) gateway')
        × (items gateway'.inbox ≡ r)
  unfolding client_send session_send sent_result encode write write_next
  client_send-get_message_from_socket uuid s m p c gateway r fits back writes h =
      let (gateway', e, q) =
        get_message_from_socket-pack_message codec gateway (masquerade uuid s.dst m) p r fits back
          h in
      (
        pack_message codec (masquerade uuid s.dst m) m.operation p,
        gateway',
        rw (back.type_set, fits.payload_held, writes) refl,
        e,
        q,
      )

  -- The client ends with an error only where the gateway closed the connection.
  pub client_receive_failed :
      (c : Conn) (e : GoError) (c' : Conn)
      → client_receive codec c ≡ failed e c'
      → is_eof (cause e) ≡ true
  unfolding client_receive
  client_receive_failed c e c' h = client_round_failed (get_message_from_socket codec c) e c' h

  abbrev notices : Bool → Message → List Bytes
  notices true m = notifications codec m
  notices false m = []

  -- The bridge answers itself: it writes the response of CreateResponse with the result OK (or an empty
  -- one where the code knows none), behind that of a session start the two node notifications, and puts
  -- nothing into the gateway's channel.
  pub record IsAnswered (m : Message) (t : OperationType) (p : Payload) (w : Work) : Type 0 where
    pub answered : is_answered t ≡ true
    pub response : Bytes
    pub responds : IsResponse codec m GatewayResult.ok p response
    pub written : w.replies ≡ response ∷ notices (is_start t) m
    pub none_out : w.out ≡ []

  -- A message of an app that has a type and a payload is either answered by the bridge, which registrations
  -- and session starts are, or put into the gateway's channel as it is, with nothing written to the app.
  pub handle_message_lem :
      (now : ℕ) (uuid : Bytes) (m : Message) (t : OperationType) (p : Payload)
      → m.operation.type ≡ some t
      → m.operation_type ≡ some p
      → (w : Work) × (handle_message codec now uuid m ≡ value w)
        × (IsAnswered m t p w
            ⊎ (is_answered t ≡ false) × (w.replies ≡ []) × (w.out ≡ m ∷ []) × (w.uuid ≡ uuid))
  unfolding handle_message handle_typed
  handle_message_lem now uuid m t p ht hp =
      let (r, e, known) = create_response-value codec now m GatewayResult.ok p hp in
      let names = is_answered-names t in
      elim (Bool-cases (is_name (type_text t) "RegisterAppRequestType")) [
        | inl register ↦ (
          record { uuid = m.src; replies = or_empty r ∷ []; out = [] },
          ap (handle_typed codec now uuid m) ht ∙ rw (register, e) refl,
          inl (record {
            answered = rw register at names;
            response = or_empty r;
            responds = known;
            written = rw (register-is_start t register) refl;
            none_out = refl;
          }),
        )
        | inr other ↦ elim (Bool-cases (is_start t)) [
          | inl start ↦ (
            record { uuid = uuid; replies = or_empty r ∷ notifications codec m; out = [] },
            ap (handle_typed codec now uuid m) ht ∙ rw (other, start, e) refl,
            inl (record {
              answered = rw (other, start) at names;
              response = or_empty r;
              responds = known;
              written = rw start refl;
              none_out = refl;
            }),
          )
          | inr forwarded ↦ (
            record { uuid = uuid; replies = []; out = m ∷ [] },
            ap (handle_typed codec now uuid m) ht ∙ rw (other, forwarded) refl,
            inr (rw (other, forwarded) at names, refl, refl, refl),
          )
        ]
      ]
