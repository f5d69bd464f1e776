-- ===== src/Dumbproxy/Passes.antt =====
-- What the dumb proxy passes on.
use comfoconnectbridge.Prelude.{
  ℕ, suc, ◌+◌, ◌<◌, ◌≡◌, refl, sym, ap, ◌∙◌, true, Option, none, some, List, [], ◌∷◌, ◌++◌, All,
  append_assoc, append-nil, map, length,
}
use comfoconnectbridge.Go.Errors.{Go, value, panic, and_then}
use comfoconnectbridge.Go.Binary.{Bytes}
use comfoconnectbridge.Go.Conn.{Conn, write, write_next}
use comfoconnectbridge.Proto.Enums.{OperationType}
use comfoconnectbridge.Proto.Codec.{Codec}
use comfoconnectbridge.Gauge.{Metric}
use comfoconnectbridge.Comfoconnect.Message.{Message, pack_message, pack_interface, encode}
use comfoconnectbridge.Comfoconnect.Receive.Progress.{size}
use comfoconnectbridge.Comfoconnect.Socket.Stream.{end, all_bytes, items}
use comfoconnectbridge.Comfoconnect.Rounds.{again, ended, is_over, IsServing, again-injective}
use comfoconnectbridge.Comfoconnect.Rounds.Ends.{rounds-is_over}
use comfoconnectbridge.Comfoconnect.Rounds.Delivers.{
  Letter, packed, stream, as_received, IsFit, IsActing, steps, rounds-stream_closed,
}
use comfoconnectbridge.Dumbproxy.{
  generate_metrics, proxy_send, passed_on, pass_on, receive_loop, proxy_receive,
}

proxy_send_lem :
    (bs : List Bytes) (c : Conn) → c.writes ≡ [] → (proxy_send c bs).sent ≡ c.sent ++ bs
unfolding proxy_send
proxy_send_lem [] c h = sym (append-nil c.sent)
proxy_send_lem (b ∷ bs) c h =
    let e : (write b c).1 ≡ record c { sent = c.sent ++ (b ∷ []) } =
      unfold write write_next in rw h refl in
    proxy_send_lem bs (write b c).1 (ap (λ x. x.writes) e ∙ h)
    ∙ ap (λ x. x.sent ++ bs) e
    ∙ append_assoc c.sent (b ∷ []) bs

module _ (codec : Codec) where
  passed_on-inbox :
      (channel : List Bytes) (c : Conn) (g : Go Bytes) (channel' : List Bytes) (c' : Conn)
      → passed_on codec channel c g ≡ again channel' c'
      → c'.inbox ≡ c.inbox
  passed_on-inbox channel c (value b) channel' c' h =
      let (_, e) = again-injective h in ap (λ x. x.inbox) (sym e)
  passed_on-inbox channel c panic channel' c' h = cc

  pass_on-inbox :
      (channel : List Bytes) (m : Message) (t : Option OperationType) (c : Conn)
      (channel' : List Bytes) (c' : Conn)
      → pass_on codec channel m t c ≡ again channel' c'
      → c'.inbox ≡ c.inbox
  unfolding pass_on
  pass_on-inbox channel m none c channel' c' h =
      let (_, e) = again-injective h in ap (λ x. x.inbox) (sym e)
  pass_on-inbox channel m (some t) c channel' c' h = passed_on-inbox channel c _ channel' c' h

  receive_loop-IsServing : IsServing (receive_loop codec)
  receive_loop-IsServing = record {
    serves = λ channel m c channel' c' e. pass_on-inbox channel m m.operation.type c channel' c' e;
  }

  -- Receiving comes to an end, whatever is on the connection: as many rounds as there are bytes and
  -- failures, and one more, are enough.
  pub proxy_receive-is_over :
      (n : ℕ) (channel : List Bytes) (c : Conn)
      → size c < n
      → is_over (proxy_receive codec n channel c) ≡ true
  unfolding proxy_receive
  proxy_receive-is_over n channel c h =
      rounds-is_over (receive_loop codec) receive_loop-IsServing codec n channel c h

  -- A message with the type `type`, which can be measured and encoded to `bytes`.
  record IsPassed (m : Message) : Type 0 where
    type : OperationType
    metric : Option Metric
    bytes : Bytes
    type_set : m.operation.type ≡ some type
    measured : generate_metrics m type ≡ value metric
    encoded : encode codec m ≡ value bytes

  abbrev or_nothing : List Bytes → Go Bytes → List Bytes
  or_nothing channel (value b) = channel ++ (b ∷ [])
  or_nothing channel panic = channel

  abbrev queued : List Bytes → Message → List Bytes
  queued channel m = or_nothing channel (encode codec m)

  receive_loop-acts :
      (channel : List Bytes) (m : Message) (c : Conn)
      → IsPassed m
      → Unit {0}
      → (c' : Conn) × (pass_on codec channel m m.operation.type c ≡ again (queued channel m) c')
        × (c'.inbox ≡ c.inbox)
        × (c'.sent ≡ c.sent ++ [])
        × Unit {0}
  unfolding pass_on
  receive_loop-acts channel m c good fine = (
    c,
    ap (λ t. pass_on codec channel m t c) good.type_set
        ∙ ap (λ g. passed_on codec channel c (and_then g (λ x. encode codec m))) good.measured
        ∙ ap (passed_on codec channel c) good.encoded
        ∙ sym (ap (λ g. again (or_nothing channel g) c) good.encoded),
    refl,
    sym (append-nil c.sent),
    tt,
  )

  receive_loop-IsActing :
      IsActing codec (receive_loop codec) queued (λ channel m. []) IsPassed (λ c. Unit {0})
  receive_loop-IsActing = record { acts = receive_loop-acts; kept_fine = λ c c' kept fine. tt }

  -- The letter is measured without a panic.
  abbrev pub IsMeasured : Letter → Type 0
  IsMeasured l =
      (t : OperationType) × (x : Option Metric) × (l.message.operation.type ≡ some t)
      × (generate_metrics (as_received codec l) t ≡ value x)

  pub encode-as_received :
      (l : Letter) → IsFit codec l → encode codec (as_received codec l) ≡ value (packed codec l)
  unfolding encode pack_interface pack_message
  encode-as_received l fit = rw fit.sendable.payload_held refl

  All-IsPassed :
      (ls : List Letter)
      → All (λ l. IsFit codec l × IsMeasured l) ls
      → All (λ l. IsFit codec l × IsPassed (as_received codec l)) ls
  All-IsPassed [] h = tt
  All-IsPassed (l ∷ ls) ((fit, (t, x, ht, hx)), h) = (
    (
      fit,
      record {
        type = t;
        metric = x;
        bytes = packed codec l;
        type_set = ht;
        measured = hx;
        encoded = encode-as_received l fit;
      },
    ),
    All-IsPassed ls h,
  )

  steps-queued :
      (ls : List Letter) (channel : List Bytes)
      → All (λ l. IsFit codec l × IsMeasured l) ls
      → steps codec queued (λ channel m. []) channel ls ≡ channel ++ map (packed codec) ls
  steps-queued [] channel h = sym (append-nil channel)
  steps-queued (l ∷ ls) channel ((fit, x), h) =
      let e : queued channel (as_received codec l) ≡ channel ++ (packed codec l ∷ []) =
        ap (or_nothing channel) (encode-as_received l fit) in
      steps-queued ls (queued channel (as_received codec l)) h
      ∙ ap (λ q. q ++ map (packed codec) ls) e
      ∙ append_assoc channel (packed codec l ∷ []) (map (packed codec) ls)

  -- The messages of a peer that then closes its connection are written to the other peer once, byte by
  -- byte as they came and in the same order, and nothing else is, although each is decoded, measured and
  -- encoded again, if the messages fit a frame, the protobuf library reads them back, measuring them does
  -- not panic and no write fails.
  pub proxy_receive-proxy_send :
      (ls : List Letter) (k : ℕ) (from to : Conn)
      → All (λ l. IsFit codec l × IsMeasured l) ls
      → to.writes ≡ []
      → items from.inbox ≡ all_bytes (stream codec ls) ++ (end ∷ [])
      → (channel : List Bytes) × (from' : Conn) × (proxy_receive codec (length ls + suc k) [] from
          ≡ ended tt channel from')
        × ((proxy_send to channel).sent ≡ to.sent ++ map (packed codec) ls)
  unfolding proxy_receive
  proxy_receive-proxy_send ls k from to fits writes h =
      let (f, from', e, eof, q, s) =
        rounds-stream_closed codec queued (λ channel m. []) (receive_loop codec) IsPassed
          (λ c. Unit {0}) receive_loop-IsActing ls k [] from (All-IsPassed ls fits) tt h in
      (
        map (packed codec) ls,
        from',
        e ∙ ap (λ q. ended tt q from') (steps-queued ls [] fits),
        proxy_send_lem (map (packed codec) ls) to writes,
      )
