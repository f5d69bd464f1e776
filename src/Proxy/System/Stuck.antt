-- ===== src/Proxy/System/Stuck.antt =====
-- Where the bridge stops for good.
use comfoconnectbridge.Prelude.{
  ◌≤◌, ◌≡◌, refl, sym, ap, ◌∙◌, arith, false, List, [], ◌∷◌, ◌++◌, length, append-nil, append_assoc,
}
use comfoconnectbridge.Proto.Codec.{Codec}
use comfoconnectbridge.Comfoconnect.Message.{Message}
use comfoconnectbridge.Proxy.System.{
  Bridge, capacity, Step, accepts, serves, forwards, passes, copies, sends, listens, receives,
  skips, loses, delivers, ticks, Run, here, next,
}
use comfoconnectbridge.Proxy.System.Sending.{pending}
use comfoconnectbridge.Proxy.System.Following.{copied_by, copied_in}

-- `Client.Run` waits to put a message from the gateway into a full channel, and `Proxy.Run` waits to put
-- a message for the gateway into the other full channel.
pub record IsStuck (b : Bridge) : Type 0 where
  pub received : Message
  pub forwarded : Message
  pub client_waits : b.received ≡ received ∷ []
  pub proxy_waits : b.forwarded ≡ forwarded ∷ []
  pub not_listening : b.listening ≡ false
  pub from_full : capacity ≤ length b.from_gateway
  pub to_full : capacity ≤ length b.client_to_gateway

-- What stays as it is; what the apps ask waits behind what waited before.
record IsFrozen (b : Bridge) (out : List Message) (b' : Bridge) : Type 0 where
  received_same : b'.received ≡ b.received
  forwarded_same : b'.forwarded ≡ b.forwarded
  listening_same : b'.listening ≡ b.listening
  from_same : b'.from_gateway ≡ b.from_gateway
  to_same : b'.client_to_gateway ≡ b.client_to_gateway
  asked_waits : b'.to_gateway ≡ b.to_gateway ++ out

IsFrozen-pending :
    (b b' : Bridge) (out : List Message) → IsFrozen b out b' → pending b' ≡ pending b ++ out
IsFrozen-pending b b' out f =
    ap (λ l. l ++ (b'.forwarded ++ b'.to_gateway)) f.to_same
    ∙ ap (λ l. b.client_to_gateway ++ (l ++ b'.to_gateway)) f.forwarded_same
    ∙ ap (λ l. b.client_to_gateway ++ (b.forwarded ++ l)) f.asked_waits
    ∙ ap (λ l. b.client_to_gateway ++ l) (sym (append_assoc b.forwarded b.to_gateway out))
    ∙ sym (append_assoc b.client_to_gateway (b.forwarded ++ b.to_gateway) out)

IsStuck-IsFrozen : (b b' : Bridge) (out : List Message) → IsStuck b → IsFrozen b out b' → IsStuck b'
IsStuck-IsFrozen b b' out s f = record {
  received = s.received;
  forwarded = s.forwarded;
  client_waits = f.received_same ∙ s.client_waits;
  proxy_waits = f.forwarded_same ∙ s.proxy_waits;
  not_listening = f.listening_same ∙ s.not_listening;
  from_full = rw (f.from_same) (s.from_full);
  to_full = rw (f.to_same) (s.to_full);
}

module _ (codec : Codec) where
  Step-IsFrozen :
      {b b' : Bridge} {out : List Message} (step : Step codec b out b')
      → IsStuck b
      → IsFrozen b out b' × (copied_by codec step ≡ [])
  unfolding copied_by
  Step-IsFrozen {b = b} (accepts c) s = (
    record {
      received_same = refl;
      forwarded_same = refl;
      listening_same = refl;
      from_same = refl;
      to_same = refl;
      asked_waits = sym (append-nil b.to_gateway);
    },
    refl,
  )
  Step-IsFrozen {b = b} (serves before after h h' out e1 turn room) s = (
    record {
      received_same = refl;
      forwarded_same = refl;
      listening_same = refl;
      from_same = refl;
      to_same = refl;
      asked_waits = refl;
    },
    refl,
  )
  Step-IsFrozen (forwards m m' q x e1 e2 e3) s = absurd (ground (arith, s.proxy_waits, e1))
  Step-IsFrozen (passes m e1 e2) s = absurd (omega (arith, s.to_full))
  Step-IsFrozen (copies m q x apps e0 e1 e2) s = absurd (ground (arith, s.proxy_waits, e0))
  Step-IsFrozen (sends m q e c e1 e2 e3 e4 e5) s = absurd (ground (arith, s.client_waits, e3))
  Step-IsFrozen (listens e1 e2 e3 e4) s = absurd (ground (arith, s.client_waits, e3))
  Step-IsFrozen (receives m c e1 e2 e3) s = absurd (ground (arith, s.not_listening, e2))
  Step-IsFrozen (skips c e1 e2 e3) s = absurd (ground (arith, s.not_listening, e2))
  Step-IsFrozen (loses e c e1 e2 e3) s = absurd (ground (arith, s.not_listening, e2))
  Step-IsFrozen (delivers m q e1 e2) s = absurd (omega (arith, s.from_full))
  Step-IsFrozen {b = b} (ticks r reference c e1 e2) s = (
    record {
      received_same = refl;
      forwarded_same = refl;
      listening_same = refl;
      from_same = refl;
      to_same = refl;
      asked_waits = sym (append-nil b.to_gateway);
    },
    refl,
  )

  -- Once `Client.Run` waits for room in the full channel of messages from the gateway, and `Proxy.Run` for
  -- room in the client's full channel, they wait for ever: whatever turns the goroutines of the bridge
  -- take, no message of the gateway is copied to an app any more, and every message that an app asks of
  -- the gateway waits behind those that waited before, so that none is written.
  pub Run-IsStuck :
      {b b' : Bridge} {asked : List Message} (run : Run codec b asked b')
      → IsStuck b
      → IsStuck b' × (copied_in codec run ≡ []) × (pending b' ≡ pending b ++ asked)
  unfolding copied_in
  Run-IsStuck {b = b} here s = (s, refl, sym (append-nil (pending b)))
  Run-IsStuck {b = b} (next {asked = asked} {out = out} {b1 = b1} {b2 = b2} run step) s =
      let (s1, none_yet, waits) = Run-IsStuck run s in
      let (frozen, no_copy) = Step-IsFrozen step s1 in
      (
        IsStuck-IsFrozen b1 b2 out s1 frozen,
        ap (λ l. l ++ copied_by codec step) none_yet ∙ no_copy,
        IsFrozen-pending b1 b2 out frozen
            ∙ ap (λ l. l ++ out) waits
            ∙ append_assoc (pending b) asked out,
      )
