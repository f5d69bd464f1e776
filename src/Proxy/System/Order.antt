-- ===== src/Proxy/System/Order.antt =====
-- What the bridge writes to the gateway, whatever the order of its goroutines.
use comfoconnectbridge.Prelude.{
  ℕ, ◌≡◌, refl, sym, ap, ◌∙◌, List, [], ◌∷◌, ◌++◌, append-nil, append_assoc,
}
use mathlib.Core.Path.{subst}
use comfoconnectbridge.Go.Binary.{Bytes}
use comfoconnectbridge.Go.Conn.{WriteEvent}
use comfoconnectbridge.Proto.Codec.{Codec}
use comfoconnectbridge.Comfoconnect.Message.{Message}
use comfoconnectbridge.Comfoconnect.Session.{Session}
use comfoconnectbridge.Proxy.System.{
  Bridge, Step, accepts, serves, forwards, passes, copies, sends, listens, receives, skips, loses,
  delivers, ticks, Run, here, next,
}
use comfoconnectbridge.Proxy.System.Sending.{
  pending, Frames, time_frame, Effect, takes, gives, pings, Step-Effect,
}
use comfoconnectbridge.Go.Conn.Adds.{Puts}

more_asked :
    (p asked done p1 p2 out : List Message)
    → p ++ asked ≡ done ++ p1
    → p2 ≡ p1 ++ out
    → p ++ (asked ++ out) ≡ done ++ p2
more_asked p asked done p1 p2 out h e =
    sym (append_assoc p asked out)
    ∙ ap (λ l. l ++ out) h
    ∙ append_assoc done p1 out
    ∙ ap (λ l. done ++ l) (sym e)

more_sent :
    (sent bytes sent1 sent2 : List Bytes) (x : Bytes)
    → sent1 ≡ sent ++ bytes
    → sent2 ≡ sent1 ++ (x ∷ [])
    → sent2 ≡ sent ++ (bytes ++ (x ∷ []))
more_sent sent bytes sent1 sent2 x h e =
    e ∙ ap (λ l. l ++ (x ∷ [])) h ∙ append_assoc sent bytes (x ∷ [])

module _ (codec : Codec) where
  -- The abstract bridge: from the write events `ws`, the frames of the messages `done`, in order, and
  -- keep-alive frames in between are put on the connection as `bs`.
  pub data Outgoing (uuid : Bytes) (s : Session) (ws : List WriteEvent)
      : List Message → List WriteEvent → List Bytes → Type 0 where
    nothing : Outgoing uuid s ws [] ws []
    message :
        {done : List Message} {ws1 ws2 : List WriteEvent} {bs : List Bytes} (m : Message)
        (frame x : Bytes)
        → Outgoing uuid s ws done ws1 bs
        → Frames codec uuid s m frame
        → Puts frame ws1 ws2 x
        → Outgoing uuid s ws (done ++ (m ∷ [])) ws2 (bs ++ (x ∷ []))
    kept_alive :
        {done : List Message} {ws1 ws2 : List WriteEvent} {bs : List Bytes} (r : ℕ) (x : Bytes)
        → Outgoing uuid s ws done ws1 bs
        → Puts (time_frame codec s r) ws1 ws2 x
        → Outgoing uuid s ws done ws2 (bs ++ (x ∷ []))

  -- From `b` to `b'` the messages `done` were written to the gateway as `bytes`.
  pub record Conveyed (b : Bridge) (asked : List Message) (b' : Bridge) : Type 0 where
    pub done : List Message
    pub bytes : List Bytes
    pub outgoing : Outgoing b.uuid b.session b.link.writes done b'.link.writes bytes
    pub sent_more : b'.link.sent ≡ b.link.sent ++ bytes
    pub in_order : pending b ++ asked ≡ done ++ pending b'
    pub uuid_kept : b'.uuid ≡ b.uuid
    pub session_kept : b'.session ≡ b.session

  abbrev IsSame : Bridge → Bridge → Type 0
  IsSame b b' = (b'.uuid ≡ b.uuid) × (b'.session ≡ b.session)

  pub Step-IsSame : {b b' : Bridge} {out : List Message} → Step codec b out b' → IsSame b b'
  Step-IsSame (accepts c) = (refl, refl)
  Step-IsSame (serves before after h h' out e1 turn room) = (refl, refl)
  Step-IsSame (forwards m m' q x e1 e2 e3) = (refl, refl)
  Step-IsSame (passes m e1 e2) = (refl, refl)
  Step-IsSame (copies m q x apps e0 e1 e2) = (refl, refl)
  Step-IsSame (sends m q e c e1 e2 e3 e4 e5) = (refl, refl)
  Step-IsSame (listens e1 e2 e3 e4) = (refl, refl)
  Step-IsSame (receives m c e1 e2 e3) = (refl, refl)
  Step-IsSame (skips c e1 e2 e3) = (refl, refl)
  Step-IsSame (loses e c e1 e2 e3) = (refl, refl)
  Step-IsSame (delivers m q e1 e2) = (refl, refl)
  Step-IsSame (ticks r reference c e1 e2) = (refl, refl)

  Frames-same :
      (uuid uuid' : Bytes) (s s' : Session) (m : Message) (frame : Bytes)
      → uuid' ≡ uuid
      → s' ≡ s
      → Frames codec uuid' s' m frame
      → Frames codec uuid s m frame
  Frames-same uuid uuid' s s' m frame eu es f = cc

  Conveyed-Effect :
      (b b1 b2 : Bridge) (asked out : List Message)
      → Conveyed b asked b1
      → IsSame b1 b2
      → Effect codec b1 out b2
      → Conveyed b (asked ++ out) b2
  Conveyed-Effect b b1 b2 asked out r same (takes e kept) = record {
    done = r.done;
    bytes = r.bytes;
    outgoing =
        subst (λ ws. Outgoing b.uuid b.session b.link.writes r.done ws r.bytes) (sym kept.1)
          r.outgoing;
    sent_more = kept.0 ∙ r.sent_more;
    in_order = more_asked (pending b) asked r.done (pending b1) (pending b2) out r.in_order e;
    uuid_kept = same.0 ∙ r.uuid_kept;
    session_kept = same.1 ∙ r.session_kept;
  }
  Conveyed-Effect b b1 b2 asked out r same (gives m frame e p f adds) = record {
    done = r.done ++ (m ∷ []);
    bytes = r.bytes ++ (adds.bytes ∷ []);
    outgoing =
        message m frame adds.bytes r.outgoing
          (Frames-same b.uuid b1.uuid b.session b1.session m frame r.uuid_kept r.session_kept f)
          adds.puts;
    sent_more =
        more_sent b.link.sent r.bytes b1.link.sent b2.link.sent adds.bytes r.sent_more
          adds.sent_more;
    in_order =
        more_asked (pending b) asked r.done (pending b1) (pending b1) out r.in_order
          (rw e (sym (append-nil (pending b1))))
        ∙ ap (λ l. r.done ++ l) p
        ∙ sym (append_assoc r.done (m ∷ []) (pending b2));
    uuid_kept = same.0 ∙ r.uuid_kept;
    session_kept = same.1 ∙ r.session_kept;
  }
  Conveyed-Effect b b1 b2 asked out r same (pings n e p adds) = record {
    done = r.done;
    bytes = r.bytes ++ (adds.bytes ∷ []);
    outgoing = kept_alive n adds.bytes r.outgoing (
        subst (λ s. Puts (time_frame codec s n) b1.link.writes b2.link.writes adds.bytes)
          r.session_kept adds.puts);
    sent_more =
        more_sent b.link.sent r.bytes b1.link.sent b2.link.sent adds.bytes r.sent_more
          adds.sent_more;
    in_order =
        more_asked (pending b) asked r.done (pending b1) (pending b2) out r.in_order
          (rw e (p ∙ sym (append-nil (pending b1))));
    uuid_kept = same.0 ∙ r.uuid_kept;
    session_kept = same.1 ∙ r.session_kept;
  }

  -- However the goroutines of the bridge take turns, each message that the apps ask of the gateway is
  -- handed to the connection of the gateway by one write, under the bridge's UUID, in the order in which the
  -- messages were put into the channel to `Proxy.Run`, and there are only keep-alive writes between them;
  -- those not yet written still wait in this order. A write that fails puts only the start of its frame,
  -- or nothing, on the connection, and its message is not written again.
  pub Run-Conveyed :
      {b b' : Bridge} {asked : List Message} → Run codec b asked b' → Conveyed b asked b'
  Run-Conveyed {b = b} here = record {
    done = [];
    bytes = [];
    outgoing = nothing;
    sent_more = sym (append-nil b.link.sent);
    in_order = append-nil (pending b);
    uuid_kept = refl;
    session_kept = refl;
  }
  Run-Conveyed {b = b} (next {asked = asked} {out = out} {b1 = b1} {b2 = b2} run step) =
      Conveyed-Effect b b1 b2 asked out (Run-Conveyed run) (Step-IsSame step)
        (Step-Effect codec step)
