-- ===== src/Dumbproxy/System/Order.antt =====
-- What the dumb proxy writes to a peer, whatever the order of its goroutines.
use comfoconnectbridge.Prelude.{
  ◌≡◌, refl, sym, ap, ◌∙◌, List, [], ◌∷◌, ◌++◌, append-nil, append_assoc,
}
use mathlib.Core.Path.{subst}
use comfoconnectbridge.Go.Binary.{Bytes}
use comfoconnectbridge.Go.Conn.{Conn, WriteEvent}
use comfoconnectbridge.Go.Conn.Adds.{Puts}
use comfoconnectbridge.Proto.Codec.{Codec}
use comfoconnectbridge.Comfoconnect.Message.{Message}
use comfoconnectbridge.Comfoconnect.Receive.Quiet.{IsKept}
use comfoconnectbridge.Dumbproxy.System.{Way, Pair, outward, inward, Run, here, next}
use comfoconnectbridge.Dumbproxy.System.Effects.{
  on_way, Encoded, Encoded-more, Effect, brings, stays, gives, Move-Effect,
}

-- From `ws` the writes of `done` put `bs` on the connection.
pub data Written (ws : List WriteEvent) : List Bytes → List WriteEvent → List Bytes → Type 0 where
  nothing : Written ws [] ws []
  one_more :
      {done bs : List Bytes} {ws1 ws2 : List WriteEvent} (b x : Bytes)
      → Written ws done ws1 bs
      → Puts b ws1 ws2 x
      → Written ws (done ++ (b ∷ [])) ws2 (bs ++ (x ∷ []))

module _ (codec : Codec) where
  -- Of the messages `ms` and of what was on its way before, `done` was written to the peer as `bytes`.
  pub record Carried (w : Way) (to : Conn) (ms : List Message) (w' : Way) (to' : Conn)
      : Type 0 where
    pub encodings : List Bytes
    pub done : List Bytes
    pub bytes : List Bytes
    pub encoded : Encoded codec ms encodings
    pub in_order : on_way w ++ encodings ≡ done ++ on_way w'
    pub written : Written to.writes done to'.writes bytes
    pub sent_more : to'.sent ≡ to.sent ++ bytes

  Carried-here : (w : Way) (to : Conn) → Carried w to [] w to
  Carried-here w to = record {
    encodings = [];
    done = [];
    bytes = [];
    encoded = refl;
    in_order = append-nil (on_way w);
    written = nothing;
    sent_more = sym (append-nil to.sent);
  }

  -- A turn of the other direction reads from the peer only.
  Carried-IsKept :
      (w w1 : Way) (to to1 to2 : Conn) (ms : List Message)
      → Carried w to ms w1 to1
      → IsKept to1 to2
      → Carried w to (ms ++ []) w1 to2
  Carried-IsKept w w1 to to1 to2 ms r kept = record {
    encodings = r.encodings;
    done = r.done;
    bytes = r.bytes;
    encoded = subst (λ ms. Encoded codec ms r.encodings) (sym (append-nil ms)) r.encoded;
    in_order = r.in_order;
    written = subst (λ ws. Written to.writes r.done ws r.bytes) (sym kept.1) r.written;
    sent_more = kept.0 ∙ r.sent_more;
  }

  Carried-same :
      (w w' : Way) (to to1 to2 : Conn) (ms ms' : List Message)
      → ms' ≡ ms
      → to2 ≡ to1
      → Carried w to ms w' to1
      → Carried w to ms' w' to2
  Carried-same w w' to to1 to2 ms ms' e same r =
      subst (λ ms. Carried w to ms w' to2) (sym e) (subst (λ c. Carried w to ms w' c) (sym same) r)

  Carried-Effect :
      (w w1 w2 : Way) (to to1 to2 : Conn) (ms more_ms : List Message)
      → Carried w to ms w1 to1
      → Effect codec w1 to1 more_ms w2 to2
      → Carried w to (ms ++ more_ms) w2 to2
  Carried-Effect w w1 w2 to to1 to2 ms more_ms r (brings m b one e way same) =
      Carried-same w w2 to to1 to2 _ _ (ap (λ l. ms ++ l) one) same (record {
        encodings = r.encodings ++ (b ∷ []);
        done = r.done;
        bytes = r.bytes;
        encoded = Encoded-more codec ms r.encodings m b r.encoded e;
        in_order =
            sym (append_assoc (on_way w) r.encodings (b ∷ []))
            ∙ ap (λ l. l ++ (b ∷ [])) r.in_order
            ∙ append_assoc r.done (on_way w1) (b ∷ [])
            ∙ ap (λ l. r.done ++ l) (sym way);
        written = r.written;
        sent_more = r.sent_more;
      })
  Carried-Effect w w1 w2 to to1 to2 ms more_ms r (stays silent way same) =
      let next : Carried w to ms w2 to1 = record {
        encodings = r.encodings;
        done = r.done;
        bytes = r.bytes;
        encoded = r.encoded;
        in_order = r.in_order ∙ ap (λ l. r.done ++ l) (sym way);
        written = r.written;
        sent_more = r.sent_more;
      } in
      Carried-same w w2 to to1 to2 ms _ (ap (λ l. ms ++ l) silent ∙ append-nil ms) same next
  Carried-Effect w w1 w2 to to1 to2 ms more_ms r (gives b silent way adds) =
      let next : Carried w to ms w2 to2 = record {
        encodings = r.encodings;
        done = r.done ++ (b ∷ []);
        bytes = r.bytes ++ (adds.bytes ∷ []);
        encoded = r.encoded;
        in_order =
            r.in_order ∙ ap (λ l. r.done ++ l) way ∙ sym (append_assoc r.done (b ∷ []) (on_way w2));
        written = one_more b adds.bytes r.written adds.puts;
        sent_more =
            adds.sent_more
            ∙ ap (λ l. l ++ (adds.bytes ∷ [])) r.sent_more
            ∙ append_assoc to.sent r.bytes (adds.bytes ∷ []);
      } in
      Carried-same w w2 to to2 to2 ms _ (ap (λ l. ms ++ l) silent ∙ append-nil ms) refl next

  -- However the four goroutines of the dumb proxy take turns, the messages of either peer are encoded
  -- again and written to the other peer once each and in the order in which they came, and nothing else
  -- is; those not yet written are on their way in this order. A write puts all of a message on the
  -- connection unless it fails.
  pub Run-Carried :
      {p p' : Pair} {asked told : List Message}
      → Run codec p asked told p'
      → Carried p.to_gateway p.gateway asked p'.to_gateway p'.gateway
        × Carried p.to_app p.app told p'.to_app p'.app
  Run-Carried {p = p} here = (Carried-here p.to_gateway p.gateway, Carried-here p.to_app p.app)
  Run-Carried {p = p} (next {p1 = p1} run (outward move)) =
      let (out, into) = Run-Carried run in
      let (kept, effect) = Move-Effect codec move in
      (
        Carried-Effect p.to_gateway p1.to_gateway _ p.gateway p1.gateway _ _ _ out effect,
        Carried-IsKept p.to_app p1.to_app p.app p1.app _ _ into kept,
      )
  Run-Carried {p = p} (next {p1 = p1} run (inward move)) =
      let (out, into) = Run-Carried run in
      let (kept, effect) = Move-Effect codec move in
      (
        Carried-IsKept p.to_gateway p1.to_gateway p.gateway p1.gateway _ _ out kept,
        Carried-Effect p.to_app p1.to_app _ p.app p1.app _ _ _ into effect,
      )
