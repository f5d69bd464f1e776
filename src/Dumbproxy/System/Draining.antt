-- ===== src/Dumbproxy/System/Draining.antt =====
-- From every state the dumb proxy can pass on all that a peer has sent.
use comfoconnectbridge.Prelude.{
  ◌≤◌, ◌<◌, ◌≡◌, refl, sym, ap, ◌∙◌, arith, List, [], ◌∷◌, ◌++◌, length, Option, append-nil,
  append_assoc, map, All, some,
}
use mathlib.Core.Path.{subst}
use comfoconnectbridge.Go.Errors.{value, and_then}
use comfoconnectbridge.Go.Binary.{Bytes}
use comfoconnectbridge.Go.Conn.{Conn, write}
use comfoconnectbridge.Proto.Codec.{Codec}
use comfoconnectbridge.Proto.Enums.{OperationType}
use comfoconnectbridge.Gauge.{Metric}
use comfoconnectbridge.Comfoconnect.Message.{Message, encode}
use comfoconnectbridge.Comfoconnect.Socket.Stream.{end, all_bytes, items}
use comfoconnectbridge.Comfoconnect.Rounds.{again}
use comfoconnectbridge.Comfoconnect.Rounds.Delivers.{
  Letter, packed, stream, as_received, IsFit, get_message_from_socket_next,
}
use comfoconnectbridge.Proxy.System.Passage.{stream-first}
use comfoconnectbridge.Dumbproxy.{generate_metrics, passed_on, pass_on}
use comfoconnectbridge.Dumbproxy.Passes.{IsMeasured, encode-as_received}
use comfoconnectbridge.Dumbproxy.System.{
  Way, Pair, empty_way, takes, puts, sends, outward, Run, here, next,
}

module _ (codec : Codec) where
  pub Run-append :
      {p p1 p2 : Pair} {asked told asked' told' : List Message}
      → Run codec p asked told p1
      → Run codec p1 asked' told' p2
      → Run codec p (asked ++ asked') (told ++ told') p2
  Run-append {p = p} {p1 = p1} {asked = asked} {told = told} run here =
      subst (λ a. Run codec p a (told ++ []) p1) (sym (append-nil asked))
        (subst (λ t. Run codec p asked t p1) (sym (append-nil told)) run)
  Run-append {p = p} {asked = asked} {told = told} run
        (next {asked = a} {told = t} {asked' = a'} {told' = t'} {p1 = q1} {p2 = q2} more step) =
      subst (λ l. Run codec p l (told ++ (t ++ t')) q2) (append_assoc asked a a')
        (subst (λ l. Run codec p ((asked ++ a) ++ a') l q2) (append_assoc told t t')
          (next (Run-append run more) step))

  -- Some turns after which nothing is on its way to the gateway.
  abbrev pub Drained : Pair → Type 0
  Drained p = (p' : Pair) × Run codec p [] [] p' × (p'.to_gateway ≡ empty_way) × (p'.app ≡ p.app)

  abbrev sent_first : (p : Pair) (b : Bytes) (q : List Bytes) → Pair
  sent_first p b q = record p {
    gateway = (write b p.gateway).1;
    to_gateway = record p.to_gateway { channel = q };
  }

  way_of :
      (w : Way) (q h : List Bytes)
      → w.channel ≡ q
      → w.held ≡ h
      → w ≡ record { channel = q; held = h }
  way_of w q h eq eh =
      ap (λ q. record w { channel = q }) eq ∙ ap (λ h. record { channel = q; held = h }) eh

  pub way_emptied :
      (p : Pair) (q held : List Bytes)
      → p.to_gateway.channel ≡ q
      → p.to_gateway.held ≡ held
      → length held ≤ 1
      → Drained p
  way_emptied p [] [] hq hh fits = (p, here, way_of p.to_gateway [] [] hq hh, refl)
  way_emptied p [] (b ∷ []) hq hh fits =
      let room : length p.to_gateway.channel < 100 = rw hq (omega arith) in
      let p1 = record p {
        to_gateway = record { channel = p.to_gateway.channel ++ (b ∷ []); held = [] };
      } in
      (
        sent_first p1 b [],
        next (next here (outward (puts b hh room)))
            (outward (sends b [] (ap (λ q. q ++ (b ∷ [])) hq))),
        refl,
        refl,
      )
  way_emptied p [] (b ∷ b' ∷ held) hq hh fits = absurd (omega arith)
  way_emptied p (b ∷ q) held hq hh fits =
      let (p', run, empty, same) = way_emptied (sent_first p b q) q held refl hh fits in
      (p', Run-append (next here (outward (sends b q hq))) run, empty, same)

  pass_on-value :
      (l : Letter) (t : OperationType) (x : Option Metric) (c : Conn)
      → IsFit codec l
      → l.message.operation.type ≡ some t
      → generate_metrics (as_received codec l) t ≡ value x
      → pass_on codec [] (as_received codec l) l.message.operation.type c
        ≡ again (packed codec l ∷ []) c
  unfolding pass_on
  pass_on-value l t x c fit ht hx =
      ap (λ t. pass_on codec [] (as_received codec l) t c) ht
      ∙ ap (λ g. passed_on codec [] c (and_then g (λ x. encode codec (as_received codec l)))) hx
      ∙ ap (passed_on codec [] c) (encode-as_received codec l fit)

  -- The letters are received one by one, and each is written before the next is received.
  pub letters_passed :
      (ls : List Letter) (p : Pair)
      → All (λ l. IsFit codec l × IsMeasured codec l) ls
      → p.to_gateway ≡ empty_way
      → items p.app.inbox ≡ all_bytes (stream codec ls) ++ (end ∷ [])
      → (p' : Pair) × Run codec p (map (as_received codec) ls) [] p' × (p'.to_gateway ≡ empty_way)
  letters_passed [] p fits empty h = (p, here, empty)
  letters_passed (l ∷ ls) p ((fit, (t, x, ht, hx)), fits) empty h =
      let (c, got, rest, kept) =
        get_message_from_socket_next codec p.app l _ fit (h ∙ stream-first codec l ls (end ∷ [])) in
      let p1 = record p {
        app = c;
        to_gateway = record p.to_gateway { held = packed codec l ∷ [] };
      } in
      let (p2, run, empty2, same) =
        way_emptied p1 [] (packed codec l ∷ []) (ap (λ w. w.channel) empty) refl (omega arith) in
      let (p3, run3, empty3) =
        letters_passed ls p2 fits empty2 (ap (λ c. items c.inbox) same ∙ rest) in
      let took : Run codec p (as_received codec l ∷ []) [] p1 = next here (
        outward (
          takes (as_received codec l) c c (packed codec l ∷ []) (ap (λ w. w.held) empty) got
            (pass_on-value l t x c fit ht hx))) in
      (p3, Run-append (Run-append took run) run3, empty3)
