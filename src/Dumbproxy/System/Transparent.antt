-- ===== src/Dumbproxy/System/Transparent.antt =====
-- The dumb proxy between an app and the gateway, from one socket to the other.
use comfoconnectbridge.Prelude.{
  ◌≡◌, refl, sym, ap, ◌∙◌, arith, List, [], ◌∷◌, ◌++◌, append-nil, map, All, map-append,
}
use mathlib.Core.Path.{subst}
use comfoconnectbridge.Go.Binary.{Bytes}
use comfoconnectbridge.Go.Conn.{WriteEvent}
use comfoconnectbridge.Go.Conn.Adds.{Puts, free, whole, cut}
use comfoconnectbridge.Proto.Codec.{Codec}
use comfoconnectbridge.Comfoconnect.Message.{Message}
use comfoconnectbridge.Comfoconnect.Socket.Stream.{end, all_bytes, items}
use comfoconnectbridge.Comfoconnect.Rounds.Delivers.{Letter, packed, stream, as_received, IsFit}
use comfoconnectbridge.Dumbproxy.Passes.{IsMeasured, encode-as_received}
use comfoconnectbridge.Dumbproxy.System.{Pair, empty_way, Run}
use comfoconnectbridge.Dumbproxy.System.Reading.{Run-Stage, fits-after, fits-before}
use comfoconnectbridge.Dumbproxy.System.Bounds.{IsBounded, Run-to_gateway}
use comfoconnectbridge.Dumbproxy.System.Draining.{Run-append, way_emptied, letters_passed}
use comfoconnectbridge.Dumbproxy.System.Effects.{on_way, Encoded}
use comfoconnectbridge.Dumbproxy.System.Order.{Written, nothing, one_more, Run-Carried}

Puts-whole :
    {b x : Bytes} {ws ws' : List WriteEvent} → Puts b ws ws' x → ws ≡ [] → (ws' ≡ []) × (x ≡ b)
Puts-whole free h = (refl, refl)
Puts-whole whole h = absurd cc
Puts-whole (cut n e) h = absurd cc

Written-whole :
    {ws ws' : List WriteEvent} {done bytes : List Bytes}
    → Written ws done ws' bytes
    → ws ≡ []
    → (ws' ≡ []) × (bytes ≡ done)
Written-whole nothing h = (h, refl)
Written-whole (one_more {done = done} b x w p) h =
    let (h1, e) = Written-whole w h in
    let (h2, e2) = Puts-whole p h1 in
    (h2, ap (λ bs. bs ++ (x ∷ [])) e ∙ ap (λ x. done ++ (x ∷ [])) e2)

empty-IsBounded : IsBounded empty_way
empty-IsBounded = record { channel_fits = omega arith; held_fits = omega arith }

module _ (codec : Codec) where
  Encoded-packed :
      (ls : List Letter) (bs : List Bytes)
      → All (IsFit codec) ls
      → Encoded codec (map (as_received codec) ls) bs
      → bs ≡ map (packed codec) ls
  Encoded-packed [] [] fits e = refl
  Encoded-packed [] (b ∷ bs) fits e = absurd cc
  Encoded-packed (l ∷ ls) [] fits e = absurd cc
  Encoded-packed (l ∷ ls) (b ∷ bs) (fit, fits) e =
      let packs = encode-as_received codec l fit in
      let first : b ≡ packed codec l = cc in
      let others : Encoded codec (map (as_received codec) ls) bs = cc in
      ap (λ b. b ∷ bs) first ∙ ap (λ bs. packed codec l ∷ bs) (Encoded-packed ls bs fits others)

  -- An app sends messages that fit a frame and that the protobuf library reads back, and then closes its
  -- connection; nothing is on its way to the gateway at first, and no write to it fails. However the
  -- goroutines of the dumb proxy take turns, and whatever the gateway sends, what was written to the
  -- gateway and what is on its way there are then together the frames of the messages received so far,
  -- byte by byte as the app sent them, once each and in order; the other messages are still unread.
  pub Run-packed :
      {p p' : Pair} {asked told : List Message} (ls : List Letter)
      → All (IsFit codec) ls
      → items p.app.inbox ≡ all_bytes (stream codec ls) ++ (end ∷ [])
      → p.to_gateway ≡ empty_way
      → p.gateway.writes ≡ []
      → Run codec p asked told p'
      → (received left : List Letter) × (written : List Bytes) × (ls ≡ received ++ left)
        × (p'.gateway.sent ≡ p.gateway.sent ++ written)
        × (written ++ on_way p'.to_gateway ≡ map (packed codec) received)
        × (items p'.app.inbox ≡ all_bytes (stream codec left) ++ (end ∷ []))
  Run-packed {p = p} {p' = p'} ls fits h empty fine run =
      let s = Run-Stage codec ls fits h run in
      let r = (Run-Carried codec run).0 in
      let (_, e) = Written-whole r.written fine in
      let got : Encoded codec (map (as_received codec) s.received) r.encodings =
        subst (λ ms. Encoded codec ms r.encodings) s.got r.encoded in
      (
        s.received,
        s.left,
        r.bytes,
        s.split,
        r.sent_more,
        ap (λ b. b ++ on_way p'.to_gateway) e
            ∙ sym r.in_order
            ∙ ap (λ w. on_way w ++ r.encodings) empty
            ∙ Encoded-packed s.received r.encodings
                (fits-before (IsFit codec) s.received s.left
                  (subst (All (IsFit codec)) s.split fits))
                got,
        s.unread,
      )

  all_fit :
      (ls : List Letter) → All (λ l. IsFit codec l × IsMeasured codec l) ls → All (IsFit codec) ls
  all_fit [] h = tt
  all_fit (l ∷ ls) ((fit, x), h) = (fit, all_fit ls h)

  -- An app sends messages that fit a frame, that the protobuf library reads back and that can be measured
  -- without a panic, and then closes its connection; nothing is on its way to the gateway at first, and no
  -- write to it fails. Whatever turns the goroutines of the dumb proxy took, they can go on so that the
  -- frames of all these messages are written to the gateway, byte by byte as the app sent them, once each,
  -- in order and nothing else.
  pub Run-all_packed :
      {p p' : Pair} {asked told : List Message} (ls : List Letter)
      → All (λ l. IsFit codec l × IsMeasured codec l) ls
      → items p.app.inbox ≡ all_bytes (stream codec ls) ++ (end ∷ [])
      → p.to_gateway ≡ empty_way
      → p.gateway.writes ≡ []
      → Run codec p asked told p'
      → (p'' : Pair) × (rest : List Message) × Run codec p' rest [] p''
        × (p''.gateway.sent ≡ p.gateway.sent ++ map (packed codec) ls)
  Run-all_packed {p = p} {asked = asked} ls good h empty fine run =
      let fits = all_fit ls good in
      let s = Run-Stage codec ls fits h run in
      let bounded = Run-to_gateway codec run (rw empty empty-IsBounded) in
      let (p1, run1, empty1, same) = way_emptied codec _ _ _ refl refl bounded.held_fits in
      let left_good =
        fits-after (λ l. IsFit codec l × IsMeasured codec l) s.received s.left
          (subst (All (λ l. IsFit codec l × IsMeasured codec l)) s.split good) in
      let (p2, run2, empty2) =
        letters_passed codec s.left p1 left_good empty1 (ap (λ c. items c.inbox) same ∙ s.unread) in
      let more = Run-append codec run1 run2 in
      let r = (Run-Carried codec (Run-append codec run more)).0 in
      let (_, e) = Written-whole r.written fine in
      let asked_whole : asked ++ map (as_received codec) s.left ≡ map (as_received codec) ls =
        ap (λ a. a ++ map (as_received codec) s.left) s.got
        ∙ sym (map-append (as_received codec) s.received s.left)
        ∙ ap (map (as_received codec)) (sym s.split) in
      let packs : r.encodings ≡ map (packed codec) ls =
        Encoded-packed ls r.encodings fits
          (subst (λ ms. Encoded codec ms r.encodings) asked_whole r.encoded) in
      let all_done : r.encodings ≡ r.done =
        ap (λ w. on_way w ++ r.encodings) (sym empty)
        ∙ r.in_order
        ∙ ap (λ w. r.done ++ on_way w) empty2
        ∙ append-nil r.done in
      (
        p2,
        map (as_received codec) s.left,
        more,
        r.sent_more ∙ ap (λ b. p.gateway.sent ++ b) (e ∙ sym all_done ∙ packs),
      )
