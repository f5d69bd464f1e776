-- ===== src/Dumbproxy/System/Reading.antt =====
-- What the dumb proxy has received from a peer that sends messages and closes its connection.
use comfoconnectbridge.Prelude.{
  ◌≡◌, refl, sym, ap, ◌∙◌, true, List, [], ◌∷◌, ◌++◌, append-nil, append_assoc, map, All,
  map-append,
}
use mathlib.Core.Path.{subst}
use comfoconnectbridge.Go.Errors.{cause, is_eof}
use comfoconnectbridge.Go.Binary.{Bytes}
use comfoconnectbridge.Go.Conn.{
  Conn, WriteEvent, write, write_next, returned, failed, accepted, refused,
}
use comfoconnectbridge.Proto.Codec.{Codec}
use comfoconnectbridge.Comfoconnect.Message.{Message}
use comfoconnectbridge.Comfoconnect.Receive.{Failure, get_message_from_socket}
use comfoconnectbridge.Comfoconnect.Receive.Parsed.{get_message_from_socket_returned}
use comfoconnectbridge.Comfoconnect.Socket.Stream.{end, all_bytes, items}
use comfoconnectbridge.Comfoconnect.Rounds.{again}
use comfoconnectbridge.Comfoconnect.Rounds.Delivers.{
  Letter, stream, as_received, IsFit, get_message_from_socket_next, get_message_from_socket_closed,
}
use comfoconnectbridge.Proxy.System.Passage.{stream-first}
use comfoconnectbridge.Dumbproxy.{pass_on}
use comfoconnectbridge.Dumbproxy.System.{
  Way, Pair, Move, takes, fails, puts, sends, outward, inward, Run, here, next,
}
use comfoconnectbridge.Dumbproxy.System.Effects.{pass_on-encode}

write_next-inbox :
    (ws : List WriteEvent) (b : Bytes) (c : Conn) → (write_next ws b c).1.inbox ≡ c.inbox
unfolding write_next
write_next-inbox [] b c = refl
write_next-inbox (accepted ∷ ws) b c = refl
write_next-inbox (refused n e ∷ ws) b c = refl

write-inbox : (b : Bytes) (c : Conn) → (write b c).1.inbox ≡ c.inbox
unfolding write
write-inbox b c = write_next-inbox c.writes b c

pub fits-after :
    (P : Letter → Type 0) (before after : List Letter) → All P (before ++ after) → All P after
fits-after P [] after h = h
fits-after P (l ∷ before) after (p, h) = fits-after P before after h

pub fits-before :
    (P : Letter → Type 0) (before after : List Letter) → All P (before ++ after) → All P before
fits-before P [] after h = tt
fits-before P (l ∷ before) after (p, h) = (p, fits-before P before after h)

module _ (codec : Codec) where
  -- Of the letters `ls`, which are all that comes from a peer, `received` are received and `left` are
  -- still on its connection.
  pub record Stage (ls : List Letter) (ms : List Message) (c : Conn) : Type 0 where
    pub received : List Letter
    pub left : List Letter
    pub split : ls ≡ received ++ left
    pub got : ms ≡ map (as_received codec) received
    pub unread : items c.inbox ≡ all_bytes (stream codec left) ++ (end ∷ [])

  taken-Stage :
      (ls received left : List Letter) (ms : List Message) (m : Message) (from c : Conn)
      → All (IsFit codec) ls
      → ls ≡ received ++ left
      → ms ≡ map (as_received codec) received
      → items from.inbox ≡ all_bytes (stream codec left) ++ (end ∷ [])
      → get_message_from_socket codec from ≡ returned m c
      → Stage ls (ms ++ (m ∷ [])) c
  taken-Stage ls received [] ms m from c fits split got unread e =
      let (f, c1, e1, eof, q) = get_message_from_socket_closed codec from unread in absurd cc
  taken-Stage ls received (l ∷ left) ms m from c fits split got unread e =
      let (fit, fits1) =
        fits-after (IsFit codec) received (l ∷ left) (subst (All (IsFit codec)) split fits) in
      let (c1, e1, q1, kept) =
        get_message_from_socket_next codec from l _ fit
          (unread ∙ stream-first codec l left (end ∷ [])) in
      let same : m ≡ as_received codec l = cc in
      let same_conn : c1 ≡ c = cc in
      record {
        received = received ++ (l ∷ []);
        left = left;
        split = split ∙ sym (append_assoc received (l ∷ []) left);
        got =
            ap (λ ms. ms ++ (m ∷ [])) got
            ∙ ap (λ m. map (as_received codec) received ++ (m ∷ [])) same
            ∙ sym (map-append (as_received codec) received (l ∷ []));
        unread = ap (λ c. items c.inbox) (sym same_conn) ∙ q1;
      }

  failed-eof :
      (left : List Letter) (f : Failure) (from c : Conn)
      → All (IsFit codec) left
      → items from.inbox ≡ all_bytes (stream codec left) ++ (end ∷ [])
      → get_message_from_socket codec from ≡ failed f c
      → is_eof (cause f.error) ≡ true
  failed-eof [] f from c fits unread e =
      let (f1, c1, e1, eof, q) = get_message_from_socket_closed codec from unread in
      let same : f1 ≡ f = cc in subst (λ f. is_eof (cause f.error) ≡ true) same eof
  failed-eof (l ∷ left) f from c (fit, fits) unread e =
      let (c1, e1, q1, kept) =
        get_message_from_socket_next codec from l _ fit
          (unread ∙ stream-first codec l left (end ∷ [])) in
      absurd cc

  Stage-again :
      {ls : List Letter} {ms : List Message} {c : Conn} → Stage ls ms c → Stage ls (ms ++ []) c
  Stage-again {ls = ls} {ms = ms} {c = c} s = subst (λ ms. Stage ls ms c) (sym (append-nil ms)) s

  Stage-kept :
      {ls : List Letter} {ms : List Message} {c c' : Conn}
      → Stage ls ms c
      → c'.inbox ≡ c.inbox
      → Stage ls ms c'
  Stage-kept s e = record {
    received = s.received;
    left = s.left;
    split = s.split;
    got = s.got;
    unread = ap items e ∙ s.unread;
  }

  taken-same :
      (m : Message) (c c' : Conn) (bs : List Bytes) (from : Conn)
      → get_message_from_socket codec from ≡ returned m c
      → pass_on codec [] m m.operation.type c ≡ again bs c'
      → c' ≡ c
  taken-same m c c' bs from e2 e3 =
      let r = (get_message_from_socket_returned codec from m c e2).parsed in
      let (b, e, one, same) =
        pass_on-encode codec m r.type c c' bs
          (ap (λ t. pass_on codec [] m t c) (sym r.type_set) ∙ e3) in
      same

  Move-Stage :
      {ls : List Letter} {asked ms : List Message} {from to a g : Conn} {w w' : Way}
      → All (IsFit codec) ls
      → Stage ls asked from
      → Move codec from w to ms a w' g
      → Stage ls (asked ++ ms) a
  Move-Stage {ls = ls} {asked = asked} {from = from} fits s (takes m c c' bs e1 e2 e3) =
      subst (Stage ls (asked ++ (m ∷ []))) (sym (taken-same m c c' bs from e2 e3))
        (taken-Stage ls s.received s.left asked m from c fits s.split s.got s.unread e2)
  Move-Stage {ls = ls} fits s (fails f c e1 e2 e3) =
      let fine =
        fits-after (IsFit codec) s.received s.left (subst (All (IsFit codec)) s.split fits) in
      let eof : is_eof (cause f.error) ≡ true = failed-eof s.left f _ c fine s.unread e2 in
      absurd cc
  Move-Stage fits s (puts b e1 e2) = Stage-again s
  Move-Stage fits s (sends b q e1) = Stage-again s

  Move-inbox :
      {from to a g : Conn} {w w' : Way} {ms : List Message}
      → Move codec from w to ms a w' g
      → g.inbox ≡ to.inbox
  Move-inbox (takes m c c' bs e1 e2 e3) = refl
  Move-inbox (fails f c e1 e2 e3) = refl
  Move-inbox (puts b e1 e2) = refl
  Move-inbox {to = to} (sends b q e1) = write-inbox b to

  pub Run-Stage :
      {p p' : Pair} {asked told : List Message} (ls : List Letter)
      → All (IsFit codec) ls
      → items p.app.inbox ≡ all_bytes (stream codec ls) ++ (end ∷ [])
      → Run codec p asked told p'
      → Stage ls asked p'.app
  Run-Stage ls fits h here = record {
    received = [];
    left = ls;
    split = refl;
    got = refl;
    unread = h;
  }
  Run-Stage ls fits h (next run (outward move)) = Move-Stage fits (Run-Stage ls fits h run) move
  Run-Stage ls fits h (next run (inward move)) =
      Stage-kept (Stage-again (Run-Stage ls fits h run)) (Move-inbox move)
