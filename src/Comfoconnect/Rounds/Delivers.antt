-- ===== src/Comfoconnect/Rounds/Delivers.antt =====
-- What a receiving loop does with the messages that are on its connection.
use comfoconnectbridge.Prelude.{
  ℕ, suc, ◌+◌, ◌≡◌, refl, sym, ap, ◌∙◌, arith, true, List, [], ◌∷◌, ◌++◌, All, append_assoc,
  append-nil, map-append, length,
}
use comfoconnectbridge.Go.Errors.{cause, is_eof, io_eof}
use comfoconnectbridge.Go.Binary.{Bytes}
use comfoconnectbridge.Go.Conn.{Conn, returned, failed}
use comfoconnectbridge.Proto.Payload.{Payload}
use comfoconnectbridge.Proto.Codec.{Codec}
use comfoconnectbridge.Comfoconnect.Socket.{read_bytes}
use comfoconnectbridge.Comfoconnect.Socket.Stream.{
  Item, end, all_bytes, items, take_bytes, read_bytes-take_bytes,
}
use comfoconnectbridge.Comfoconnect.Socket.Reads.{view-eq-broke}
use comfoconnectbridge.Comfoconnect.Message.{Message, pack_message}
use comfoconnectbridge.Comfoconnect.Receive.{
  Failure, length_failure, read_length, read_frame, get_message_from_socket,
}
use comfoconnectbridge.Comfoconnect.Receive.Errors.{cause-length_failure}
use comfoconnectbridge.Comfoconnect.Receive.Keeps.{left}
use comfoconnectbridge.Comfoconnect.Receive.Quiet.{IsKept, get_message_from_socket-IsKept}
use comfoconnectbridge.Comfoconnect.Receive.RoundTrip.{
  IsSendable, ReadsBack, get_message_from_socket-pack_message,
}
use comfoconnectbridge.Comfoconnect.Rounds.{again, ended, Loop, turn, rounds}

-- A message and its payload.
pub record Letter : Type 0 where
  pub message : Message
  pub payload : Payload

module _ (codec : Codec) where
  abbrev pub packed : Letter → Bytes
  packed l = pack_message codec l.message l.message.operation l.payload

  -- The letters, one after another.
  abbrev pub stream : List Letter → Bytes
  stream [] = []
  stream (l ∷ ls) = packed l ++ stream ls

  -- The letter as `get_message_from_socket` returns it.
  abbrev pub as_received : Letter → Message
  as_received l = record l.message { raw_message = packed l }

  pub record IsFit (l : Letter) : Type 0 where
    pub sendable : IsSendable codec l.message l.payload
    pub reads_back : ReadsBack codec l.message l.payload

  pub get_message_from_socket_next :
      (c : Conn) (l : Letter) (r : List Item)
      → IsFit l
      → items c.inbox ≡ all_bytes (packed l) ++ r
      → (c' : Conn) × (get_message_from_socket codec c ≡ returned (as_received l) c')
        × (items c'.inbox ≡ r)
        × IsKept c c'
  get_message_from_socket_next c l r fit h =
      let (c', e, q) =
        get_message_from_socket-pack_message codec c l.message l.payload r fit.sendable
          fit.reads_back h in
      let (s, w) = get_message_from_socket-IsKept codec c in
      (c', e, q, (ap (λ o. (left o).sent) (sym e) ∙ s, ap (λ o. (left o).writes) (sym e) ∙ w))

  -- At the end of the connection the call fails with io.EOF, and the end stays there.
  pub get_message_from_socket_closed :
      (c : Conn)
      → items c.inbox ≡ end ∷ []
      → (f : Failure) × (c' : Conn) × (get_message_from_socket codec c ≡ failed f c')
        × (is_eof (cause f.error) ≡ true)
        × (items c'.inbox ≡ end ∷ [])
  unfolding get_message_from_socket read_frame read_length
  get_message_from_socket_closed c h =
      let (x, c', p, same, q) =
        view-eq-broke (read_bytes 4 c) io_eof
          (read_bytes-take_bytes 4 c (omega arith) ∙ rw h (unfold take_bytes in refl)) in
      (
        length_failure x,
        c',
        ground (arith, p),
        ap is_eof (cause-length_failure x ∙ same) ∙ (unfold cause is_eof in refl),
        q,
      )

  rounds_round :
      {S R : Type 0} (loop : Loop S R) (n : ℕ) (s : S) (c : Conn) (m : Message) (c1 : Conn) (s' : S)
      (c2 : Conn)
      → get_message_from_socket codec c ≡ returned m c1
      → loop.on_message s m c1 ≡ again s' c2
      → rounds codec loop (suc n) s c ≡ rounds codec loop n s' c2
  unfolding rounds turn
  rounds_round loop n s c m c1 s' c2 e1 e2 = rw (e1, e2) refl

  -- On a `Good` message the loop goes on with the state `step s m` and has written `out s m`, on a
  -- connection that is `Fine` for its writes.
  pub record IsActing {S R : Type 0} (loop : Loop S R) (step : S → Message → S)
      (out : S → Message → List Bytes) (Good : Message → Type 0) (Fine : Conn → Type 0)
      : Type 0 where
    pub acts :
        (s : S) (m : Message) (c : Conn)
        → Good m
        → Fine c
        → (c' : Conn) × (loop.on_message s m c ≡ again (step s m) c')
          × (c'.inbox ≡ c.inbox)
          × (c'.sent ≡ c.sent ++ out s m)
          × Fine c'
    pub kept_fine : (c c' : Conn) → IsKept c c' → Fine c → Fine c'

  module _ {S : Type 0} (step : S → Message → S) (out : S → Message → List Bytes) where
    abbrev pub steps : S → List Letter → S
    steps s [] = s
    steps s (l ∷ ls) = steps (step s (as_received l)) ls

    abbrev pub outs : S → List Letter → List Bytes
    outs s [] = []
    outs s (l ∷ ls) = out s (as_received l) ++ outs (step s (as_received l)) ls

    module _ {R : Type 0} (loop : Loop S R) (Good : Message → Type 0) (Fine : Conn → Type 0)
        (acting : IsActing loop step out Good Fine) where
      -- The loop takes the letters that are next on its connection one by one, whatever the chunks.
      pub rounds-stream :
          (ls : List Letter) (k : ℕ) (s : S) (c : Conn) (r : List Item)
          → All (λ l. IsFit l × Good (as_received l)) ls
          → Fine c
          → items c.inbox ≡ all_bytes (stream ls) ++ r
          → (c' : Conn) × (rounds codec loop (length ls + k) s c
              ≡ rounds codec loop k (steps s ls) c')
            × (items c'.inbox ≡ r)
            × (c'.sent ≡ c.sent ++ outs s ls)
            × Fine c'
      rounds-stream [] k s c r fits fine h =
          (c, ap (λ n. rounds codec loop n s c) (omega arith), h, sym (append-nil c.sent), fine)
      rounds-stream (l ∷ ls) k s c r ((fit, good), fits) fine h =
          let (c1, e1, q1, kept) =
            get_message_from_socket_next c l _ fit (h ∙ simp (map-append, append_assoc)) in
          let (c2, e2, i2, s2, fine2) =
            acting.acts s (as_received l) c1 good (acting.kept_fine c c1 kept fine) in
          let (c3, e3, q3, s3, fine3) =
            rounds-stream ls k (step s (as_received l)) c2 r fits fine2 (ap items i2 ∙ q1) in
          (
            c3,
            ap (λ n. rounds codec loop n s c) (omega arith)
                ∙ rounds_round loop (length ls + k) s c (as_received l) c1 _ c2 e1 e2
                ∙ e3,
            q3,
            s3
                ∙ ap (λ x. x ++ outs (step s (as_received l)) ls)
                    (s2 ∙ ap (λ x. x ++ out s (as_received l)) kept.0)
                ∙ append_assoc c.sent (out s (as_received l)) _,
            fine3,
          )

      -- A connection that holds these letters and then ends is served to its end.
      pub rounds-stream_closed :
          (ls : List Letter) (k : ℕ) (s : S) (c : Conn)
          → All (λ l. IsFit l × Good (as_received l)) ls
          → Fine c
          → items c.inbox ≡ all_bytes (stream ls) ++ (end ∷ [])
          → (f : Failure) × (c' : Conn) × (rounds codec loop (length ls + suc k) s c
              ≡ ended (loop.on_end f) (steps s ls) c')
            × (is_eof (cause f.error) ≡ true)
            × (items c'.inbox ≡ end ∷ [])
            × (c'.sent ≡ c.sent ++ outs s ls)
      unfolding rounds turn
      rounds-stream_closed ls k s c fits fine h =
          let (c1, e1, q1, s1, _) = rounds-stream ls (suc k) s c (end ∷ []) fits fine h in
          let (f, c2, e2, eof, q2) = get_message_from_socket_closed c1 q1 in
          let (sent, _) = get_message_from_socket-IsKept codec c1 in
          (f, c2, e1 ∙ rw (e2, eof) refl, eof, q2, ap (λ o. (left o).sent) (sym e2) ∙ sent ∙ s1)
