-- ===== src/MockLanC/Serves.antt =====
-- What the mock gateway writes to a client, and when it is done with it.
use comfoconnectbridge.Prelude.{
  ℕ, suc, ◌+◌, ◌<◌, ◌≡◌, refl, sym, ap, ◌∙◌, arith, true, some, List, [], ◌∷◌, ◌++◌, All, length,
}
use comfoconnectbridge.Go.Errors.{GoError, cause, is_eof}
use comfoconnectbridge.Go.Binary.{Bytes}
use comfoconnectbridge.Go.Conn.{Conn}
use comfoconnectbridge.Proto.Enums.{OperationType}
use comfoconnectbridge.Proto.Payload.{Payload}
use comfoconnectbridge.Proto.Codec.{Codec}
use comfoconnectbridge.Comfoconnect.Message.{Message}
use comfoconnectbridge.Comfoconnect.Receive.Progress.{size}
use comfoconnectbridge.Comfoconnect.Socket.Stream.{end, all_bytes, items}
use comfoconnectbridge.Comfoconnect.Rounds.{again, ended, is_over, IsServing}
use comfoconnectbridge.Comfoconnect.Rounds.Ends.{rounds-is_over}
use comfoconnectbridge.Comfoconnect.Rounds.Delivers.{
  Letter, stream, as_received, IsFit, IsActing, steps, outs, rounds-stream_closed,
}
use comfoconnectbridge.MockLanC.{left_error, serve_typed, served, client_loop, handle_client}
use comfoconnectbridge.MockLanC.Answers.{
  respond_all, respond_all-inbox, respond_all_lem, is_start, replies_with, status_for, written,
  serve_typed_lem, serve_typed-inbox, served-eq-again, response_of, reply_bytes, AllReplied,
  create_response-value, reply_bytes-IsReply,
}

module _ (codec : Codec) where
  -- A message that has a type and a payload.
  abbrev IsTyped : Message → Type 0
  IsTyped m =
      (p : Payload) × (t : OperationType) × (m.operation_type ≡ some p)
      × (m.operation.type ≡ some t)

  IsFit-IsTyped :
      (ls : List Letter)
      → All (IsFit codec) ls
      → All (λ l. IsFit codec l × IsTyped (as_received codec l)) ls
  IsFit-IsTyped [] h = tt
  IsFit-IsTyped (l ∷ ls) (fit, fits) = (
    (fit, (l.payload, fit.reads_back.type, fit.sendable.payload_held, fit.reads_back.type_set)),
    IsFit-IsTyped ls fits,
  )

  module _ (clock : ℕ → ℕ) where
    abbrev pub next : ℕ → Message → ℕ
    next k m = suc k

    abbrev pub out : ℕ → Message → List Bytes
    out k m = reply_bytes codec (clock k) m m.operation.type

    client_loop-acts :
        (k : ℕ) (m : Message) (c : Conn)
        → IsTyped m
        → c.writes ≡ []
        → (c' : Conn) × (served codec k c (serve_typed codec (clock k) m m.operation.type c)
            ≡ again (suc k) c')
          × (c'.inbox ≡ c.inbox)
          × (c'.sent ≡ c.sent ++ out k m)
          × (c'.writes ≡ [])
    client_loop-acts k m c (p, t, hp, ht) fine =
        let (r, e, known) =
          create_response-value codec (clock k) m (status_for (is_start t)) p hp in
        let bs = replies_with codec m (is_start t) r in
        let (s, w) = respond_all_lem bs c fine in
        let same : out k m ≡ bs =
          ap (reply_bytes codec (clock k) m) ht
          ∙ ap (λ g. replies_with codec m (is_start t) (response_of g)) e in
        (
          respond_all c bs,
          ap (λ o. served codec k c (serve_typed codec (clock k) m o c)) ht
              ∙ ap (served codec k c) (serve_typed_lem codec (clock k) m t c)
              ∙ ap (λ g. served codec k c (written codec c m (is_start t) g)) e,
          respond_all-inbox bs c,
          s ∙ ap (λ x. c.sent ++ x) (sym same),
          w,
        )

    client_loop-IsActing :
        IsActing codec (client_loop codec clock) next out IsTyped (λ c. c.writes ≡ [])
    client_loop-IsActing = record {
      acts = client_loop-acts;
      kept_fine = λ c c' kept fine. kept.1 ∙ fine;
    }

    outs-AllReplied :
        (ls : List Letter) (k : ℕ)
        → All (IsFit codec) ls
        → AllReplied codec ls (outs codec next out k ls)
    outs-AllReplied [] k h = refl
    outs-AllReplied (l ∷ ls) k (fit, fits) = (
      _,
      _,
      refl,
      reply_bytes-IsReply codec (clock k) (as_received codec l) l.payload fit.reads_back.type
          fit.sendable.payload_held fit.reads_back.type_set,
      outs-AllReplied ls (suc k) fits,
    )

    steps-length : (ls : List Letter) (k : ℕ) → steps codec next out k ls ≡ length ls + k
    steps-length [] k = omega arith
    steps-length (l ∷ ls) k = steps-length ls (suc k) ∙ omega arith

    -- What is written to a client, and how the call ends.
    pub handle_client-outs :
        (ls : List Letter) (k : ℕ) (c : Conn)
        → All (IsFit codec) ls
        → c.writes ≡ []
        → items c.inbox ≡ all_bytes (stream codec ls) ++ (end ∷ [])
        → (e : GoError) × (c' : Conn) × (handle_client codec clock (length ls + suc k) c
            ≡ ended e (length ls) c')
          × (is_eof (cause e) ≡ true)
          × (c'.sent ≡ c.sent ++ outs codec next out 0 ls)
    unfolding handle_client
    handle_client-outs ls k c fits writes h =
        let (f, c', e, eof, q, s) =
          rounds-stream_closed codec next out (client_loop codec clock) IsTyped (λ c. c.writes ≡ [])
            client_loop-IsActing ls k 0 c (IsFit-IsTyped ls fits) writes h in
        (
          left_error f,
          c',
          e ∙ ap (λ n. ended (left_error f) n c') (steps-length ls 0 ∙ omega arith),
          unfold cause in eof,
          s,
        )

    -- To a client that sends messages and then closes the connection the mock gateway writes one reply
    -- to each message, in order, and nothing else, and then returns the wrapped io.EOF, if the messages
    -- fit a frame, the protobuf library reads them back and no write fails. A reply is the response that
    -- CreateResponse makes, with the result OK for a session start and no result otherwise, or an empty
    -- write where it knows none; behind that of a session start come the notifications of two nodes.
    pub handle_client-stream :
        (ls : List Letter) (k : ℕ) (c : Conn)
        → All (IsFit codec) ls
        → c.writes ≡ []
        → items c.inbox ≡ all_bytes (stream codec ls) ++ (end ∷ [])
        → (e : GoError) × (c' : Conn) × (replies : List Bytes) × (handle_client codec clock
              (length ls + suc k)
              c
            ≡ ended e (length ls) c')
          × (is_eof (cause e) ≡ true)
          × (c'.sent ≡ c.sent ++ replies)
          × AllReplied codec ls replies
    handle_client-stream ls k c fits writes h =
        let (e, c', ends, eof, s) = handle_client-outs ls k c fits writes h in
        (e, c', outs codec next out 0 ls, ends, eof, s, outs-AllReplied ls 0 fits)

    client_loop-IsServing : IsServing (client_loop codec clock)
    client_loop-IsServing = record {
      serves = λ k m c k' c' e.
          serve_typed-inbox codec (clock k) m m.operation.type c c'
            (served-eq-again codec k c (serve_typed codec (clock k) m m.operation.type c) k' c' e);
    }

    -- Serving a client comes to an end, whatever is on the connection: as many rounds as there are bytes
    -- and failures, and one more, are enough.
    pub handle_client-is_over :
        (n : ℕ) (c : Conn) → size c < n → is_over (handle_client codec clock n c) ≡ true
    unfolding handle_client
    handle_client-is_over n c h =
        rounds-is_over (client_loop codec clock) client_loop-IsServing codec n 0 c h
