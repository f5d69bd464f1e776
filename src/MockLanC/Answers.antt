-- ===== src/MockLanC/Answers.antt =====
-- What the mock gateway answers.
use comfoconnectbridge.Prelude.{
  ℕ, ◌≡◌, refl, sym, ap, ◌∙◌, arith, Bool, true, false, Option, none, some, List, [], ◌∷◌, ◌++◌,
  append_assoc, append-nil, Bool-cases, inl, inr, ◌⊎◌,
}
use comfoconnectbridge.Go.Errors.{Go, value, panic, and_then}
use comfoconnectbridge.Go.Binary.{Bytes, or_empty}
use comfoconnectbridge.Go.Conn.{Conn, write, write_next}
use comfoconnectbridge.Proto.Enums.{OperationType, GatewayResult, type_text, is_name}
use comfoconnectbridge.Proto.Payload.{Payload}
use comfoconnectbridge.Proto.Codec.{Codec}
use comfoconnectbridge.Comfoconnect.Types.{get_response_type}
use comfoconnectbridge.Comfoconnect.Types.Tables.{has_struct}
use comfoconnectbridge.Comfoconnect.Message.{
  Message, minus_one, create_response, create_custom_response,
}
use comfoconnectbridge.Comfoconnect.Message.Responses.{IsAnswer, create_response_lem}
use comfoconnectbridge.Comfoconnect.Rounds.{again}
use comfoconnectbridge.Comfoconnect.Rounds.Delivers.{Letter, as_received}
use comfoconnectbridge.MockLanC.{respond, notification, start_session, serve_typed, served}

-- What is written in turn.
abbrev pub respond_all : Conn → List Bytes → Conn
respond_all c [] = c
respond_all c (b ∷ bs) = respond_all (respond c b) bs

respond-inbox : (c : Conn) (b : Bytes) → (respond c b).inbox ≡ c.inbox
unfolding respond write write_next
respond-inbox c b = ground arith

pub respond_all-inbox : (bs : List Bytes) (c : Conn) → (respond_all c bs).inbox ≡ c.inbox
respond_all-inbox [] c = refl
respond_all-inbox (b ∷ bs) c = respond_all-inbox bs (respond c b) ∙ respond-inbox c b

respond_lem :
    (c : Conn) (b : Bytes) → c.writes ≡ [] → respond c b ≡ record c { sent = c.sent ++ (b ∷ []) }
unfolding respond write write_next
respond_lem c b h = rw h refl

pub respond_all_lem :
    (bs : List Bytes) (c : Conn)
    → c.writes ≡ []
    → ((respond_all c bs).sent ≡ c.sent ++ bs) × ((respond_all c bs).writes ≡ [])
respond_all_lem [] c h = (sym (append-nil c.sent), h)
respond_all_lem (b ∷ bs) c h =
    let e = respond_lem c b h in
    let (s, w) = respond_all_lem bs (respond c b) (ap (λ x. x.writes) e ∙ h) in
    (s ∙ ap (λ x. x.sent ++ bs) e ∙ append_assoc c.sent (b ∷ []) bs, w)

abbrev pub is_start : OperationType → Bool
is_start t = is_name (type_text t) "StartSessionRequestType"

abbrev pub status_for : Bool → GatewayResult
status_for true = GatewayResult.ok
status_for false = minus_one

abbrev pub response_of : Go (Option Bytes) → Option Bytes
response_of (value r) = r
response_of panic = none

module _ (codec : Codec) where
  -- What is written for a message whose response is `response`.
  abbrev pub replies_with : Message → Bool → Option Bytes → List Bytes
  replies_with m true response =
      or_empty response
      ∷ create_custom_response codec m OperationType.cn_node_notification_type (notification 1 1 1)
      ∷ create_custom_response codec m OperationType.cn_node_notification_type
          (notification 48 5 255)
      ∷ []
  replies_with m false response = or_empty response ∷ []

  abbrev pub written : Conn → Message → Bool → Go (Option Bytes) → Go Conn
  written c m start r = and_then r λ response. value (respond_all c (replies_with m start response))

  pub serve_typed_lem :
      (now : ℕ) (m : Message) (t : OperationType) (c : Conn)
      → serve_typed codec now m (some t) c
        ≡ written c m (is_start t) (create_response codec now m (status_for (is_start t)))
  unfolding serve_typed start_session
  serve_typed_lem now m t c = elim (Bool-cases (is_start t)) [
    | inl e ↦ rw e refl
    | inr e ↦ rw e refl
  ]

  written-inbox :
      (c : Conn) (m : Message) (start : Bool) (g : Go (Option Bytes)) (c' : Conn)
      → written c m start g ≡ value c'
      → c'.inbox ≡ c.inbox
  written-inbox c m start (value r) c' h =
      let e : respond_all c (replies_with m start r) ≡ c' = cc in
      ap (λ x. x.inbox) (sym e) ∙ respond_all-inbox (replies_with m start r) c
  written-inbox c m start panic c' h = cc

  pub serve_typed-inbox :
      (now : ℕ) (m : Message) (t : Option OperationType) (c c' : Conn)
      → serve_typed codec now m t c ≡ value c'
      → c'.inbox ≡ c.inbox
  serve_typed-inbox now m none c c' h = unfold serve_typed in cc
  serve_typed-inbox now m (some t) c c' h =
      written-inbox c m (is_start t) _ c' (sym (serve_typed_lem now m t c) ∙ h)

  pub served-eq-again :
      (k : ℕ) (conn : Conn) (g : Go Conn) (k' : ℕ) (c' : Conn)
      → served codec k conn g ≡ again k' c'
      → g ≡ value c'
  served-eq-again k conn (value c) k' c' h = cc
  served-eq-again k conn panic k' c' h = cc

  abbrev pub reply_bytes : ℕ → Message → Option OperationType → List Bytes
  reply_bytes now m none = []
  reply_bytes now m (some t) =
      replies_with m (is_start t)
        (response_of (create_response codec now m (status_for (is_start t))))

  -- The bytes `b` are the answer to a request `m` with the payload `p`, or empty where the code knows no
  -- response to it.
  abbrev pub IsResponse : Message → GatewayResult → Payload → Bytes → Type 0
  IsResponse m status p b =
      (has_struct (get_response_type p) ≡ false) × (b ≡ []) ⊎ IsAnswer codec m status p b

  -- What the mock gateway writes for one message: a response, and behind that of a session start the two
  -- notifications of the nodes.
  pub record IsReply (m : Message) (p : Payload) (bs : List Bytes) : Type 0 where
    pub type : OperationType
    pub response : Bytes
    pub type_set : m.operation.type ≡ some type
    pub responds : IsResponse m (status_for (is_start type)) p response
    pub whole : bs ≡ replies_with m (is_start type) (some response)

  -- One reply to each letter, in order.
  abbrev pub AllReplied : List Letter → List Bytes → Type 0
  AllReplied [] out = out ≡ []
  AllReplied (l ∷ ls) out =
      (bs : List Bytes) × (rest : List Bytes) × (out ≡ bs ++ rest)
      × IsReply (as_received codec l) l.payload bs
      × AllReplied ls rest

  pub create_response-value :
      (now : ℕ) (m : Message) (status : GatewayResult) (p : Payload)
      → m.operation_type ≡ some p
      → (r : Option Bytes) × (create_response codec now m status ≡ value r)
        × IsResponse m status p (or_empty r)
  create_response-value now m status p h = elim (create_response_lem codec now m status p h) [
    | inl (none_known, e) ↦ (none, e, inl (none_known, refl))
    | inr (b, e, answers) ↦ (some b, e, inr answers)
  ]

  replies_with-some :
      (m : Message) (start : Bool) (r : Option Bytes)
      → replies_with m start r ≡ replies_with m start (some (or_empty r))
  replies_with-some m true r = refl
  replies_with-some m false r = refl

  pub reply_bytes-IsReply :
      (now : ℕ) (m : Message) (p : Payload) (t : OperationType)
      → m.operation_type ≡ some p
      → m.operation.type ≡ some t
      → IsReply m p (reply_bytes now m m.operation.type)
  reply_bytes-IsReply now m p t hp ht =
      let (r, e, known) = create_response-value now m (status_for (is_start t)) p hp in
      record {
        type = t;
        response = or_empty r;
        type_set = ht;
        responds = known;
        whole =
            ap (reply_bytes now m) ht
            ∙ ap (λ g. replies_with m (is_start t) (response_of g)) e
            ∙ replies_with-some m (is_start t) r;
      }
