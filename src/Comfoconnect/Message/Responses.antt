-- ===== src/Comfoconnect/Message/Responses.antt =====
-- What `create_response` answers to each request.
use comfoconnectbridge.Prelude.{
  ℕ, ◌≡◌, refl, sym, ap, ◌∙◌, Bool, true, false, Option, none, some, if◌then◌else◌, ◌⊎◌, inl, inr,
  arith,
}
use mathlib.Core.Path.{subst}
use Prim.Native.String.{◌++◌ as append}
use comfoconnectbridge.Go.Errors.{Go, value, panic}
use comfoconnectbridge.Go.Binary.{Bytes}
use comfoconnectbridge.Proto.Enums.{named, OperationType, GatewayResult, type_text}
use comfoconnectbridge.Proto.Messages.{GatewayOperation}
use comfoconnectbridge.Proto.Payload.{Payload, struct_name}
use comfoconnectbridge.Proto.Codec.{Codec}
use comfoconnectbridge.Comfoconnect.Types.{get_struct_for_type, get_response_type}
use comfoconnectbridge.Comfoconnect.Types.Tables.{has_struct}
use comfoconnectbridge.Comfoconnect.Answers.{overrides}
use comfoconnectbridge.Comfoconnect.Message.{
  Message, is_minus_one, pack_message, answer_with, answer, response_operation, create_response,
}

-- The results that the code sets whatever the caller's status is.
abbrev pub always_ok : OperationType → Bool
always_ok OperationType.start_session_confirm_type = true
always_ok OperationType.version_confirm_type = true
always_ok _ = false

abbrev pub expected_result : GatewayResult → OperationType → Option GatewayResult
expected_result status t =
    if always_ok t then some GatewayResult.ok else if is_minus_one status then none else some status

-- What holds of the operation and the struct that are sent in answer to the request `p`.
abbrev IsFilled : Message → GatewayResult → Payload → Go (GatewayOperation × Payload) → Type 0
IsFilled m status p (value (o, q)) =
    (o.type ≡ some (get_response_type p))
    × (o.reference ≡ m.operation.reference)
    × (o.result ≡ expected_result status (get_response_type p))
    × (named (append (struct_name q) "Type") ≡ type_text (get_response_type p))
IsFilled m status p panic = ⊥

abbrev answer_parts :
    ℕ
    → Message
    → GatewayResult
    → Payload
    → Option Payload
    → Option (Go (GatewayOperation × Payload))
answer_parts now m status p none = none
answer_parts now m status p (some empty) = some (
    overrides now p (type_text (get_response_type p))
      (response_operation m status (get_response_type p)) empty)

abbrev IsFilled? :
    Message → GatewayResult → Payload → Option (Go (GatewayOperation × Payload)) → Type 0
IsFilled? m status p none = has_struct (get_response_type p) ≡ false
IsFilled? m status p (some g) = IsFilled m status p g

answer_parts-IsFilled :
    (now : ℕ) (m : Message) (status : GatewayResult) (p : Payload)
    → IsFilled? m status p
        (answer_parts now m status p (get_struct_for_type (type_text (get_response_type p))))
unfolding overrides get_struct_for_type get_response_type type_text struct_name
answer_parts-IsFilled now m status Payload.version_request = (refl, refl, refl, refl)
answer_parts-IsFilled now m status _ = ground arith

module _ (codec : Codec) where
  -- The bytes `b` are an answer to the message `m` with the request `p`.
  pub record IsAnswer (m : Message) (status : GatewayResult) (p : Payload) (b : Bytes)
      : Type 0 where
    pub operation : GatewayOperation
    pub payload : Payload
    pub packed : b ≡ pack_message codec (record m { src = m.dst; dst = m.src }) operation payload
    pub type_set : operation.type ≡ some (get_response_type p)
    pub reference_kept : operation.reference ≡ m.operation.reference
    pub result_set : operation.result ≡ expected_result status (get_response_type p)
    pub struct_fits : named (append (struct_name payload) "Type") ≡ type_text (get_response_type p)

  answer_with-IsFilled :
      (m : Message) (status : GatewayResult) (p : Payload) (g : Go (GatewayOperation × Payload))
      → IsFilled m status p g
      → (o : GatewayOperation) × (q : Payload) × (g ≡ value (o, q))
        × IsFilled m status p (value (o, q))
  answer_with-IsFilled m status p (value (o, q)) h = (o, q, refl, h)
  answer_with-IsFilled m status p panic h = absurd h

  answer_with_value :
      (now : ℕ) (m : Message) (p : Payload) (operation : GatewayOperation) (t : OperationType)
      (empty : Payload) (o : GatewayOperation) (q : Payload)
      → overrides now p (type_text t) operation empty ≡ value (o, q)
      → answer_with codec now m p operation t (some empty)
        ≡ value (some (pack_message codec (record m { src = m.dst; dst = m.src }) o q))
  unfolding answer_with
  answer_with_value now m p operation t empty o q e = ground (arith, e)

  abbrev Answers : Message → GatewayResult → Payload → Go (Option Bytes) → Type 0
  Answers m status p r =
      (has_struct (get_response_type p) ≡ false) × (r ≡ value none)
      ⊎ ((b : Bytes) × (r ≡ value (some b)) × IsAnswer m status p b)

  answer_cases :
      (now : ℕ) (m : Message) (status : GatewayResult) (p : Payload) (empty : Option Payload)
      → IsFilled? m status p (answer_parts now m status p empty)
      → Answers m status p (
          answer_with codec now m p
            (response_operation m status (get_response_type p))
            (get_response_type p)
            empty)
  answer_cases now m status p none h = inl (h, unfold answer_with in refl)
  answer_cases now m status p (some empty) h =
      let (o, q, e, f) = answer_with-IsFilled m status p _ h in
      inr (
        pack_message codec (record m { src = m.dst; dst = m.src }) o q,
        answer_with_value now m p _ (get_response_type p) empty o q e,
        record {
          operation = o;
          payload = q;
          packed = refl;
          type_set = f.0;
          reference_kept = f.1;
          result_set = f.2;
          struct_fits = f.3;
        },
      )

  create_response-answer_with :
      (now : ℕ) (m : Message) (status : GatewayResult) (p : Payload)
      → m.operation_type ≡ some p
      → create_response codec now m status
        ≡ answer_with codec now m p
            (response_operation m status (get_response_type p))
            (get_response_type p)
            (get_struct_for_type (type_text (get_response_type p)))
  create_response-answer_with now m status p held =
      let e : create_response codec now m status ≡ answer codec now m status m.operation_type =
        unfold create_response in refl in
      let d : answer codec now m status (some p)
          ≡ answer_with codec now m p (response_operation m status (get_response_type p))
              (get_response_type p) (get_struct_for_type (type_text (get_response_type p))) =
        unfold answer in refl in
      e ∙ ap (answer codec now m status) held ∙ d

  -- CreateResponse never panics on a message with an operation type. If the code knows no response type
  -- it returns nil. Otherwise it returns a message with Src and Dst swapped, of the response type, with
  -- the request's reference, with the struct that belongs to that type, and with the status as its
  -- result, where -1 stands for none and the confirmations of a session and of the version say OK.
  pub create_response_lem :
      (now : ℕ) (m : Message) (status : GatewayResult) (p : Payload)
      → m.operation_type ≡ some p
      → (has_struct (get_response_type p) ≡ false)
          × (create_response codec now m status ≡ value none)
        ⊎ ((b : Bytes) × (create_response codec now m status ≡ value (some b))
            × IsAnswer m status p b)
  create_response_lem now m status p held =
      subst (Answers m status p) (sym (create_response-answer_with now m status p held))
        (answer_cases now m status p _ (answer_parts-IsFilled now m status p))
