-- ===== src/Comfoconnect/Message.antt =====
-- pkg/comfoconnect/comfoconnect.go: `Message` and its methods. The tracing span is left out.
pub mod Responses
pub mod Layout
use comfoconnectbridge.Prelude.{
  ℕ, ◌+◌, ◌≡◌, Bool, true, false, Option, none, some, String, ◌==◌, List, [], ◌∷◌, ◌++◌,
  if◌then◌else◌, length,
}
use comfoconnectbridge.Go.Errors.{Go, value, panic}
use comfoconnectbridge.Go.Binary.{Bytes, put_uint16, put_uint32}
use comfoconnectbridge.Proto.Enums
use comfoconnectbridge.Proto.Enums.{OperationType, GatewayResult, type_text, is_name}
use comfoconnectbridge.Proto.Messages.{GatewayOperation, SearchGatewayResponse}
use comfoconnectbridge.Proto.Payload.{Payload}
use comfoconnectbridge.Proto.Codec.{Codec}
use comfoconnectbridge.Comfoconnect.Types.{get_struct_for_type, get_response_type}
use comfoconnectbridge.Comfoconnect.Answers.{overrides}

pub record Message : Type 0 where
  pub src : Bytes
  pub dst : Bytes
  pub operation : GatewayOperation
  pub raw_message : Bytes
  pub operation_type : Option Payload

abbrev pub empty_operation : GatewayOperation
empty_operation = record { type = none; result = none; result_description = none; reference = none }

-- `Message{}`.
abbrev pub empty_message : Message
empty_message = record {
  src = [];
  dst = [];
  operation = empty_operation;
  raw_message = [];
  operation_type = none;
}

-- The status -1, an int32.
abbrev pub minus_one : GatewayResult
minus_one = GatewayResult.unrecognized 0xffff_ffff

abbrev pub is_minus_one : GatewayResult → Bool
is_minus_one (GatewayResult.unrecognized n) = n == 0xffff_ffff
is_minus_one _ = false

-- The operation that `CreateResponse` starts from.
abbrev pub response_operation : Message → GatewayResult → OperationType → GatewayOperation
response_operation m status response_type = record {
  type = some response_type;
  result = if is_minus_one status then none else some status;
  result_description = none;
  reference = m.operation.reference;
}

module _ (codec : Codec) where
  -- `packMessage`: length, Src, Dst, length of the operation, operation, operation type.
  unfoldable pub pack_message : Message → GatewayOperation → Payload → Bytes
  pack_message m operation payload =
      let operation_bytes = codec.marshal_operation operation in
      let payload_bytes = codec.marshal payload in
      put_uint32 (length payload_bytes + 34 + length operation_bytes)
      ++ (m.src
          ++ (m.dst ++ (put_uint16 (length operation_bytes) ++ (operation_bytes ++ payload_bytes))))

  -- A nil interface has no method to call.
  unfoldable pub pack_interface : Message → GatewayOperation → Option Payload → Go Bytes
  unfolding pack_message
  pack_interface m operation none = panic
  pack_interface m operation (some payload) = value (pack_message m operation payload)

  unfoldable pub encode : Message → Go Bytes
  unfolding pack_interface
  encode m = pack_interface m m.operation m.operation_type

  -- `CreateResponse` after the struct of the response type has been looked up; `none` is a nil slice.
  unfoldable pub answer_with :
      ℕ → Message → Payload → GatewayOperation → OperationType → Option Payload → Go (Option Bytes)
  unfolding pack_message overrides
  answer_with now m request operation response_type none = value none
  answer_with now m request operation response_type (some empty) =
      elim (overrides now request (type_text response_type) operation empty) [
        | value (o, p) ↦ value (some (pack_message (record m { src = m.dst; dst = m.src }) o p))
        | panic ↦ panic
      ]

  -- The response for a request with the given payload.
  unfoldable pub answer : ℕ → Message → GatewayResult → Option Payload → Go (Option Bytes)
  unfolding answer_with get_response_type get_struct_for_type type_text
  answer now m status none = panic
  answer now m status (some request) =
      let response_type = get_response_type request in
      answer_with now m request (response_operation m status response_type) response_type
        (get_struct_for_type (type_text response_type))

  -- `CreateResponse`; `now` stands for the clock.
  unfoldable pub create_response : ℕ → Message → GatewayResult → Go (Option Bytes)
  unfolding answer
  create_response now m status = answer now m status m.operation_type

  -- `CreateCustomResponse`. It keeps the message's Src and Dst as they are.
  unfoldable pub create_custom_response : Message → OperationType → Payload → Bytes
  unfolding pack_message
  create_custom_response m response_type payload =
      pack_message m
        (record {
          type = some response_type;
          result = none;
          result_description = none;
          reference = m.operation.reference;
        })
        payload

  -- `CreateSearchGatewayResponse`.
  unfoldable pub create_search_gateway_response : String → Option Bytes → Bytes
  create_search_gateway_response ip_address uuid =
      codec.marshal_search (0x12 ∷ 0x24 ∷ [])
        (record { ipaddress = some ip_address; uuid = uuid; version = some 1 })
