-- ===== src/Proto/Codec.antt =====
-- The protobuf library (vendor/github.com/golang/protobuf) as the program calls it: the methods
-- XXX_Marshal and XXX_Unmarshal of the structs. It is a parameter of the model. Every caller drops the
-- error of a marshal; an unmarshal that fails is `none`.
use comfoconnectbridge.Prelude.{◌≡◌, Option, some}
use comfoconnectbridge.Go.Binary.{Bytes}
use comfoconnectbridge.Proto.Messages.{GatewayOperation, SearchGatewayResponse}
use comfoconnectbridge.Proto.Payload.{Payload, struct_name}

pub record Codec : Type 0 where
  pub marshal_operation : GatewayOperation → Bytes
  pub unmarshal_operation : Bytes → Option GatewayOperation
  pub marshal : Payload → Bytes
  -- The receiver, an empty struct, decides what is read.
  pub unmarshal : Payload → Bytes → Option Payload
  -- The bytes are put behind those given.
  pub marshal_search : Bytes → SearchGatewayResponse → Bytes
  -- The struct as far as it was filled, since the caller drops the error.
  pub unmarshal_search : Bytes → SearchGatewayResponse

-- An unmarshal fills its receiver and leaves it the struct that it was.
pub record KeepsStruct (codec : Codec) : Type 0 where
  pub unmarshal_struct :
      (z p : Payload) (b : Bytes) → codec.unmarshal z b ≡ some p → struct_name p ≡ struct_name z
