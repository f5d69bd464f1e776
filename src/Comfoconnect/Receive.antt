-- ===== src/Comfoconnect/Receive.antt =====
-- pkg/comfoconnect/comfoconnect.go: `GetMessageFromSocket`. Spans and log lines are left out.
pub mod Taken
pub mod Delivered
pub mod Parsed
pub mod Assertions
pub mod Errors
pub mod RoundTrip
pub mod Keeps
pub mod Quiet
pub mod Progress
pub mod Untyped
use comfoconnectbridge.Prelude.{
  ℕ, ◌+◌, ◌-◌, ◌%◌, ◌^◌, ◌≡◌, String, Bool, true, false, ◌||◌, Option, none, some, List, [], ◌∷◌,
  ◌++◌, if◌then◌else◌, ltb,
}
use comfoconnectbridge.Go.Errors.{
  GoError, new_error, other_error, wrapped, cause, is_timeout, Go, panic, value,
}
use comfoconnectbridge.Go.Binary.{Bytes, uint16, uint32}
use comfoconnectbridge.Go.Conn.{
  M, Conn, Outcome, pure, fail, lift, map_error, ◌>>=◌, returned, panicked,
}
use comfoconnectbridge.Proto.Enums.{OperationType, type_text}
use comfoconnectbridge.Proto.Messages.{GatewayOperation}
use comfoconnectbridge.Proto.Payload.{Payload}
use comfoconnectbridge.Proto.Codec.{Codec}
use comfoconnectbridge.Comfoconnect.Types.{get_struct_for_type}
use comfoconnectbridge.Comfoconnect.Socket.{read_bytes}
use comfoconnectbridge.Comfoconnect.Message.{Message, empty_message}

-- Beside an error the function returns a message that is empty but for the bytes read so far.
pub record Failure : Type 0 where
  pub message : Message
  pub error : GoError

abbrev pub no_message : String → GoError → Failure
no_message text e = record { message = empty_message; error = wrapped text e }

-- A timeout at the start of a message is passed on as it is.
abbrev pub length_failure : GoError → Failure
length_failure e =
    if is_timeout (cause e)
    then record { message = empty_message; error = e }
    else no_message "reading message length" e

-- `ReadBytes` with its error wrapped.
unfoldable pub read_part : String → ℕ → M Failure Bytes
read_part text n = map_error (no_message text) (read_bytes n)

-- `return Message{}, errors.New(…)`.
abbrev pub reject_if : Bool → String → ℕ → M Failure (Unit {0})
reject_if true text n = fail (record { message = empty_message; error = new_error text (n ∷ []) })
reject_if false text n = pure tt

-- `(length - 34) - uint32(operationLength)` on uint32.
abbrev pub type_length : ℕ → ℕ → ℕ
type_length length operation_length =
    ((length + 2 ^ 32 - 34) % 2 ^ 32 + 2 ^ 32 - operation_length) % 2 ^ 32

-- The operation type is read only if its length is not 0.
unfoldable pub read_operation_type : ℕ → M Failure Bytes
unfolding read_part
read_operation_type n = if ltb 0 n then read_part "reading operation type" n else pure []

-- The parts of a message as they come off the socket.
pub record Frame : Type 0 where
  pub length_bytes : Bytes
  pub src : Bytes
  pub dst : Bytes
  pub operation_length_bytes : Bytes
  pub operation_bytes : Bytes
  pub operation_type_bytes : Bytes

-- `completeMessage` at the end.
abbrev pub complete_message : Frame → Bytes
complete_message f =
    f.length_bytes
    ++ (f.src
        ++ (f.dst ++ (f.operation_length_bytes ++ (f.operation_bytes ++ f.operation_type_bytes))))

-- The check of the length field.
abbrev pub check_length : Bytes → M Failure (Bytes × ℕ)
check_length length_bytes = do
  length ← lift (uint32 length_bytes)
  _ ← reject_if (ltb 1024 length) "got invalid length: %d" length
  pure (length_bytes, length)

-- The length field, checked.
unfoldable pub read_length : M Failure (Bytes × ℕ)
read_length = map_error length_failure (read_bytes 4) >>= check_length

-- The length of the operation, checked, and the operation.
unfoldable pub read_operation : M Failure (Bytes × ℕ × Bytes)
unfolding read_part
read_operation = do
  length_bytes ← read_part "reading operation length" 2
  length ← lift (uint16 length_bytes)
  _ ← reject_if (ltb length 1 || ltb 1024 length) "got invalid operationLength: %d" length
  operation_bytes ← read_part "reading operation" length
  pure (length_bytes, length, operation_bytes)

-- What follows the length field.
abbrev pub read_rest : Bytes × ℕ → M Failure Frame
read_rest (length_bytes, length) = do
  src ← read_part "reading Src" 16
  dst ← read_part "reading Dst" 16
  (operation_length_bytes, operation_length, operation_bytes) ← read_operation
  operation_type_bytes ← read_operation_type (type_length length operation_length)
  pure (record {
    length_bytes = length_bytes;
    src = src;
    dst = dst;
    operation_length_bytes = operation_length_bytes;
    operation_bytes = operation_bytes;
    operation_type_bytes = operation_type_bytes;
  })

unfoldable pub read_frame : M Failure Frame
unfolding read_length read_part read_operation read_operation_type
read_frame = read_length >>= read_rest

abbrev parse_failure : Frame → String → Failure
parse_failure f text = record {
  message = record empty_message { raw_message = complete_message f };
  error = wrapped text (other_error "proto");
}

module _ (codec : Codec) where
  abbrev payload_of : Frame → GatewayOperation → Option Payload → M Failure Message
  payload_of f operation none = fail (parse_failure f "failed to unmarshal operation type")
  payload_of f operation (some payload) = pure (record {
    src = f.src;
    dst = f.dst;
    operation = operation;
    raw_message = complete_message f;
    operation_type = some payload;
  })

  -- `GetStructForType` may return nil, at which the method call panics.
  abbrev unmarshal_into : Frame → GatewayOperation → Option Payload → M Failure Message
  unmarshal_into f operation none = lift panic
  unmarshal_into f operation (some empty) =
      payload_of f operation (codec.unmarshal empty f.operation_type_bytes)

  -- `operation.Type.String()` dereferences the pointer.
  abbrev typed : Frame → GatewayOperation → Option OperationType → M Failure Message
  typed f operation none = lift panic
  typed f operation (some t) = unmarshal_into f operation (get_struct_for_type (type_text t))

  abbrev operation_of : Frame → Option GatewayOperation → M Failure Message
  operation_of f none = fail (parse_failure f "failed to unmarshal operation")
  operation_of f (some operation) = typed f operation operation.type

  -- What follows when all bytes are there.
  unfoldable pub parse_frame : Frame → M Failure Message
  parse_frame f = operation_of f (codec.unmarshal_operation f.operation_bytes)

  unfoldable pub get_message_from_socket : M Failure Message
  unfolding read_frame parse_frame
  get_message_from_socket = read_frame >>= parse_frame
