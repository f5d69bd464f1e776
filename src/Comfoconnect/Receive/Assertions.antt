-- ===== src/Comfoconnect/Receive/Assertions.antt =====
-- The type assertion of `DecodePDO` on messages that `get_message_from_socket` returns.
use comfoconnectbridge.Prelude.{
  ◌≡◌, refl, sym, ap, ◌∙◌, arith, Bool, true, false, Option, none, some, if◌then◌else◌,
}
use Prim.Native.String.{◌++◌ as append}
use mathlib.Core.Option
use comfoconnectbridge.Go.Errors.{value}
use comfoconnectbridge.Go.Conn.{Conn, returned}
use comfoconnectbridge.Proto.Enums.{named, OperationType, type_text, is_name}
use comfoconnectbridge.Proto.Payload.{Payload, struct_name}
use comfoconnectbridge.Proto.Codec.{Codec, KeepsStruct}
use comfoconnectbridge.Comfoconnect.Types.Tables.{has_struct, struct_name-type_text}
use comfoconnectbridge.Comfoconnect.Message.{Message}
use comfoconnectbridge.Comfoconnect.Receive.{get_message_from_socket}
use comfoconnectbridge.Comfoconnect.Receive.Parsed.{get_message_from_socket_returned}
use comfoconnectbridge.Comfoconnect.Rpdo.{
  Converter, decode_pdo, decode_typed, decode_notification, decode_ppid,
}
use comfoconnectbridge.Comfoconnect.Rpdo.Values.{is_panic}

-- A notification of process data without its id.
abbrev pub lacks_id : Payload → Bool
lacks_id (Payload.cn_rpdo_notification r) = elim r.pdid [ none ↦ true | some id ↦ false ]
lacks_id _ = false

some_if : {A : Type 0} (b : Bool) (x y : A) → some x ≡ (if b then some y else none) → x ≡ y
some_if true x y h = cc
some_if false x y h = cc

decode_notification-lacks_id :
    (p : Payload)
    → is_panic {A = Option Converter} (
        if is_name (named (append (struct_name p) "Type")) "CnRpdoNotificationType"
        then decode_notification (some p)
        else value none)
      ≡ lacks_id p
unfolding struct_name is_name decode_notification decode_ppid
decode_notification-lacks_id (Payload.cn_rpdo_notification r) = ground arith
decode_notification-lacks_id _ = refl

decode_pdo-typed :
    (m : Message) (t : OperationType) (p : Payload)
    → m.operation.type ≡ some t
    → m.operation_type ≡ some p
    → named (append (struct_name p) "Type") ≡ type_text t
    → is_panic (decode_pdo m) ≡ lacks_id p
unfolding decode_pdo decode_typed
decode_pdo-typed m t p ht hp e = rw (ht, hp, sym e) (decode_notification-lacks_id p)

-- The operation type of a message and the struct of its payload, which belong together.
pub record IsTyped (m : Message) : Type 0 where
  pub type : OperationType
  pub payload : Payload
  pub type_set : m.operation.type ≡ some type
  pub payload_held : m.operation_type ≡ some payload
  pub same_name : named (append (struct_name payload) "Type") ≡ type_text type
  pub decode_panics : is_panic (decode_pdo m) ≡ lacks_id payload

module _ (codec : Codec) where
  -- Every message that GetMessageFromSocket returns has an operation type and a payload, and the payload
  -- is of the struct that is called like the type, so that DecodePDO panics on the message only if it is a
  -- notification of process data without an id; if the protobuf library leaves a struct that it fills the struct that it was.
  pub get_message_from_socket-IsTyped :
      (c : Conn) (m : Message) (c' : Conn)
      → KeepsStruct codec
      → get_message_from_socket codec c ≡ returned m c'
      → IsTyped m
  get_message_from_socket-IsTyped c m c' keeps h =
      let r = (get_message_from_socket_returned codec c m c' h).parsed in
      let kept : named (append (struct_name r.payload) "Type") ≡ type_text r.type =
        rw (keeps.unmarshal_struct r.empty r.payload _ r.payload_read) (
          some_if (has_struct r.type) _ _ (
            sym (ap (Option.map (λ p. named (append (struct_name p) "Type"))) r.struct_found)
            ∙ struct_name-type_text r.type)) in
      record {
        type = r.type;
        payload = r.payload;
        type_set = r.type_set;
        payload_held = r.payload_kept;
        same_name = kept;
        decode_panics = decode_pdo-typed m r.type r.payload r.type_set r.payload_kept kept;
      }
