-- ===== src/Comfoconnect/Receive/Parsed.antt =====
-- What a message that `get_message_from_socket` returns has to do with the bytes.
use comfoconnectbridge.Prelude.{◌≡◌, refl, sym, ap, ◌∙◌, Option, none, some, ◌++◌}
use comfoconnectbridge.Go.Conn.{Conn, returned}
use comfoconnectbridge.Go.Conn.Bind.{continue_returned}
use comfoconnectbridge.Proto.Enums.{OperationType, type_text}
use comfoconnectbridge.Proto.Messages.{GatewayOperation}
use comfoconnectbridge.Proto.Payload.{Payload}
use comfoconnectbridge.Proto.Codec.{Codec}
use comfoconnectbridge.Comfoconnect.Types.{get_struct_for_type}
use comfoconnectbridge.Comfoconnect.Socket.Stream.{all_bytes, items}
use comfoconnectbridge.Comfoconnect.Message.{Message}
use comfoconnectbridge.Comfoconnect.Receive.{
  Frame, complete_message, read_frame, operation_of, typed, unmarshal_into, payload_of, parse_frame,
  get_message_from_socket,
}
use comfoconnectbridge.Comfoconnect.Receive.Taken.{IsFramed, read_frame_returned}

module _ (codec : Codec) where
  -- The message `m` is what the protobuf library reads out of the frame `f`.
  pub record IsParsed (f : Frame) (m : Message) : Type 0 where
    pub type : OperationType
    pub empty : Payload
    pub payload : Payload
    pub raw_whole : m.raw_message ≡ complete_message f
    pub src_same : m.src ≡ f.src
    pub dst_same : m.dst ≡ f.dst
    pub operation_read : codec.unmarshal_operation f.operation_bytes ≡ some m.operation
    pub type_set : m.operation.type ≡ some type
    pub struct_found : get_struct_for_type (type_text type) ≡ some empty
    pub payload_read : codec.unmarshal empty f.operation_type_bytes ≡ some payload
    pub payload_kept : m.operation_type ≡ some payload

  payload_of_returned :
      (f : Frame) (o : GatewayOperation) (q : Option Payload) (c : Conn) (m : Message) (c' : Conn)
      → payload_of codec f o q c ≡ returned m c'
      → (p : Payload) × (q ≡ some p)
        × (m ≡ record {
          src = f.src;
          dst = f.dst;
          operation = o;
          raw_message = complete_message f;
          operation_type = some p;
        })
        × (c ≡ c')
  payload_of_returned f o none c m c' h = cc
  payload_of_returned f o (some p) c m c' h = (p, refl, cc, cc)

  unmarshal_into_returned :
      (f : Frame) (o : GatewayOperation) (z : Option Payload) (c : Conn) (m : Message) (c' : Conn)
      → unmarshal_into codec f o z c ≡ returned m c'
      → (e : Payload) × (z ≡ some e)
        × (payload_of codec f o (codec.unmarshal e f.operation_type_bytes) c ≡ returned m c')
  unmarshal_into_returned f o none c m c' h = cc
  unmarshal_into_returned f o (some e) c m c' h = (e, refl, h)

  typed_returned :
      (f : Frame) (o : GatewayOperation) (y : Option OperationType) (c : Conn) (m : Message)
      (c' : Conn)
      → typed codec f o y c ≡ returned m c'
      → (t : OperationType) × (y ≡ some t)
        × (unmarshal_into codec f o (get_struct_for_type (type_text t)) c ≡ returned m c')
  typed_returned f o none c m c' h = cc
  typed_returned f o (some t) c m c' h = (t, refl, h)

  operation_of_returned :
      (f : Frame) (x : Option GatewayOperation) (c : Conn) (m : Message) (c' : Conn)
      → operation_of codec f x c ≡ returned m c'
      → (o : GatewayOperation) × (x ≡ some o) × (typed codec f o o.type c ≡ returned m c')
  operation_of_returned f none c m c' h = cc
  operation_of_returned f (some o) c m c' h = (o, refl, h)

  pub parse_frame_returned :
      (f : Frame) (c : Conn) (m : Message) (c' : Conn)
      → parse_frame codec f c ≡ returned m c'
      → IsParsed f m × (c ≡ c')
  unfolding parse_frame
  parse_frame_returned f c m c' h =
      let (o, e1, h1) = operation_of_returned f _ c m c' h in
      let (t, e2, h2) = typed_returned f o o.type c m c' h1 in
      let (z, e3, h3) = unmarshal_into_returned f o _ c m c' h2 in
      let (p, e4, e, same) = payload_of_returned f o _ c m c' h3 in
      (
        record {
          type = t;
          empty = z;
          payload = p;
          raw_whole = ap (λ (x : Message). x.raw_message) e;
          src_same = ap (λ (x : Message). x.src) e;
          dst_same = ap (λ (x : Message). x.dst) e;
          operation_read = e1 ∙ ap (λ (x : Message). some x.operation) (sym e);
          type_set = ap (λ (x : Message). x.operation.type) e ∙ e2;
          struct_found = e3;
          payload_read = e4;
          payload_kept = ap (λ (x : Message). x.operation_type) e;
        },
        same,
      )

  -- What the call that returned a message has taken, and from where the message comes.
  pub record Received (c : Conn) (m : Message) (c' : Conn) : Type 0 where
    pub frame : Frame
    pub framed : IsFramed frame
    pub parsed : IsParsed frame m
    pub taken : items c.inbox ≡ all_bytes m.raw_message ++ items c'.inbox

  -- Whatever is on the connection: if GetMessageFromSocket returns a message, then its RawMessage is
  -- exactly the bytes that were taken off the connection, these bytes are a frame whose parts have the
  -- sizes that its length fields say, with Src and Dst of 16 bytes, and the operation and the operation
  -- type are what the protobuf library reads out of the parts, into the struct of the operation's type.
  pub get_message_from_socket_returned :
      (c : Conn) (m : Message) (c' : Conn)
      → get_message_from_socket codec c ≡ returned m c'
      → Received c m c'
  unfolding get_message_from_socket
  get_message_from_socket_returned c m c' h = continue_returned (read_frame c) _ h λ f c1 e1 h1.
      let (taken, framed) = read_frame_returned c f c1 e1 in
      let (parsed, same) = parse_frame_returned f c1 m c' h1 in
      record {
        frame = f;
        framed = framed;
        parsed = parsed;
        taken = rw (parsed.raw_whole, ← same) taken;
      }
