-- ===== src/Comfoconnect/Receive/RoundTrip.antt =====
-- Messages that are encoded and received, and messages that are received and encoded again.
use comfoconnectbridge.Prelude.{
  ℕ, ◌+◌, ◌≤◌, ◌≡◌, refl, ap, ◌∙◌, arith, some, List, ◌++◌, length, All, All-append_parts,
}
use comfoconnectbridge.Go.Errors.{value}
use comfoconnectbridge.Go.Binary.{
  IsByte, put_uint16, put_uint32, length-put_uint16, length-put_uint32, uint16-put_uint16,
  uint32-put_uint32, put_uint16-uint16, put_uint32-uint32, put_uint32-mod,
}
use comfoconnectbridge.Go.Conn.{Conn, returned}
use comfoconnectbridge.Proto.Enums.{OperationType, type_text}
use comfoconnectbridge.Proto.Payload.{Payload}
use comfoconnectbridge.Proto.Codec.{Codec}
use comfoconnectbridge.Comfoconnect.Types.{get_struct_for_type}
use comfoconnectbridge.Comfoconnect.Socket.Stream.{Item, all_bytes, items}
use comfoconnectbridge.Comfoconnect.Message.{Message, pack_message, encode}
use comfoconnectbridge.Comfoconnect.Receive.{
  Frame, complete_message, parse_frame, get_message_from_socket,
}
use comfoconnectbridge.Comfoconnect.Receive.Taken.{IsFramed}
use comfoconnectbridge.Comfoconnect.Receive.Delivered.{read_frame_delivers}
use comfoconnectbridge.Comfoconnect.Receive.Parsed.{Received}

module _ (codec : Codec) where
  -- A message with the payload `p` that fits a frame.
  pub record IsSendable (m : Message) (p : Payload) : Type 0 where
    pub payload_held : m.operation_type ≡ some p
    pub src_size : length m.src ≡ 16
    pub dst_size : length m.dst ≡ 16
    pub operation_some : 1 ≤ length (codec.marshal_operation m.operation)
    pub total_capped :
        length (codec.marshal p) + 34 + length (codec.marshal_operation m.operation) ≤ 1024

  -- The protobuf library reads back what it wrote of the message, whose type has the payload's struct.
  pub record ReadsBack (m : Message) (p : Payload) : Type 0 where
    pub type : OperationType
    pub empty : Payload
    pub type_set : m.operation.type ≡ some type
    pub struct_found : get_struct_for_type (type_text type) ≡ some empty
    pub operation_back :
        codec.unmarshal_operation (codec.marshal_operation m.operation) ≡ some m.operation
    pub payload_back : codec.unmarshal empty (codec.marshal p) ≡ some p

  frame_of : Message → Payload → Frame
  frame_of m p =
      let operation_bytes = codec.marshal_operation m.operation in
      record {
        length_bytes = put_uint32 (length (codec.marshal p) + 34 + length operation_bytes);
        src = m.src;
        dst = m.dst;
        operation_length_bytes = put_uint16 (length operation_bytes);
        operation_bytes = operation_bytes;
        operation_type_bytes = codec.marshal p;
      }

  frame_of-IsFramed : (m : Message) (p : Payload) → IsSendable m p → IsFramed (frame_of m p)
  unfolding frame_of
  frame_of-IsFramed m p s =
      let ol : ℕ = length (codec.marshal_operation m.operation) in
      let total : ℕ = length (codec.marshal p) + 34 + ol in
      let fits : total ≤ 1024 = s.total_capped in
      let some_operation : 1 ≤ ol = s.operation_some in
      record {
        total = total;
        operation_length = ol;
        length_field = uint32-put_uint32 total ∙ ap value (omega arith);
        total_capped = s.total_capped;
        operation_field = uint16-put_uint16 ol ∙ ap value (omega arith);
        operation_bounds = (s.operation_some, omega arith);
        length_size = length-put_uint32 total;
        src_size = s.src_size;
        dst_size = s.dst_size;
        operation_length_size = length-put_uint16 ol;
        operation_size = refl;
        type_size = omega arith;
      }

  -- A message that fits a frame and that the protobuf library reads back is received as it was sent,
  -- with the sent bytes as its RawMessage, however the network cuts the bytes into chunks, and what
  -- follows on the connection stays there.
  pub get_message_from_socket-pack_message :
      (c : Conn) (m : Message) (p : Payload) (r : List Item)
      → IsSendable m p
      → ReadsBack m p
      → items c.inbox ≡ all_bytes (pack_message codec m m.operation p) ++ r
      → (c' : Conn) × (get_message_from_socket codec c
          ≡ returned (record m { raw_message = pack_message codec m m.operation p }) c')
        × (items c'.inbox ≡ r)
  unfolding get_message_from_socket parse_frame pack_message frame_of
  get_message_from_socket-pack_message c m p r s b h =
      let (c', e, q) = read_frame_delivers c (frame_of m p) r (frame_of-IsFramed m p s) h in
      (
        c',
        rw (e, b.operation_back, b.type_set, b.struct_found, b.payload_back)
            (rw s.payload_held refl),
        q,
      )

  -- The two length fields of a frame are those that `packMessage` computes from its parts.
  length_field_back :
      (f : Frame) (framed : IsFramed f)
      → All IsByte f.length_bytes
      → put_uint32 (length f.operation_type_bytes + 34 + length f.operation_bytes) ≡ f.length_bytes
  length_field_back f framed h =
      let bound : framed.total ≤ 1024 = framed.total_capped in
      let (lo, hi) = framed.operation_bounds in
      put_uint32-mod (length f.operation_type_bytes + 34 + length f.operation_bytes)
      ∙ ap put_uint32 (omega (arith, framed.type_size, framed.operation_size))
      ∙ put_uint32-uint32 f.length_bytes framed.total framed.length_size h framed.length_field

  operation_field_back :
      (f : Frame) (framed : IsFramed f)
      → All IsByte f.operation_length_bytes
      → put_uint16 (length f.operation_bytes) ≡ f.operation_length_bytes
  operation_field_back f framed h =
      ap put_uint16 framed.operation_size
      ∙ put_uint16-uint16 f.operation_length_bytes framed.operation_length
          framed.operation_length_size h framed.operation_field

  -- A received message whose parts the protobuf library writes as it read them encodes to the very
  -- bytes that were received, if these are bytes.
  pub encode_received :
      (c : Conn) (m : Message) (c' : Conn) (received : Received codec c m c')
      → All IsByte m.raw_message
      → codec.marshal_operation m.operation ≡ received.frame.operation_bytes
      → codec.marshal received.parsed.payload ≡ received.frame.operation_type_bytes
      → encode codec m ≡ value m.raw_message
  unfolding encode pack_message
  encode_received c m c' received bytes e1 e2 =
      let f = received.frame in
      let parts : All IsByte (complete_message f) = rw received.parsed.raw_whole at bytes in
      let (len, rest) = All-append_parts IsByte f.length_bytes _ parts in
      let (_, rest2) = All-append_parts IsByte f.src _ rest in
      let (_, rest3) = All-append_parts IsByte f.dst _ rest2 in
      let (olen, _) = All-append_parts IsByte f.operation_length_bytes _ rest3 in
      rw received.parsed.payload_kept (
        ap value (
          rw
            (
              e1,
              e2,
              received.parsed.src_same,
              received.parsed.dst_same,
              received.parsed.raw_whole,
              length_field_back f received.framed len,
              operation_field_back f received.framed olen,
            )
            refl))
