-- ===== src/Comfoconnect/Receive/Errors.antt =====
-- The ways in which `get_message_from_socket` does not return a message.
use comfoconnectbridge.Prelude.{
  ℕ, ◌+◌, ◌^◌, ◌<◌, ◌≤◌, ◌≡◌, refl, ap, ◌∙◌, arith, Bool, true, not, Option, none, some, List, [],
  ◌∷◌, ◌++◌, length, length-append, lt→ltb, ◌⊎◌, inl, inr, Option-cases, Bool-cases,
}
use native.Mathlib.Decide.{dec_lt}
use comfoconnectbridge.Go.Errors.{GoError, value, cause, is_timeout, new_error}
use comfoconnectbridge.Go.Binary.{Bytes, uint32}
use comfoconnectbridge.Go.Conn.{Conn, failed, panicked}
use comfoconnectbridge.Proto.Enums.{OperationType, type_text}
use comfoconnectbridge.Proto.Messages.{GatewayOperation}
use comfoconnectbridge.Proto.Codec.{Codec}
use comfoconnectbridge.Comfoconnect.Types.{get_struct_for_type}
use comfoconnectbridge.Comfoconnect.Types.Tables.{has_struct, struct-iff-named}
use comfoconnectbridge.Comfoconnect.Socket.Stream.{Item, broken, all_bytes, items}
use comfoconnectbridge.Comfoconnect.Socket.Reads.{read_bytes_delivers, read_bytes_broken}
use comfoconnectbridge.Comfoconnect.Message.{Message, empty_message}
use comfoconnectbridge.Comfoconnect.Receive.{
  length_failure, Failure, Frame, complete_message, type_length, typed, read_length, read_frame,
  parse_frame, get_message_from_socket,
}
use comfoconnectbridge.Comfoconnect.Receive.Taken.{IsFramed}
use comfoconnectbridge.Comfoconnect.Receive.Delivered.{read_frame_delivers}
use comfoconnectbridge.Comfoconnect.Receive.Parsed.{Received}

-- An operation whose type is not set, or is no named type, or is NoOperation.
abbrev pub is_dangerous : Option OperationType → Bool
is_dangerous none = true
is_dangerous (some t) = not (has_struct t)

pub cause-length_failure : (x : GoError) → cause (length_failure x).error ≡ cause x
unfolding cause
cause-length_failure x = elim (Bool-cases (is_timeout (cause x))) [
  | inl e ↦ rw e refl
  | inr e ↦ rw e refl
]

length-complete_message :
    (f : Frame)
    → length (complete_message f)
      ≡ length f.length_bytes
        + length f.src
        + length f.dst
        + length f.operation_length_bytes
        + length f.operation_bytes
        + length f.operation_type_bytes
length-complete_message f = simp length-append (omega arith)

module _ (codec : Codec) where
  typed_panics :
      (f : Frame) (o : GatewayOperation) (t : Option OperationType) (c : Conn)
      → is_dangerous t ≡ true
      → typed codec f o t c ≡ panicked c
  typed_panics f o none c h = refl
  typed_panics f o (some t) c h = elim (Option-cases (get_struct_for_type (type_text t))) [
    | inl e ↦ rw e refl
    | inr (p, e) ↦ absurd (ground (arith, h, e, struct-iff-named t))
  ]

  -- A complete frame with an operation that the protobuf library reads, but whose type is missing, is
  -- no named operation type or is NoOperation, makes GetMessageFromSocket panic.
  pub get_message_from_socket_panics :
      (c : Conn) (f : Frame) (o : GatewayOperation) (r : List Item)
      → IsFramed f
      → items c.inbox ≡ all_bytes (complete_message f) ++ r
      → codec.unmarshal_operation f.operation_bytes ≡ some o
      → is_dangerous o.type ≡ true
      → (c' : Conn) × (get_message_from_socket codec c ≡ panicked c') × (items c'.inbox ≡ r)
  unfolding get_message_from_socket parse_frame
  get_message_from_socket_panics c f o r framed h e d =
      let (c', p, q) = read_frame_delivers c f r framed h in
      (c', rw (p, e) (typed_panics f o o.type c' d), q)

  -- A length field above 1024 is refused, and only the four bytes of the field are taken: what follows
  -- on the connection is the rest of the same message.
  pub get_message_from_socket_too_long :
      (c : Conn) (bs : Bytes) (n : ℕ) (r : List Item)
      → length bs ≡ 4
      → uint32 bs ≡ value n
      → 1024 < n
      → items c.inbox ≡ all_bytes bs ++ r
      → (c' : Conn) × (get_message_from_socket codec c
          ≡ failed
              (record {
                message = empty_message;
                error = new_error "got invalid length: %d" (n ∷ []);
              })
              c')
        × (items c'.inbox ≡ r)
  unfolding get_message_from_socket read_frame read_length
  get_message_from_socket_too_long c bs n r e v big h =
      let (c', p, q) = read_bytes_delivers 4 c bs r (omega arith) e h in
      (c', ground (arith, p, v, lt→ltb 1024 n big), q)

  -- A failure of the connection, such as a read deadline that passes, in the middle of the length field
  -- is returned, and the bytes of the field that had come are lost: the next call starts behind them.
  pub get_message_from_socket_interrupted :
      (c : Conn) (bs : Bytes) (e : GoError) (r : List Item)
      → length bs < 4
      → items c.inbox ≡ all_bytes bs ++ (broken e ∷ r)
      → (x : Failure) × (c' : Conn) × (get_message_from_socket codec c ≡ failed x c')
        × (cause x.error ≡ cause e)
        × (items c'.inbox ≡ r)
  unfolding get_message_from_socket read_frame read_length
  get_message_from_socket_interrupted c bs e r h q =
      let (x, c', p, same, left) = read_bytes_broken 4 c bs e r h q in
      (length_failure x, c', ground (arith, p), cause-length_failure x ∙ same, left)

  -- How many bytes a returned message took. The difference of the two length fields is taken on uint32,
  -- so a length field that is too small for its operation stands for a message of over four gigabytes.
  pub raw_message-length :
      (c : Conn) (m : Message) (c' : Conn) (received : Received codec c m c')
      → let total = received.framed.total in
        (length m.raw_message ≡ total + 4) × (34 + received.framed.operation_length ≤ total)
        ⊎ (length m.raw_message ≡ 2 ^ 32 + total + 4)
          × (total < 34 + received.framed.operation_length)
  raw_message-length c m c' received =
      let f = received.frame in
      let d = received.framed in
      let cap : d.total ≤ 1024 = d.total_capped in
      let size : length m.raw_message
          ≡ 38 + d.operation_length + type_length d.total d.operation_length =
        ap length received.parsed.raw_whole ∙ omega (arith, length-complete_message f, d) in
      elim (dec_lt d.total (34 + d.operation_length)) [
        | yes small ↦ inr (omega (arith, d.operation_bounds), small)
        | no enough ↦ inl (omega (arith, d.operation_bounds), omega arith)
      ]
