-- ===== src/Comfoconnect/Receive/Keeps.antt =====
-- Relations between the connection before and after a call that hold of `get_message_from_socket`
-- because they hold of `read_bytes`: no other call of it touches the connection.
use comfoconnectbridge.Prelude.{
  ℕ, String, Bool, true, false, Option, none, some, ltb, ◌||◌, Bool-cases, inl, inr, List,
}
use comfoconnectbridge.Go.Errors.{Go, value, panic}
use comfoconnectbridge.Go.Binary.{uint16, uint32}
use comfoconnectbridge.Go.Conn.{
  Conn, Outcome, returned, failed, panicked, waiting, M, continue, ◌>>=◌, lift, map_error,
}
use comfoconnectbridge.Proto.Enums.{OperationType, type_text}
use comfoconnectbridge.Proto.Messages.{GatewayOperation}
use comfoconnectbridge.Proto.Payload.{Payload}
use comfoconnectbridge.Proto.Codec.{Codec}
use comfoconnectbridge.Comfoconnect.Types.{get_struct_for_type}
use comfoconnectbridge.Comfoconnect.Socket.{read_bytes}
use comfoconnectbridge.Comfoconnect.Receive.{
  Failure, length_failure, no_message, read_part, reject_if, check_length, read_rest, type_length,
  read_operation_type, Frame, read_length, read_operation, read_frame, payload_of, unmarshal_into,
  typed, operation_of, parse_frame, get_message_from_socket,
}

-- What a call leaves of the connection.
abbrev pub left : {E A : Type 0} → Outcome E A → Conn
left (returned a c) = c
left (failed e c) = c
left (panicked c) = c
left (waiting c) = c

pub record Relation : Type 1 where
  pub Related : Conn → Conn → Type 0
  pub unchanged : (c : Conn) → Related c c
  pub chained : (c1 c2 c3 : Conn) → Related c1 c2 → Related c2 c3 → Related c1 c3
  pub read : (n : ℕ) (c : Conn) → Related c (left (read_bytes n c))

module _ (R : Relation) where
  open R use {Related, unchanged, chained, read}

  pub record Keeps {E A : Type 0} (m : M E A) : Type 0 where
    pub keeps : (c : Conn) → Related c (left (m c))

  continue_related :
      {E A B : Type 0} (o : Outcome E A) (f : A → M E B) (c : Conn)
      → Related c (left o)
      → ((a : A) → Keeps (f a))
      → Related c (left (continue o f))
  continue_related (returned a c1) f c h k = chained c c1 _ h ((k a).keeps c1)
  continue_related (failed e c1) f c h k = h
  continue_related (panicked c1) f c h k = h
  continue_related (waiting c1) f c h k = h

  pub bind-Keeps :
      {E A B : Type 0} (m : M E A) (f : A → M E B)
      → Keeps m
      → ((a : A) → Keeps (f a))
      → Keeps (m >>= f)
  bind-Keeps m f h k = record { keeps = λ c. continue_related (m c) f c (h.keeps c) k }

  lift-Keeps : {A : Type 0} (E : Type 0) (g : Go A) → Keeps (lift {E = E} g)
  lift-Keeps E (value a) = record { keeps = λ c. unchanged c }
  lift-Keeps E panic = record { keeps = λ c. unchanged c }

  map_error_related :
      {E F A : Type 0} (f : E → F) (o : Outcome E A) (c : Conn)
      → Related c (left o)
      → Related c (left (map_error f (λ c'. o) c))
  map_error_related f (returned a c1) c h = h
  map_error_related f (failed e c1) c h = h
  map_error_related f (panicked c1) c h = h
  map_error_related f (waiting c1) c h = h

  map_error-Keeps : {E F A : Type 0} (f : E → F) (m : M E A) → Keeps m → Keeps (map_error f m)
  map_error-Keeps f m h = record { keeps = λ c. map_error_related f (m c) c (h.keeps c) }

  read_bytes-Keeps : (n : ℕ) → Keeps (read_bytes n)
  read_bytes-Keeps n = record { keeps = read n }

  read_part-Keeps : (text : String) (n : ℕ) → Keeps (read_part text n)
  unfolding read_part
  read_part-Keeps text n = map_error-Keeps (no_message text) (read_bytes n) (read_bytes-Keeps n)

  reject_if-Keeps : (b : Bool) (text : String) (n : ℕ) → Keeps (reject_if b text n)
  reject_if-Keeps true text n = record { keeps = λ c. unchanged c }
  reject_if-Keeps false text n = record { keeps = λ c. unchanged c }

  -- What `read_length` does with its four bytes.
  pub check_length-Keeps : (b : List ℕ) → Keeps (check_length b)
  check_length-Keeps b = bind-Keeps _ _ (lift-Keeps Failure (uint32 b)) λ n.
      bind-Keeps _ _ (reject_if-Keeps (ltb 1024 n) "got invalid length: %d" n)
        λ u. record { keeps = λ c. unchanged c }

  pub read_length-Keeps : Keeps read_length
  unfolding read_length
  read_length-Keeps =
      bind-Keeps _ _ (map_error-Keeps length_failure (read_bytes 4) (read_bytes-Keeps 4))
        check_length-Keeps

  read_operation-Keeps : Keeps read_operation
  unfolding read_operation
  read_operation-Keeps = bind-Keeps _ _ (read_part-Keeps _ 2) λ b.
      bind-Keeps _ _ (lift-Keeps Failure (uint16 b)) λ n.
        bind-Keeps _ _ (reject_if-Keeps (ltb n 1 || ltb 1024 n) _ n)
          λ u. bind-Keeps _ _ (read_part-Keeps _ n) λ o. record { keeps = λ c. unchanged c }

  read_operation_type-Keeps : (n : ℕ) → Keeps (read_operation_type n)
  unfolding read_operation_type
  read_operation_type-Keeps n = elim (Bool-cases (ltb 0 n)) [
    | inl e ↦ rw e (read_part-Keeps "reading operation type" n)
    | inr e ↦ rw e (record { keeps = λ c. unchanged c })
  ]

  -- `read_frame` behind the length field.
  pub read_rest-Keeps : (x : List ℕ × ℕ) → Keeps (read_rest x)
  read_rest-Keeps x = bind-Keeps _ _ (read_part-Keeps "reading Src" 16) λ src.
      bind-Keeps _ _ (read_part-Keeps "reading Dst" 16) λ dst.
        bind-Keeps _ _ read_operation-Keeps λ y.
          bind-Keeps _ _ (read_operation_type-Keeps (type_length x.1 y.1))
            λ z. record { keeps = λ c. unchanged c }

  pub read_frame-Keeps : Keeps read_frame
  unfolding read_frame
  read_frame-Keeps = bind-Keeps _ _ read_length-Keeps read_rest-Keeps

  module _ (codec : Codec) where
    payload_of-Keeps :
        (f : Frame) (o : GatewayOperation) (p : Option Payload) → Keeps (payload_of codec f o p)
    payload_of-Keeps f o none = record { keeps = λ c. unchanged c }
    payload_of-Keeps f o (some p) = record { keeps = λ c. unchanged c }

    unmarshal_into-Keeps :
        (f : Frame) (o : GatewayOperation) (p : Option Payload) → Keeps (unmarshal_into codec f o p)
    unmarshal_into-Keeps f o none = record { keeps = λ c. unchanged c }
    unmarshal_into-Keeps f o (some p) =
        payload_of-Keeps f o (codec.unmarshal p f.operation_type_bytes)

    typed-Keeps :
        (f : Frame) (o : GatewayOperation) (t : Option OperationType) → Keeps (typed codec f o t)
    typed-Keeps f o none = record { keeps = λ c. unchanged c }
    typed-Keeps f o (some t) = unmarshal_into-Keeps f o (get_struct_for_type (type_text t))

    operation_of-Keeps : (f : Frame) (o : Option GatewayOperation) → Keeps (operation_of codec f o)
    operation_of-Keeps f none = record { keeps = λ c. unchanged c }
    operation_of-Keeps f (some o) = typed-Keeps f o o.type

    pub parse_frame-Keeps : (f : Frame) → Keeps (parse_frame codec f)
    unfolding parse_frame
    parse_frame-Keeps f = operation_of-Keeps f (codec.unmarshal_operation f.operation_bytes)

    pub get_message_from_socket-Keeps : Keeps (get_message_from_socket codec)
    unfolding get_message_from_socket
    get_message_from_socket-Keeps = bind-Keeps _ _ read_frame-Keeps parse_frame-Keeps
