-- ===== src/Comfoconnect/Receive/Untyped.antt =====
-- The message that `get_message_from_socket` returns beside an error.
use comfoconnectbridge.Prelude.{
  ℕ, String, ◌≡◌, refl, Bool, true, false, Option, none, some, [], ltb, ◌||◌, Bool-cases, inl, inr,
}
use mathlib.Core.Path.{subst}
use comfoconnectbridge.Go.Errors.{GoError, Go, value, panic, is_timeout, cause}
use comfoconnectbridge.Go.Binary.{Bytes, uint16, uint32}
use comfoconnectbridge.Go.Conn.{
  Conn, Outcome, returned, failed, panicked, waiting, M, continue, ◌>>=◌, lift, map_error, pure,
}
use comfoconnectbridge.Proto.Enums.{OperationType, type_text}
use comfoconnectbridge.Proto.Messages.{GatewayOperation}
use comfoconnectbridge.Proto.Payload.{Payload}
use comfoconnectbridge.Proto.Codec.{Codec}
use comfoconnectbridge.Comfoconnect.Types.{get_struct_for_type}
use comfoconnectbridge.Comfoconnect.Socket.{read_bytes}
use comfoconnectbridge.Comfoconnect.Receive.{
  Failure, length_failure, no_message, read_part, reject_if, check_length, read_rest, type_length,
  read_operation_type, Frame, read_length, read_operation, read_frame, payload_of, unmarshal_into,
  typed, operation_of, parse_frame, get_message_from_socket,
}

abbrev Fails : {A : Type 0} → Outcome Failure A → Type 0
Fails (failed f c) = f.message.operation.type ≡ none
Fails _ = Unit

record IsUntyped {A : Type 0} (m : M Failure A) : Type 0 where
  fails : (c : Conn) → Fails (m c)

continue-Fails :
    {A B : Type 0} (o : Outcome Failure A) (f : A → M Failure B)
    → Fails o
    → ((a : A) → IsUntyped (f a))
    → Fails (continue o f)
continue-Fails (returned a c) f h k = (k a).fails c
continue-Fails (failed e c) f h k = h
continue-Fails (panicked c) f h k = tt
continue-Fails (waiting c) f h k = tt

bind-IsUntyped :
    {A B : Type 0} (m : M Failure A) (f : A → M Failure B)
    → IsUntyped m
    → ((a : A) → IsUntyped (f a))
    → IsUntyped (m >>= f)
bind-IsUntyped m f h k = record { fails = λ c. continue-Fails (m c) f (h.fails c) k }

lift-IsUntyped : {A : Type 0} (g : Go A) → IsUntyped (lift g)
lift-IsUntyped (value a) = record { fails = λ c. tt }
lift-IsUntyped panic = record { fails = λ c. tt }

pure-IsUntyped : {A : Type 0} (a : A) → IsUntyped (pure a)
pure-IsUntyped a = record { fails = λ c. tt }

map_error-Fails :
    {A : Type 0} (f : GoError → Failure) (o : Outcome GoError A) (c : Conn)
    → ((e : GoError) → (f e).message.operation.type ≡ none)
    → Fails (map_error f (λ c'. o) c)
map_error-Fails f (returned a c1) c h = tt
map_error-Fails f (failed e c1) c h = h e
map_error-Fails f (panicked c1) c h = tt
map_error-Fails f (waiting c1) c h = tt

map_error-IsUntyped :
    {A : Type 0} (f : GoError → Failure) (m : M GoError A)
    → ((e : GoError) → (f e).message.operation.type ≡ none)
    → IsUntyped (map_error f m)
map_error-IsUntyped f m h = record { fails = λ c. map_error-Fails f (m c) c h }

length_failure_untyped : (e : GoError) → (length_failure e).message.operation.type ≡ none
length_failure_untyped e = elim (Bool-cases (is_timeout (cause e))) [
  | inl h ↦ rw h refl
  | inr h ↦ rw h refl
]

read_part-IsUntyped : (text : String) (n : ℕ) → IsUntyped (read_part text n)
unfolding read_part
read_part-IsUntyped text n = map_error-IsUntyped (no_message text) (read_bytes n) (λ e. refl)

reject_if-IsUntyped : (b : Bool) (text : String) (n : ℕ) → IsUntyped (reject_if b text n)
reject_if-IsUntyped true text n = record { fails = λ c. refl }
reject_if-IsUntyped false text n = record { fails = λ c. tt }

check_length-IsUntyped : (b : Bytes) → IsUntyped (check_length b)
check_length-IsUntyped b = bind-IsUntyped _ _ (lift-IsUntyped (uint32 b)) λ n.
    bind-IsUntyped _ _ (reject_if-IsUntyped (ltb 1024 n) "got invalid length: %d" n)
      λ u. pure-IsUntyped (b, n)

read_operation-IsUntyped : IsUntyped read_operation
unfolding read_operation
read_operation-IsUntyped = bind-IsUntyped _ _ (read_part-IsUntyped _ 2) λ b.
    bind-IsUntyped _ _ (lift-IsUntyped (uint16 b)) λ n.
      bind-IsUntyped _ _ (reject_if-IsUntyped (ltb n 1 || ltb 1024 n) _ n)
        λ u. bind-IsUntyped _ _ (read_part-IsUntyped _ n) λ o. pure-IsUntyped (b, n, o)

read_operation_type-IsUntyped : (n : ℕ) → IsUntyped (read_operation_type n)
unfolding read_operation_type
read_operation_type-IsUntyped n = elim (Bool-cases (ltb 0 n)) [
  | inl e ↦ rw e (read_part-IsUntyped "reading operation type" n)
  | inr e ↦ rw e (pure-IsUntyped [])
]

read_rest-IsUntyped : (x : Bytes × ℕ) → IsUntyped (read_rest x)
read_rest-IsUntyped x = bind-IsUntyped _ _ (read_part-IsUntyped "reading Src" 16) λ src.
    bind-IsUntyped _ _ (read_part-IsUntyped "reading Dst" 16) λ dst.
      bind-IsUntyped _ _ read_operation-IsUntyped λ y.
        bind-IsUntyped _ _ (read_operation_type-IsUntyped (type_length x.1 y.1))
          λ z. record { fails = λ c. tt }

read_frame-IsUntyped : IsUntyped read_frame
unfolding read_frame read_length
read_frame-IsUntyped =
    bind-IsUntyped _ _
      (bind-IsUntyped _ _ (map_error-IsUntyped length_failure (read_bytes 4) length_failure_untyped)
        check_length-IsUntyped)
      read_rest-IsUntyped

module _ (codec : Codec) where
  payload_of-IsUntyped :
      (f : Frame) (o : GatewayOperation) (p : Option Payload) → IsUntyped (payload_of codec f o p)
  payload_of-IsUntyped f o none = record { fails = λ c. refl }
  payload_of-IsUntyped f o (some p) = record { fails = λ c. tt }

  unmarshal_into-IsUntyped :
      (f : Frame) (o : GatewayOperation) (p : Option Payload)
      → IsUntyped (unmarshal_into codec f o p)
  unmarshal_into-IsUntyped f o none = record { fails = λ c. tt }
  unmarshal_into-IsUntyped f o (some p) =
      payload_of-IsUntyped f o (codec.unmarshal p f.operation_type_bytes)

  typed-IsUntyped :
      (f : Frame) (o : GatewayOperation) (t : Option OperationType) → IsUntyped (typed codec f o t)
  typed-IsUntyped f o none = record { fails = λ c. tt }
  typed-IsUntyped f o (some t) = unmarshal_into-IsUntyped f o (get_struct_for_type (type_text t))

  operation_of-IsUntyped :
      (f : Frame) (o : Option GatewayOperation) → IsUntyped (operation_of codec f o)
  operation_of-IsUntyped f none = record { fails = λ c. refl }
  operation_of-IsUntyped f (some o) = typed-IsUntyped f o o.type

  -- A call that fails returns a message without an operation type.
  pub get_message_from_socket_untyped :
      (c : Conn) (f : Failure) (c' : Conn)
      → get_message_from_socket codec c ≡ failed f c'
      → f.message.operation.type ≡ none
  unfolding get_message_from_socket parse_frame
  get_message_from_socket_untyped c f c' h = subst Fails h (
      (bind-IsUntyped read_frame _ read_frame-IsUntyped
          λ f. operation_of-IsUntyped f (codec.unmarshal_operation f.operation_bytes)).fails
        c)
