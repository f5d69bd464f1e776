-- ===== src/Comfoconnect/Types/Tables.antt =====
-- The two switches against the numbers and the names of the protocol.
use comfoconnectbridge.Prelude.{
  ℕ, ◌+◌, ◌≡◌, refl, Bool, true, false, Option, none, some, if◌then◌else◌, ◌==◌, leb, ◌&&◌, ◌||◌,
}
use Prim.Native.String.{◌++◌ as append}
use mathlib.Core.Option
use comfoconnectbridge.Proto.Enums.{
  named, switch, OperationType, no_operation, unrecognized, type_text, to_int32, type_values,
}
use comfoconnectbridge.Proto.Payload.{struct_name}
use comfoconnectbridge.Comfoconnect.Types.{get_struct_for_type, get_response_type}

-- Whether a struct belongs to the type: every named type but NoOperation.
abbrev pub has_struct : OperationType → Bool
has_struct no_operation = false
has_struct (unrecognized n) = false
has_struct _ = true

abbrev pub is_found {ℓ} : {A : Type ℓ} → Option A → Bool
is_found none = false
is_found (some a) = true

-- `GetStructForType` finds a struct exactly for the named operation types other than NoOperation.
pub struct-iff-named :
    (t : OperationType) → is_found (get_struct_for_type (type_text t)) ≡ has_struct t
unfolding get_struct_for_type type_text
struct-iff-named no_operation = refl
struct-iff-named _ = refl

-- A message struct is called like its operation type, less the ending "Type".
pub struct_name-type_text :
    (t : OperationType)
    → Option.map (λ p. named (append (struct_name p) "Type")) (get_struct_for_type (type_text t))
      ≡ (if has_struct t then some (type_text t) else none)
unfolding get_struct_for_type type_text struct_name
struct_name-type_text no_operation = refl
struct_name-type_text _ = refl

abbrev is_named : OperationType → Bool
is_named (unrecognized n) = false
is_named _ = true

-- The table of values undoes the table of names, on every named type.
pub value-type_text :
    (t : OperationType)
    → switch (type_text t) type_values ≡ (if is_named t then some (to_int32 t) else none)
unfolding switch type_text to_int32 type_values
value-type_text no_operation = refl
value-type_text _ = refl

-- The protocol's numbering of answers: the gateway's requests 1 to 18 are confirmed by the number plus
-- 50, the ComfoNet requests by the next number, and nothing else has an answer.
abbrev pub answer_number : ℕ → ℕ
answer_number n =
    if leb 1 n && leb n 18
    then n + 50
    else if n == 30
        || n == 33
        || n == 35
        || n == 38
        || n == 70
        || n == 72
        || n == 74
        || n == 76
        || n == 78
        || n == 80
    then n + 1
    else 0

-- What the code does instead for DeregisterAppRequest (6) and SetSupportIdRequest (11).
abbrev pub coded_answer_number : ℕ → ℕ
coded_answer_number n = if n == 6 then 51 else if n == 11 then 0 else answer_number n

-- `getResponseTypeForOperationType` follows the numbering of the protocol, with two exceptions:
-- DeregisterAppRequest is answered as SetAddressRequest would be, and SetSupportIdRequest not at all.
pub response-numbers :
    (t : OperationType)
    → Option.map (λ p. to_int32 (get_response_type p)) (get_struct_for_type (type_text t))
      ≡ (if has_struct t then some (coded_answer_number (to_int32 t)) else none)
unfolding get_struct_for_type get_response_type type_text to_int32
response-numbers no_operation = refl
response-numbers _ = refl
