-- ===== src/Comfoconnect/Message/Layout.antt =====
-- How the bytes of a packed message are laid out.
use comfoconnectbridge.Prelude.{
  ℕ, suc, zero, ◌+◌, ◌%◌, ◌^◌, ◌<◌, ◌≡◌, refl, sym, ap, ◌∙◌, arith, List, [], ◌∷◌, ◌++◌,
  append_assoc, length, length-append, take, drop,
}
use comfoconnectbridge.Go.Errors.{Go, value}
use comfoconnectbridge.Go.Binary.{Bytes, uint32, put_uint32, length-put_uint16, length-put_uint32}
use comfoconnectbridge.Proto.Enums.{OperationType}
use comfoconnectbridge.Proto.Messages.{GatewayOperation}
use comfoconnectbridge.Proto.Payload.{Payload}
use comfoconnectbridge.Proto.Codec.{Codec}
use comfoconnectbridge.Comfoconnect.Message.{Message, pack_message, create_custom_response}

-- The sixteen bytes after the length field, and the next sixteen: where a reader finds Src and Dst.
abbrev pub src_field : Bytes → Bytes
src_field b = take 16 (drop 4 b)

abbrev pub dst_field : Bytes → Bytes
dst_field b = take 16 (drop 20 b)

pub take-append {ℓ} : {A : Type ℓ} (n : ℕ) (xs ys : List A) → length xs ≡ n → take n (xs ++ ys) ≡ xs
take-append zero [] ys h = refl
take-append zero (x ∷ xs) ys h = absurd (omega arith)
take-append (suc n) [] ys h = absurd (omega arith)
take-append (suc n) (x ∷ xs) ys h = ap (λ t. x ∷ t) (take-append n xs ys (omega arith))

drop-append {ℓ} : {A : Type ℓ} (n : ℕ) (xs ys : List A) → length xs ≡ n → drop n (xs ++ ys) ≡ ys
drop-append zero [] ys h = refl
drop-append zero (x ∷ xs) ys h = absurd (omega arith)
drop-append (suc n) [] ys h = absurd (omega arith)
drop-append (suc n) (x ∷ xs) ys h = drop-append n xs ys (omega arith)

drop_two :
    (j n : ℕ) (xs ys zs : Bytes)
    → length xs ≡ j
    → j + length ys ≡ n
    → drop n (xs ++ (ys ++ zs)) ≡ zs
drop_two j n xs ys zs h k =
    ap (drop n) (sym (append_assoc xs ys zs))
    ∙ drop-append n (xs ++ ys) zs (omega (arith, length-append xs ys))

value-injective : {A : Type 0} {a b : A} → ◌≡◌ {A = Go A} (value a) (value b) → a ≡ b
value-injective h = cc

uint32-append : (n : ℕ) (ys : Bytes) → uint32 (put_uint32 n ++ ys) ≡ value (n % 2 ^ 32)
unfolding uint32 put_uint32
uint32-append n ys = ground arith

module _ (codec : Codec) where
  -- A packed message has its sender and its receiver where a reader looks for them, if both have 16 bytes.
  pub pack_message_addresses :
      (m : Message) (o : GatewayOperation) (p : Payload)
      → length m.src ≡ 16
      → length m.dst ≡ 16
      → (src_field (pack_message codec m o p) ≡ m.src)
        × (dst_field (pack_message codec m o p) ≡ m.dst)
  unfolding pack_message
  pack_message_addresses m o p hs hd =
      let n : ℕ = length (codec.marshal p) + 34 + length (codec.marshal_operation o) in
      (
        rw (drop-append 4 (put_uint32 n) _ (length-put_uint32 n)) (take-append 16 m.src _ hs),
        ap (take 16) (drop_two 4 20 (put_uint32 n) m.src _ (length-put_uint32 n) (omega arith))
            ∙ take-append 16 m.dst _ hd,
      )

  -- The length field of a packed message counts what follows it exactly if Src and Dst have 32 bytes
  -- together: it is computed as if they had.
  pub pack_message-length :
      (m : Message) (o : GatewayOperation) (p : Payload) (n : ℕ)
      → length (codec.marshal p) + 34 + length (codec.marshal_operation o) < 2 ^ 32
      → uint32 (pack_message codec m o p) ≡ value n
      → n + 4 + length m.src + length m.dst ≡ length (pack_message codec m o p) + 32
  unfolding pack_message
  pack_message-length m o p n small h =
      let body : ℕ = length (codec.marshal p) + 34 + length (codec.marshal_operation o) in
      let e : n ≡ body % 2 ^ 32 = value-injective (sym h ∙ uint32-append body _) in
      simp (length-append, length-put_uint32, length-put_uint16) (omega arith)

  -- CreateCustomResponse addresses its message as the request was: the sender of the request is named
  -- as the sender of the answer, and the receiver as the receiver.
  pub create_custom_response_addresses :
      (m : Message) (t : OperationType) (p : Payload)
      → length m.src ≡ 16
      → length m.dst ≡ 16
      → (src_field (create_custom_response codec m t p) ≡ m.src)
        × (dst_field (create_custom_response codec m t p) ≡ m.dst)
  unfolding create_custom_response
  create_custom_response_addresses m t p hs hd = pack_message_addresses m _ p hs hd
