-- ===== src/Go/Binary.antt =====
-- encoding/binary: big-endian unsigned numbers. A slice that is too short is an index panic.
use comfoconnectbridge.Prelude.{
  Option, none, some, ℕ, ◌+◌, ◌*◌, ◌/◌, ◌%◌, ◌^◌, ◌<◌, ◌≡◌, refl, List, [], ◌∷◌, arith, length, All,
}
use comfoconnectbridge.Go.Errors.{Go, value, panic}

abbrev pub Bytes : Type 0
Bytes = List ℕ

abbrev pub IsByte : ℕ → Type 0
IsByte b = b < 256

-- `binary.BigEndian.Uint16` and `Uint32` read the first bytes and ignore the rest.
unfoldable pub uint16 : Bytes → Go ℕ
uint16 (a ∷ b ∷ _) = value (a * 256 + b)
uint16 _ = panic

unfoldable pub uint32 : Bytes → Go ℕ
uint32 (a ∷ b ∷ c ∷ d ∷ _) = value (((a * 256 + b) * 256 + c) * 256 + d)
uint32 _ = panic

-- `PutUint16` of `uint16(n)` and `PutUint32` of `uint32(n)`, into a fresh buffer.
unfoldable pub put_uint16 : ℕ → Bytes
put_uint16 n = (n / 256 % 256) ∷ (n % 256) ∷ []

unfoldable pub put_uint32 : ℕ → Bytes
put_uint32 n = (n / 16777216 % 256) ∷ (n / 65536 % 256) ∷ (n / 256 % 256) ∷ (n % 256) ∷ []

pub length-put_uint16 : (n : ℕ) → length (put_uint16 n) ≡ 2
unfolding put_uint16
length-put_uint16 n = refl

pub length-put_uint32 : (n : ℕ) → length (put_uint32 n) ≡ 4
unfolding put_uint32
length-put_uint32 n = refl

pub uint16-put_uint16 : (n : ℕ) → uint16 (put_uint16 n) ≡ value (n % 65536)
unfolding uint16 put_uint16
uint16-put_uint16 n = ground arith

pub uint32-put_uint32 : (n : ℕ) → uint32 (put_uint32 n) ≡ value (n % 2 ^ 32)
unfolding uint32 put_uint32
uint32-put_uint32 n = ground arith

pub put_uint32-mod : (n : ℕ) → put_uint32 n ≡ put_uint32 (n % 2 ^ 32)
unfolding put_uint32
put_uint32-mod n = ground arith

-- Numbers read from bytes are written back as those bytes.
pub put_uint16-uint16 :
    (bs : Bytes) (n : ℕ) → length bs ≡ 2 → All IsByte bs → uint16 bs ≡ value n → put_uint16 n ≡ bs
unfolding uint16 put_uint16
put_uint16-uint16 [] n e h v = absurd (omega arith)
put_uint16-uint16 (a ∷ []) n e h v = absurd (omega arith)
put_uint16-uint16 (a ∷ b ∷ []) n e h v = ground arith
put_uint16-uint16 (a ∷ b ∷ c ∷ r) n e h v = absurd (omega arith)

pub put_uint32-uint32 :
    (bs : Bytes) (n : ℕ) → length bs ≡ 4 → All IsByte bs → uint32 bs ≡ value n → put_uint32 n ≡ bs
unfolding uint32 put_uint32
put_uint32-uint32 [] n e h v = absurd (omega arith)
put_uint32-uint32 (a ∷ []) n e h v = absurd (omega arith)
put_uint32-uint32 (a ∷ b ∷ []) n e h v = absurd (omega arith)
put_uint32-uint32 (a ∷ b ∷ c ∷ []) n e h v = absurd (omega arith)
put_uint32-uint32 (a ∷ b ∷ c ∷ d ∷ []) n e h v = ground arith
put_uint32-uint32 (a ∷ b ∷ c ∷ d ∷ x ∷ r) n e h v = absurd (omega arith)

-- A nil slice is written as an empty one.
abbrev pub or_empty : Option Bytes → Bytes
or_empty none = []
or_empty (some b) = b
