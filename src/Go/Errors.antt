-- ===== src/Go/Errors.antt =====
-- Go errors as values, and what the program asks of them through github.com/pkg/errors and net:
-- `errors.Wrap` is the constructor `wrapped`, `errors.Cause` takes every wrapping off, and a
-- `*net.OpError` tells whether it is a timeout.
use comfoconnectbridge.Prelude.{◌≡◌, refl, ℕ, String, Bool, true, false, List}

pub data GoError : Type 0 where
  io_eof : GoError
  op_error : Bool → GoError
  other_error : String → GoError
  -- `errors.New` of a formatted text: the format and its arguments.
  new_error : String → List ℕ → GoError
  wrapped : String → GoError → GoError

unfoldable pub cause : GoError → GoError
cause (wrapped s e) = cause e
cause io_eof = io_eof
cause (op_error t) = op_error t
cause (other_error s) = other_error s
cause (new_error s a) = new_error s a

-- `opErr, ok := err.(*net.OpError); ok && opErr.Timeout()`.
unfoldable pub is_timeout : GoError → Bool
is_timeout (op_error t) = t
is_timeout _ = false

-- `err == io.EOF`.
unfoldable pub is_eof : GoError → Bool
is_eof io_eof = true
is_eof _ = false

-- A Go call that may panic: a nil pointer, an index out of range, a type assertion that fails.
pub data Go {ℓ} (A : Type ℓ) : Type ℓ where
  value : A → Go A
  panic : Go A

abbrev pub and_then : {A B : Type 0} → Go A → (A → Go B) → Go B
and_then (value a) f = f a
and_then panic f = panic

pub and_then-value :
    {A B : Type 0} (g : Go A) (f : A → Go B) (b : B)
    → and_then g f ≡ value b
    → (a : A) × (g ≡ value a) × (f a ≡ value b)
and_then-value (value a) f b h = (a, refl, h)
and_then-value panic f b h = cc
