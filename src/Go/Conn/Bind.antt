-- ===== src/Go/Conn/Bind.antt =====
-- Inversion of calls that returned.
use comfoconnectbridge.Prelude.{◌≡◌, refl, arith}
use comfoconnectbridge.Go.Errors.{Go, value, panic}
use comfoconnectbridge.Go.Conn.{
  Conn, Outcome, returned, failed, panicked, waiting, M, continue, lift, map_error,
}

pub returned-injective :
    {E A : Type 0} {a b : A} {c c' : Conn}
    → ◌≡◌ {A = Outcome E A} (returned a c) (returned b c')
    → (a ≡ b) × (c ≡ c')
returned-injective h = (cc, cc)

-- A sequence that returned: its first call did, and the rest did from there.
pub continue_returned :
    {E A B : Type 0} {P : Type 0} (o : Outcome E A) (f : A → M E B) {b : B} {c' : Conn}
    → continue o f ≡ returned b c'
    → ((a : A) (c : Conn) → o ≡ returned a c → f a c ≡ returned b c' → P)
    → P
continue_returned (returned a c) f h k = k a c refl h
continue_returned (failed e c) f h k = cc
continue_returned (panicked c) f h k = cc
continue_returned (waiting c) f h k = cc

pub map_error-eq-returned :
    {A E F : Type 0} (f : E → F) (m : M E A) (c : Conn) {a : A} {c' : Conn}
    → map_error f m c ≡ returned a c'
    → m c ≡ returned a c'
map_error-eq-returned f m c h = ground arith

pub lift-eq-returned :
    {E A : Type 0} (g : Go A) (c : Conn) {a : A} {c' : Conn}
    → lift {E = E} g c ≡ returned a c'
    → (g ≡ value a) × (c ≡ c')
lift-eq-returned (value a) c h = (cc, cc)
lift-eq-returned panic c h = cc
