-- ===== src/Comfoconnect/Session/References.antt =====
-- The references of the keep-alive loop of pkg/comfoconnect/session.go.
use comfoconnectbridge.Prelude.{
  ℕ, zero, suc, ◌+◌, ◌-◌, ◌%◌, ◌≤◌, ◌≡◌, refl, ◌∙◌, arith, Option, none, some,
}
use comfoconnectbridge.Go.Binary.{Bytes}
use comfoconnectbridge.Go.Conn.{Conn, write}
use comfoconnectbridge.Proto.Payload
use comfoconnectbridge.Comfoconnect.Message.{pack_message}
use comfoconnectbridge.Go.Errors.{GoError}
use comfoconnectbridge.Proto.Codec.{Codec}
use comfoconnectbridge.Comfoconnect.Session.{
  Session, time_request, next_reference, ticked, keep_going, keep_alive_tick, keep_alive,
}

next_reference_mod : (r : ℕ) → 1 ≤ r → r ≤ 1024 → next_reference r ≡ r % 1024 + 1
unfolding next_reference
next_reference_mod r lo hi = ground arith

ticked-some : (r : ℕ) (e : Option GoError) (r' : ℕ) → ticked r e ≡ some r' → r' ≡ next_reference r
unfolding ticked
ticked-some r none r' h = ground arith
ticked-some r (some x) r' h = ground arith

keep_going-some :
    (rest : ℕ → Conn → Option ℕ × Conn) (x : Option ℕ × Conn) (r' : ℕ)
    → (keep_going rest x).0 ≡ some r'
    → (q : ℕ) × (x.0 ≡ some q) × ((rest q x.1).0 ≡ some r')
keep_going-some rest (none, c) r' h = cc
keep_going-some rest (some q, c) r' h = (q, refl, h)

-- A tick that goes on has moved to the next reference, whether or not its write failed.
keep_alive_tick-some :
    (codec : Codec) (s : Session) (r : ℕ) (c : Conn) (r' : ℕ)
    → (keep_alive_tick codec s r c).0 ≡ some r'
    → r' ≡ next_reference r
unfolding keep_alive_tick
keep_alive_tick-some codec s r c r' h =
    let m = time_request s.src s.dst r in
    let b : Bytes =
      pack_message codec m m.operation (Payload.cn_time_request (record { set_time = none })) in
    ticked-some r (write b c).0.1 r' h

-- As long as the keep-alive loop goes on, its reference after `n` ticks is the first one moved on by `n`
-- round the numbers 1 to 1024, whatever became of the writes.
pub keep_alive_reference :
    (codec : Codec) (n : ℕ) (s : Session) (r : ℕ) (c : Conn) (r' : ℕ)
    → 1 ≤ r
    → r ≤ 1024
    → (keep_alive codec n s r c).0 ≡ some r'
    → r' ≡ (r + n - 1) % 1024 + 1
unfolding keep_alive
keep_alive_reference codec zero s r c r' lo hi h = ground arith
keep_alive_reference codec (suc n) s r c r' lo hi h =
    let (q, e, h') =
      keep_going-some (λ r' c'. keep_alive codec n s r' c') (keep_alive_tick codec s r c) r' h in
    let now : q ≡ r % 1024 + 1 =
      keep_alive_tick-some codec s r c q e ∙ next_reference_mod r lo hi in
    let later : r' ≡ (q + n - 1) % 1024 + 1 =
      keep_alive_reference codec n s q (keep_alive_tick codec s r c).1 r' (omega arith)
        (omega arith) h' in
    omega arith
