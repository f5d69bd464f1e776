-- ===== src/Go/Conn.antt =====
-- net.Conn, seen from this end: what the reads will meet, what the writes will meet, and what has
-- been written. `Read` follows the contract of io.Reader: it returns at most as many bytes as asked.
-- Read deadlines are the environment's choice: one that passes is a `fault` with a timeout.
pub mod Bind
pub mod Adds
use comfoconnectbridge.Prelude.{ℕ, List, [], ◌∷◌, ◌++◌, length, take, Option, none, some}
use comfoconnectbridge.Go.Errors.{GoError, Go, value, panic}
use comfoconnectbridge.Go.Binary.{Bytes}

-- `fault e` is one read that fails (a deadline that passes, a reset); after `closed` every read
-- returns io.EOF. When the list is used up a read waits for ever.
pub data ReadEvent : Type 0 where
  chunk : Bytes → ReadEvent
  fault : GoError → ReadEvent
  closed : ReadEvent

-- A write that fails has sent the first `n` bytes. When the list is used up writes succeed.
pub data WriteEvent : Type 0 where
  accepted : WriteEvent
  refused : ℕ → GoError → WriteEvent

pub record Conn : Type 0 where
  pub inbox : List ReadEvent
  pub writes : List WriteEvent
  pub sent : List Bytes

-- How a call that uses the connection ends, and what it leaves of the connection: with a result, with
-- an error, in a panic, or not at all, since it waits for input that never comes.
pub data Outcome (E A : Type 0) : Type 0 where
  returned : A → Conn → Outcome E A
  failed : E → Conn → Outcome E A
  panicked : Conn → Outcome E A
  waiting : Conn → Outcome E A

abbrev pub M : Type 0 → Type 0 → Type 0
M E A = Conn → Outcome E A

module _ {E A B : Type 0} where
  abbrev pub continue : Outcome E A → (A → M E B) → Outcome E B
  continue (returned a c) f = f a c
  continue (failed e c) f = failed e c
  continue (panicked c) f = panicked c
  continue (waiting c) f = waiting c

  infixl 5 ◌>>=◌
  abbrev pub ◌>>=◌ : M E A → (A → M E B) → M E B
  ◌>>=◌ m f c = continue (m c) f

module _ {E A : Type 0} where
  abbrev pub pure : A → M E A
  pure a c = returned a c

  abbrev pub fail : E → M E A
  fail e c = failed e c

  abbrev pub lift : Go A → M E A
  lift (value a) c = returned a c
  lift panic c = panicked c

  -- The error of a call that returned none is not looked at.
  abbrev pub guarded : Option E → M E A → M E A
  guarded none m = m
  guarded (some e) m = fail e

abbrev pub map_error : {A E F : Type 0} → (E → F) → M E A → M F A
map_error f m c = elim (m c) [
  | returned a c' ↦ returned a c'
  | failed e c' ↦ failed (f e) c'
  | panicked c' ↦ panicked c'
  | waiting c' ↦ waiting c'
]

-- `conn.Write(b)`: how many bytes were written, and the error.
unfoldable pub write_next : List WriteEvent → Bytes → Conn → (ℕ × Option GoError) × Conn
write_next [] b c = ((length b, none), record c { sent = c.sent ++ (b ∷ []) })
write_next (accepted ∷ ws) b c =
    ((length b, none), record c { writes = ws; sent = c.sent ++ (b ∷ []) })
write_next (refused n e ∷ ws) b c =
    ((length (take n b), some e), record c { writes = ws; sent = c.sent ++ (take n b ∷ []) })

unfoldable pub write : Bytes → Conn → (ℕ × Option GoError) × Conn
unfolding write_next
write b c = write_next c.writes b c
