-- ===== src/Go/Conn/Adds.antt =====
-- What a write puts on a connection.
use comfoconnectbridge.Prelude.{◌≡◌, refl, List, [], ◌∷◌, ◌++◌, take, ℕ}
use comfoconnectbridge.Go.Errors.{GoError}
use comfoconnectbridge.Go.Binary.{Bytes}
use comfoconnectbridge.Go.Conn.{Conn, WriteEvent, accepted, refused, write, write_next}

-- A write of `b` that meets the first of `ws` puts `x` on the connection: `b`, or its start where the
-- write fails.
pub data Puts (b : Bytes) : List WriteEvent → List WriteEvent → Bytes → Type 0 where
  free : Puts b [] [] b
  whole : {ws : List WriteEvent} → Puts b (accepted ∷ ws) ws b
  cut : {ws : List WriteEvent} (n : ℕ) (e : GoError) → Puts b (refused n e ∷ ws) ws (take n b)

-- The write of `b` turns the connection `c` into `c'`.
pub record Adds (b : Bytes) (c c' : Conn) : Type 0 where
  pub bytes : Bytes
  pub puts : Puts b c.writes c'.writes bytes
  pub sent_more : c'.sent ≡ c.sent ++ (bytes ∷ [])

write_next-Adds :
    (ws : List WriteEvent) (b : Bytes) (c : Conn)
    → (bytes : Bytes) × Puts b ws (write_next ws b (record c { writes = ws })).1.writes bytes
      × ((write_next ws b (record c { writes = ws })).1.sent ≡ c.sent ++ (bytes ∷ []))
unfolding write_next
write_next-Adds [] b c = (b, free, refl)
write_next-Adds (accepted ∷ ws) b c = (b, whole, refl)
write_next-Adds (refused n e ∷ ws) b c = (take n b, cut n e, refl)

pub write-Adds : (b : Bytes) (c : Conn) → Adds b c (write b c).1
unfolding write
write-Adds b c =
    let (bytes, puts, more) = write_next-Adds c.writes b c in
    record { bytes = bytes; puts = puts; sent_more = more }
