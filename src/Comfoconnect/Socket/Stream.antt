-- ===== src/Comfoconnect/Socket/Stream.antt =====
-- `read_bytes` against a reader that takes one byte at a time: how the bytes were cut into chunks
-- does not matter.
use comfoconnectbridge.Prelude.{
  ℕ, zero, suc, ◌-◌, ◌<◌, ◌≤◌, ◌≡◌, refl, sym, ap, ◌∙◌, arith, List, [], ◌∷◌, ◌++◌, map, length,
  take, drop, append_assoc, ◌≢◌, ◌==◌, le→ltb, true, false,
}
use comfoconnectbridge.Go.Errors.{GoError, io_eof, wrapped}
use comfoconnectbridge.Go.Binary.{Bytes}
use comfoconnectbridge.Go.Conn.{
  ReadEvent, chunk, fault, closed, Conn, Outcome, returned, failed, panicked, waiting,
}
use native.Mathlib.Decide.{dec_lt}
use comfoconnectbridge.Comfoconnect.Socket.{unread, read_loop, read_bytes}

-- What comes in, one byte or one failure at a time.
pub data Item : Type 0 where
  byte : ℕ → Item
  broken : GoError → Item
  end : Item

abbrev pub all_bytes : Bytes → List Item
all_bytes bs = map byte bs

unfoldable pub items : List ReadEvent → List Item
items [] = []
items (chunk bs ∷ es) = all_bytes bs ++ items es
items (fault e ∷ es) = broken e ∷ items es
items (closed ∷ es) = end ∷ []

pub data Took : Type 0 where
  got : Bytes → List Item → Took
  broke : GoError → List Item → Took
  starved : Took

abbrev pub after : Bytes → Took → Took
after bs (got cs r) = got (bs ++ cs) r
after bs (broke e r) = broke e r
after bs starved = starved

unfoldable pub take_bytes : ℕ → List Item → Took
take_bytes zero is = got [] is
take_bytes (suc n) [] = starved
take_bytes (suc n) (byte b ∷ is) = after (b ∷ []) (take_bytes n is)
take_bytes (suc n) (broken e ∷ is) = broke e is
take_bytes (suc n) (end ∷ is) = broke io_eof (end ∷ is)

-- The same view of an outcome of `read_bytes`.
abbrev pub view : Outcome GoError Bytes → Took
view (returned bs c) = got bs (items c.inbox)
view (failed (wrapped s e) c) = broke e (items c.inbox)
view (failed e c) = broke e (items c.inbox)
view (panicked c) = starved
view (waiting c) = starved

after-after : (bs cs : Bytes) (t : Took) → after bs (after cs t) ≡ after (bs ++ cs) t
after-after bs cs (got ds r) = ap (λ x. got x r) (sym (append_assoc bs cs ds))
after-after bs cs (broke e r) = refl
after-after bs cs starved = refl

after-nil : (t : Took) → after [] t ≡ t
after-nil (got ds r) = refl
after-nil (broke e r) = refl
after-nil starved = refl

-- One chunk that is long enough, and one that is not.
take_bytes-enough :
    (n : ℕ) (bs : Bytes) (is : List Item)
    → n ≤ length bs
    → take_bytes n (all_bytes bs ++ is) ≡ got (take n bs) (all_bytes (drop n bs) ++ is)
unfolding take_bytes
take_bytes-enough zero bs is h = refl
take_bytes-enough (suc n) [] is h = absurd (omega arith)
take_bytes-enough (suc n) (b ∷ bs) is h = rw (take_bytes-enough n bs is (omega arith)) refl

take_bytes-short :
    (n : ℕ) (bs : Bytes) (is : List Item)
    → length bs < n
    → take_bytes n (all_bytes bs ++ is) ≡ after bs (take_bytes (n - length bs) is)
unfolding take_bytes
take_bytes-short zero bs is h = absurd (omega arith)
take_bytes-short (suc n) [] is h = let e : suc n - 0 ≡ suc n = omega arith in rw (e, after-nil) refl
take_bytes-short (suc n) (b ∷ bs) is h =
    let e : suc n - suc (length bs) ≡ n - length bs = omega arith in
    rw (e, take_bytes-short n bs is (omega arith), after-after) refl

pub items-unread :
    (bs : Bytes) (es : List ReadEvent) → items (unread bs es) ≡ all_bytes bs ++ items es
unfolding items unread
items-unread [] es = refl
items-unread (b ∷ bs) es = refl

length-take_min : {A : Type 0} (n : ℕ) (xs : List A) → length xs < n → take n xs ≡ xs
length-take_min zero xs h = absurd (omega arith)
length-take_min (suc n) [] h = refl
length-take_min (suc n) (x ∷ xs) h = ap (λ t. x ∷ t) (length-take_min n xs (omega arith))

length-take_le : {A : Type 0} (n : ℕ) (xs : List A) → n ≤ length xs → length (take n xs) ≡ n
length-take_le zero xs h = refl
length-take_le (suc n) [] h = absurd (omega arith)
length-take_le (suc n) (x ∷ xs) h = ap suc (length-take_le n xs (omega arith))

==_false : (a b : ℕ) → a ≢ b → (a == b) ≡ false
==_false a b h = ground arith

==_true : (a b : ℕ) → a ≡ b → (a == b) ≡ true
==_true a b h = ground arith

-- One read: a chunk that is too short is taken whole and the loop goes on; any other ends it.
pub read_loop_short :
    (c : Conn) (n : ℕ) (acc bs : Bytes) (es : List ReadEvent)
    → length bs < n
    → read_loop c n acc (chunk bs ∷ es) ≡ read_loop c (n - length bs) (acc ++ bs) es
unfolding read_loop
read_loop_short c n acc bs es h =
    rw (length-take_min n bs h, ==_false (n - length bs) 0 (omega arith)) refl

pub read_loop_enough :
    (c : Conn) (n : ℕ) (acc bs : Bytes) (es : List ReadEvent)
    → n ≤ length bs
    → read_loop c n acc (chunk bs ∷ es)
      ≡ returned (acc ++ take n bs) (record c { inbox = unread (drop n bs) es })
unfolding read_loop
read_loop_enough c n acc bs es h = rw (length-take_le n bs h, ==_true (n - n) 0 (omega arith)) refl

read_loop-take_bytes :
    (c : Conn) (n : ℕ) (acc : Bytes) (es : List ReadEvent)
    → 0 < n
    → view (read_loop c n acc es) ≡ after acc (take_bytes n (items es))
unfolding items
read_loop-take_bytes c zero acc es h = elim h [ ]
read_loop-take_bytes c (suc n) acc [] h = unfold read_loop take_bytes in refl
read_loop-take_bytes c (suc n) acc (fault e ∷ es) h = unfold read_loop take_bytes in refl
read_loop-take_bytes c (suc n) acc (closed ∷ es) h = unfold read_loop take_bytes in refl
read_loop-take_bytes c (suc n) acc (chunk bs ∷ es) h = elim (dec_lt (length bs) (suc n)) [
  | yes short ↦
      rw (read_loop_short c (suc n) acc bs es short, take_bytes-short (suc n) bs (items es) short)
        (read_loop-take_bytes c (suc n - length bs) (acc ++ bs) es (omega arith)
          ∙ sym (after-after acc bs _))
  | no enough ↦
      rw (read_loop_enough c (suc n) acc bs es (omega arith))
        (rw (take_bytes-enough (suc n) bs (items es) (omega arith), items-unread) refl)
]

-- On every inbox `ReadBytes` of a positive size does what the reader of single bytes does, whatever
-- chunks the network cuts the bytes into: the same bytes or the same failure, and the same left over.
pub read_bytes-take_bytes :
    (n : ℕ) (c : Conn) → 0 < n → view (read_bytes n c) ≡ take_bytes n (items c.inbox)
unfolding read_bytes
read_bytes-take_bytes n c h =
    rw (le→ltb n 1 h) (read_loop-take_bytes c n [] c.inbox h ∙ after-nil _)
