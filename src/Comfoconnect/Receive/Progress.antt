-- ===== src/Comfoconnect/Receive/Progress.antt =====
-- What a call of `get_message_from_socket` takes off the connection, however it ends.
use comfoconnectbridge.Prelude.{
  ℕ, zero, suc, ◌<◌, ◌≤◌, ◌≡◌, refl, sym, ap, ◌∙◌, ◌⊎◌, inl, inr, arith, true, List, [], ◌∷◌,
  length, drop, ◌-◌, ◌+◌, ◌++◌, ltb, Bool-cases, length-append, length-map,
}
use mathlib.Core.Path.{subst}
use native.Mathlib.Decide.{dec_lt}
use comfoconnectbridge.Go.Errors.{GoError, wrapped, cause, is_eof}
use comfoconnectbridge.Go.Binary.{Bytes}
use comfoconnectbridge.Go.Conn.{
  ReadEvent, chunk, fault, closed, Conn, Outcome, returned, failed, panicked, waiting, M, continue,
  map_error,
}
use comfoconnectbridge.Proto.Codec.{Codec}
use comfoconnectbridge.Comfoconnect.Socket.{read_loop, read_bytes}
use comfoconnectbridge.Comfoconnect.Socket.Stream.{
  Item, byte, broken, end, items, Took, got, broke, starved, after, take_bytes, view,
  read_bytes-take_bytes, all_bytes, items-unread, read_loop_short, read_loop_enough,
}
use comfoconnectbridge.Comfoconnect.Receive.{
  Failure, length_failure, check_length, read_rest, read_length, read_frame, parse_frame,
  get_message_from_socket,
}
use comfoconnectbridge.Comfoconnect.Receive.Errors.{cause-length_failure}
use comfoconnectbridge.Comfoconnect.Receive.Keeps.{
  Relation, Keeps, left, check_length-Keeps, read_rest-Keeps, parse_frame-Keeps,
}

-- How much there is still to be read: bytes, failures and the end.
abbrev pub size : Conn → ℕ
size c = length (items c.inbox)

-- A call on a connection with `n` items left some fewer, or met the end of the connection, or it did
-- not come to an end.
abbrev pub HasTaken : ℕ → Took → Type 0
HasTaken n (got bs r) = length r < n
HasTaken n (broke e r) = (is_eof (cause e) ≡ true) × (length r ≤ n) ⊎ (length r < n)
HasTaken n starved = Unit

abbrev pub HasProgressed : {A : Type 0} → ℕ → Outcome Failure A → Type 0
HasProgressed n (returned a c) = size c < n
HasProgressed n (failed f c) = (is_eof (cause f.error) ≡ true) × (size c ≤ n) ⊎ (size c < n)
HasProgressed n (panicked c) = Unit
HasProgressed n (waiting c) = Unit

abbrev HasRead : ℕ → Outcome GoError Bytes → Type 0
HasRead n (returned a c) = size c < n
HasRead n (failed e c) = (is_eof (cause e) ≡ true) × (size c ≤ n) ⊎ (size c < n)
HasRead n (panicked c) = Unit
HasRead n (waiting c) = Unit

-- `n` items, taken one more at a time.
HasTaken-after : (n k : ℕ) (b : Bytes) (t : Took) → k ≤ n → HasTaken k t → HasTaken n (after b t)
HasTaken-after n k b (got bs r) le h = omega arith
HasTaken-after n k b (broke e r) le (inl (x, y)) = inl (x, omega arith)
HasTaken-after n k b (broke e r) le (inr y) = inr (omega arith)
HasTaken-after n k b starved le h = tt

take_bytes-HasTaken : (n : ℕ) (is : List Item) → HasTaken (length is) (take_bytes (suc n) is)
unfolding take_bytes cause is_eof
take_bytes-HasTaken n [] = tt
take_bytes-HasTaken zero (byte b ∷ is) = omega arith
take_bytes-HasTaken (suc n) (byte b ∷ is) =
    HasTaken-after _ (length is) (b ∷ []) (take_bytes (suc n) is) (omega arith)
      (take_bytes-HasTaken n is)
take_bytes-HasTaken n (broken e ∷ is) = inr (omega arith)
take_bytes-HasTaken n (end ∷ is) = inl (refl, omega arith)

view-HasRead : (n : ℕ) (o : Outcome GoError Bytes) → HasTaken n (view o) → HasRead n o
unfolding cause
view-HasRead n (returned bs c) h = h
view-HasRead n (failed (wrapped s e) c) h = h
view-HasRead n (failed e c) h = h
view-HasRead n (panicked c) h = h
view-HasRead n (waiting c) h = h

read_bytes-HasRead : (n : ℕ) (c : Conn) → HasRead (size c) (read_bytes (suc n) c)
read_bytes-HasRead n c = view-HasRead (size c) (read_bytes (suc n) c) (
    subst (HasTaken (size c)) (sym (read_bytes-take_bytes (suc n) c (omega arith)))
      (take_bytes-HasTaken n (items c.inbox)))

length-drop : {A : Type 0} (n : ℕ) (xs : List A) → length (drop n xs) ≤ length xs
length-drop zero xs = omega arith
length-drop (suc n) [] = omega arith
length-drop (suc n) (x ∷ xs) = omega (arith, length-drop n xs)

length-all_bytes :
    (bs : Bytes) (is : List Item) → length (all_bytes bs ++ is) ≡ length bs + length is
length-all_bytes bs is = omega (arith, length-append (all_bytes bs) is, length-map byte bs)

read_loop-size :
    (c : Conn) (n : ℕ) (acc : Bytes) (es : List ReadEvent)
    → size (left (read_loop c n acc es)) ≤ length (items es)
unfolding items
read_loop-size c n acc [] = unfold read_loop in omega arith
read_loop-size c n acc (fault e ∷ es) = unfold read_loop in omega arith
read_loop-size c n acc (closed ∷ es) = unfold read_loop in omega arith
read_loop-size c n acc (chunk bs ∷ es) = elim (dec_lt (length bs) n) [
  | yes short ↦ rw (read_loop_short c n acc bs es short) (
      omega
        (arith, length-all_bytes bs (items es), read_loop-size c (n - length bs) (acc ++ bs) es))
  | no enough ↦ rw (read_loop_enough c n acc bs es (omega arith)) (
      rw (items-unread (drop n bs) es) (
        omega (
          arith,
          length-all_bytes bs (items es),
          length-all_bytes (drop n bs) (items es),
          length-drop n bs,
        )))
]

read_bytes-size : (n : ℕ) (c : Conn) → size (left (read_bytes n c)) ≤ size c
unfolding read_bytes
read_bytes-size n c = elim (Bool-cases (ltb n 1)) [
  | inl e ↦ rw e (omega arith)
  | inr e ↦ rw e (read_loop-size c n [] c.inbox)
]

abbrev shrinking : Relation
shrinking = record {
  Related = λ c c'. size c' ≤ size c;
  unchanged = λ c. omega arith;
  chained = λ c1 c2 c3 p q. omega arith;
  read = read_bytes-size;
}

map_error-HasProgressed :
    (n : ℕ) (o : Outcome GoError Bytes)
    → HasRead n o
    → HasProgressed n (map_error length_failure (λ c. o) (left o))
map_error-HasProgressed n (returned bs c) h = h
map_error-HasProgressed n (failed e c) (inl (x, y)) =
    inl (ap is_eof (cause-length_failure e) ∙ x, y)
map_error-HasProgressed n (failed e c) (inr y) = inr y
map_error-HasProgressed n (panicked c) h = tt
map_error-HasProgressed n (waiting c) h = tt

-- What follows on a call that has taken something.
HasProgressed-lt :
    {A : Type 0} (n : ℕ) (o : Outcome Failure A) → size (left o) < n → HasProgressed n o
HasProgressed-lt n (returned a c) h = h
HasProgressed-lt n (failed f c) h = inr h
HasProgressed-lt n (panicked c) h = tt
HasProgressed-lt n (waiting c) h = tt

continue-HasProgressed :
    {A B : Type 0} (n : ℕ) (o : Outcome Failure A) (f : A → M Failure B)
    → HasProgressed n o
    → ((a : A) → Keeps shrinking (f a))
    → HasProgressed n (continue o f)
continue-HasProgressed n (returned a c) f h k =
    HasProgressed-lt n (f a c)
      (let le : size (left (f a c)) ≤ size c = (k a).keeps c in omega arith)
continue-HasProgressed n (failed e c) f h k = h
continue-HasProgressed n (panicked c) f h k = h
continue-HasProgressed n (waiting c) f h k = h

read_frame-HasProgressed : (c : Conn) → HasProgressed (size c) (read_frame c)
unfolding read_frame read_length
read_frame-HasProgressed c =
    continue-HasProgressed (size c) _ read_rest
      (continue-HasProgressed (size c) _ check_length
        (map_error-HasProgressed (size c) (read_bytes 4 c) (read_bytes-HasRead 3 c))
        (check_length-Keeps shrinking))
      (read_rest-Keeps shrinking)

-- Every call that returns a message or fails takes at least one byte or failure off the connection,
-- unless it fails because the connection is at its end.
pub get_message_from_socket-HasProgressed :
    (codec : Codec) (c : Conn) → HasProgressed (size c) (get_message_from_socket codec c)
unfolding get_message_from_socket
get_message_from_socket-HasProgressed codec c =
    continue-HasProgressed (size c) (read_frame c) (parse_frame codec) (read_frame-HasProgressed c)
      (parse_frame-Keeps shrinking codec)
