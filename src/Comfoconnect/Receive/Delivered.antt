-- ===== src/Comfoconnect/Receive/Delivered.antt =====
-- What `read_frame` returns where a frame comes next.
use comfoconnectbridge.Prelude.{
  ℕ, zero, suc, String, ◌<◌, ◌≤◌, ◌≡◌, refl, ◌∙◌, arith, List, [], ◌∷◌, ◌++◌, map-append,
  append_assoc, length, lt→ltb, le→ltb,
}
use comfoconnectbridge.Go.Errors.{value}
use comfoconnectbridge.Go.Binary.{Bytes, uint16, uint32}
use comfoconnectbridge.Go.Conn.{Conn, returned}
use comfoconnectbridge.Comfoconnect.Socket.Stream.{Item, all_bytes, items}
use comfoconnectbridge.Comfoconnect.Socket.Reads.{read_bytes_delivers}
use comfoconnectbridge.Comfoconnect.Receive.{
  read_part, read_length, read_operation, read_operation_type, Frame, complete_message, read_frame,
}
use comfoconnectbridge.Comfoconnect.Receive.Taken.{IsFramed}

-- The bytes `bs` come next on the connection, and then the items `r`.
abbrev Next : Conn → Bytes → List Item → Type 0
Next c bs r = items c.inbox ≡ all_bytes bs ++ r

Next-append :
    (c : Conn) (bs ds : Bytes) (r : List Item) → Next c (bs ++ ds) r → Next c bs (all_bytes ds ++ r)
Next-append c bs ds r h = h ∙ simp (map-append, append_assoc)

read_part_delivers :
    (text : String) (n : ℕ) (c : Conn) (bs : Bytes) (r : List Item)
    → 0 < n
    → length bs ≡ n
    → Next c bs r
    → (c' : Conn) × (read_part text n c ≡ returned bs c') × (items c'.inbox ≡ r)
unfolding read_part
read_part_delivers text n c bs r pos e h =
    let (c', p, q) = read_bytes_delivers n c bs r pos e h in (c', ground (arith, p), q)

read_operation_type_delivers :
    (n : ℕ) (c : Conn) (bs : Bytes) (r : List Item)
    → length bs ≡ n
    → Next c bs r
    → (c' : Conn) × (read_operation_type n c ≡ returned bs c') × (items c'.inbox ≡ r)
unfolding read_operation_type
read_operation_type_delivers zero c [] r e h = (c, refl, h)
read_operation_type_delivers zero c (b ∷ bs) r e h = absurd (omega arith)
read_operation_type_delivers (suc n) c bs r e h =
    let (c', p, q) = read_part_delivers "reading operation type" (suc n) c bs r (omega arith) e h in
    (c', rw (lt→ltb 0 (suc n) (omega arith)) p, q)

read_length_delivers :
    (c : Conn) (bs : Bytes) (n : ℕ) (r : List Item)
    → length bs ≡ 4
    → uint32 bs ≡ value n
    → n ≤ 1024
    → Next c bs r
    → (c' : Conn) × (read_length c ≡ returned (bs, n) c') × (items c'.inbox ≡ r)
unfolding read_length
read_length_delivers c bs n r e v cap h =
    let (c', p, q) = read_bytes_delivers 4 c bs r (omega arith) e h in
    (c', ground (arith, p, v, le→ltb 1024 n cap), q)

read_operation_delivers :
    (c : Conn) (ls : Bytes) (n : ℕ) (bs : Bytes) (r : List Item)
    → length ls ≡ 2
    → uint16 ls ≡ value n
    → 1 ≤ n
    → n ≤ 1024
    → length bs ≡ n
    → Next c (ls ++ bs) r
    → (c' : Conn) × (read_operation c ≡ returned (ls, n, bs) c') × (items c'.inbox ≡ r)
unfolding read_operation
read_operation_delivers c ls n bs r e v lo hi e' h =
    let (c1, p1, q1) =
      read_part_delivers "reading operation length" 2 c ls _ (omega arith) e
        (Next-append c ls bs r h) in
    let (c2, p2, q2) = read_part_delivers "reading operation" n c1 bs r lo e' q1 in
    (c2, ground (arith, p1, v, le→ltb n 1 lo, le→ltb 1024 n hi, p2), q2)

-- Where the bytes of a frame come next on the connection, in whatever chunks, `read_frame` returns that
-- frame and leaves what follows it.
pub read_frame_delivers :
    (c : Conn) (f : Frame) (r : List Item)
    → IsFramed f
    → items c.inbox ≡ all_bytes (complete_message f) ++ r
    → (c' : Conn) × (read_frame c ≡ returned f c') × (items c'.inbox ≡ r)
unfolding read_frame
read_frame_delivers c f r framed h =
    let (c1, p1, q1) =
      read_length_delivers c f.length_bytes framed.total _ framed.length_size framed.length_field
        framed.total_capped (Next-append c f.length_bytes _ r h) in
    let (c2, p2, q2) =
      read_part_delivers "reading Src" 16 c1 f.src _ (omega arith) framed.src_size
        (Next-append c1 f.src _ r q1) in
    let (c3, p3, q3) =
      read_part_delivers "reading Dst" 16 c2 f.dst _ (omega arith) framed.dst_size
        (Next-append c2 f.dst _ r q2) in
    let (c4, p4, q4) =
      read_operation_delivers c3 f.operation_length_bytes framed.operation_length f.operation_bytes
        _ framed.operation_length_size framed.operation_field framed.operation_bounds.0
        framed.operation_bounds.1 framed.operation_size
        (Next-append c3 _ f.operation_type_bytes r (rw append_assoc q3)) in
    let (c5, p5, q5) =
      read_operation_type_delivers _ c4 f.operation_type_bytes r framed.type_size q4 in
    (c5, rw p1 (rw p2 (rw p3 (rw p4 (rw p5)))), q5)
