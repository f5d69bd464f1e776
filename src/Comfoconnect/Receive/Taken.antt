-- ===== src/Comfoconnect/Receive/Taken.antt =====
-- What `read_frame` and `get_message_from_socket` take off the connection when they return.
use comfoconnectbridge.Prelude.{
  ℕ, ◌<◌, ◌≤◌, ◌≡◌, refl, String, ◌∙◌, arith, Bool, true, false, ◌||◌, [], ◌∷◌, ◌++◌, map-append,
  length, append_assoc, ltb, lt→ltb, zero, suc,
}
use comfoconnectbridge.Go.Errors.{value}
use comfoconnectbridge.Go.Binary.{Bytes, uint16, uint32}
use comfoconnectbridge.Go.Conn.{Conn, returned, lift, map_error}
use comfoconnectbridge.Go.Conn.Bind.{
  returned-injective, continue_returned, map_error-eq-returned, lift-eq-returned,
}
use comfoconnectbridge.Comfoconnect.Socket.{read_bytes}
use comfoconnectbridge.Comfoconnect.Socket.Stream.{all_bytes, items}
use comfoconnectbridge.Comfoconnect.Socket.Reads.{read_bytes_returned}
use comfoconnectbridge.Comfoconnect.Receive.{
  length_failure, no_message, read_part, reject_if, type_length, read_operation_type, Frame,
  read_length, read_operation, complete_message, read_frame,
}

-- A frame as the reader accepts it: the parts have the sizes that the length fields give.
pub record IsFramed (f : Frame) : Type 0 where
  pub total : ℕ
  pub operation_length : ℕ
  pub length_field : uint32 f.length_bytes ≡ value total
  pub total_capped : total ≤ 1024
  pub operation_field : uint16 f.operation_length_bytes ≡ value operation_length
  pub operation_bounds : (1 ≤ operation_length) × (operation_length ≤ 1024)
  pub length_size : length f.length_bytes ≡ 4
  pub src_size : length f.src ≡ 16
  pub dst_size : length f.dst ≡ 16
  pub operation_length_size : length f.operation_length_bytes ≡ 2
  pub operation_size : length f.operation_bytes ≡ operation_length
  pub type_size : length f.operation_type_bytes ≡ type_length total operation_length

read_part_returned :
    (text : String) (n : ℕ) (c : Conn) (bs : Bytes) (c' : Conn)
    → read_part text n c ≡ returned bs c'
    → (items c.inbox ≡ all_bytes bs ++ items c'.inbox) × (length bs ≡ n) × (0 < n)
unfolding read_part
read_part_returned text n c bs c' h =
    read_bytes_returned n c bs c' (map_error-eq-returned (no_message text) (read_bytes n) c h)

read_operation_type_returned :
    (n : ℕ) (c : Conn) (bs : Bytes) (c' : Conn)
    → read_operation_type n c ≡ returned bs c'
    → (items c.inbox ≡ all_bytes bs ++ items c'.inbox) × (length bs ≡ n)
unfolding read_operation_type
read_operation_type_returned zero c [] c' h = let e : c ≡ c' = cc in (rw e, refl)
read_operation_type_returned zero c (b ∷ bs) c' h = cc
read_operation_type_returned (suc n) c bs c' h =
    let (p, q, _) =
      read_part_returned "reading operation type" (suc n) c bs c'
        (rw (lt→ltb 0 (suc n) (omega arith)) at h) in
    (p, q)

reject_if-eq-returned :
    (b : Bool) (text : String) (n : ℕ) (c : Conn) {u : Unit {0}} {c' : Conn}
    → reject_if b text n c ≡ returned u c'
    → (b ≡ false) × (c ≡ c')
reject_if-eq-returned true text n c h = cc
reject_if-eq-returned false text n c h = (refl, cc)

le_of_ltb : (a b : ℕ) → ltb a b ≡ false → b ≤ a
le_of_ltb a b h = ground arith

or_false : (a b : Bool) → (a || b) ≡ false → (a ≡ false) × (b ≡ false)
or_false a b h = ground arith

-- What a stage of the reader takes: the bytes `bs` come off the connection.
abbrev Takes : Conn → Bytes → Conn → Type 0
Takes c bs c' = items c.inbox ≡ all_bytes bs ++ items c'.inbox

Takes-append :
    (c c' c'' : Conn) (bs ds : Bytes) → Takes c bs c' → Takes c' ds c'' → Takes c (bs ++ ds) c''
Takes-append c c' c'' bs ds h k = h ∙ rw k (simp (map-append, append_assoc))

read_length_returned :
    (c : Conn) (bs : Bytes) (n : ℕ) (c' : Conn)
    → read_length c ≡ returned (bs, n) c'
    → Takes c bs c' × (length bs ≡ 4) × (uint32 bs ≡ value n) × (n ≤ 1024)
unfolding read_length
read_length_returned c bs n c' h =
    continue_returned (map_error length_failure (read_bytes 4) c) _ h λ lb c1 e1 h1.
      continue_returned (lift (uint32 lb) c1) _ h1 λ len c2 e2 h2.
        continue_returned (reject_if (ltb 1024 len) _ len c2) _ h2 λ u c3 e3 h3.
          let (v, same1) = lift-eq-returned (uint32 lb) c1 e2 in
          let (small, same2) = reject_if-eq-returned (ltb 1024 len) _ len c2 e3 in
          let (t, s, _) =
            read_bytes_returned 4 c lb c1
              (map_error-eq-returned length_failure (read_bytes 4) c e1) in
          let p : lb ≡ bs = ground arith in
          let q : len ≡ n = ground arith in
          let r : c3 ≡ c' = ground arith in
          rw (← p, ← q, ← r, ← same2, ← same1) (t, s, v, le_of_ltb _ _ small)

read_operation_returned :
    (c : Conn) (ls : Bytes) (n : ℕ) (bs : Bytes) (c' : Conn)
    → read_operation c ≡ returned (ls, n, bs) c'
    → Takes c (ls ++ bs) c'
      × (length ls ≡ 2)
      × (uint16 ls ≡ value n)
      × (1 ≤ n)
      × (n ≤ 1024)
      × (length bs ≡ n)
unfolding read_operation
read_operation_returned c ls n bs c' h =
    continue_returned (read_part "reading operation length" 2 c) _ h λ lb c1 e1 h1.
      continue_returned (lift (uint16 lb) c1) _ h1 λ len c2 e2 h2.
        continue_returned (reject_if (ltb len 1 || ltb 1024 len) _ len c2) _ h2 λ u c3 e3 h3.
          continue_returned (read_part "reading operation" len c3) _ h3 λ ob c4 e4 h4.
            let (v, same1) = lift-eq-returned (uint16 lb) c1 e2 in
            let (bounds, same2) = reject_if-eq-returned (ltb len 1 || ltb 1024 len) _ len c2 e3 in
            let (t1, s1, _) = read_part_returned _ 2 c lb c1 e1 in
            let (t2, s2, _) = read_part_returned _ len c3 ob c4 e4 in
            let p : lb ≡ ls = ground arith in
            let q : len ≡ n = ground arith in
            let r : c4 ≡ c' = ground arith in
            let o : ob ≡ bs = ground arith in
            let (low, high) = or_false (ltb len 1) (ltb 1024 len) bounds in
            rw (← p, ← q, ← r, ← o)
              (
                Takes-append c c3 c4 lb ob (rw (← same2, ← same1) t1) t2,
                s1,
                v,
                le_of_ltb _ _ low,
                le_of_ltb _ _ high,
                s2,
              )

pub read_frame_returned :
    (c : Conn) (f : Frame) (c' : Conn)
    → read_frame c ≡ returned f c'
    → (items c.inbox ≡ all_bytes (complete_message f) ++ items c'.inbox) × IsFramed f
unfolding read_frame
read_frame_returned c f c' h = continue_returned (read_length c) _ h λ len c1 e1 h1.
    continue_returned (read_part "reading Src" 16 c1) _ h1 λ src c2 e2 h2.
      continue_returned (read_part "reading Dst" 16 c2) _ h2 λ dst c3 e3 h3.
        continue_returned (read_operation c3) _ h3 λ op c4 e4 h4.
          continue_returned (read_operation_type (type_length len.1 op.1) c4) _ h4 λ ot c5 e5 h5.
            let (t1, s1, v1, cap) = read_length_returned c len.0 len.1 c1 e1 in
            let (t2, s2, _) = read_part_returned _ 16 c1 src c2 e2 in
            let (t3, s3, _) = read_part_returned _ 16 c2 dst c3 e3 in
            let (t4, s4, v4, lo, hi, s4') = read_operation_returned c3 op.0 op.1 op.2 c4 e4 in
            let (t5, s5) = read_operation_type_returned (type_length len.1 op.1) c4 ot c5 e5 in
            let t45 = rw append_assoc at (Takes-append c3 c4 c5 (op.0 ++ op.2) ot t4 t5) in
            let t35 = Takes-append c2 c3 c5 dst _ t3 t45 in
            let t25 = Takes-append c1 c2 c5 src _ t2 t35 in
            let (same, here) = returned-injective h5 in
            rw (← same, ← here)
              (
                Takes-append c c1 c5 len.0 _ t1 t25,
                record {
                  total = len.1;
                  operation_length = op.1;
                  length_field = v1;
                  total_capped = cap;
                  operation_field = v4;
                  operation_bounds = (lo, hi);
                  length_size = s1;
                  src_size = s2;
                  dst_size = s3;
                  operation_length_size = s4;
                  operation_size = s4';
                  type_size = s5;
                },
              )
