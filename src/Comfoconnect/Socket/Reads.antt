-- ===== src/Comfoconnect/Socket/Reads.antt =====
-- What a call of `read_bytes` takes off the connection.
use comfoconnectbridge.Prelude.{
  ℕ, zero, suc, ◌<◌, ◌≡◌, refl, sym, ap, ◌∙◌, arith, List, [], ◌∷◌, ◌++◌, length,
}
use comfoconnectbridge.Go.Errors.{GoError, wrapped, cause}
use comfoconnectbridge.Go.Binary.{Bytes}
use comfoconnectbridge.Go.Conn.{Conn, Outcome, returned, failed, panicked, waiting}
use comfoconnectbridge.Comfoconnect.Socket.{read_bytes}
use comfoconnectbridge.Comfoconnect.Socket.Stream.{
  Item, byte, broken, end, all_bytes, items, Took, got, broke, starved, after, take_bytes, view,
  read_bytes-take_bytes,
}

after-eq-got :
    (b : ℕ) (t : Took) {bs : Bytes} {r : List Item}
    → after (b ∷ []) t ≡ got bs r
    → (cs : Bytes) × (t ≡ got cs r) × (bs ≡ b ∷ cs)
after-eq-got b (got cs s) h = (cs, cc, cc)
after-eq-got b (broke e s) h = cc
after-eq-got b starved h = cc

take_bytes-eq-got :
    (n : ℕ) (is : List Item) (bs : Bytes) (r : List Item)
    → take_bytes n is ≡ got bs r
    → (is ≡ all_bytes bs ++ r) × (length bs ≡ n)
unfolding take_bytes
take_bytes-eq-got zero is [] r h = (cc, refl)
take_bytes-eq-got zero is (b ∷ bs) r h = cc
take_bytes-eq-got (suc n) [] bs r h = cc
take_bytes-eq-got (suc n) (broken e ∷ is) bs r h = cc
take_bytes-eq-got (suc n) (end ∷ is) bs r h = cc
take_bytes-eq-got (suc n) (byte b ∷ is) bs r h =
    let (cs, e, e') = after-eq-got b (take_bytes n is) h in
    let (p, q) = take_bytes-eq-got n is cs r e in rw e' (ap (λ t. byte b ∷ t) p, ap suc q)

take_bytes_all :
    (bs : Bytes) (r : List Item) → take_bytes (length bs) (all_bytes bs ++ r) ≡ got bs r
unfolding take_bytes
take_bytes_all [] r = refl
take_bytes_all (b ∷ bs) r = rw (take_bytes_all bs r) refl

view-eq-got :
    (o : Outcome GoError Bytes) {bs : Bytes} {r : List Item}
    → view o ≡ got bs r
    → (c : Conn) × (o ≡ returned bs c) × (items c.inbox ≡ r)
view-eq-got (returned cs c) h = (c, cc, cc)
view-eq-got (failed (wrapped s e) c) h = cc
view-eq-got (failed e c) h = cc
view-eq-got (panicked c) h = cc
view-eq-got (waiting c) h = cc

-- A read of as many bytes as come next returns them.
pub read_bytes_delivers :
    (n : ℕ) (c : Conn) (bs : Bytes) (r : List Item)
    → 0 < n
    → length bs ≡ n
    → items c.inbox ≡ all_bytes bs ++ r
    → (c' : Conn) × (read_bytes n c ≡ returned bs c') × (items c'.inbox ≡ r)
read_bytes_delivers n c bs r pos e h =
    view-eq-got (read_bytes n c)
      (read_bytes-take_bytes n c pos ∙ rw h (rw (← e) (take_bytes_all bs r)))

-- A read that returns has taken exactly the bytes that came next, as many as it was asked for.
pub read_bytes_returned :
    (n : ℕ) (c : Conn) (bs : Bytes) (c' : Conn)
    → read_bytes n c ≡ returned bs c'
    → (items c.inbox ≡ all_bytes bs ++ items c'.inbox) × (length bs ≡ n) × (0 < n)
read_bytes_returned zero c bs c' h = unfold read_bytes in cc
read_bytes_returned (suc n) c bs c' h =
    let (p, q) =
      take_bytes-eq-got (suc n) (items c.inbox) bs (items c'.inbox)
        (sym (read_bytes-take_bytes (suc n) c (omega arith)) ∙ ap view h) in
    (p, q, omega arith)

take_bytes_broken :
    (n : ℕ) (bs : Bytes) (e : GoError) (r : List Item)
    → length bs < n
    → take_bytes n (all_bytes bs ++ (broken e ∷ r)) ≡ broke e r
unfolding take_bytes
take_bytes_broken zero bs e r h = absurd (omega arith)
take_bytes_broken (suc n) [] e r h = refl
take_bytes_broken (suc n) (b ∷ bs) e r h = rw (take_bytes_broken n bs e r (omega arith)) refl

pub view-eq-broke :
    (o : Outcome GoError Bytes) (e : GoError) {r : List Item}
    → view o ≡ broke e r
    → (x : GoError) × (c : Conn) × (o ≡ failed x c) × (cause x ≡ cause e) × (items c.inbox ≡ r)
unfolding cause
view-eq-broke (returned cs c) e h = cc
view-eq-broke (failed (wrapped s x) c) e h =
    (wrapped s x, c, refl, let p : x ≡ e = cc in ap cause p, cc)
view-eq-broke (failed x c) e h = (x, c, refl, let p : x ≡ e = cc in ap cause p, cc)
view-eq-broke (panicked c) e h = cc
view-eq-broke (waiting c) e h = cc

-- A read that fails before it has all its bytes drops those it had: they are neither returned nor left
-- on the connection.
pub read_bytes_broken :
    (n : ℕ) (c : Conn) (bs : Bytes) (e : GoError) (r : List Item)
    → length bs < n
    → items c.inbox ≡ all_bytes bs ++ (broken e ∷ r)
    → (x : GoError) × (c' : Conn) × (read_bytes n c ≡ failed x c')
      × (cause x ≡ cause e)
      × (items c'.inbox ≡ r)
read_bytes_broken n c bs e r h q =
    view-eq-broke (read_bytes n c) e
      (read_bytes-take_bytes n c (omega arith) ∙ rw q (take_bytes_broken n bs e r h))
