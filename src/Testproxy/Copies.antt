-- ===== src/Testproxy/Copies.antt =====
-- What the test proxy writes, and when its copying ends: pkg/testproxy/testproxy.go.
use comfoconnectbridge.Prelude.{
  ℕ, suc, ◌+◌, ◌<◌, ◌≡◌, refl, sym, ap, ◌∙◌, true, List, [], ◌∷◌, ◌++◌, All, append_assoc,
  append-nil, map, length,
}
use comfoconnectbridge.Go.Conn.{Conn, write, write_next}
use comfoconnectbridge.Proto.Codec.{Codec}
use comfoconnectbridge.Comfoconnect.Message.{Message}
use comfoconnectbridge.Comfoconnect.Receive.Progress.{size}
use comfoconnectbridge.Comfoconnect.Socket.Stream.{end, all_bytes, items}
use comfoconnectbridge.Comfoconnect.Rounds.{ended, is_over, IsServing, again-injective}
use comfoconnectbridge.Comfoconnect.Rounds.Ends.{rounds-is_over}
use comfoconnectbridge.Comfoconnect.Rounds.Delivers.{
  Letter, packed, stream, as_received, IsFit, IsActing, steps, rounds-stream_closed,
}
use comfoconnectbridge.Testproxy.{copied, copy_loop, copy}

copy_loop-IsServing : IsServing copy_loop
copy_loop-IsServing = record {
  serves = λ to m c to' c' e. let (_, same) = again-injective e in ap (λ x. x.inbox) (sym same);
}

-- `copy` returns, panics or waits for input, whatever is on the connection that it reads: as many rounds
-- as there are bytes and failures, and one more, are enough.
pub copy-is_over :
    (codec : Codec) (n : ℕ) (from to : Conn) → size from < n → is_over (copy codec n from to) ≡ true
unfolding copy
copy-is_over codec n from to h = rounds-is_over copy_loop copy_loop-IsServing codec n to from h

module _ (codec : Codec) where
  copy_loop-IsActing : IsActing codec copy_loop copied (λ to m. []) (λ m. Unit {0}) (λ c. Unit {0})
  copy_loop-IsActing = record {
    acts = λ to m c good fine. (c, refl, refl, sym (append-nil c.sent), tt);
    kept_fine = λ c c' k fine. tt;
  }

  copied-sent :
      (to : Conn) (m : Message)
      → to.writes ≡ []
      → copied to m ≡ record to { sent = to.sent ++ (m.raw_message ∷ []) }
  unfolding copied write write_next
  copied-sent to m h = rw h refl

  steps-sent :
      (ls : List Letter) (to : Conn)
      → to.writes ≡ []
      → (steps codec copied (λ to m. []) to ls).sent ≡ to.sent ++ map (packed codec) ls
  steps-sent [] to h = sym (append-nil to.sent)
  steps-sent (l ∷ ls) to h =
      let e = copied-sent to (as_received codec l) h in
      steps-sent ls (copied to (as_received codec l)) (ap (λ x. x.writes) e ∙ h)
      ∙ ap (λ x. x.sent ++ map (packed codec) ls) e
      ∙ append_assoc to.sent (packed codec l ∷ []) (map (packed codec) ls)

  All-IsFit : (ls : List Letter) → All (IsFit codec) ls → All (λ l. IsFit codec l × Unit {0}) ls
  All-IsFit [] h = tt
  All-IsFit (l ∷ ls) h = ((h.0, tt), All-IsFit ls h.1)

  -- Where the messages of a client come next and then the end of its connection, `copy` writes each of
  -- them once, byte by byte as it came and in the same order, writes nothing else, and returns, if the
  -- messages fit a frame, the protobuf library reads them back and no write fails.
  pub copy-stream :
      (ls : List Letter) (k : ℕ) (from to : Conn)
      → All (IsFit codec) ls
      → to.writes ≡ []
      → items from.inbox ≡ all_bytes (stream codec ls) ++ (end ∷ [])
      → (to' from' : Conn) × (copy codec (length ls + suc k) from to ≡ ended tt to' from')
        × (to'.sent ≡ to.sent ++ map (packed codec) ls)
        × (items from'.inbox ≡ end ∷ [])
  unfolding copy
  copy-stream ls k from to fits writes h =
      let (f, from', e, eof, q, s) =
        rounds-stream_closed codec copied (λ to m. []) copy_loop (λ m. Unit {0}) (λ c. Unit {0})
          copy_loop-IsActing ls k to from (All-IsFit ls fits) tt h in
      (steps codec copied (λ to m. []) to ls, from', e, steps-sent ls to writes, q)
