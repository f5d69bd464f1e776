-- ===== src/Comfoconnect/Rounds/Ends.antt =====
-- When a receiving loop comes to an end.
use comfoconnectbridge.Prelude.{
  ℕ, zero, suc, ◌<◌, ◌≡◌, refl, ap, inl, inr, arith, true, length, Bool-cases,
}
use comfoconnectbridge.Go.Errors.{cause, is_eof}
use comfoconnectbridge.Go.Conn.{Conn, Outcome, returned, failed, panicked, waiting}
use comfoconnectbridge.Proto.Codec.{Codec}
use comfoconnectbridge.Comfoconnect.Message.{Message}
use comfoconnectbridge.Comfoconnect.Socket.Stream.{items}
use comfoconnectbridge.Comfoconnect.Receive.{Failure, get_message_from_socket}
use comfoconnectbridge.Comfoconnect.Receive.Progress.{
  size, HasProgressed, get_message_from_socket-HasProgressed,
}
use comfoconnectbridge.Comfoconnect.Rounds.{
  Turn, again, ended, crashed, blocked, Loop, is_over, turn, next_round, rounds, IsServing,
  again-injective,
}

module _ {S R : Type 0} (l : Loop S R) (serving : IsServing l) where
  -- A turn that goes on leaves less on the connection.
  turn-size-lt :
      (n : ℕ) (s : S) (o : Outcome Failure Message) (s' : S) (c' : Conn)
      → HasProgressed n o
      → turn l s o ≡ again s' c'
      → size c' < n
  unfolding turn
  turn-size-lt n s (returned m c) s' c' h e =
      omega (arith, ap (λ i. length (items i)) (serving.serves s m c s' c' e))
  turn-size-lt n s (failed f c) s' c' (inl (end, le)) e = absurd (ground (arith, end, e))
  turn-size-lt n s (failed f c) s' c' (inr lt) e = elim (Bool-cases (is_eof (cause f.error))) [
    | inl end ↦ absurd (ground (arith, end, e))
    | inr more ↦ let (_, same) = again-injective (rw more at e) in omega (arith, ap size same)
  ]
  turn-size-lt n s (panicked c) s' c' h e = cc
  turn-size-lt n s (waiting c) s' c' h e = cc

  next_round-is_over :
      (rest : S → Conn → Turn S R) (t : Turn S R)
      → ((s : S) (c : Conn) → t ≡ again s c → is_over (rest s c) ≡ true)
      → is_over (next_round rest t) ≡ true
  next_round-is_over rest (again s c) h = h s c refl
  next_round-is_over rest (ended r s c) h = refl
  next_round-is_over rest (crashed s c) h = refl
  next_round-is_over rest (blocked s c) h = refl

  -- As many rounds as there are bytes and failures on the connection, and one more, are enough.
  pub rounds-is_over :
      (codec : Codec) (n : ℕ) (s : S) (c : Conn)
      → size c < n
      → is_over (rounds codec l n s c) ≡ true
  unfolding rounds
  rounds-is_over codec zero s c h = elim h [ ]
  rounds-is_over codec (suc n) s c h =
      next_round-is_over _ (turn l s (get_message_from_socket codec c)) λ s' c' e.
        let less : size c' < size c =
          turn-size-lt (size c) s _ s' c' (get_message_from_socket-HasProgressed codec c) e in
        rounds-is_over codec n s' c' (omega arith)
