-- ===== src/Comfoconnect/Rounds.antt =====
-- The shape that the program's receiving loops share:
--   for { m, err := GetMessageFromSocket(conn); if err != nil { if errors.Cause(err) == io.EOF { return … }; continue }; … }
-- A loop is given by what it does with a message and by what it returns at the end of the connection.
pub mod Ends
pub mod Delivers
use comfoconnectbridge.Prelude.{ℕ, zero, suc, ◌≡◌, Bool, true, false, if◌then◌else◌}
use comfoconnectbridge.Go.Errors.{cause, is_eof}
use comfoconnectbridge.Go.Conn.{Conn, Outcome, returned, failed, panicked, waiting}
use comfoconnectbridge.Proto.Codec.{Codec}
use comfoconnectbridge.Comfoconnect.Message.{Message}
use comfoconnectbridge.Comfoconnect.Receive.{Failure, get_message_from_socket}

-- How a round ends: the loop goes on, returns, panics, or waits for input that never comes. `S` is what
-- the loop changes beside the connection that it reads.
pub data Turn (S R : Type 0) : Type 0 where
  again : S → Conn → Turn S R
  ended : R → S → Conn → Turn S R
  crashed : S → Conn → Turn S R
  blocked : S → Conn → Turn S R

pub record Loop (S R : Type 0) : Type 0 where
  pub on_message : S → Message → Conn → Turn S R
  pub on_end : Failure → R

module _ {S R : Type 0} where
  abbrev pub is_over : Turn S R → Bool
  is_over (again s c) = false
  is_over _ = true

  -- One result of the call: every error but io.EOF is only logged.
  unfoldable pub turn : Loop S R → S → Outcome Failure Message → Turn S R
  unfolding cause is_eof
  turn l s (returned m c) = l.on_message s m c
  turn l s (failed f c) = if is_eof (cause f.error) then ended (l.on_end f) s c else again s c
  turn l s (panicked c) = crashed s c
  turn l s (waiting c) = blocked s c

  abbrev pub next_round : (S → Conn → Turn S R) → Turn S R → Turn S R
  next_round rest (again s c) = rest s c
  next_round rest (ended r s c) = ended r s c
  next_round rest (crashed s c) = crashed s c
  next_round rest (blocked s c) = blocked s c

  -- At most `n` rounds; `again` means that the loop has not come to its end by then.
  unfoldable pub rounds : Codec → Loop S R → ℕ → S → Conn → Turn S R
  unfolding turn get_message_from_socket
  rounds codec l zero s c = again s c
  rounds codec l (suc n) s c =
      next_round (λ s' c'. rounds codec l n s' c') (turn l s (get_message_from_socket codec c))

  -- The loop reads by no other call.
  pub record IsServing (l : Loop S R) : Type 0 where
    pub serves :
        (s : S) (m : Message) (c : Conn) (s' : S) (c' : Conn)
        → l.on_message s m c ≡ again s' c'
        → c'.inbox ≡ c.inbox

  pub again-injective :
      {s s' : S} {c c' : Conn} → ◌≡◌ {A = Turn S R} (again s c) (again s' c') → (s ≡ s') × (c ≡ c')
  again-injective h = (cc, cc)
