-- ===== src/Client/Replies.antt =====
-- How a client waits for what the gateway sends.
use comfoconnectbridge.Prelude.{
  ℕ, suc, ◌+◌, ◌-◌, ◌<◌, ◌≡◌, refl, sym, ap, ◌∙◌, arith, Bool, true, false, Option, some, List, [],
  ◌∷◌, ◌++◌, All, append_assoc, map-append, length,
}
use comfoconnectbridge.Go.Errors.{GoError, new_error, Go, value, panic, cause, is_eof}
use comfoconnectbridge.Go.Conn.{Conn, Outcome, returned, failed, panicked}
use comfoconnectbridge.Proto.Enums.{OperationType, type_text, is_name}
use comfoconnectbridge.Proto.Codec.{Codec}
use comfoconnectbridge.Gauge.{Metric}
use comfoconnectbridge.Comfoconnect.Message.{Message}
use comfoconnectbridge.Comfoconnect.Receive.{Failure, get_message_from_socket}
use comfoconnectbridge.Comfoconnect.Receive.Progress.{size}
use comfoconnectbridge.Comfoconnect.Receive.Quiet.{IsKept}
use comfoconnectbridge.Comfoconnect.Receive.Untyped.{get_message_from_socket_untyped}
use comfoconnectbridge.Comfoconnect.Socket.Stream.{Item, all_bytes, items}
use comfoconnectbridge.Comfoconnect.Rounds.{again, is_over, again-injective, rounds}
use comfoconnectbridge.Comfoconnect.Rounds.Ends.{rounds-is_over}
use comfoconnectbridge.Comfoconnect.Rounds.Delivers.{
  Letter, packed, stream, as_received, IsFit, get_message_from_socket_next,
}
use comfoconnectbridge.Client.{
  generate_metrics, measured, received, is_confirm, receive, confirmed, received_reply,
  wait_for_confirm, receive_loop, metered,
}

module _ (codec : Codec) where
  -- The letter has a type, which is that of the confirmation or not, and is measured without a panic.
  pub record IsReceived (confirm : Bool) (l : Letter) : Type 0 where
    pub type : OperationType
    pub metric : Option Metric
    pub type_set : l.message.operation.type ≡ some type
    pub named : is_name (type_text type) "CnRpdoConfirmType" ≡ confirm
    pub metered :
        generate_metrics (as_received codec l) (as_received codec l).operation.type ≡ value metric

  receive-received : (c : Conn) → receive codec c ≡ received (get_message_from_socket codec c)
  unfolding receive
  receive-received c = refl

  wait_for_confirm-received_reply :
      (n : ℕ) (c : Conn) {o : Outcome GoError Message}
      → receive codec c ≡ o
      → wait_for_confirm codec (suc n) c ≡ received_reply codec (λ x. wait_for_confirm codec n x) o
  unfolding wait_for_confirm
  wait_for_confirm-received_reply n c h =
      ap (received_reply codec (λ x. wait_for_confirm codec n x)) h

  -- One attempt takes one letter.
  wait_for_confirm_next :
      (n : ℕ) (c : Conn) (l : Letter) (r : List Item) (confirm : Bool)
      → IsFit codec l
      → IsReceived confirm l
      → items c.inbox ≡ all_bytes (packed codec l) ++ r
      → (c' : Conn) × (wait_for_confirm codec (suc n) c
          ≡ confirmed codec (λ x. wait_for_confirm codec n x) c' (value confirm))
        × (items c'.inbox ≡ r)
        × IsKept c c'
  wait_for_confirm_next n c l r confirm fit h q =
      let (c', e, q', kept) = get_message_from_socket_next codec c l r fit q in
      let got : receive codec c ≡ returned (as_received codec l) c' =
        receive-received c ∙ ap received e ∙ ap (measured (as_received codec l) c') h.metered in
      let rest = λ (x : Conn). wait_for_confirm codec n x in
      (
        c',
        wait_for_confirm-received_reply n c got
            ∙ ap (λ t. confirmed codec rest c' (is_confirm t)) h.type_set
            ∙ ap (λ b. confirmed codec rest c' (value b)) h.named,
        q',
        kept,
      )

  wait_for_confirm-stream :
      (ls : List Letter) (n : ℕ) (c : Conn) (r : List Item)
      → All (λ l. IsFit codec l × IsReceived false l) ls
      → items c.inbox ≡ all_bytes (stream codec ls) ++ r
      → (c' : Conn) × (wait_for_confirm codec (length ls + n) c ≡ wait_for_confirm codec n c')
        × (items c'.inbox ≡ r)
        × IsKept c c'
  wait_for_confirm-stream [] n c r h q =
      (c, ap (λ k. wait_for_confirm codec k c) (omega arith), q, (refl, refl))
  wait_for_confirm-stream (l ∷ ls) n c r ((fit, other), h) q =
      let (c1, e1, q1, kept1) =
        wait_for_confirm_next (length ls + n) c l _ false fit other
          (q ∙ simp (map-append, append_assoc)) in
      let (c2, e2, q2, kept2) = wait_for_confirm-stream ls n c1 r h q1 in
      (
        c2,
        ap (λ k. wait_for_confirm codec k c) (omega arith) ∙ e1 ∙ e2,
        q2,
        (kept2.0 ∙ kept1.0, kept2.1 ∙ kept1.1),
      )

  -- Up to nine other messages may come before the confirmation of a subscription: they are measured and
  -- taken off the connection, and the confirmation ends the waiting, with what follows it left. Nothing is
  -- written.
  pub wait_for_confirm_found :
      (ls : List Letter) (l : Letter) (c : Conn) (r : List Item)
      → length ls < 10
      → All (λ l. IsFit codec l × IsReceived false l) ls
      → IsFit codec l
      → IsReceived true l
      → items c.inbox ≡ all_bytes (stream codec ls) ++ (all_bytes (packed codec l) ++ r)
      → (c' : Conn) × (wait_for_confirm codec 10 c ≡ returned tt c')
        × (items c'.inbox ≡ r)
        × IsKept c c'
  wait_for_confirm_found ls l c r few others fit confirm q =
      let k : ℕ = 9 - length ls in
      let (c1, e1, q1, kept1) = wait_for_confirm-stream ls (suc k) c _ others q in
      let (c2, e2, q2, kept2) = wait_for_confirm_next k c1 l r true fit confirm q1 in
      (
        c2,
        ap (λ n. wait_for_confirm codec n c) (omega arith) ∙ e1 ∙ e2,
        q2,
        (kept2.0 ∙ kept1.0, kept2.1 ∙ kept1.1),
      )

  wait_for_confirm-none :
      (c : Conn)
      → wait_for_confirm codec 0 c ≡ failed (new_error "Failed to receive CnRpdoConfirm" []) c
  unfolding wait_for_confirm
  wait_for_confirm-none c = refl

  -- With ten other messages first the subscription fails, although its confirmation may come next.
  pub wait_for_confirm_missed :
      (ls : List Letter) (c : Conn) (r : List Item)
      → length ls ≡ 10
      → All (λ l. IsFit codec l × IsReceived false l) ls
      → items c.inbox ≡ all_bytes (stream codec ls) ++ r
      → (c' : Conn) × (wait_for_confirm codec 10 c
          ≡ failed (new_error "Failed to receive CnRpdoConfirm" []) c')
        × (items c'.inbox ≡ r)
  wait_for_confirm_missed ls c r ten others q =
      let (c1, e1, q1, _) = wait_for_confirm-stream ls 0 c r others q in
      (c1, ap (λ n. wait_for_confirm codec n c) (omega arith) ∙ e1 ∙ wait_for_confirm-none c1, q1)

  -- While a client waits for the confirmation of a subscription, every failure of GetMessageFromSocket but io.EOF makes it
  -- panic: `receive` hides the error, and the message that it returns has no type to look at.
  pub wait_for_confirm_panics :
      (n : ℕ) (c : Conn) (f : Failure) (c' : Conn)
      → get_message_from_socket codec c ≡ failed f c'
      → is_eof (cause f.error) ≡ false
      → wait_for_confirm codec (suc n) c ≡ panicked c'
  wait_for_confirm_panics n c f c' e other =
      let rest = λ (x : Conn). wait_for_confirm codec n x in
      let got : receive codec c ≡ returned f.message c' =
        receive-received c ∙ ap received e ∙ rw other refl in
      wait_for_confirm-received_reply n c got
      ∙ ap (λ t. confirmed codec rest c' (is_confirm t))
          (get_message_from_socket_untyped codec c f c' e)

  metered-inbox :
      (u : Unit {0}) (c : Conn) (g : Go (Option Metric)) (u' : Unit {0}) (c' : Conn)
      → metered codec u c g ≡ again u' c'
      → c'.inbox ≡ c.inbox
  metered-inbox u c (value x) u' c' h = let (_, e) = again-injective h in ap (λ x. x.inbox) (sym e)
  metered-inbox u c panic u' c' h = cc

  -- As many rounds as there are bytes and failures on the connection, and one more, are enough for the loop
  -- of a running session: by then it has returned, it has panicked, or it waits for input that has not
  -- come.
  pub receive_loop-is_over :
      (n : ℕ) (c : Conn) → size c < n → is_over (rounds codec (receive_loop codec) n tt c) ≡ true
  receive_loop-is_over n c h =
      rounds-is_over (receive_loop codec)
        (record {
          serves = λ u m c u' c' e. metered-inbox u c (generate_metrics m m.operation.type) u' c' e;
        })
        codec n tt c h
