-- ===== src/Client/Writes.antt =====
-- By how much an action of a client moves the reference on, and what it writes.
use comfoconnectbridge.Prelude.{
  ℕ, zero, suc, ◌+◌, ◌%◌, ◌^◌, ◌<◌, ◌≡◌, refl, sym, ap, ◌∙◌, arith, String, Bool, true, false,
  Option, none, some, List, [], ◌∷◌, ◌++◌, append_assoc, append-nil, Bool-cases, inl, inr,
}
use mathlib.Core.Path.{subst}
use comfoconnectbridge.Go.Errors.{GoError, Go, value, panic, cause, is_eof}
use comfoconnectbridge.Go.Binary.{Bytes}
use comfoconnectbridge.Go.Conn.{Conn, Outcome, returned, failed, panicked, waiting, M, map_error}
use comfoconnectbridge.Proto.Enums.{OperationType, type_text, is_name}
use comfoconnectbridge.Proto.Payload.{Payload}
use comfoconnectbridge.Proto.Codec.{Codec}
use comfoconnectbridge.Gauge.{Metric}
use comfoconnectbridge.Comfoconnect.Message.{Message, pack_message}
use comfoconnectbridge.Comfoconnect.Receive.{Failure, get_message_from_socket}
use comfoconnectbridge.Comfoconnect.Receive.Keeps.{left}
use comfoconnectbridge.Comfoconnect.Receive.Quiet.{get_message_from_socket-IsKept}
use comfoconnectbridge.Comfoconnect.Session.{expect_type, send_message, receive_message}
use comfoconnectbridge.Comfoconnect.Session.Handshake.{send_message-eq-returned}
use comfoconnectbridge.Client.Actions.{Action, continue, ◌>>=◌, on_conn, pure, next, with_reference}
use comfoconnectbridge.Client.{
  generate_metrics, measured, received, is_confirm, ask, receive, confirmed, received_reply,
  wait_for_confirm,
}

abbrev pub word : ℕ → ℕ
word n = n % 2 ^ 32

-- Run from the reference `r`, the action that returns has moved it on by `k` and has written `out`.
pub record Does {A : Type 0} (r : ℕ) (m : Action A) (k : ℕ) (out : List Bytes) : Type 0 where
  pub does :
      (c : Conn) (a : A) (r' : ℕ) (c' : Conn)
      → m r c ≡ (r', returned a c')
      → (r' ≡ word (r + k)) × (c'.sent ≡ c.sent ++ out)

continue-eq-returned :
    {A B P : Type 0} (o : ℕ × Outcome GoError A) (f : A → Action B) (b : B) (r' : ℕ) (c' : Conn)
    → continue o f ≡ (r', returned b c')
    → ((a : A) (r1 : ℕ) (c1 : Conn) → o ≡ (r1, returned a c1) → f a r1 c1 ≡ (r', returned b c') → P)
    → P
continue-eq-returned (r1, returned a c1) f b r' c' h k = k a r1 c1 refl h
continue-eq-returned (r1, failed e c1) f b r' c' h k = cc
continue-eq-returned (r1, panicked c1) f b r' c' h k = cc
continue-eq-returned (r1, waiting c1) f b r' c' h k = cc

pub bind-Does :
    {A B : Type 0} {r k1 k2 : ℕ} {out1 out2 : List Bytes} (m : Action A) (f : A → Action B)
    → Does r m k1 out1
    → ((a : A) → Does (word (r + k1)) (f a) k2 out2)
    → Does r (m >>= f) (k1 + k2) (out1 ++ out2)
bind-Does {A} {B} {r} {k1} {k2} {out1} {out2} m f h k = record {
  does = λ c b r' c' e. continue-eq-returned (m r c) f b r' c' e λ a r1 c1 e1 e2.
      let (q1, s1) = h.does c a r1 c1 e1 in
      let (q2, s2) = (k a).does c1 b r' c' (rw (← q1) e2) in
      (omega arith, s2 ∙ ap (λ s. s ++ out2) s1 ∙ append_assoc c.sent out1 out2);
}

pub with_reference-Does :
    {B : Type 0} {r k : ℕ} {out : List Bytes} (f : ℕ → Action B)
    → Does r (f r) k out
    → Does r (with_reference f) k out
unfolding with_reference
with_reference-Does f h = record { does = h.does }

pub recount :
    {A : Type 0} {r k k' : ℕ} {m : Action A} {out : List Bytes}
    → k ≡ k'
    → Does r m k out
    → Does r m k' out
recount {A} {r} {k} {k'} {m} {out} e h = subst (λ n. Does r m n out) e h

pub next-Does : (r : ℕ) → Does r next 1 []
unfolding next
next-Does r = record {
  does = λ c a r' c' e.
      let same : c ≡ c' = cc in
      let q : word (r + 1) ≡ r' = ap (λ x. x.0) e in
      (sym q, ap (λ x. x.sent) (sym same) ∙ sym (append-nil c.sent));
}

left-sent :
    {A : Type 0} (o : Outcome GoError A) (c c' : Conn) (a : A)
    → (left o).sent ≡ c.sent
    → o ≡ returned a c'
    → c'.sent ≡ c.sent ++ []
left-sent o c c' a h e = sym (ap (λ x. (left x).sent) e) ∙ h ∙ sym (append-nil c.sent)

-- A call that writes nothing.
pub quiet-Does :
    {A : Type 0} (r : ℕ) (m : M GoError A)
    → r < 2 ^ 32
    → ((c : Conn) → (left (m c)).sent ≡ c.sent)
    → Does r (on_conn m) 0 []
quiet-Does r m small h = record {
  does = λ c a r' c' e.
      let q : r ≡ r' = ap (λ x. x.0) e in
      (omega arith, left-sent (m c) c c' a (h c) (ap (λ x. x.1) e));
}

pub pure-Does : {A : Type 0} (r : ℕ) (a : A) → r < 2 ^ 32 → Does r (pure a) 0 []
pure-Does r a small = quiet-Does r (λ c. returned a c) small (λ c. refl)

pub expect_type-sent :
    (name : String) (t : Option OperationType) (c : Conn)
    → (left (expect_type name t c)).sent ≡ c.sent
expect_type-sent name none c = refl
expect_type-sent name (some t) c = elim (Bool-cases (is_name (type_text t) name)) [
  | inl e ↦ rw e refl
  | inr e ↦ rw e refl
]

map_error_sent :
    {E F A : Type 0} (f : E → F) (o : Outcome E A) (c : Conn)
    → (left (map_error f (λ c'. o) c)).sent ≡ (left o).sent
map_error_sent f (returned a c1) c = refl
map_error_sent f (failed e c1) c = refl
map_error_sent f (panicked c1) c = refl
map_error_sent f (waiting c1) c = refl

measured-sent :
    (m : Message) (c : Conn) (g : Go (Option Metric)) → (left (measured m c g)).sent ≡ c.sent
measured-sent m c (value x) = refl
measured-sent m c panic = refl

received-sent : (o : Outcome Failure Message) → (left (received o)).sent ≡ (left o).sent
received-sent (returned m c) = measured-sent m c (generate_metrics m m.operation.type)
received-sent (failed f c) = elim (Bool-cases (is_eof (cause f.error))) [
  | inl e ↦ rw e refl
  | inr e ↦ rw e refl
]
received-sent (panicked c) = refl
received-sent (waiting c) = refl

module _ (codec : Codec) where
  pub send-Does :
      (r : ℕ) (text : String) (m : Message) (p : Payload)
      → r < 2 ^ 32
      → m.operation_type ≡ some p
      → Does r (on_conn (send_message codec text m)) 0 (pack_message codec m m.operation p ∷ [])
  send-Does r text m p small hp = record {
    does = λ c u r' c' e.
        let q : r ≡ r' = ap (λ x. x.0) e in
        (omega arith, (send_message-eq-returned codec text m p c u c' hp (ap (λ x. x.1) e)).0);
  }

  receive_message-sent :
      (text : String) (c : Conn) → (left (receive_message codec text c)).sent ≡ c.sent
  unfolding receive_message
  receive_message-sent text c =
      let (s, _) = get_message_from_socket-IsKept codec c in
      map_error_sent _ (get_message_from_socket codec c) c ∙ s

  receive-sent : (c : Conn) → (left (receive codec c)).sent ≡ c.sent
  unfolding receive
  receive-sent c =
      let (s, _) = get_message_from_socket-IsKept codec c in
      received-sent (get_message_from_socket codec c) ∙ s

  received_reply-sent :
      (rest : M GoError (Unit {0})) (o : Outcome GoError Message)
      → ((c : Conn) → (left (rest c)).sent ≡ c.sent)
      → (left (received_reply codec rest o)).sent ≡ (left o).sent
  received_reply-sent rest (returned m c) h = confirmed_sent (is_confirm m.operation.type)
    where
      confirmed_sent : (g : Go Bool) → (left (confirmed codec rest c g)).sent ≡ c.sent
      confirmed_sent (value true) = refl
      confirmed_sent (value false) = h c
      confirmed_sent panic = refl
  received_reply-sent rest (failed e c) h = refl
  received_reply-sent rest (panicked c) h = refl
  received_reply-sent rest (waiting c) h = refl

  pub wait_for_confirm-sent : (n : ℕ) (c : Conn) → (left (wait_for_confirm codec n c)).sent ≡ c.sent
  unfolding wait_for_confirm
  wait_for_confirm-sent zero c = refl
  wait_for_confirm-sent (suc n) c =
      received_reply-sent _ (receive codec c) (wait_for_confirm-sent n) ∙ receive-sent c

  pub ask-Does :
      (r : ℕ) (send_text : String) (m : Message) (p : Payload) (receive_text name : String)
      → r < 2 ^ 32
      → m.operation_type ≡ some p
      → Does r (ask codec send_text m receive_text name) 1 (pack_message codec m m.operation p ∷ [])
  unfolding ask
  ask-Does r send_text m p receive_text name small hp =
      bind-Does _ _ (send-Does r send_text m p small hp) λ _. bind-Does next _ (next-Does _) λ _.
        bind-Does (on_conn (receive_message codec receive_text)) _
          (quiet-Does _ _ (omega arith) (receive_message-sent receive_text))
          λ answer. quiet-Does _ _ (omega arith) (expect_type-sent name answer.operation.type)
