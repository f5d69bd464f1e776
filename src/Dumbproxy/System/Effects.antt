-- ===== src/Dumbproxy/System/Effects.antt =====
-- What a turn of the dumb proxy does to the messages on their way.
use comfoconnectbridge.Prelude.{
  ◌≡◌, refl, sym, ap, ◌∙◌, Option, some, List, [], ◌∷◌, ◌++◌, append-nil, map, map-append,
}
use mathlib.Core.Path.{subst}
use comfoconnectbridge.Go.Errors.{Go, value, panic, and_then}
use comfoconnectbridge.Go.Binary.{Bytes}
use comfoconnectbridge.Go.Conn.{Conn, returned}
use comfoconnectbridge.Go.Conn.Adds.{Adds, write-Adds}
use comfoconnectbridge.Proto.Enums.{OperationType}
use comfoconnectbridge.Proto.Codec.{Codec}
use comfoconnectbridge.Gauge.{Metric}
use comfoconnectbridge.Comfoconnect.Message.{Message, encode}
use comfoconnectbridge.Comfoconnect.Receive.{get_message_from_socket}
use comfoconnectbridge.Comfoconnect.Receive.Quiet.{IsKept, get_message_from_socket-IsKept}
use comfoconnectbridge.Comfoconnect.Receive.Parsed.{get_message_from_socket_returned}
use comfoconnectbridge.Comfoconnect.Receive.Keeps.{left}
use comfoconnectbridge.Comfoconnect.Rounds.{again, again-injective}
use comfoconnectbridge.Dumbproxy.{generate_metrics, passed_on, pass_on}
use comfoconnectbridge.Dumbproxy.System.{Way, Move, takes, fails, puts, sends}

-- The encoded messages on their way, oldest first.
abbrev pub on_way : Way → List Bytes
on_way w = w.channel ++ w.held

module _ (codec : Codec) where
  passed_on-value :
      (c c' : Conn) (g : Go Bytes) (bs : List Bytes)
      → passed_on codec [] c g ≡ again bs c'
      → (b : Bytes) × (g ≡ value b) × (bs ≡ b ∷ []) × (c' ≡ c)
  passed_on-value c c' (value b) bs h = let (e, k) = again-injective h in (b, refl, sym e, sym k)
  passed_on-value c c' panic bs h = cc

  measured_then-value :
      (g : Go (Option Metric)) (k : Go Bytes) (b : Bytes)
      → and_then g (λ x. k) ≡ value b
      → k ≡ value b
  measured_then-value (value x) k b h = h
  measured_then-value panic k b h = cc

  pub pass_on-encode :
      (m : Message) (t : OperationType) (c c' : Conn) (bs : List Bytes)
      → pass_on codec [] m (some t) c ≡ again bs c'
      → (b : Bytes) × (encode codec m ≡ value b) × (bs ≡ b ∷ []) × (c' ≡ c)
  unfolding pass_on
  pass_on-encode m t c c' bs h =
      let (b, e, one, same) = passed_on-value c c' _ bs h in
      (b, measured_then-value (generate_metrics m t) (encode codec m) b e, one, same)

  -- The encodings of messages.
  abbrev pub Encoded : List Message → List Bytes → Type 0
  Encoded ms bs = map (encode codec) ms ≡ map value bs

  pub Encoded-more :
      (ms : List Message) (bs : List Bytes) (m : Message) (b : Bytes)
      → Encoded ms bs
      → encode codec m ≡ value b
      → Encoded (ms ++ (m ∷ [])) (bs ++ (b ∷ []))
  Encoded-more ms bs m b h e =
      map-append (encode codec) ms (m ∷ [])
      ∙ ap (λ l. l ++ (encode codec m ∷ [])) h
      ∙ ap (λ g. map value bs ++ (g ∷ [])) e
      ∙ sym (map-append value bs (b ∷ []))

  -- What a turn does to what is on its way, and to the connection at its end.
  pub data Effect (w : Way) (to : Conn) (ms : List Message) (w' : Way) (to' : Conn) : Type 0 where
    brings :
        (m : Message) (b : Bytes)
        → ms ≡ m ∷ []
        → encode codec m ≡ value b
        → on_way w' ≡ on_way w ++ (b ∷ [])
        → to' ≡ to
        → Effect w to ms w' to'
    stays : ms ≡ [] → on_way w' ≡ on_way w → to' ≡ to → Effect w to ms w' to'
    gives : (b : Bytes) → ms ≡ [] → on_way w ≡ b ∷ on_way w' → Adds b to to' → Effect w to ms w' to'

  returned-IsKept :
      (c c' : Conn) (m : Message) → get_message_from_socket codec c ≡ returned m c' → IsKept c c'
  returned-IsKept c c' m h =
      subst (λ x. IsKept c (left x)) h (get_message_from_socket-IsKept codec c)

  pub Move-Effect :
      {from to a g : Conn} {w w' : Way} {ms : List Message}
      → Move codec from w to ms a w' g
      → IsKept from a × Effect w to ms w' g
  Move-Effect {from = from} {w = w} (takes m c c' bs e1 e2 e3) =
      let r = (get_message_from_socket_returned codec from m c e2).parsed in
      let (b, e, one, same) =
        pass_on-encode m r.type c c' bs (ap (λ t. pass_on codec [] m t c) (sym r.type_set) ∙ e3) in
      let way : w.channel ++ bs ≡ on_way w ++ (b ∷ []) =
        ap (λ h. w.channel ++ h) one
        ∙ ap (λ q. q ++ (b ∷ [])) (sym (ap (λ h. w.channel ++ h) e1 ∙ append-nil w.channel)) in
      (subst (IsKept from) (sym same) (returned-IsKept from c m e2), brings m b refl e way refl)
  Move-Effect {from = from} {w = w} (fails f c e1 e2 e3) = (
    subst (λ x. IsKept from (left x)) e2 (get_message_from_socket-IsKept codec from),
    stays refl refl refl,
  )
  Move-Effect {from = from} {w = w} (puts b e1 e2) =
      ((refl, refl), stays refl (append-nil _ ∙ ap (λ h. w.channel ++ h) (sym e1)) refl)
  Move-Effect {from = from} {to = to} {w = w} (sends b q e1) =
      ((refl, refl), gives b refl (ap (λ q. q ++ w.held) e1) (write-Adds b to))
