-- ===== src/Dumbproxy/System.antt =====
-- pkg/dumbproxy/dumbproxy.go: the four goroutines that `Run` starts for an app, and the loop of `Run`.
pub mod Effects
pub mod Order
pub mod Reading
pub mod Bounds
pub mod Draining
pub mod Transparent
pub mod Back
pub mod Cancelled
use comfoconnectbridge.Prelude.{
  ℕ, zero, suc, ◌<◌, ◌≡◌, Bool, true, false, if◌then◌else◌, Option, none, some, List, [], ◌∷◌, ◌++◌,
  length,
}
use comfoconnectbridge.Go.Errors.{cause, is_eof, Go, value, panic, and_then}
use comfoconnectbridge.Go.Binary.{Bytes}
use comfoconnectbridge.Go.Conn.{Conn, returned, failed, write}
use comfoconnectbridge.Proto.Codec.{Codec}
use comfoconnectbridge.Comfoconnect.Message.{Message}
use comfoconnectbridge.Comfoconnect.Receive.{Failure, get_message_from_socket}
use comfoconnectbridge.Comfoconnect.Rounds.{again}
use comfoconnectbridge.Dumbproxy.{pass_on}

-- `make(chan []byte, 100)`.
abbrev pub capacity : ℕ
capacity = 100

-- The way from one peer to the other: what is in the channel, and what `proxyReceiveMessage` has encoded
-- and not put there yet, since the channel is full.
pub record Way : Type 0 where
  pub channel : List Bytes
  pub held : List Bytes

-- An app and the connection to the gateway dialled for it, with `listenerChan` (to the gateway) and
-- `gatewayChannel` (to the app).
pub record Pair : Type 0 where
  pub app : Conn
  pub gateway : Conn
  pub to_gateway : Way
  pub to_app : Way

abbrev pub empty_way : Way
empty_way = record { channel = []; held = [] }

abbrev pub fresh_pair : Conn → Conn → Pair
fresh_pair a g = record { app = a; gateway = g; to_gateway = empty_way; to_app = empty_way }

-- `Run`: the counter of the wait group, and the pairs that it has started.
pub record Running : Type 0 where
  pub counter : ℕ
  pub pairs : List Pair

abbrev pub done_once : ℕ → Running → Go Running
done_once zero r = panic
done_once (suc n) r = value (record r { counter = n })

-- What a round of the loop of `Run` meets: whether the context is cancelled, the connection that Accept
-- returns (none where it or SetDeadline fails), and the one that Dial does.
pub record Offer : Type 0 where
  pub cancelled : Bool
  pub accepted : Option Conn
  pub dialled : Option Conn

abbrev connected : Option Conn → Option Conn → Running → Go Running
connected none dialled r = value r
connected (some a) none r = panic
connected (some a) (some g) r = value (record r { pairs = r.pairs ++ (fresh_pair a g ∷ []) })

-- At a cancelled context the loop calls `wg.Done` and goes on; where it cannot dial it panics.
unfoldable pub run_round : Offer → Running → Go Running
run_round o r = if o.cancelled then done_once r.counter r else connected o.accepted o.dialled r

-- Rounds of the loop, which has no other end.
unfoldable pub run_rounds : List Offer → Running → Go Running
unfolding run_round
run_rounds [] r = value r
run_rounds (o ∷ os) r = and_then (run_round o r) λ r'. run_rounds os r'

module _ (codec : Codec) where
  -- One turn of `proxyReceiveMessage` on `from` or of `proxySend` on `to`, with the messages received in
  -- it. A turn that panics, or that sees the end of the connection, ends the process and is not listed.
  pub data Move (from : Conn) (w : Way) (to : Conn)
      : List Message → Conn → Way → Conn → Type 0 where
    takes :
        (m : Message) (c c' : Conn) (bs : List Bytes)
        → w.held ≡ []
        → get_message_from_socket codec from ≡ returned m c
        → pass_on codec [] m m.operation.type c ≡ again bs c'
        → Move from w to (m ∷ []) c' (record w { held = bs }) to
    fails :
        (f : Failure) (c : Conn)
        → w.held ≡ []
        → get_message_from_socket codec from ≡ failed f c
        → is_eof (cause f.error) ≡ false
        → Move from w to [] c w to
    puts :
        (b : Bytes)
        → w.held ≡ b ∷ []
        → length w.channel < capacity
        → Move from w to [] from (record { channel = w.channel ++ (b ∷ []); held = [] }) to
    sends :
        (b : Bytes) (q : List Bytes)
        → w.channel ≡ b ∷ q
        → Move from w to [] from (record w { channel = q }) (write b to).1

  -- One turn of one of the four goroutines, with the messages received from the app and from the gateway.
  pub data Step (p : Pair) : List Message → List Message → Pair → Type 0 where
    outward :
        {ms : List Message} {a g : Conn} {w : Way}
        → Move p.app p.to_gateway p.gateway ms a w g
        → Step p ms [] (record p { app = a; gateway = g; to_gateway = w })
    inward :
        {ms : List Message} {a g : Conn} {w : Way}
        → Move p.gateway p.to_app p.app ms g w a
        → Step p [] ms (record p { app = a; gateway = g; to_app = w })

  -- Turns in a row, with all that was received from the app and from the gateway in them.
  pub data Run (p : Pair) : List Message → List Message → Pair → Type 0 where
    here : Run p [] [] p
    next :
        {asked told asked' told' : List Message} {p1 p2 : Pair}
        → Run p asked told p1
        → Step p1 asked' told' p2
        → Run p (asked ++ asked') (told ++ told') p2
