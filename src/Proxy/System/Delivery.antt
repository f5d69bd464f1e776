-- ===== src/Proxy/System/Delivery.antt =====
-- The way of a message through the bridge, from the gateway's socket to the apps'.
use comfoconnectbridge.Prelude.{◌≡◌, true, false, Option, some, List, [], ◌∷◌, ◌++◌, map, All}
use comfoconnectbridge.Gauge.{Metric}
use comfoconnectbridge.Go.Errors.{value}
use comfoconnectbridge.Go.Binary.{Bytes}
use comfoconnectbridge.Go.Conn.{Conn}
use comfoconnectbridge.Proto.Enums.{OperationType}
use comfoconnectbridge.Proto.Codec.{Codec}
use comfoconnectbridge.Comfoconnect.Message.{Message, pack_message}
use comfoconnectbridge.Comfoconnect.Rounds.Delivers.{Letter, as_received, IsFit}
use comfoconnectbridge.Proxy.{App, masquerade, generate_metrics}
use comfoconnectbridge.Proxy.System.{Handler, Bridge}

-- The gateway is connected, `Client.Run` is not in `Receive` and has nothing to send, and no message waits
-- for the apps or at `Proxy.Run`.
pub record IsReady (b : Bridge) : Type 0 where
  pub up : b.connected ≡ true
  pub not_listening : b.listening ≡ false
  pub none_received : b.received ≡ []
  pub none_forwarded : b.forwarded ≡ []
  pub none_waiting : b.client_to_gateway ≡ []
  pub none_left : b.from_gateway ≡ []

-- No write to an app fails.
abbrev pub AllFine : List Handler → Type 0
AllFine hs = All (λ h. h.app.conn.writes ≡ []) hs

module _ (codec : Codec) where
  -- A letter that fits a frame, is read back by the protobuf library, has a type, and can be measured.
  pub record CanPass (l : Letter) : Type 0 where
    pub fit : IsFit codec l
    pub type : OperationType
    pub type_set : l.message.operation.type ≡ some type
    pub metric : Option Metric
    pub measured : generate_metrics (as_received codec l) ≡ value metric

  -- The frame of a letter as it is copied to an app with the UUID `to`.
  abbrev pub copy : Bytes → Bytes → Letter → Bytes
  copy uuid to l =
      pack_message codec (masquerade uuid to (as_received codec l)) l.message.operation l.payload

  abbrev with_sent : App → List Bytes → App
  with_sent a bs = record a { conn = record a.conn { sent = a.conn.sent ++ bs } }

  -- The handler when the letters are written to its app.
  abbrev pub with_copies : Bytes → List Letter → Handler → Handler
  with_copies uuid ls h = record h { app = with_sent h.app (map (copy uuid h.app.uuid) ls) }

  -- The apps when the letter is written to each.
  abbrev all_sent : Bytes → Letter → List Handler → List App
  all_sent uuid l hs = map (λ h. with_sent h.app (copy uuid h.app.uuid l ∷ [])) hs
