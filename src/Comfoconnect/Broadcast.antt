-- ===== src/Comfoconnect/Broadcast.antt =====
-- pkg/comfoconnect/broadcastListener.go: the answers to the broadcasts by which apps find a gateway.
pub mod Discovery
use comfoconnectbridge.Prelude.{◌≡◌, String, Bool, false, Option, none, some, List, [], ◌∷◌}
use comfoconnectbridge.Go.Errors.{GoError, wrapped, Go}
use comfoconnectbridge.Go.Binary.{Bytes}
use comfoconnectbridge.Server.{Server, Again, Run, stop}
use comfoconnectbridge.Proto.Codec.{Codec}
use comfoconnectbridge.Comfoconnect.Message.{create_search_gateway_response}

pub record BroadcastListener : Type 0 where
  pub response_ip : String
  pub my_uuid : Option Bytes

-- A datagram that is written: the address and the bytes.
pub record Reply : Type 0 where
  pub address : String
  pub content : Bytes

-- The goroutine of a datagram calls `handleConnection` once.
abbrev pub goes_on : Again
goes_on r = false

-- `Stop` up to its wait.
abbrev pub stop_server : Server → Go Server
stop_server = stop

module _ (codec : Codec) (l : BroadcastListener) where
  -- What `handleConnection` writes.
  unfoldable pub reply_to : String → Reply
  unfolding create_search_gateway_response
  reply_to address = record {
    address = address;
    content = create_search_gateway_response codec l.response_ip l.my_uuid;
  }

  -- The result of `handleConnection`, given that of its write.
  abbrev pub handle_connection : Option GoError → Option GoError
  handle_connection none = none
  handle_connection (some e) = some (wrapped "responding to SearchGatewayRequest" e)

  -- The results with which a call of `handleConnection` can return.
  abbrev pub Returned : Option GoError → Type 0
  Returned r = (e : Option GoError) × (r ≡ handle_connection e)

  -- `Run`: the turns of its loop and of its handlers, and the calls of `Stop`.
  abbrev pub Runs : Server → List (Option GoError) → Server → Type 0
  Runs = Run goes_on Returned
