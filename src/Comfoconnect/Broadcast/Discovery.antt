-- ===== src/Comfoconnect/Broadcast/Discovery.antt =====
-- The replies of the broadcast listener, and `DiscoverGateway` on them.
use comfoconnectbridge.Prelude.{
  ℕ, zero, suc, ◌+◌, ◌-◌, ◌≤◌, ◌≡◌, refl, ap, ◌∙◌, arith, String, none, some, [], ◌∷◌, ◌++◌, length,
  take, replicate,
}
use comfoconnectbridge.Go.Binary.{Bytes}
use comfoconnectbridge.Proto.Messages.{SearchGatewayResponse}
use comfoconnectbridge.Proto.Codec.{Codec}
use comfoconnectbridge.Comfoconnect.Message.{create_search_gateway_response}
use comfoconnectbridge.Comfoconnect.Session.{Datagrams, reply_bytes, found, discover_gateway}
use comfoconnectbridge.Comfoconnect.Broadcast.{BroadcastListener, reply_to}

-- What the protobuf library does with a search response: its marshal puts the bytes behind those given,
-- and its unmarshal has filled the UUID when it meets the zeros behind them.
pub record ReadsSearch (codec : Codec) : Type 0 where
  pub marshal_behind :
      (b : Bytes) (r : SearchGatewayResponse)
      → codec.marshal_search b r ≡ b ++ codec.marshal_search [] r
  pub uuid_back :
      (r : SearchGatewayResponse) (n : ℕ)
      → (codec.unmarshal_search (codec.marshal_search [] r ++ replicate n 0)).uuid ≡ r.uuid

more_zeros : (n : ℕ) → ◌≡◌ {A = Bytes} (0 ∷ replicate (n - 0) 0) (replicate (suc n - 0) 0)
more_zeros n =
    let e : n - 0 ≡ n = omega arith in let e' : suc n - 0 ≡ suc n = omega arith in rw (e, e') refl

take_padded :
    (n k : ℕ) (xs : Bytes)
    → length xs ≤ n
    → n ≤ length xs + k
    → take n (xs ++ replicate k 0) ≡ xs ++ replicate (n - length xs) 0
take_padded zero k [] h g = refl
take_padded zero k (x ∷ xs) h g = absurd (omega arith)
take_padded (suc n) zero [] h g = absurd (omega arith)
take_padded (suc n) (suc k) [] h g =
    ap (λ t. 0 ∷ t) (take_padded n k [] (omega arith) (omega arith)) ∙ more_zeros n
take_padded (suc n) k (x ∷ xs) h g =
    ap (λ t. x ∷ t)
      (take_padded n k xs (omega arith) (omega arith) ∙ ap (λ m. xs ++ replicate m 0) (omega arith))

module _ (codec : Codec) (l : BroadcastListener) where
  -- The message behind the two bytes of a reply.
  abbrev pub response : SearchGatewayResponse
  response = record { ipaddress = some l.response_ip; uuid = l.my_uuid; version = some 1 }

  -- The sockets work, and the reply is `b`.
  abbrev pub answered_by : Bytes → Datagrams
  answered_by b = record {
    resolve_error = none;
    dial_error = none;
    write_error = none;
    reply = reply_bytes b;
  }

  -- `handleConnection` replies to the address that a datagram came from, and by this reply DiscoverGateway
  -- finds the listener's UUID, if its sockets work, the reply fits its buffer of 1024 bytes and the
  -- protobuf library reads the response back.
  pub discover_gateway-reply_to :
      (address : String)
      → ReadsSearch codec
      → length (codec.marshal_search [] response) ≤ 1022
      → ((reply_to codec l address).address ≡ address)
        × (discover_gateway codec (answered_by (reply_to codec l address).content)
            ≡ found l.my_uuid)
  unfolding discover_gateway reply_to create_search_gateway_response
  discover_gateway-reply_to address reads small =
      let body = codec.marshal_search [] response in
      (
        refl,
        rw (reads.marshal_behind (0x12 ∷ 0x24 ∷ []) response) (
            ap found (
              ap (λ b. (codec.unmarshal_search b).uuid)
                (take_padded 1022 1024 body small (omega arith))
              ∙ reads.uuid_back response (1022 - length body))),
      )
