-- ===== src/Tests/Search.antt =====
-- The search for a gateway at concrete inputs.
use comfoconnectbridge.Prelude.{
  ℕ, zero, suc, ◌≡◌, refl, ap, arith, Option, none, some, [], ◌∷◌, ◌++◌, length, take, replicate,
}
use comfoconnectbridge.Go.Binary.{Bytes}
use comfoconnectbridge.Proto.Codec.{Codec}
use comfoconnectbridge.Comfoconnect.Message.Layout.{take-append}
use comfoconnectbridge.Comfoconnect.Session.{found, discover_gateway}
use comfoconnectbridge.Comfoconnect.Broadcast.{BroadcastListener, reply_to}
use comfoconnectbridge.Comfoconnect.Broadcast.Discovery.{
  ReadsSearch, answered_by, discover_gateway-reply_to,
}
use comfoconnectbridge.Tests.Wire.{small_codec, gateway_uuid}

-- The UUID alone, behind one more than its length.
abbrev marshal_uuid : Option Bytes → Bytes
marshal_uuid none = 0 ∷ []
marshal_uuid (some u) = suc (length u) ∷ u

abbrev unmarshal_uuid : Bytes → Option Bytes
unmarshal_uuid [] = none
unmarshal_uuid (zero ∷ b) = none
unmarshal_uuid (suc n ∷ b) = some (take n b)

abbrev search_codec : Codec
search_codec = record small_codec {
  marshal_search = λ b r. b ++ marshal_uuid r.uuid;
  unmarshal_search = λ b. record { ipaddress = none; uuid = unmarshal_uuid b; version = none };
}

unmarshal_uuid-marshal_uuid :
    (u : Option Bytes) (n : ℕ) → unmarshal_uuid (marshal_uuid u ++ replicate n 0) ≡ u
unmarshal_uuid-marshal_uuid none n = refl
unmarshal_uuid-marshal_uuid (some u) n = ap some (take-append (length u) u (replicate n 0) refl)

search_codec-ReadsSearch : ReadsSearch search_codec
search_codec-ReadsSearch = record {
  marshal_behind = λ b r. refl;
  uuid_back = λ r n. unmarshal_uuid-marshal_uuid r.uuid n;
}

abbrev listener : BroadcastListener
listener = record { response_ip = "192.168.178.52"; my_uuid = some gateway_uuid }

discover_gateway-reply_to_example :
    ((reply_to search_codec listener "192.168.178.9").address ≡ "192.168.178.9")
    × (discover_gateway search_codec (
          answered_by search_codec listener
            (reply_to search_codec listener "192.168.178.9").content)
        ≡ found (some gateway_uuid))
discover_gateway-reply_to_example =
    discover_gateway-reply_to search_codec listener "192.168.178.9" search_codec-ReadsSearch
      (omega arith)
