-- ===== src/Client/Command.antt =====
-- cmd/client/client.go: the client that `main` runs.
pub mod Sensors
use comfoconnectbridge.Prelude.{ℕ, Option, none, some, List, [], ◌∷◌}
use comfoconnectbridge.Go.Errors.{GoError}
use comfoconnectbridge.Go.Binary.{Bytes, or_empty}
use comfoconnectbridge.Comfoconnect.Session.{
  Datagrams, Discovered, found, not_found, discover_gateway,
}
use comfoconnectbridge.Proto.Codec.{Codec}
use comfoconnectbridge.Client.{Sensor, Client}

abbrev pub sensor : ℕ → ℕ → Sensor
sensor ppid type = record { ppid = ppid; type = type }

-- The sensors that `main` subscribes to.
unfoldable pub command_sensors : List Sensor
command_sensors =
    sensor 16 1
    ∷ sensor 33 1
    ∷ sensor 37 1
    ∷ sensor 42 1
    ∷ sensor 49 1
    ∷ sensor 53 1
    ∷ sensor 56 1
    ∷ sensor 57 1
    ∷ sensor 58 1
    ∷ sensor 65 1
    ∷ sensor 66 1
    ∷ sensor 67 1
    ∷ sensor 70 1
    ∷ sensor 71 1
    ∷ sensor 73 1
    ∷ sensor 74 1
    ∷ sensor 81 3
    ∷ sensor 82 3
    ∷ sensor 85 3
    ∷ sensor 86 3
    ∷ sensor 87 3
    ∷ sensor 89 3
    ∷ sensor 90 3
    ∷ sensor 117 1
    ∷ sensor 118 1
    ∷ sensor 119 2
    ∷ sensor 120 2
    ∷ sensor 121 2
    ∷ sensor 122 2
    ∷ sensor 128 2
    ∷ sensor 129 2
    ∷ sensor 130 2
    ∷ sensor 144 2
    ∷ sensor 145 2
    ∷ sensor 146 2
    ∷ sensor 176 1
    ∷ sensor 192 2
    ∷ sensor 208 1
    ∷ sensor 209 6
    ∷ sensor 210 0
    ∷ sensor 211 0
    ∷ sensor 212 6
    ∷ sensor 213 2
    ∷ sensor 214 2
    ∷ sensor 215 2
    ∷ sensor 216 2
    ∷ sensor 217 2
    ∷ sensor 218 2
    ∷ sensor 219 2
    ∷ sensor 220 6
    ∷ sensor 221 6
    ∷ sensor 224 1
    ∷ sensor 225 1
    ∷ sensor 226 2
    ∷ sensor 227 1
    ∷ sensor 228 1
    ∷ sensor 230 8
    ∷ sensor 274 6
    ∷ sensor 275 6
    ∷ sensor 278 6
    ∷ sensor 290 1
    ∷ sensor 291 1
    ∷ sensor 292 1
    ∷ sensor 294 1
    ∷ sensor 321 2
    ∷ sensor 325 2
    ∷ sensor 330 2
    ∷ sensor 337 3
    ∷ sensor 338 3
    ∷ sensor 341 3
    ∷ sensor 345 3
    ∷ sensor 346 3
    ∷ sensor 369 1
    ∷ sensor 370 1
    ∷ sensor 371 1
    ∷ sensor 372 1
    ∷ sensor 384 6
    ∷ sensor 386 0
    ∷ sensor 400 6
    ∷ sensor 401 1
    ∷ sensor 402 0
    ∷ sensor 416 6
    ∷ sensor 417 6
    ∷ sensor 418 1
    ∷ sensor 419 0
    ∷ sensor 784 1
    ∷ sensor 802 6
    ∷ []

abbrev client_uuid : Bytes
client_uuid = 0 ∷ 0 ∷ 0 ∷ 0 ∷ 0 ∷ 37 ∷ 16 ∷ 16 ∷ 128 ∷ 1 ∷ 184 ∷ 39 ∷ 235 ∷ 249 ∷ 249 ∷ 18 ∷ []

-- The client with the UUID of the gateway.
unfoldable pub client_of : Option Bytes → Client
unfolding command_sensors
client_of uuid = record {
  gateway_uuid = or_empty uuid;
  device_name = "client";
  pin = 0;
  my_uuid = client_uuid;
  sensors = command_sensors;
}

-- `main` up to `c.Run`: no client if the gateway is not found, where `log.Fatalf` ends the process.
abbrev client_found : Discovered → Option Client
client_found (found uuid) = some (client_of uuid)
client_found (not_found e) = none

module _ (codec : Codec) where
  unfoldable pub main_client : Datagrams → Option Client
  unfolding discover_gateway client_of
  main_client u = client_found (discover_gateway codec u)
