-- ===== src/Tests/Pairs.antt =====
-- The dumb proxy between an app and the gateway at concrete inputs.
use comfoconnectbridge.Prelude.{◌≡◌, refl, true, none, some, List, [], ◌∷◌, ◌++◌, map, length, ltb}
use comfoconnectbridge.Go.Binary.{Bytes}
use comfoconnectbridge.Comfoconnect.Rpdo.Values.{is_panic}
use comfoconnectbridge.Comfoconnect.Message.{Message}
use comfoconnectbridge.Comfoconnect.Socket.Stream.{end, all_bytes, items}
use comfoconnectbridge.Comfoconnect.Rounds.Delivers.{Letter, packed, stream, as_received}
use comfoconnectbridge.Dumbproxy.System.{Pair, Offer, fresh_pair, empty_way, run_rounds, Run}
use comfoconnectbridge.Dumbproxy.System.Effects.{on_way}
use comfoconnectbridge.Dumbproxy.System.Draining.{letters_passed}
use comfoconnectbridge.Dumbproxy.System.Transparent.{Run-packed, Run-all_packed}
use comfoconnectbridge.Dumbproxy.System.Cancelled.{run_rounds-cancelled}
use comfoconnectbridge.Tests.Wire.{small_codec, conn_with}
use comfoconnectbridge.Tests.Letters.{time_letter-IsFit, start_letter-IsFit, two_letters}
use comfoconnectbridge.Tests.Loops.{
  letters, two_letters_inbox, start_letter-IsMeasured, time_letter-IsMeasured,
}

abbrev pair : Pair
pair = fresh_pair two_letters (conn_with [])

-- A run in which the goroutines pass on both messages.
passed :
    (p' : Pair) × Run small_codec pair (map (as_received small_codec) letters) [] p'
    × (p'.to_gateway ≡ empty_way)
passed =
    letters_passed small_codec letters pair
      (
        (start_letter-IsFit, start_letter-IsMeasured),
        ((time_letter-IsFit, time_letter-IsMeasured), tt),
      )
      refl two_letters_inbox

Run-packed_example :
    (received left : List Letter) × (written : List Bytes) × (letters ≡ received ++ left)
    × (passed.0.gateway.sent ≡ [] ++ written)
    × (written ++ on_way passed.0.to_gateway ≡ map (packed small_codec) received)
    × (items passed.0.app.inbox ≡ all_bytes (stream small_codec left) ++ (end ∷ []))
Run-packed_example =
    Run-packed small_codec letters (start_letter-IsFit, (time_letter-IsFit, tt)) two_letters_inbox
      refl refl passed.1

Run-all_packed_example :
    (p'' : Pair) × (rest : List Message) × Run small_codec passed.0 rest [] p''
    × (p''.gateway.sent ≡ [] ++ map (packed small_codec) letters)
Run-all_packed_example =
    Run-all_packed small_codec letters
      (
        (start_letter-IsFit, start_letter-IsMeasured),
        ((time_letter-IsFit, time_letter-IsMeasured), tt),
      )
      two_letters_inbox refl refl passed.1

abbrev cancelled : Offer
cancelled = record { cancelled = true; accepted = some two_letters; dialled = none }

run_rounds-cancelled_example :
    is_panic (run_rounds (cancelled ∷ cancelled ∷ []) (record { counter = 1; pairs = pair ∷ [] }))
    ≡ ltb 1 (length (cancelled ∷ cancelled ∷ []))
run_rounds-cancelled_example =
    run_rounds-cancelled (cancelled ∷ cancelled ∷ []) (record { counter = 1; pairs = pair ∷ [] })
      (refl, (refl, tt))
