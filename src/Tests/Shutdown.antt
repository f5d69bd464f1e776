-- ===== src/Tests/Shutdown.antt =====
-- The wait group of the bridge at concrete inputs.
use comfoconnectbridge.Prelude.{◌≤◌, ◌≡◌, refl, arith, true, false}
use comfoconnectbridge.Proxy.Shutdown.{
  Group, started, keep_alive_stops, keep_alive_done, accepts, client_lost, cancels, stops, Crashes,
  Turned, Turns, still, then_turn,
}
use comfoconnectbridge.Proxy.Shutdown.Ends.{running, not-Crashes}
use comfoconnectbridge.Proxy.Shutdown.Panics.{Turns-Crashes}

-- The client loses its connection, the context is done, and the keep-alive loop ends.
abbrev deserted : Group
deserted = record started { stopping = true; client = false; keep_alive = false; counter = 2 }

abbrev deserted_before : Group
deserted_before = record started { stopping = true; client = false }

deserted_before-deserted : Turned deserted_before deserted
deserted_before-deserted =
    stops (keep_alive_stops deserted_before) deserted refl (keep_alive_done refl) refl

started-deserted : Turns started deserted
started-deserted =
    then_turn (then_turn (then_turn still (client_lost refl)) cancels) deserted_before-deserted

not-Crashes_example : (running deserted ≤ 2) × ¬ Crashes deserted
not-Crashes_example = not-Crashes started-deserted refl

-- One app has connected when the context is done.
abbrev visited : Group
visited = record started { stopping = true; handlers = 1; readers = 1; main_loops = 1 }

started-visited : Turns started visited
started-visited = then_turn (then_turn still (accepts refl)) cancels

Turns-Crashes_example : (visited.listener ≡ true) × (g' : Group) × Turns visited g' × Crashes g'
Turns-Crashes_example = Turns-Crashes started-visited refl (omega arith)
