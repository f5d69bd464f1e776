-- ===== src/Proxy/Shutdown.antt =====
-- pkg/proxy and the keep-alive loop of pkg/comfoconnect/session.go: the wait group of the bridge from
-- the start of its goroutines to the end of `Proxy.Run`. A turn is one pass of one goroutine's loop;
-- what it does to messages is left out.
pub mod Ends
pub mod Panics
use comfoconnectbridge.Prelude.{ℕ, zero, suc, ◌≡◌, Bool, true, false}
use comfoconnectbridge.Go.Errors.{Go, value, panic, and_then}

-- `stopping`: the context is done. `client`, `keep_alive` and `listener`: the goroutine still runs.
-- `handlers`: the counter of the listener's own wait group, one for each connection accepted.
-- `readers` and `main_loops`: how many socket readers and main loops of `HandleConnection` run.
pub record Group : Type 0 where
  pub counter : ℕ
  pub stopping : Bool
  pub client : Bool
  pub keep_alive : Bool
  pub listener : Bool
  pub handlers : ℕ
  pub readers : ℕ
  pub main_loops : ℕ

-- After `Proxy.Run` has started the client and the listener, and `NewSession` the keep-alive loop: each
-- with one `Add`.
abbrev pub started : Group
started = record {
  counter = 3;
  stopping = false;
  client = true;
  keep_alive = true;
  listener = true;
  handlers = 0;
  readers = 0;
  main_loops = 0;
}

-- `wg.Done()`, which panics where the counter would become negative.
abbrev pub done : ℕ → Go ℕ
done zero = panic
done (suc n) = value n

-- The ends of the goroutines at a done context.
abbrev pub client_stops : Group → Go Group
client_stops g = and_then (done g.counter) λ n. value (record g { counter = n; client = false })

abbrev pub keep_alive_stops : Group → Go Group
keep_alive_stops g =
    and_then (done g.counter) λ n. value (record g { counter = n; keep_alive = false })

abbrev pub listener_stops : Group → Go Group
listener_stops g = and_then (done g.counter) λ n. value (record g { counter = n; listener = false })

abbrev pub reader_stops : Group → ℕ → Go Group
reader_stops g others =
    and_then (done g.counter) λ n. value (record g { counter = n; readers = others })

-- `HandleConnection` returns nil, so the goroutine of the connection calls it again, which starts a
-- socket reader and a main loop anew.
abbrev pub main_loop_stops : Group → Go Group
main_loop_stops g =
    and_then (done g.counter) λ n. value (record g { counter = n; readers = suc g.readers })

-- The listener has closed its socket and waits for the handlers before its `Done`.
pub data Stops (g : Group) : Go Group → Type 0 where
  client_done : g.client ≡ true → Stops g (client_stops g)
  keep_alive_done : g.keep_alive ≡ true → Stops g (keep_alive_stops g)
  listener_done : g.listener ≡ true → g.handlers ≡ 0 → Stops g (listener_stops g)
  reader_done : (others : ℕ) → g.readers ≡ suc others → Stops g (reader_stops g others)
  main_loop_done : (others : ℕ) → g.main_loops ≡ suc others → Stops g (main_loop_stops g)

-- One turn. The `_lost` turns are those that meet io.EOF: they end a goroutine without a `Done`.
pub data Turned (g : Group) : Group → Type 0 where
  accepts :
      g.listener ≡ true
      → Turned g (record g {
        handlers = suc g.handlers;
        readers = suc g.readers;
        main_loops = suc g.main_loops;
      })
  client_lost : g.client ≡ true → Turned g (record g { client = false })
  keep_alive_lost : g.keep_alive ≡ true → Turned g (record g { keep_alive = false })
  reader_lost : (others : ℕ) → g.readers ≡ suc others → Turned g (record g { readers = others })
  cancels : Turned g (record g { stopping = true })
  stops : (r : Go Group) (g' : Group) → g.stopping ≡ true → Stops g r → r ≡ value g' → Turned g g'

-- A turn that panics.
pub record Crashes (g : Group) : Type 0 where
  pub is_stopping : g.stopping ≡ true
  pub end : Go Group
  pub stopped : Stops g end
  pub panics : end ≡ panic

pub data Turns (g : Group) : Group → Type 0 where
  still : Turns g g
  then_turn : {g1 g2 : Group} → Turns g g1 → Turned g1 g2 → Turns g g2
