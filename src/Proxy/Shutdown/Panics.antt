-- ===== src/Proxy/Shutdown/Panics.antt =====
-- The wait group of the bridge where an app has connected.
use comfoconnectbridge.Prelude.{ℕ, zero, suc, ◌-◌, ◌≤◌, ◌≡◌, refl, ap, arith, true, false}
use mathlib.Core.Path.{subst}
use comfoconnectbridge.Go.Errors.{Go, value}
use comfoconnectbridge.Proxy.Shutdown.{
  Group, started, Stops, client_done, keep_alive_done, listener_done, reader_done, main_loop_done,
  main_loop_stops, Turned, accepts, client_lost, keep_alive_lost, reader_lost, cancels, stops,
  Crashes, Turns, still, then_turn,
}
use comfoconnectbridge.Proxy.Shutdown.Ends.{done-value}

-- Each connection keeps its main loop, and the listener waits for the first.
abbrev IsHeld : Group → Type 0
IsHeld g = (g.main_loops ≡ g.handlers) × (1 ≤ g.handlers → g.listener ≡ true)

Stops-IsHeld :
    {g : Group} {r : Go Group} (g' : Group) → Stops g r → r ≡ value g' → IsHeld g → IsHeld g'
Stops-IsHeld {g = g} g' (client_done up) e h =
    let (n, ec, eg) = done-value g.counter g' (λ n. record g { counter = n; client = false }) e in
    subst IsHeld eg h
Stops-IsHeld {g = g} g' (keep_alive_done up) e h =
    let (n, ec, eg) =
      done-value g.counter g' (λ n. record g { counter = n; keep_alive = false }) e in
    subst IsHeld eg h
Stops-IsHeld {g = g} g' (listener_done up none_left) e h =
    let (n, ec, eg) = done-value g.counter g' (λ n. record g { counter = n; listener = false }) e in
    subst IsHeld eg (h.0, λ some_left. absurd (omega arith))
Stops-IsHeld {g = g} g' (reader_done others some_left) e h =
    let (n, ec, eg) = done-value g.counter g' (λ n. record g { counter = n; readers = others }) e in
    subst IsHeld eg h
Stops-IsHeld {g = g} g' (main_loop_done others some_left) e h =
    let (n, ec, eg) =
      done-value g.counter g' (λ n. record g { counter = n; readers = suc g.readers }) e in
    subst IsHeld eg h

Turned-IsHeld : {g g' : Group} → Turned g g' → IsHeld g → IsHeld g'
Turned-IsHeld (accepts up) h = (ap (λ n. suc n) h.0, λ some_left. up)
Turned-IsHeld (client_lost up) h = h
Turned-IsHeld (keep_alive_lost up) h = h
Turned-IsHeld (reader_lost others e) h = h
Turned-IsHeld cancels h = h
Turned-IsHeld (stops r g' s k e) h = Stops-IsHeld g' k e h

Turns-IsHeld : {g : Group} → Turns started g → IsHeld g
Turns-IsHeld still = (refl, λ some_left. absurd (omega arith))
Turns-IsHeld (then_turn turns turn) = Turned-IsHeld turn (Turns-IsHeld turns)

Turns-after : {g g1 g2 : Group} → Turned g g1 → Turns g1 g2 → Turns g g2
Turns-after turn still = then_turn still turn
Turns-after turn (then_turn turns later) = then_turn (Turns-after turn turns) later

-- The main loop of the app calls `Done` until the counter is used up.
main_loop-Crashes :
    (c : ℕ) (g : Group) (others : ℕ)
    → g.counter ≡ c
    → g.stopping ≡ true
    → g.main_loops ≡ suc others
    → (g' : Group) × Turns g g' × Crashes g'
main_loop-Crashes zero g others ec stopping some_left = (
  g,
  still,
  record {
    is_stopping = stopping;
    end = main_loop_stops g;
    stopped = main_loop_done others some_left;
    panics = rw ec refl;
  },
)
main_loop-Crashes (suc c) g others ec stopping some_left =
    let g1 = record g { counter = c; readers = suc g.readers } in
    let (g', turns, crash) = main_loop-Crashes c g1 others refl stopping some_left in
    let turn : Turned g g1 =
      stops (main_loop_stops g) g1 stopping (main_loop_done others some_left) (rw ec refl) in
    (g', Turns-after turn turns, crash)

-- Once an app has connected, the listener never calls its `Done`, and from every state in which the
-- bridge shuts down its goroutines can go on to a panic of the wait group.
pub Turns-Crashes :
    {g : Group}
    → Turns started g
    → g.stopping ≡ true
    → 1 ≤ g.handlers
    → (g.listener ≡ true) × (g' : Group) × Turns g g' × Crashes g'
Turns-Crashes {g = g} turns stopping some_left =
    let (loops, held) = Turns-IsHeld turns in
    let (others, e) : (n : ℕ) × (g.main_loops ≡ suc n) = (g.main_loops - 1, omega arith) in
    let (g', later, crash) = main_loop-Crashes g.counter g others refl stopping e in
    (held some_left, g', later, crash)
