-- ===== src/Proxy/Shutdown/Ends.antt =====
-- The wait group of the bridge where no app has connected.
use comfoconnectbridge.Prelude.{ℕ, zero, suc, ◌+◌, ◌≤◌, ◌≡◌, refl, ap, arith, Bool, true, false}
use mathlib.Core.Path.{subst}
use comfoconnectbridge.Go.Errors.{Go, value, panic, and_then}
use comfoconnectbridge.Proxy.Shutdown.{
  Group, started, done, Stops, client_done, keep_alive_done, listener_done, reader_done,
  main_loop_done, Turned, accepts, client_lost, keep_alive_lost, reader_lost, cancels, stops,
  Crashes, Turns, still, then_turn,
}

abbrev one_if : Bool → ℕ
one_if true = 1
one_if false = 0

-- The goroutines that still run, those of the apps aside.
abbrev pub running : Group → ℕ
running g = one_if g.client + one_if g.keep_alive + one_if g.listener

-- While no app has connected, each goroutine that runs is counted.
pub record IsCounted (g : Group) : Type 0 where
  pub no_readers : g.readers ≡ 0
  pub no_main_loops : g.main_loops ≡ 0
  pub counted : running g ≤ g.counter

abbrev IsCountedAlone : Group → Type 0
IsCountedAlone g = g.handlers ≡ 0 → IsCounted g

pub done-value :
    (c : ℕ) (g' : Group) (f : ℕ → Group)
    → and_then (done c) (λ n. value (f n)) ≡ value g'
    → (n : ℕ) × (c ≡ suc n) × (f n ≡ g')
done-value zero g' f h = cc
done-value (suc n) g' f h = (n, refl, cc)

done-panic : (c : ℕ) (f : ℕ → Group) → and_then (done c) (λ n. value (f n)) ≡ panic → c ≡ 0
done-panic zero f h = refl
done-panic (suc n) f h = cc

Stops-IsCountedAlone :
    {g : Group} {r : Go Group} (g' : Group)
    → Stops g r
    → r ≡ value g'
    → IsCountedAlone g
    → IsCountedAlone g'
Stops-IsCountedAlone {g = g} g' (client_done up) e h =
    let (n, ec, eg) = done-value g.counter g' (λ n. record g { counter = n; client = false }) e in
    subst IsCountedAlone eg λ z.
      let c = h z in
      let one : one_if g.client ≡ 1 = ap one_if up in
      record {
        no_readers = c.no_readers;
        no_main_loops = c.no_main_loops;
        counted = omega (arith, c.counted);
      }
Stops-IsCountedAlone {g = g} g' (keep_alive_done up) e h =
    let (n, ec, eg) =
      done-value g.counter g' (λ n. record g { counter = n; keep_alive = false }) e in
    subst IsCountedAlone eg λ z.
      let c = h z in
      let one : one_if g.keep_alive ≡ 1 = ap one_if up in
      record {
        no_readers = c.no_readers;
        no_main_loops = c.no_main_loops;
        counted = omega (arith, c.counted);
      }
Stops-IsCountedAlone {g = g} g' (listener_done up none_left) e h =
    let (n, ec, eg) = done-value g.counter g' (λ n. record g { counter = n; listener = false }) e in
    subst IsCountedAlone eg λ z.
      let c = h z in
      let one : one_if g.listener ≡ 1 = ap one_if up in
      record {
        no_readers = c.no_readers;
        no_main_loops = c.no_main_loops;
        counted = omega (arith, c.counted);
      }
Stops-IsCountedAlone {g = g} g' (reader_done others some_left) e h =
    let (n, ec, eg) = done-value g.counter g' (λ n. record g { counter = n; readers = others }) e in
    subst IsCountedAlone eg λ z. absurd (omega (arith, (h z).no_readers))
Stops-IsCountedAlone {g = g} g' (main_loop_done others some_left) e h =
    let (n, ec, eg) =
      done-value g.counter g' (λ n. record g { counter = n; readers = suc g.readers }) e in
    subst IsCountedAlone eg λ z. absurd (omega (arith, (h z).no_main_loops))

Turned-IsCountedAlone : {g g' : Group} → Turned g g' → IsCountedAlone g → IsCountedAlone g'
Turned-IsCountedAlone (accepts e) h z = absurd (omega arith)
Turned-IsCountedAlone (client_lost e) h z =
    let c = h z in
    record {
      no_readers = c.no_readers;
      no_main_loops = c.no_main_loops;
      counted = omega (arith, c.counted);
    }
Turned-IsCountedAlone (keep_alive_lost e) h z =
    let c = h z in
    record {
      no_readers = c.no_readers;
      no_main_loops = c.no_main_loops;
      counted = omega (arith, c.counted);
    }
Turned-IsCountedAlone (reader_lost others e) h z = absurd (omega (arith, (h z).no_readers))
Turned-IsCountedAlone cancels h z =
    let c = h z in
    record { no_readers = c.no_readers; no_main_loops = c.no_main_loops; counted = c.counted }
Turned-IsCountedAlone (stops r g' s k e) h z = Stops-IsCountedAlone g' k e h z

Turns-IsCountedAlone : {g : Group} → Turns started g → IsCountedAlone g
Turns-IsCountedAlone still =
    λ z. record { no_readers = refl; no_main_loops = refl; counted = omega arith }
Turns-IsCountedAlone (then_turn turns turn) =
    Turned-IsCountedAlone turn (Turns-IsCountedAlone turns)

IsCounted-Stops :
    {g : Group} {r : Go Group} → IsCounted g → Stops g r → r ≡ panic → g.handlers ≡ 0 → ⊥
IsCounted-Stops {g = g} c (client_done up) e z =
    let one : one_if g.client ≡ 1 = ap one_if up in
    omega (arith, c.counted, done-panic g.counter _ e)
IsCounted-Stops {g = g} c (keep_alive_done up) e z =
    let one : one_if g.keep_alive ≡ 1 = ap one_if up in
    omega (arith, c.counted, done-panic g.counter _ e)
IsCounted-Stops {g = g} c (listener_done up none_left) e z =
    let one : one_if g.listener ≡ 1 = ap one_if up in
    omega (arith, c.counted, done-panic g.counter _ e)
IsCounted-Stops c (reader_done others some_left) e z = omega (arith, c.no_readers)
IsCounted-Stops c (main_loop_done others some_left) e z = omega (arith, c.no_main_loops)

-- While no app has connected, every goroutine of the bridge that still runs is counted in the wait group,
-- so that `Proxy.Run` does not return before them, and no turn panics; also where goroutines ended at a
-- lost connection.
pub not-Crashes :
    {g : Group} → Turns started g → g.handlers ≡ 0 → (running g ≤ g.counter) × ¬ Crashes g
not-Crashes turns z =
    let c = Turns-IsCountedAlone turns z in
    (c.counted, λ crash. IsCounted-Stops c crash.stopped crash.panics z)
