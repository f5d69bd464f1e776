-- ===== src/Testproxy/Stopping.antt =====
-- Whether `Stop` of pkg/testproxy/testproxy.go returns.
use comfoconnectbridge.Prelude.{ℕ, ◌≤◌, ◌≡◌, ap, true, false, Option, none, List, [], ◌∷◌, All}
use comfoconnectbridge.Go.Errors.{GoError}
use comfoconnectbridge.Go.Conn.{Conn}
use comfoconnectbridge.Proto.Codec.{Codec}
use comfoconnectbridge.Server.{Server}
use comfoconnectbridge.Server.Stopping.{Run-IsBusy}
use comfoconnectbridge.Testproxy.{handle_client, served_result, goes_on, Runs}

module _ (codec : Codec) where
  -- A result of a call of `handleClient` that could dial the gateway.
  abbrev pub IsServed : Option GoError → Type 0
  IsServed r =
      (n : ℕ) × (conn : Conn) × (remote : Conn) × (r
        ≡ served_result (handle_client codec n none conn remote))

  IsServed-goes_on : (r : Option GoError) → IsServed r → goes_on r ≡ true
  unfolding handle_client
  IsServed-goes_on r (n, conn, remote, e) = ap goes_on e

  All-goes_on : (rs : List (Option GoError)) → All IsServed rs → All (λ r. goes_on r ≡ true) rs
  All-goes_on [] served = tt
  All-goes_on (r ∷ rs) (one, more) = (IsServed-goes_on r one, All-goes_on rs more)

  -- Once a client is connected, `Stop` does not return as long as the gateway can be dialled: every call
  -- of `handleClient` then returns nil, after which its goroutine calls it again.
  pub Runs-exited :
      {s s' : Server} {rs : List (Option GoError)}
      → Runs codec s rs s'
      → All IsServed rs
      → 1 ≤ s.handlers
      → s.exited ≡ false
      → s'.exited ≡ false
  Runs-exited {rs = rs} run served some_left open_still =
      (Run-IsBusy run (All-goes_on rs served) (some_left, open_still)).1
