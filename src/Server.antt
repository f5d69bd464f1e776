-- ===== src/Server.antt =====
-- The loop with the channels `quit` and `exited` that Run and Stop of pkg/mockLanC/mockLanC.go,
-- pkg/testproxy/testproxy.go and pkg/comfoconnect/broadcastListener.go share.
pub mod Stopping
use comfoconnectbridge.Prelude.{
  ℕ, zero, suc, ◌≡◌, Bool, true, false, if◌then◌else◌, Option, List, [], ◌∷◌, ◌++◌,
}
use comfoconnectbridge.Go.Errors.{GoError, Go, value, panic}

-- `quit` and `exited`: the channel is closed. `running`: `Run` has not returned. `closing`: it has seen
-- that `quit` is closed, and waits for the handlers. `handlers`: the counter of its wait group, one for
-- each goroutine that handles a connection or a datagram.
pub record Server : Type 0 where
  pub quit : Bool
  pub exited : Bool
  pub running : Bool
  pub closing : Bool
  pub handlers : ℕ

abbrev pub fresh : Server
fresh = record { quit = false; exited = false; running = true; closing = false; handlers = 0 }

-- `Stop` up to its wait for `exited`: closing a closed channel panics.
abbrev pub stop : Server → Go Server
stop s = if s.quit then panic else value (record s { quit = true })

-- Whether the goroutine of a handler goes on after a call of the handler.
abbrev pub Again : Type 0
Again = Option GoError → Bool

abbrev pub handlers_after : Again → Option GoError → ℕ → ℕ
handlers_after again r others = if again r then suc others else others

-- One turn of `Run`, of the goroutine of a handler or of a caller of `Stop`, with the results of the
-- calls of the handler in it, which are such that the handler returns (`Returns`); a handler whose call
-- does not return takes no turn. The loop looks at `quit` between two calls of Accept, so one more
-- connection may be accepted after `Stop`. Failures to accept change nothing.
pub data Step (again : Again) (Returns : Option GoError → Type 0) (s : Server)
    : List (Option GoError) → Server → Type 0 where
  accepts :
      s.running ≡ true
      → s.closing ≡ false
      → Step again Returns s [] (record s { handlers = suc s.handlers })
  serves :
      (others : ℕ) (r : Option GoError)
      → s.handlers ≡ suc others
      → Returns r
      → Step again Returns s (r ∷ []) (record s { handlers = handlers_after again r others })
  sees_quit :
      s.running ≡ true → s.quit ≡ true → Step again Returns s [] (record s { closing = true })
  exits :
      s.running ≡ true
      → s.closing ≡ true
      → s.handlers ≡ 0
      → Step again Returns s [] (record s { running = false; exited = true })
  stops : (s' : Server) → stop s ≡ value s' → Step again Returns s [] s'

pub data Run (again : Again) (Returns : Option GoError → Type 0) (s : Server)
    : List (Option GoError) → Server → Type 0 where
  here : Run again Returns s [] s
  next :
      {rs more : List (Option GoError)} {s1 s2 : Server}
      → Run again Returns s rs s1
      → Step again Returns s1 more s2
      → Run again Returns s (rs ++ more) s2
