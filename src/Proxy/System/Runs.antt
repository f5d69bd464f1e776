-- ===== src/Proxy/System/Runs.antt =====
-- Turns after turns.
use comfoconnectbridge.Prelude.{sym, List, ◌++◌, append-nil, append_assoc}
use mathlib.Core.Path.{subst}
use comfoconnectbridge.Proto.Codec.{Codec}
use comfoconnectbridge.Comfoconnect.Message.{Message}
use comfoconnectbridge.Proxy.System.{Bridge, Run, here, next}

module _ (codec : Codec) where
  pub Run-append :
      {b b1 b2 : Bridge} {asked more : List Message}
      → Run codec b asked b1
      → Run codec b1 more b2
      → Run codec b (asked ++ more) b2
  Run-append {b = b} {b1 = b1} {asked = asked} run here =
      subst (λ l. Run codec b l b1) (sym (append-nil asked)) run
  Run-append {b = b} {asked = asked} run (next {asked = more} {out = out} {b2 = b2} later step) =
      subst (λ l. Run codec b l b2) (append_assoc asked more out) (next (Run-append run later) step)
