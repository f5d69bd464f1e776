-- ===== src/Dumbproxy/System/Bounds.antt =====
-- How much the dumb proxy keeps of what it passes on.
use comfoconnectbridge.Prelude.{
  suc, ◌≤◌, ◌≡◌, sym, ap, ◌∙◌, arith, List, [], ◌∷◌, length, length-append,
}
use comfoconnectbridge.Go.Conn.{Conn}
use comfoconnectbridge.Proto.Codec.{Codec}
use comfoconnectbridge.Comfoconnect.Message.{Message}
use comfoconnectbridge.Comfoconnect.Receive.Parsed.{get_message_from_socket_returned}
use comfoconnectbridge.Dumbproxy.{pass_on}
use comfoconnectbridge.Dumbproxy.System.{
  capacity, Way, Pair, Move, takes, fails, puts, sends, outward, inward, Run, here, next,
}
use comfoconnectbridge.Dumbproxy.System.Effects.{pass_on-encode}

-- At most a full channel, and one message that waits for room in it.
pub record IsBounded (w : Way) : Type 0 where
  pub channel_fits : length w.channel ≤ capacity
  pub held_fits : length w.held ≤ 1

module _ (codec : Codec) where
  Move-IsBounded :
      {from to a g : Conn} {w w' : Way} {ms : List Message}
      → Move codec from w to ms a w' g
      → IsBounded w
      → IsBounded w'
  Move-IsBounded {from = from} (takes m c c' bs e1 e2 e3) h =
      let r = (get_message_from_socket_returned codec from m c e2).parsed in
      let (b, e, one, same) =
        pass_on-encode codec m r.type c c' bs
          (ap (λ t. pass_on codec [] m t c) (sym r.type_set) ∙ e3) in
      record { channel_fits = h.channel_fits; held_fits = rw one (omega arith) }
  Move-IsBounded (fails f c e1 e2 e3) h = h
  Move-IsBounded {w = w} (puts b e1 e2) h = record {
    channel_fits = omega (arith, e2, length-append w.channel (b ∷ []));
    held_fits = omega arith;
  }
  Move-IsBounded {w = w} (sends b q e1) h =
      let n : length w.channel ≡ suc (length q) = ap length e1 in
      let fits = h.channel_fits in record { channel_fits = omega arith; held_fits = h.held_fits }

  pub Run-to_gateway :
      {p p' : Pair} {asked told : List Message}
      → Run codec p asked told p'
      → IsBounded p.to_gateway
      → IsBounded p'.to_gateway
  Run-to_gateway here h = h
  Run-to_gateway (next run (outward move)) h = Move-IsBounded move (Run-to_gateway run h)
  Run-to_gateway (next run (inward move)) h = Run-to_gateway run h

  Run-to_app :
      {p p' : Pair} {asked told : List Message}
      → Run codec p asked told p'
      → IsBounded p.to_app
      → IsBounded p'.to_app
  Run-to_app here h = h
  Run-to_app (next run (outward move)) h = Run-to_app run h
  Run-to_app (next run (inward move)) h = Move-IsBounded move (Run-to_app run h)

  -- However its goroutines take turns, the dumb proxy keeps at most 100 encoded messages in each of its two
  -- channels and one more for each that waits for room there, if it did at the start.
  pub Run-IsBounded :
      {p p' : Pair} {asked told : List Message}
      → Run codec p asked told p'
      → IsBounded p.to_gateway
      → IsBounded p.to_app
      → IsBounded p'.to_gateway × IsBounded p'.to_app
  Run-IsBounded run out into = (Run-to_gateway run out, Run-to_app run into)
