-- ===== src/Dumbproxy/System/Back.antt =====
-- The way back: the dumb proxy treats the gateway as it treats the app.
use comfoconnectbridge.Prelude.{◌≡◌, List, [], ◌∷◌, ◌++◌, map, All}
use comfoconnectbridge.Go.Binary.{Bytes}
use comfoconnectbridge.Proto.Codec.{Codec}
use comfoconnectbridge.Comfoconnect.Message.{Message}
use comfoconnectbridge.Comfoconnect.Socket.Stream.{end, all_bytes, items}
use comfoconnectbridge.Comfoconnect.Rounds.Delivers.{Letter, packed, stream, IsFit}
use comfoconnectbridge.Dumbproxy.Passes.{IsMeasured}
use comfoconnectbridge.Dumbproxy.System.{Pair, empty_way, Step, outward, inward, Run, here, next}
use comfoconnectbridge.Dumbproxy.System.Effects.{on_way}
use comfoconnectbridge.Dumbproxy.System.Transparent.{Run-packed, Run-all_packed}

-- The same pair with the app and the gateway in each other's place.
abbrev swapped : Pair → Pair
swapped p = record {
  app = p.gateway;
  gateway = p.app;
  to_gateway = p.to_app;
  to_app = p.to_gateway;
}

module _ (codec : Codec) where
  Step-swapped :
      {p p' : Pair} {asked told : List Message}
      → Step codec p asked told p'
      → Step codec (swapped p) told asked (swapped p')
  Step-swapped (outward move) = inward move
  Step-swapped (inward move) = outward move

  Run-swapped :
      {p p' : Pair} {asked told : List Message}
      → Run codec p asked told p'
      → Run codec (swapped p) told asked (swapped p')
  Run-swapped here = here
  Run-swapped (next run step) = next (Run-swapped run) (Step-swapped step)

  -- What is written to the app and what is on its way there are the frames of the messages received from
  -- the gateway, under the conditions of the other direction.
  pub Run-packed_back :
      {p p' : Pair} {asked told : List Message} (ls : List Letter)
      → All (IsFit codec) ls
      → items p.gateway.inbox ≡ all_bytes (stream codec ls) ++ (end ∷ [])
      → p.to_app ≡ empty_way
      → p.app.writes ≡ []
      → Run codec p asked told p'
      → (received left : List Letter) × (written : List Bytes) × (ls ≡ received ++ left)
        × (p'.app.sent ≡ p.app.sent ++ written)
        × (written ++ on_way p'.to_app ≡ map (packed codec) received)
        × (items p'.gateway.inbox ≡ all_bytes (stream codec left) ++ (end ∷ []))
  Run-packed_back ls fits h empty fine run = Run-packed codec ls fits h empty fine (Run-swapped run)

  -- From every state the goroutines can go on so that the frames of all the messages of the gateway are
  -- written to the app, under the conditions of the other direction.
  pub Run-all_packed_back :
      {p p' : Pair} {asked told : List Message} (ls : List Letter)
      → All (λ l. IsFit codec l × IsMeasured codec l) ls
      → items p.gateway.inbox ≡ all_bytes (stream codec ls) ++ (end ∷ [])
      → p.to_app ≡ empty_way
      → p.app.writes ≡ []
      → Run codec p asked told p'
      → (p'' : Pair) × (rest : List Message) × Run codec p' [] rest p''
        × (p''.app.sent ≡ p.app.sent ++ map (packed codec) ls)
  Run-all_packed_back ls good h empty fine run =
      let (p'', rest, more, e) = Run-all_packed codec ls good h empty fine (Run-swapped run) in
      (swapped p'', rest, Run-swapped more, e)
