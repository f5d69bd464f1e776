-- ===== src/Proxy/System/Following.antt =====
-- What the apps get of the gateway's messages, whatever the order of the goroutines.
use comfoconnectbridge.Prelude.{
  ◌≡◌, refl, sym, ap, ◌∙◌, List, [], ◌∷◌, ◌++◌, append-nil, append_assoc,
}
use mathlib.Core.Path.{subst}
use comfoconnectbridge.Proto.Codec.{Codec}
use comfoconnectbridge.Comfoconnect.Message.{Message}
use comfoconnectbridge.Proxy.System.{
  Handler, Bridge, accepted_app, with_apps, Step, accepts, serves, receives, delivers, copies, Run,
  here, next,
}
use comfoconnectbridge.Proxy.System.Order.{Run-Conveyed}
use comfoconnectbridge.Proxy.System.Copying.{
  Pairwise, Pairwise-refl, Pairwise-one, Pairwise-append_parts, left_alone, served, starts,
  moves_on, MovesHandler, FollowsHandler, forward_to_apps-Moves,
}

module _ {A : Type 0} where
  Pairwise-after :
      (R S T : A → A → Type 0)
      → ((x y z : A) → R x y → S y z → T x z)
      → (xs ys zs : List A) → Pairwise R xs ys
      → Pairwise S ys zs
      → Pairwise T xs zs
  Pairwise-after R S T f [] [] [] p q = tt
  Pairwise-after R S T f [] [] (z ∷ zs) p q = absurd q
  Pairwise-after R S T f [] (y ∷ ys) zs p q = absurd p
  Pairwise-after R S T f (x ∷ xs) [] zs p q = absurd p
  Pairwise-after R S T f (x ∷ xs) (y ∷ ys) [] p q = absurd q
  Pairwise-after R S T f (x ∷ xs) (y ∷ ys) (z ∷ zs) (p, ps) (q, qs) =
      (f x y z p q, Pairwise-after R S T f xs ys zs ps qs)

-- The messages on their way to the apps, oldest first.
abbrev pub from_there : Bridge → List Message
from_there b = b.from_gateway ++ b.received

module _ (codec : Codec) where
  -- The messages that a turn puts into the channel from the gateway, and those that it copies to the apps.
  unfoldable pub received_by :
      {b b' : Bridge} {out : List Message} → Step codec b out b' → List Message
  received_by (receives m c e1 e2 e3) = m ∷ []
  received_by _ = []

  unfoldable pub copied_by :
      {b b' : Bridge} {out : List Message} → Step codec b out b' → List Message
  copied_by (copies m q x apps e0 e1 e2) = m ∷ []
  copied_by _ = []

  unfoldable pub received_in :
      {b b' : Bridge} {asked : List Message} → Run codec b asked b' → List Message
  unfolding received_by
  received_in here = []
  received_in (next run step) = received_in run ++ received_by step

  unfoldable pub copied_in :
      {b b' : Bridge} {asked : List Message} → Run codec b asked b' → List Message
  unfolding copied_by
  copied_in here = []
  copied_in (next run step) = copied_in run ++ copied_by step

  Step-in_order :
      {b b' : Bridge} {out : List Message} (step : Step codec b out b')
      → from_there b ++ received_by step ≡ copied_by step ++ from_there b'
  unfolding received_by copied_by
  Step-in_order {b = b} (receives m c e1 e2 e3) = append_assoc b.from_gateway b.received (m ∷ [])
  Step-in_order {b = b} (delivers m q e1 e2) =
      append-nil (from_there b)
      ∙ ap (λ l. b.from_gateway ++ l) e1
      ∙ sym (append_assoc b.from_gateway (m ∷ []) q)
  Step-in_order {b = b} (copies m q x apps e0 e1 e2) =
      append-nil (from_there b) ∙ ap (λ l. l ++ b.received) e1
  Step-in_order {b = b} _ = append-nil (from_there b)

  -- The handlers after a turn, those before it first.
  abbrev pub MovesAll : Bridge → List Message → Bridge → Type 0
  MovesAll b ms b' =
      (olds : List Handler) × (news : List Handler) × (b'.handlers ≡ olds ++ news)
      × Pairwise (MovesHandler codec b.uuid ms) b.handlers olds

  unmoved : (b : Bridge) → Pairwise (MovesHandler codec b.uuid []) b.handlers b.handlers
  unmoved b = Pairwise-refl (MovesHandler codec b.uuid []) (λ h. left_alone) b.handlers

  Step-MovesAll :
      {b b' : Bridge} {out : List Message} (step : Step codec b out b')
      → MovesAll b (copied_by step) b'
  unfolding copied_by
  Step-MovesAll {b = b} (accepts c) = (b.handlers, accepted_app c ∷ [], refl, unmoved b)
  Step-MovesAll {b = b} (serves before after h h' out e1 turn room) = (
    before ++ (h' ∷ after),
    [],
    sym (append-nil (before ++ (h' ∷ after))),
    rw e1 (
        Pairwise-one (MovesHandler codec b.uuid []) (λ h. left_alone) before h h' after
          (served out h' turn)),
  )
  Step-MovesAll {b = b} (copies m q x apps e0 e1 e2) = (
    with_apps b.handlers apps,
    [],
    sym (append-nil (with_apps b.handlers apps)),
    forward_to_apps-Moves codec b.uuid m b.handlers x apps e2,
  )
  Step-MovesAll {b = b} _ = (b.handlers, [], sym (append-nil b.handlers), unmoved b)

  -- The handlers after some turns: those that were there before come first, and the messages `ms` have
  -- been copied to each of their apps.
  abbrev pub FollowsAll : Bridge → List Message → Bridge → Type 0
  FollowsAll b ms b' =
      (olds : List Handler) × (news : List Handler) × (b'.handlers ≡ olds ++ news)
      × Pairwise (FollowsHandler codec b.uuid ms) b.handlers olds

  pub FollowsAll-MovesAll :
      (b b1 b2 : Bridge) (ms more : List Message)
      → b1.uuid ≡ b.uuid
      → FollowsAll b ms b1
      → MovesAll b1 more b2
      → FollowsAll b (ms ++ more) b2
  FollowsAll-MovesAll b b1 b2 ms more eu (olds, news, e, p) (olds1, news1, e1, p1) =
      let moved : Pairwise (MovesHandler codec b.uuid more) (olds ++ news) olds1 =
        subst (λ l. Pairwise (MovesHandler codec b.uuid more) l olds1) e
          (subst (λ u. Pairwise (MovesHandler codec u more) b1.handlers olds1) eu p1) in
      let (olds2, news2, e2, p2) =
        Pairwise-append_parts (MovesHandler codec b.uuid more) olds news olds1 moved in
      (
        olds2,
        news2 ++ news1,
        e1 ∙ ap (λ l. l ++ news1) e2 ∙ append_assoc olds2 news2 news1,
        Pairwise-after (FollowsHandler codec b.uuid ms) (MovesHandler codec b.uuid more)
            (FollowsHandler codec b.uuid (ms ++ more)) (λ x y z f m. moves_on f m) b.handlers olds
            olds2 p p2,
      )

  -- However the goroutines of the bridge take turns, the messages that are received from the gateway are
  -- copied to the apps once each and in the order in which they came; those not yet copied still wait in
  -- this order. Every app that was connected at first makes just the turns of its own goroutines, which
  -- answer only what they read from its socket, and between them each copy is handed to its connection by
  -- one write, in a frame that names the bridge as its sender and that app as its receiver. A write that
  -- fails puts only the start of its bytes, or nothing, on the connection.
  pub Run-FollowsAll :
      {b b' : Bridge} {asked : List Message} (run : Run codec b asked b')
      → (from_there b ++ received_in run ≡ copied_in run ++ from_there b')
        × FollowsAll b (copied_in run) b'
  unfolding received_in copied_in
  Run-FollowsAll {b = b} here = (
    append-nil (from_there b),
    (
      b.handlers,
      [],
      sym (append-nil b.handlers),
      Pairwise-refl (FollowsHandler codec b.uuid []) (λ h. starts) b.handlers,
    ),
  )
  Run-FollowsAll {b = b} (next {b1 = b1} {b2 = b2} run step) =
      let (order, follows) = Run-FollowsAll run in
      (
        sym (append_assoc (from_there b) (received_in run) (received_by step))
            ∙ ap (λ l. l ++ received_by step) order
            ∙ append_assoc (copied_in run) (from_there b1) (received_by step)
            ∙ ap (λ l. copied_in run ++ l) (Step-in_order step)
            ∙ sym (append_assoc (copied_in run) (copied_by step) (from_there b2)),
        FollowsAll-MovesAll b b1 b2 (copied_in run) (copied_by step)
            (Run-Conveyed codec run).uuid_kept follows (Step-MovesAll step),
      )
