-- ===== src/Dumbproxy/System/Cancelled.antt =====
-- The end of the dumb proxy's `Run` at a cancelled context.
use comfoconnectbridge.Prelude.{
  ℕ, zero, suc, ◌≡◌, refl, ◌∙◌, arith, true, List, [], ◌∷◌, All, length, ltb,
}
use comfoconnectbridge.Comfoconnect.Rpdo.Values.{is_panic}
use comfoconnectbridge.Dumbproxy.System.{Running, Offer, run_round, run_rounds}

ltb-suc : (a b : ℕ) → ltb a b ≡ ltb (suc a) (suc b)
ltb-suc a b = ground arith

cancelled_rounds :
    (os : List Offer) (n : ℕ) (r : Running)
    → All (λ o. o.cancelled ≡ true) os
    → r.counter ≡ n
    → is_panic (run_rounds os r) ≡ ltb n (length os)
unfolding run_rounds run_round
cancelled_rounds [] n r h e = ground arith
cancelled_rounds (o ∷ os) zero r (h, hs) e = rw (h, e) (ground arith)
cancelled_rounds (o ∷ os) (suc n) r (h, hs) e =
    rw (h, e) (cancelled_rounds os n (record r { counter = n }) hs refl ∙ ltb-suc n (length os))

-- Once its context is cancelled, `Run` does not return: it panics in the round after as many rounds as the
-- wait group counts, and in no round before.
pub run_rounds-cancelled :
    (os : List Offer) (r : Running)
    → All (λ o. o.cancelled ≡ true) os
    → is_panic (run_rounds os r) ≡ ltb r.counter (length os)
run_rounds-cancelled os r h = cancelled_rounds os r.counter r h refl
