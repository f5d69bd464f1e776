-- ===== src/Client/Actions.antt =====
-- The methods of `Client` that change its reference, a uint32, and use its connection. A change made
-- before an error stays made.
use comfoconnectbridge.Prelude.{ℕ, ◌+◌, ◌%◌, ◌^◌}
use comfoconnectbridge.Go.Errors.{GoError}
use comfoconnectbridge.Go.Conn.{Conn, Outcome, returned, failed, panicked, waiting, M}

abbrev pub Action : Type 0 → Type 0
Action A = ℕ → Conn → ℕ × Outcome GoError A

module _ {A B : Type 0} where
  abbrev pub continue : ℕ × Outcome GoError A → (A → Action B) → ℕ × Outcome GoError B
  continue (r, returned a c) f = f a r c
  continue (r, failed e c) f = (r, failed e c)
  continue (r, panicked c) f = (r, panicked c)
  continue (r, waiting c) f = (r, waiting c)

  infixl 5 ◌>>=◌
  abbrev pub ◌>>=◌ : Action A → (A → Action B) → Action B
  ◌>>=◌ m f r c = continue (m r c) f

module _ {A : Type 0} where
  -- A call that leaves the reference alone.
  abbrev pub on_conn : M GoError A → Action A
  on_conn m r c = (r, m c)

  abbrev pub pure : A → Action A
  pure a r c = (r, returned a c)

-- `c.reference++`.
unfoldable pub next : Action (Unit {0})
next r c = ((r + 1) % 2 ^ 32, returned tt c)

-- What is made with the reference as it is now.
unfoldable pub with_reference : {A : Type 0} → (ℕ → Action A) → Action A
with_reference f r c = f r r c
