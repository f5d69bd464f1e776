-- ===== src/Proxy/System/Copying.antt =====
-- What one turn of the bridge does to an app.
use comfoconnectbridge.Prelude.{
  ◌≡◌, refl, sym, ap, arith, Option, none, some, List, [], ◌∷◌, ◌++◌, map,
}
use mathlib.Core.Path.{subst}
use comfoconnectbridge.Gauge.{Metric}
use comfoconnectbridge.Go.Errors.{and_then-value, Go, value, panic}
use comfoconnectbridge.Go.Binary.{Bytes}
use comfoconnectbridge.Go.Conn.{Conn, write}
use comfoconnectbridge.Proto.Enums.{OperationType}
use comfoconnectbridge.Proto.Codec.{Codec}
use comfoconnectbridge.Comfoconnect.Message.{Message, encode}
use comfoconnectbridge.Proxy.{
  App, masquerade, app_write, write_app, copy_to_apps, forward_to_apps, generate_metrics,
}
use comfoconnectbridge.Proxy.System.{Handler, with_conn, with_apps, AppTurn}
use comfoconnectbridge.Go.Conn.Adds.{Adds, write-Adds}

module _ {A : Type 0} (R : A → A → Type 0) where
  -- The lists are equally long, and related one by one.
  abbrev pub Pairwise : List A → List A → Type 0
  Pairwise [] [] = Unit
  Pairwise (x ∷ xs) (y ∷ ys) = R x y × Pairwise xs ys
  Pairwise _ _ = ⊥

  pub Pairwise-refl : ((x : A) → R x x) → (xs : List A) → Pairwise xs xs
  Pairwise-refl r [] = tt
  Pairwise-refl r (x ∷ xs) = (r x, Pairwise-refl r xs)

  pub Pairwise-one :
      ((x : A) → R x x)
      → (xs : List A) (x y : A) (ys : List A) → R x y
      → Pairwise (xs ++ (x ∷ ys)) (xs ++ (y ∷ ys))
  Pairwise-one r [] x y ys h = (h, Pairwise-refl r ys)
  Pairwise-one r (z ∷ xs) x y ys h = (r z, Pairwise-one r xs x y ys h)

  pub Pairwise-append_parts :
      (xs ys zs : List A)
      → Pairwise (xs ++ ys) zs
      → (xs' : List A) × (ys' : List A) × (zs ≡ xs' ++ ys') × Pairwise xs xs'
  Pairwise-append_parts [] ys zs h = ([], zs, refl, tt)
  Pairwise-append_parts (x ∷ xs) ys [] h = absurd h
  Pairwise-append_parts (x ∷ xs) ys (z ∷ zs) (h, hs) =
      let (xs', ys', e, p) = Pairwise-append_parts xs ys zs hs in
      (z ∷ xs', ys', ap (λ l. z ∷ l) e, (h, p))

module _ (codec : Codec) (uuid : Bytes) where
  -- What one turn of the bridge does to an app, with the messages that it copies to it: nothing, a turn of
  -- the app's own goroutines, which read its socket and answer what they have read there, or the copy of
  -- a message of the gateway.
  pub data Moves (h : Handler) : List Message → Handler → Type 0 where
    left_alone : Moves h [] h
    served : (out : List Message) (h' : Handler) → AppTurn codec h out h' → Moves h [] h'
    copied_to :
        (m : Message) (frame : Bytes) (c : Conn)
        → encode codec (masquerade uuid h.app.uuid m) ≡ value frame
        → Adds frame h.app.conn c
        → Moves h (m ∷ []) (with_conn h c)

  -- The turns of an app, with all that is copied to it in them.
  pub data Follows (h : Handler) : List Message → Handler → Type 0 where
    starts : Follows h [] h
    moves_on :
        {ms more : List Message} {h1 h2 : Handler}
        → Follows h ms h1
        → Moves h1 more h2
        → Follows h (ms ++ more) h2

  abbrev pub MovesHandler : List Message → Handler → Handler → Type 0
  MovesHandler ms h h' = Moves h ms h'

  abbrev pub FollowsHandler : List Message → Handler → Handler → Type 0
  FollowsHandler ms h h' = Follows h ms h'

  app_write-Moves :
      (m : Message) (t : Option OperationType) (g : Go Bytes) (h : Handler) (a' : App)
      → m.operation.type ≡ t
      → encode codec (masquerade uuid h.app.uuid m) ≡ g
      → app_write codec h.app (masquerade uuid h.app.uuid m) ≡ value a'
      → Moves h (m ∷ []) (record h { app = a' })
  unfolding app_write
  app_write-Moves m none g h a' et eg e = absurd (ground arith)
  app_write-Moves m (some t) panic h a' et eg e = absurd (ground arith)
  app_write-Moves m (some t) (value frame) h a' et eg e =
      let same : write_app h.app frame ≡ a' = ground arith in
      subst (λ a. Moves h (m ∷ []) (record h { app = a })) same
        (unfold write_app in
          copied_to m frame (write frame h.app.conn).1 eg (write-Adds frame h.app.conn))

  -- A copy to all apps.
  copy_to_apps-Moves :
      (m : Message) (hs : List Handler) (apps : List App)
      → copy_to_apps codec uuid m (map (λ h. h.app) hs) ≡ value apps
      → Pairwise (MovesHandler (m ∷ [])) hs (with_apps hs apps)
  unfolding copy_to_apps
  copy_to_apps-Moves m [] apps e = tt
  copy_to_apps-Moves m (h ∷ hs) apps e =
      let (a', e1, e2) =
        and_then-value (app_write codec h.app (masquerade uuid h.app.uuid m)) _ apps e in
      let (apps', e3, e4) =
        and_then-value (copy_to_apps codec uuid m (map (λ h. h.app) hs)) _ apps e2 in
      let same : a' ∷ apps' ≡ apps = cc in
      subst (λ l. Pairwise (MovesHandler (m ∷ [])) (h ∷ hs) (with_apps (h ∷ hs) l)) same
        (app_write-Moves m _ _ h a' refl refl e1, copy_to_apps-Moves m hs apps' e3)

  pub forward_to_apps-Moves :
      (m : Message) (hs : List Handler) (x : Option Metric) (apps : List App)
      → forward_to_apps codec uuid m (map (λ h. h.app) hs) ≡ value (x, apps)
      → Pairwise (MovesHandler (m ∷ [])) hs (with_apps hs apps)
  unfolding forward_to_apps
  forward_to_apps-Moves m hs x apps e =
      let (y, e1, e2) = and_then-value (generate_metrics m) _ (x, apps) e in
      let (apps', e3, e4) =
        and_then-value (copy_to_apps codec uuid m (map (λ h. h.app) hs)) _ (x, apps) e2 in
      let same : apps' ≡ apps = cc in copy_to_apps-Moves m hs apps (rw (sym same) e3)
