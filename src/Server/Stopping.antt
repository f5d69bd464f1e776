-- ===== src/Server/Stopping.antt =====
-- When `Stop` returns.
use comfoconnectbridge.Prelude.{
  ◌≤◌, ◌≡◌, refl, arith, true, false, Option, List, All, All-append_parts,
}
use mathlib.Core.Path.{subst}
use comfoconnectbridge.Go.Errors.{GoError, value, panic}
use comfoconnectbridge.Server.{
  Server, fresh, stop, Again, Step, accepts, serves, sees_quit, exits, stops, Run, here, next,
}

-- The loop waits only after `Stop`, ends only after it has waited, and `exited` is closed at its end.
pub record IsOrderly (s : Server) : Type 0 where
  pub closing_quit : s.closing ≡ true → s.quit ≡ true
  pub ended_exited : s.running ≡ false → s.exited ≡ true
  pub exited_ended : s.exited ≡ true → (s.running ≡ false) × (s.closing ≡ true) × (s.handlers ≡ 0)

stop_cases :
    (s s' : Server) → stop s ≡ value s' → (s.quit ≡ false) × (record s { quit = true } ≡ s')
stop_cases s s' h = ground arith

Step-IsOrderly :
    {again : Again} {Returns : Option GoError → Type 0} {s s' : Server} {rs : List (Option GoError)}
    → Step again Returns s rs s'
    → IsOrderly s
    → IsOrderly s'
Step-IsOrderly (accepts e1 e2) o = record {
  closing_quit = o.closing_quit;
  ended_exited = o.ended_exited;
  exited_ended = λ e. absurd (ground (arith, o.exited_ended e));
}
Step-IsOrderly (serves others r e returns) o = record {
  closing_quit = o.closing_quit;
  ended_exited = o.ended_exited;
  exited_ended = λ x. absurd (omega (arith, (o.exited_ended x).2));
}
Step-IsOrderly (sees_quit e1 e2) o = record {
  closing_quit = λ _. e2;
  ended_exited = o.ended_exited;
  exited_ended = λ e. let (x, y, z) = o.exited_ended e in (x, refl, z);
}
Step-IsOrderly (exits e1 e2 e3) o = record {
  closing_quit = o.closing_quit;
  ended_exited = λ _. refl;
  exited_ended = λ _. (refl, e2, e3);
}
Step-IsOrderly {s = s} (stops s' e) o = subst IsOrderly (stop_cases s s' e).1 (record {
  closing_quit = λ _. refl;
  ended_exited = o.ended_exited;
  exited_ended = o.exited_ended;
})

Run-IsOrderly :
    {again : Again} {Returns : Option GoError → Type 0} {s : Server} {rs : List (Option GoError)}
    → Run again Returns fresh rs s
    → IsOrderly s
Run-IsOrderly here = record {
  closing_quit = λ e. absurd (ground arith);
  ended_exited = λ e. absurd (ground arith);
  exited_ended = λ e. absurd (ground arith);
}
Run-IsOrderly (next run step) = Step-IsOrderly step (Run-IsOrderly run)

stop-panic : (s : Server) → s.quit ≡ true → stop s ≡ panic
stop-panic s e = rw e refl

-- `Stop` returns only when every handler's goroutine has ended and the loop too, so that none is left
-- running; and a second `Stop` panics, since it closes `quit` again.
pub exited_lem :
    {again : Again} {Returns : Option GoError → Type 0} {s : Server} {rs : List (Option GoError)}
    → Run again Returns fresh rs s
    → s.exited ≡ true
    → (s.handlers ≡ 0) × (s.running ≡ false) × (stop s ≡ panic)
exited_lem {s = s} run e =
    let o = Run-IsOrderly run in
    let (x, y, z) = o.exited_ended e in (z, x, stop-panic s (o.closing_quit y))

abbrev pub IsBusy : Server → Type 0
IsBusy s = (1 ≤ s.handlers) × (s.exited ≡ false)

Step-IsBusy :
    {again : Again} {Returns : Option GoError → Type 0} {s s' : Server} {rs : List (Option GoError)}
    → Step again Returns s rs s'
    → All (λ r. again r ≡ true) rs
    → IsBusy s
    → IsBusy s'
Step-IsBusy (accepts e1 e2) all busy = (omega arith, busy.1)
Step-IsBusy (serves others r e returns) all busy = (rw (all.0) (omega arith), busy.1)
Step-IsBusy (sees_quit e1 e2) all busy = busy
Step-IsBusy (exits e1 e2 e3) all busy = absurd (omega (arith, busy.0))
Step-IsBusy {s = s} (stops s' e) all busy = subst IsBusy (stop_cases s s' e).1 busy

-- As long as each call of the handler has a result at which its goroutine goes on, `Stop` does not return
-- once a handler runs.
pub Run-IsBusy :
    {again : Again} {Returns : Option GoError → Type 0} {s s' : Server} {rs : List (Option GoError)}
    → Run again Returns s rs s'
    → All (λ r. again r ≡ true) rs
    → IsBusy s
    → IsBusy s'
Run-IsBusy here all busy = busy
Run-IsBusy (next {rs = rs} {more = more} run step) all busy =
    let (p, q) = All-append_parts (λ r. _) rs more all in Step-IsBusy step q (Run-IsBusy run p busy)
