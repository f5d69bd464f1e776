-- ===== src/Testproxy.antt =====
-- pkg/testproxy/testproxy.go: a proxy that copies the messages of one client to the gateway and back.
pub mod Copies
pub mod Stopping
use comfoconnectbridge.Prelude.{◌≡◌, ℕ, Bool, true, false, Option, none, some, List}
use comfoconnectbridge.Go.Errors.{GoError, Go}
use comfoconnectbridge.Go.Conn.{Conn, write}
use comfoconnectbridge.Proto.Codec.{Codec}
use comfoconnectbridge.Comfoconnect.Message.{Message}
use comfoconnectbridge.Server.{Server, Again, Run, stop}
use comfoconnectbridge.Comfoconnect.Rounds.{Turn, again, ended, crashed, blocked, Loop, rounds}

-- `to.Write(message.RawMessage)`, whose error is only logged.
unfoldable pub copied : Conn → Message → Conn
unfolding write
copied to m = (write m.raw_message to).1

-- The loop of `copy`: the state is the connection that is written.
abbrev pub copy_loop : Loop Conn (Unit {0})
copy_loop = record { on_message = λ to m from. again (copied to m) from; on_end = λ f. tt }

-- The connections that a loop leaves: the one that it wrote and the one that it read.
abbrev pub connections : Turn Conn (Unit {0}) → Conn × Conn
connections (again to from) = (to, from)
connections (ended r to from) = (to, from)
connections (crashed to from) = (to, from)
connections (blocked to from) = (to, from)

pub data Handled : Type 0 where
  undialled : GoError → Handled
  -- The two copies, from the gateway and to it.
  handled : Turn Conn (Unit {0}) → Turn Conn (Unit {0}) → Handled

-- The result of `handleClient`: the error of the dial, if there is one.
abbrev pub served_result : Handled → Option GoError
served_result (undialled e) = some e
served_result (handled back forth) = none

-- Whether `handleClient` has returned; it waits for both copies.
abbrev pub HasReturned : Handled → Type 0
HasReturned (undialled e) = Unit {0}
HasReturned (handled (ended r s c) (ended r' s' c')) = Unit {0}
HasReturned (handled _ _) = ⊥

-- Whether the goroutine of a connection calls `handleClient` again after its result.
abbrev pub goes_on : Again
goes_on none = true
goes_on (some e) = false

-- `Stop` up to its wait.
abbrev pub stop_server : Server → Go Server
stop_server = stop

module _ (codec : Codec) where
  -- `copy` in at most `n` rounds.
  unfoldable pub copy : ℕ → Conn → Conn → Turn Conn (Unit {0})
  unfolding rounds copied
  copy n from to = rounds codec copy_loop n to from

  -- `handleClient`, with the error of `net.Dial` and the fresh connection. Either copy reads what the
  -- other does not touch and writes what the other does not, so they are run one after the other.
  unfoldable pub handle_client : ℕ → Option GoError → Conn → Conn → Handled
  unfolding copy
  handle_client n (some e) conn remote = undialled e
  handle_client n none conn remote =
      let back = copy n remote conn in
      let (conn', remote') = connections back in handled back (copy n conn' remote')

  -- The results with which a call of `handleClient` can return: it could not dial, or both copies ended.
  abbrev pub Returned : Option GoError → Type 0
  Returned r =
      (n : ℕ) × (dial_error : Option GoError) × (conn : Conn) × (remote : Conn) × HasReturned
        (handle_client n dial_error conn remote)
      × (r ≡ served_result (handle_client n dial_error conn remote))

  -- `Run`: the turns of its loop and of its handlers, and the calls of `Stop`.
  abbrev pub Runs : Server → List (Option GoError) → Server → Type 0
  Runs = Run goes_on Returned
