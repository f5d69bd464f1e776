-- ===== src/Tests/Servers.antt =====
-- The servers' Run and Stop at concrete inputs.
use comfoconnectbridge.Prelude.{◌≡◌, refl, arith, true, false, none, [], ◌∷◌}
use comfoconnectbridge.Go.Errors.{panic, is_timeout}
use comfoconnectbridge.Server.{
  Server, fresh, stop, accepts, serves, sees_quit, exits, stops, here, next,
}
use comfoconnectbridge.Server.Stopping.{exited_lem}
use comfoconnectbridge.Comfoconnect.Socket.{read_bytes}
use comfoconnectbridge.Go.Conn.{Conn, closed}
use comfoconnectbridge.Testproxy
use comfoconnectbridge.Testproxy.Stopping.{Runs-exited}
use comfoconnectbridge.Comfoconnect.Broadcast
use comfoconnectbridge.Tests.Wire.{small_codec, conn_with}

abbrev stopping : Server
stopping = record fresh { quit = true; handlers = 1 }

abbrev listener : Broadcast.BroadcastListener
listener = record { response_ip = "192.168.178.52"; my_uuid = none }

abbrev stopped : Server
stopped = record fresh { quit = true; closing = true; running = false; exited = true }

-- A datagram is answered, and `Stop` is called.
broadcast_stopped : Broadcast.Runs small_codec listener fresh (none ∷ []) stopped
broadcast_stopped =
    next
      (next
        (next (next (next here (accepts refl refl)) (serves 0 none refl (none, refl)))
          (stops _ refl))
        (sees_quit refl refl))
      (exits refl refl refl)

exited_lem_example : (stopped.handlers ≡ 0) × (stopped.running ≡ false) × (stop stopped ≡ panic)
exited_lem_example = exited_lem broadcast_stopped refl

-- A client and a gateway that have closed their connections.
abbrev left_conn : Conn
left_conn = conn_with (closed ∷ [])

both_ended : Testproxy.HasReturned (Testproxy.handle_client small_codec 2 none left_conn left_conn)
unfolding Testproxy.handle_client Testproxy.copy read_bytes is_timeout
both_ended = tt

result_none :
    none ≡ Testproxy.served_result (Testproxy.handle_client small_codec 2 none left_conn left_conn)
unfolding Testproxy.handle_client
result_none = refl

proxy_stopping : Testproxy.Runs small_codec stopping (none ∷ []) stopping
proxy_stopping =
    next here (serves 0 none refl (2, none, left_conn, left_conn, both_ended, result_none))

Runs-exited_example : stopping.exited ≡ false
Runs-exited_example =
    Runs-exited small_codec proxy_stopping ((2, left_conn, left_conn, result_none), tt)
      (omega arith) refl
