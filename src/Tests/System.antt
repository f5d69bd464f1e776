-- ===== src/Tests/System.antt =====
-- The bridge as a whole at concrete inputs: an app asks for the time, the keep-alive loop ticks, and the
-- message goes on.
use comfoconnectbridge.Prelude.{
  ◌≡◌, ◌≤◌, refl, arith, true, false, length, length-replicate, replicate, none, some, List, [],
  ◌∷◌, ◌++◌,
}
use comfoconnectbridge.Go.Errors.{io_eof}
use comfoconnectbridge.Go.Conn.{Conn, accepted, refused}
use comfoconnectbridge.Comfoconnect.Message.{pack_message}
use comfoconnectbridge.Comfoconnect.Session.{keep_alive_tick}
use comfoconnectbridge.Proxy.{App, Work, write_app, masquerade, forward_to_apps, handle_next}
use comfoconnectbridge.Proxy.System.{
  Handler, Bridge, Step, with_apps, with_work, accepted_app, accepts, serves, handles, asks, copies,
  ticks, Run, here, next,
}
use comfoconnectbridge.Proxy.System.Order.{Conveyed, Run-Conveyed}
use comfoconnectbridge.Proxy.System.Following.{
  from_there, received_in, copied_in, FollowsAll, Run-FollowsAll,
}
use comfoconnectbridge.Proxy.System.Sending.{pending}
use comfoconnectbridge.Proxy.System.Stuck.{IsStuck, Run-IsStuck}
use comfoconnectbridge.Tests.Wire.{small_codec, time_message, time_request, app_uuid}
use comfoconnectbridge.Tests.Bridge.{bridge_uuid, session, idle}

abbrev asking : Handler
asking = record {
  app = record { uuid = []; conn = idle };
  found = [];
  queue = time_message ∷ [];
  reading = true;
  replies = [];
  out = [];
}

-- The second write of the bridge to the gateway will fail.
abbrev link : Conn
link = record { inbox = []; writes = accepted ∷ refused 3 io_eof ∷ []; sent = [] }

abbrev start : Bridge
start = record {
  uuid = bridge_uuid;
  session = session;
  link = link;
  reference = some 3;
  connected = true;
  listening = false;
  received = [];
  handlers = asking ∷ [];
  forwarded = [];
  to_gateway = [];
  client_to_gateway = [];
  from_gateway = [];
}

abbrev asked_app : App
asked_app = record { uuid = time_message.src; conn = idle }

abbrev work : Work
work = record { uuid = time_message.src; replies = []; out = time_message ∷ [] }

abbrev handled : Bridge
handled = record start { handlers = with_work asking [] work ∷ [] }

start-handled : Step small_codec start [] handled
unfolding handle_next
start-handled =
    serves [] [] asking (with_work asking [] work) [] refl
      (handles time_message [] 0 work refl refl refl refl) tt

abbrev asked : Bridge
asked = record handled {
  handlers = record (with_work asking [] work) { out = [] } ∷ [];
  to_gateway = time_message ∷ [];
}

handled-asked : Step small_codec handled (time_message ∷ []) asked
handled-asked =
    serves [] [] (with_work asking [] work) (record (with_work asking [] work) { out = [] })
      (time_message ∷ []) refl (asks time_message [] refl refl) (omega arith)

abbrev ticked_bridge : Bridge
ticked_bridge = record asked {
  reference = (keep_alive_tick small_codec session 3 link).0;
  link = (keep_alive_tick small_codec session 3 link).1;
}

asked-ticked_bridge : Step small_codec asked [] ticked_bridge
asked-ticked_bridge =
    ticks 3 (keep_alive_tick small_codec session 3 link).0
      (keep_alive_tick small_codec session 3 link).1 refl refl

run_to_ticked_bridge : Run small_codec start (time_message ∷ []) ticked_bridge
run_to_ticked_bridge = next (next (next here start-handled) handled-asked) asked-ticked_bridge

Run-Conveyed_example : Conveyed small_codec start (time_message ∷ []) ticked_bridge
Run-Conveyed_example = Run-Conveyed small_codec run_to_ticked_bridge

-- A message of the gateway waits, and is copied to the app.
abbrev serving : Bridge
serving = record asked { from_gateway = time_message ∷ [] }

abbrev copied_apps : List App
copied_apps =
    write_app asked_app (
      pack_message small_codec (masquerade bridge_uuid app_uuid time_message) time_message.operation
        time_request)
    ∷ []

abbrev copied_bridge : Bridge
copied_bridge = record serving {
  from_gateway = [];
  handlers = with_apps serving.handlers copied_apps;
}

serving-copied_bridge : Step small_codec serving [] copied_bridge
unfolding forward_to_apps
serving-copied_bridge = copies time_message [] none copied_apps refl refl refl

run_to_copied_bridge : Run small_codec serving [] copied_bridge
run_to_copied_bridge = next here serving-copied_bridge

Run-FollowsAll_example :
    (from_there serving ++ received_in small_codec run_to_copied_bridge
      ≡ copied_in small_codec run_to_copied_bridge ++ from_there copied_bridge)
    × FollowsAll small_codec serving (copied_in small_codec run_to_copied_bridge) copied_bridge
Run-FollowsAll_example = Run-FollowsAll small_codec run_to_copied_bridge

-- Both goroutines wait for room.
abbrev stuck_bridge : Bridge
stuck_bridge = record start {
  received = time_message ∷ [];
  forwarded = time_message ∷ [];
  client_to_gateway = replicate 500 time_message;
  from_gateway = replicate 500 time_message;
}

full : 500 ≤ length (replicate 500 time_message)
full = omega (arith, length-replicate 500 time_message)

stuck_bridge-IsStuck : IsStuck stuck_bridge
stuck_bridge-IsStuck = record {
  received = time_message;
  forwarded = time_message;
  client_waits = refl;
  proxy_waits = refl;
  not_listening = refl;
  from_full = full;
  to_full = full;
}

-- Another app connects.
abbrev later_bridge : Bridge
later_bridge = record stuck_bridge { handlers = asking ∷ accepted_app idle ∷ [] }

run_to_later_bridge : Run small_codec stuck_bridge [] later_bridge
run_to_later_bridge = next here (accepts idle)

Run-IsStuck_example :
    IsStuck later_bridge
    × (copied_in small_codec run_to_later_bridge ≡ [])
    × (pending later_bridge ≡ pending stuck_bridge ++ [])
Run-IsStuck_example = Run-IsStuck small_codec run_to_later_bridge stuck_bridge-IsStuck
