-- ===== src/Proxy/System.antt =====
-- pkg/proxy: the bridge as a whole. Its goroutines (Proxy.Run, Client.Run, the keep-alive loop of the
-- session, and for each app a socket reader and a main loop) take turns, in any order. A goroutine that
-- cannot put a message into a full channel keeps it and does nothing else until there is room.
pub mod Sending
pub mod Order
pub mod Copying
pub mod Following
pub mod Runs
pub mod Stuck
pub mod Passage
pub mod Delivery
use comfoconnectbridge.Prelude.{
  ℕ, ◌<◌, ◌≡◌, Bool, true, false, not, Option, none, some, List, [], ◌∷◌, ◌++◌, map, length,
}
use comfoconnectbridge.Go.Errors.{GoError, cause, is_eof, Go, value}
use comfoconnectbridge.Go.Binary.{Bytes}
use comfoconnectbridge.Go.Conn.{Conn, Outcome, returned, failed, panicked, waiting}
use comfoconnectbridge.Proto.Enums.{OperationType}
use comfoconnectbridge.Proto.Codec.{Codec}
use comfoconnectbridge.Comfoconnect.Message.{Message}
use comfoconnectbridge.Comfoconnect.Receive.{Failure, get_message_from_socket}
use comfoconnectbridge.Comfoconnect.Session.{Session, keep_alive_tick}
use comfoconnectbridge.Gauge.{Metric}
use comfoconnectbridge.Proxy.{
  App, Work, Round, passed_on, again, write_app, handle_next, forward_to_gateway, forward_to_apps,
  client_send, client_receive,
}

-- `make(chan comfoconnect.Message, 500)`, for all four channels.
abbrev pub capacity : ℕ
capacity = 500

-- An app with what `HandleConnection` keeps for it: the message that the socket reader has read and not
-- put into its channel yet, the channel to the main loop, whether the socket reader still runs, and what
-- the main loop has yet to write and to put into the channel to `Proxy.Run`.
pub record Handler : Type 0 where
  pub app : App
  pub found : List Message
  pub queue : List Message
  pub reading : Bool
  pub replies : List Bytes
  pub out : List Message

-- The bridge behind `NewSession`: the session's connection; the reference of its keep-alive loop while
-- that runs; whether `Client.Run` does, whether it waits in `Receive`, and the message that it has
-- received and not put into its channel yet; the handlers in the order of the loop over the apps; the
-- message that `Proxy.Run` has not put into the client's channel yet; and the three channels.
pub record Bridge : Type 0 where
  pub uuid : Bytes
  pub session : Session
  pub link : Conn
  pub reference : Option ℕ
  pub connected : Bool
  pub listening : Bool
  pub received : List Message
  pub handlers : List Handler
  pub forwarded : List Message
  pub to_gateway : List Message
  pub client_to_gateway : List Message
  pub from_gateway : List Message

abbrev pub accepted_app : Conn → Handler
accepted_app c = record {
  app = record { uuid = []; conn = c };
  found = [];
  queue = [];
  reading = true;
  replies = [];
  out = [];
}

abbrev pub with_conn : Handler → Conn → Handler
with_conn h c = record h { app = record h.app { conn = c } }

-- The main loop takes up a message that has left `q` in its channel.
abbrev pub with_work : Handler → List Message → Work → Handler
with_work h q w = record h {
  app = record h.app { uuid = w.uuid };
  queue = q;
  replies = w.replies;
  out = w.out;
}

-- The count of messages dereferences the type.
abbrev pub enqueue : Handler → Message → Option OperationType → Conn → Outcome GoError Handler
enqueue h m none c = panicked c
enqueue h m (some t) c = returned (record (with_conn h c) { found = m ∷ [] }) c

abbrev pub enqueued : Handler → Outcome Failure Message → Outcome GoError Handler
enqueued h (returned m c) = enqueue h m m.operation.type c
enqueued h (failed f c) =
    returned (record (with_conn h c) { reading = not (is_eof (cause f.error)) }) c
enqueued h (panicked c) = panicked c
enqueued h (waiting c) = waiting c

-- The apps after a copy, each in its handler.
abbrev pub with_apps : List Handler → List App → List Handler
with_apps (h ∷ hs) (a ∷ apps) = record h { app = a } ∷ with_apps hs apps
with_apps hs _ = hs

-- Room in a channel for what is put into it, if anything is.
abbrev pub HasRoom : List Message → List Message → Type 0
HasRoom channel [] = Unit {0}
HasRoom channel (m ∷ ms) = length channel < capacity

module _ (codec : Codec) where
  -- One call of `GetMessageFromSocket` in the socket reader.
  unfoldable pub read_socket : Handler → Outcome GoError Handler
  unfolding get_message_from_socket is_eof cause
  read_socket h = enqueued h (get_message_from_socket codec h.app.conn)

  -- One turn of the socket reader or of the main loop of an app, with the message that the main loop puts
  -- into the channel to `Proxy.Run`. `now` is the time. A turn that panics ends the process and is not
  -- listed.
  pub data AppTurn (h : Handler) : List Message → Handler → Type 0 where
    reads :
        (h' : Handler) (c : Conn)
        → h.reading ≡ true
        → h.found ≡ []
        → read_socket h ≡ returned h' c
        → AppTurn h [] h'
    queues :
        (m : Message)
        → h.found ≡ m ∷ []
        → length h.queue < capacity
        → AppTurn h [] (record h { found = []; queue = h.queue ++ (m ∷ []) })
    handles :
        (m : Message) (q : List Message) (now : ℕ) (w : Work)
        → h.replies ≡ []
        → h.out ≡ []
        → h.queue ≡ m ∷ q
        → handle_next codec now m ≡ value w
        → AppTurn h [] (with_work h q w)
    answers :
        (r : Bytes) (rs : List Bytes)
        → h.replies ≡ r ∷ rs
        → AppTurn h [] (record h { app = write_app h.app r; replies = rs })
    asks :
        (m : Message) (ms : List Message)
        → h.replies ≡ []
        → h.out ≡ m ∷ ms
        → AppTurn h (m ∷ []) (record h { out = ms })

  -- One turn of one goroutine, with the messages that it puts into the channel to `Proxy.Run`. A copy to
  -- all apps is one turn. The `select` of `Client.Run` receives only if its channel is empty; messages may
  -- come into it while it waits.
  pub data Step (b : Bridge) : List Message → Bridge → Type 0 where
    accepts : (c : Conn) → Step b [] (record b { handlers = b.handlers ++ (accepted_app c ∷ []) })
    serves :
        (before after : List Handler) (h h' : Handler) (out : List Message)
        → b.handlers ≡ before ++ (h ∷ after)
        → AppTurn h out h'
        → HasRoom b.to_gateway out
        → Step b out
            (record b { handlers = before ++ (h' ∷ after); to_gateway = b.to_gateway ++ out })
    forwards :
        (m m' : Message) (q : List Message) (x : Option Metric)
        → b.forwarded ≡ []
        → b.to_gateway ≡ m ∷ q
        → forward_to_gateway m ≡ value (x, m')
        → Step b [] (record b { to_gateway = q; forwarded = m' ∷ [] })
    passes :
        (m : Message)
        → b.forwarded ≡ m ∷ []
        → length b.client_to_gateway < capacity
        → Step b []
            (record b { forwarded = []; client_to_gateway = b.client_to_gateway ++ (m ∷ []) })
    copies :
        (m : Message) (q : List Message) (x : Option Metric) (apps : List App)
        → b.forwarded ≡ []
        → b.from_gateway ≡ m ∷ q
        → forward_to_apps codec b.uuid m (map (λ h. h.app) b.handlers) ≡ value (x, apps)
        → Step b [] (record b { from_gateway = q; handlers = with_apps b.handlers apps })
    sends :
        (m : Message) (q : List Message) (e : Option GoError) (c : Conn)
        → b.connected ≡ true
        → b.listening ≡ false
        → b.received ≡ []
        → b.client_to_gateway ≡ m ∷ q
        → client_send codec b.uuid b.session m b.link ≡ returned e c
        → Step b [] (record b { client_to_gateway = q; link = c })
    listens :
        b.connected ≡ true
        → b.listening ≡ false
        → b.received ≡ []
        → b.client_to_gateway ≡ []
        → Step b [] (record b { listening = true })
    receives :
        (m : Message) (c : Conn)
        → b.connected ≡ true
        → b.listening ≡ true
        → client_receive codec b.link ≡ returned (passed_on m) c
        → Step b [] (record b { listening = false; received = b.received ++ (m ∷ []); link = c })
    skips :
        (c : Conn)
        → b.connected ≡ true
        → b.listening ≡ true
        → client_receive codec b.link ≡ returned again c
        → Step b [] (record b { listening = false; link = c })
    loses :
        (e : GoError) (c : Conn)
        → b.connected ≡ true
        → b.listening ≡ true
        → client_receive codec b.link ≡ failed e c
        → Step b [] (record b { connected = false; listening = false; link = c })
    delivers :
        (m : Message) (q : List Message)
        → b.received ≡ m ∷ q
        → length b.from_gateway < capacity
        → Step b [] (record b { received = q; from_gateway = b.from_gateway ++ (m ∷ []) })
    ticks :
        (r : ℕ) (reference : Option ℕ) (c : Conn)
        → b.reference ≡ some r
        → keep_alive_tick codec b.session r b.link ≡ (reference, c)
        → Step b [] (record b { reference = reference; link = c })

  -- Turns in a row, with all that the apps have asked of the gateway in them.
  pub data Run (b : Bridge) : List Message → Bridge → Type 0 where
    here : Run b [] b
    next :
        {asked out : List Message} {b1 b2 : Bridge}
        → Run b asked b1
        → Step b1 out b2
        → Run b (asked ++ out) b2
