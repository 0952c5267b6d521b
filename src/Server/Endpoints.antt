-- ===== src/Server/Endpoints.antt =====
-- server.go besides its accept loop: the opening of listeners, the udp end point, and the handler of the
-- WebSocket servers.
pub mod Owned
use Prim.Native.String.{String}
use text.Mathlib.Text.{find?, ◌==◌ as str_eq}
use getty.Common.{
  ℕ, suc, ◌+◌, Bool, true, false, not, ◌&&◌, ◌||◌, Option, none, some, List, [], ◌∷◌, ◌==◌,
  if◌then◌else◌, is_some, length, ltb, leb,
}
use getty.Errors.{IoError}
use getty.Constants.{EndPointType, udp_endpoint, tcp_server, ws_server, wss_server}
use getty.Options.{ServerOptions}
use getty.Tls.{Config, Built}

-- What opening a listener meets outside: the errors of the calls that open a socket and of `ResolveUDPAddr`, what
-- the builder of the options answers, whether its configuration has a callback that gives a certificate, and
-- what `IsClosed` answers at the start, when the listener is published, and when the event loop is registered.
pub record Outside : Type 0 where
  pub random_port : Option IoError
  pub at_address : Option IoError
  pub resolve : Option IoError
  pub build : Built
  pub has_callback : Config → Bool
  pub closed_before : Bool
  pub closed_then : Bool
  pub closed_at_loop : Bool

-- Why there is no listener.
pub data ListenError : Type 0 where
  server_closed : ListenError
  bad_config : ListenError
  no_certificates : ListenError
  not_bound : ListenError

-- What listening comes to: an error or nil; the listener that the server holds, with the configuration of its
-- TLS; and the numbers of sockets opened and closed.
pub record Listened : Type 0 where
  pub error : Option ListenError
  pub listening : Bool
  pub secured : Option Config
  pub opened : ℕ
  pub closed : ℕ

abbrev pub failed : ListenError → Listened
failed e = record { error = some e; listening = false; secured = none; opened = 0; closed = 0 }

-- An address without a port.
abbrev pub is_random : String → Bool
is_random addr = str_eq addr "" || not (is_some (find? addr ":"))

-- `publishStreamListener` and `publishPacketListener`: on a closed server the listener is closed.
unfoldable pub publish : Outside → Option Config → Listened
publish out cfg =
    if out.closed_then
    then record {
      error = some server_closed;
      listening = false;
      secured = none;
      opened = 1;
      closed = 1;
    }
    else record { error = none; listening = true; secured = cfg; opened = 1; closed = 0 }

-- The opening of the socket in `listenTCP`, and what follows.
unfoldable pub bind : Outside → String → Option Config → Listened
unfolding publish
bind out addr cfg = elim (if is_random addr then out.random_port else out.at_address) [
  | some e ↦ failed not_bound
  | none ↦ publish out cfg
]

-- `listenTCP`.
unfoldable pub listen_tcp : Outside → ServerOptions → Listened
unfolding bind
listen_tcp out o =
    let (config, err) = out.build in
    if out.closed_before
    then failed server_closed
    else if o.ssl_enabled
    then (elim err [
      | some e ↦ failed bad_config
      | none ↦ elim config [
        | none ↦ failed bad_config
        | some c ↦
            if (length c.certificates == 0) && not (out.has_callback c)
            then failed no_certificates
            else bind out o.addr (some c)
      ]
    ])
    else bind out o.addr none

-- `listenUDP`.
unfoldable pub listen_udp : Outside → ServerOptions → Listened
unfolding publish
listen_udp out o =
    if out.closed_before
    then failed server_closed
    else if is_random o.addr
    then (elim out.random_port [ some e ↦ failed not_bound | none ↦ publish out none ])
    else (elim out.resolve [
      | some e ↦ failed not_bound
      | none ↦ elim out.at_address [ some e ↦ failed not_bound | none ↦ publish out none ]
    ])

-- `listen`; another kind has no listener, and no error.
unfoldable pub listen : Outside → EndPointType → ServerOptions → Listened
unfolding listen_tcp listen_udp
listen out kind o =
    if (kind == tcp_server) || ((kind == ws_server) || (kind == wss_server))
    then listen_tcp out o
    else if kind == udp_endpoint
    then listen_udp out o
    else record { error = none; listening = false; secured = none; opened = 0; closed = 0 }

-- What `RunEventLoop` does: it returns on a closed server, panics, or starts the event loop of the kind.
pub data Started : Type 0 where
  returned : Started
  panicked : Started
  event_loop : EndPointType → Started

-- `startEventLoop` refuses on a closed server.
unfoldable pub start_event_loop : Outside → Bool
start_event_loop out = not out.closed_at_loop

unfoldable pub run_event_loop : Outside → EndPointType → ServerOptions → Started
unfolding listen start_event_loop
run_event_loop out kind o = elim (listen out kind o).error [
  | some server_closed ↦ returned
  | some e ↦ panicked
  | none ↦
      if (kind == tcp_server)
        || ((kind == udp_endpoint) || ((kind == ws_server) || (kind == wss_server)))
      then (if start_event_loop out then event_loop kind else returned)
      else panicked
]

-- What the callback of a new session does: it returns nil, an error, or panics, which `callNewSession` turns
-- into an error.
pub data Callback : Type 0 where
  accepts : Callback
  rejects : Callback
  panics : Callback

unfoldable pub call_new_session : Callback → Bool
call_new_session accepts = true
call_new_session rejects = false
call_new_session panics = false

-- A connection that the server was given: whether it was closed, and whether its session runs.
pub record Held : Type 0 where
  pub given : Bool
  pub closed : Bool
  pub running : Bool

-- `runUDPEventLoop` behind `startEventLoop`: the socket is the listener's.
unfoldable pub run_udp_event_loop : Callback → Held
unfolding call_new_session
run_udp_event_loop cb =
    if call_new_session cb
    then record { given = true; closed = false; running = true }
    else record { given = true; closed = true; running = false }

-- A request to a WebSocket server: whether it is a GET, what `IsClosed` and `Upgrade` answer, and whether
-- the two ends have the same address.
pub record Request : Type 0 where
  pub is_get : Bool
  pub closed : Bool
  pub upgrade : Option IoError
  pub same_addr : Bool

-- `serveWSRequest`, with the read limit that it sets where the session has a positive one.
unfoldable pub serve_ws_request : Request → Callback → ℕ → Held × Option ℕ
unfolding call_new_session
serve_ws_request r cb max_msg_len =
    let none_given : Held = record { given = false; closed = false; running = false } in
    let shut : Held = record { given = true; closed = true; running = false } in
    if not r.is_get
    then (none_given, none)
    else if r.closed
    then (none_given, none)
    else (elim r.upgrade [
      | some e ↦ (none_given, none)
      | none ↦
          if r.same_addr
          then (shut, none)
          else if not (call_new_session cb)
          then (shut, none)
          else (
            record { given = true; closed = false; running = true },
            if ltb 0 max_msg_len then some max_msg_len else none,
          )
    ])
