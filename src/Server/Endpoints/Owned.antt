-- ===== src/Server/Endpoints/Owned.antt =====
-- Which sockets a server holds.
use Prim.Native.String.{String}
use getty.Common.{
  ℕ, ◌+◌, ◌≤◌, ◌≡◌, ◌⊎◌, Bool, true, false, not, ◌&&◌, ◌||◌, Option, none, ◌==◌, if◌then◌else◌,
  is_some, arith,
}
use getty.Constants.{EndPointType, tcp_server, ws_server, wss_server}
use getty.Options.{ServerOptions}
use getty.Tls.{Config}
use getty.Server.Endpoints.{
  Outside, Listened, listen, returned, panicked, event_loop, run_event_loop, Callback,
  run_udp_event_loop, Request, serve_ws_request,
}

-- A socket is open exactly where the server listens; a closed server opens none; a server listens exactly where
-- there is no error; and what listens is secured by what was wanted, with a configuration where TLS was.
pub record Safe (is_closed : Bool) (tls : Bool) (wanted : Option Config) (l : Listened)
    : Type 0 where
  pub held : l.opened ≡ l.closed + (if l.listening then 1 else 0)
  pub at_most : l.opened ≤ (if is_closed then 0 else 1)
  pub told : l.listening ≡ not (is_some l.error)
  pub secure : (l.listening ≡ false) ⊎ ((l.secured ≡ wanted) × (is_some l.secured ≡ tls))

-- The kinds of a server whose listener is a stream.
abbrev pub is_stream : EndPointType → Bool
is_stream kind = (kind == tcp_server) || ((kind == ws_server) || (kind == wss_server))

-- What the handshake of a server is to have.
abbrev pub wanted : Outside → EndPointType → ServerOptions → Option Config
wanted out kind o = if is_stream kind && o.ssl_enabled then out.build.0 else none

-- An event loop is started, with a listener on an open server, or it is not, where one of the two is missing.
abbrev pub Starts : Outside → EndPointType → ServerOptions → Type 0
Starts out kind o =
    ((listen out kind o).listening ≡ true)
      × (out.closed_at_loop ≡ false)
      × (run_event_loop out kind o ≡ event_loop kind)
    ⊎ (((listen out kind o).listening ≡ false) ⊎ (out.closed_at_loop ≡ true))
      × ((run_event_loop out kind o ≡ returned) ⊎ (run_event_loop out kind o ≡ panicked))

-- A connection that the udp end point or the handler of a WebSocket server was given is closed, or its session
-- runs, and never both.
pub serve_ws_request-Owned :
    (r : Request) (cb : Callback) (max_msg_len : ℕ)
    → let ws = (serve_ws_request r cb max_msg_len).0 in
      let udp = run_udp_event_loop cb in
      (ws.given ≡ (ws.closed || ws.running))
      × (ws.closed && ws.running ≡ false)
      × (udp.given ≡ (udp.closed || udp.running))
      × (udp.closed && udp.running ≡ false)
unfolding serve_ws_request run_udp_event_loop
serve_ws_request-Owned r cb max_msg_len = (ground arith, ground arith, ground arith, ground arith)
