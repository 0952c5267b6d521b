-- ===== src/Echo/Datagrams.antt =====
-- examples/echo/udp-echo of the repository: readwriter.go and handler.go of its server, and the requests of
-- client.go and main.go. `Read` and the protocol are those of `Echo`.
pub mod Replies
use getty.Common.{
  ℕ, ◌+◌, ◌-◌, ◌&&◌, Bool, true, false, Option, none, some, List, [], ◌∷◌, ◌++◌, ltb, ◌==◌,
  if◌then◌else◌, u32, is_some,
}
use getty.Errors.{Error, user}
use getty.Connection.Net.{Bytes}
use getty.Session.Receive.Udp.{Context, Datagram}
use getty.Echo.{Package, marshal}
use getty.Echo.Server.{
  heartbeat_cmd, echo_cmd, ping, heartbeat_response, Handler, lookup, assign, cron_check,
}
use getty.Echo.Client.{EchoClient, request, select_session, remove_session, find_entry}

-- `Write`: `none` is no `UDPContext`, and a context without a package has one of another type.
unfoldable pub write : Option (Context Package) → Bytes × Option Error
unfolding marshal
write none = ([], some (user 4))
write (some (none, peer)) = ([], some (user 3))
write (some (some p, peer)) = (marshal p, none)

-- `Handle` of the heartbeat handler: what it writes, to the peer that asked; `none` is an illegal package.
unfoldable pub handle_heartbeat : Context Package → Option (Context Package)
unfolding heartbeat_response
handle_heartbeat (none, peer) = none
handle_heartbeat (some p, peer) = some (some (heartbeat_response p), peer)

-- `Handle` of the message handler.
unfoldable pub handle_message : Context Package → Option (Context Package)
handle_message ctx = some ctx

-- The handler of a command, and what it writes; `none` is an illegal package or command.
unfoldable pub answer : Context Package → Option (Context Package)
unfolding handle_heartbeat handle_message
answer (none, peer) = none
answer (some p, peer) =
    if p.head.command == heartbeat_cmd
    then handle_heartbeat (some p, peer)
    else if p.head.command == echo_cmd
    then handle_message (some p, peer)
    else none

-- `OnMessage` for a `UDPContext`: what it writes, and the state. A failure of `WritePkg` is counted.
unfoldable pub on_message :
    (Context Package → Option Error)
    → ℕ
    → Context Package
    → Handler
    → Option (Context Package) × Handler
unfolding answer lookup assign
on_message write_pkg s ctx h = elim (answer ctx) [
  | none ↦ (none, h)
  | some q ↦ elim (write_pkg q) [
    | none ↦ (some q, h)
    | some e ↦ elim (lookup s h.session_map) [
      | none ↦ (some q, h)
      | some n ↦ (some q, record h { session_map = assign s (u32 (n + 1)) h.session_map })
    ]
  ]
]

-- `OnCron` of the server, which logs a timeout and changes nothing.
unfoldable pub on_cron : ℕ → ℕ → ℕ → ℕ → Handler → Bool × Handler
unfolding cron_check
on_cron session_timeout active now s h = (cron_check session_timeout active now s h, h)

-- A request of the client to its server, with its session, which is closed and removed where `WritePkg` fails.
unfoldable pub send_request :
    (Context Package → Option Error)
    → ℕ
    → ℕ
    → Bytes
    → Option ℕ
    → ℕ
    → EchoClient
    → Context Package × EchoClient
unfolding request remove_session
send_request write_pkg command log_id body server s c =
    let counted = record c { req_id = u32 (c.req_id + 1) } in
    let ctx : Context Package = (some (request command log_id counted.req_id body), server) in
    elim (write_pkg ctx) [
      | none ↦ (ctx, counted)
      | some e ↦ (ctx, remove_session s (record counted { closed = counted.closed ++ s ∷ [] }))
    ]

-- `heartbeat`.
unfoldable pub heartbeat :
    (Context Package → Option Error) → ℕ → Option ℕ → ℕ → EchoClient → Context Package × EchoClient
unfolding send_request
heartbeat write_pkg log_id server s c = send_request write_pkg heartbeat_cmd log_id ping server s c

-- `echo` of main.go with the string of the configuration.
unfoldable pub echo :
    (Context Package → Option Error)
    → (ℕ → ℕ)
    → ℕ
    → Bytes
    → Option ℕ
    → EchoClient
    → Option (Context Package) × EchoClient
unfolding send_request select_session
echo write_pkg draw log_id string server c = elim (select_session draw c) [
  | none ↦ (none, record c { req_id = u32 (c.req_id + 1) })
  | some s ↦ let (p, c') = send_request write_pkg echo_cmd log_id string server s c in (some p, c')
]

-- `OnCron` of the client: a session of the end point without a connection stays when it has timed out.
unfoldable pub client_on_cron :
    (Context Package → Option Error)
    → Bool
    → ℕ
    → ℕ
    → ℕ
    → ℕ
    → Option ℕ
    → ℕ
    → EchoClient
    → Option (Context Package) × EchoClient
unfolding find_entry heartbeat remove_session
client_on_cron write_pkg unconnected session_timeout active now log_id server s c =
    elim (find_entry s c.sessions) [
      | none ↦ (none, c)
      | some e ↦
          let (p, c') = heartbeat write_pkg log_id server s c in
          if ltb session_timeout (now - active)
          then (none, if unconnected then c else remove_session s c)
          else (some p, c')
    ]
