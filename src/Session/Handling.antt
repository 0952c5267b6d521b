-- ===== src/Session/Handling.antt =====
-- `handlePackage` of session.go: the loop of the session's kind, with the TLS handshake of `handleTCPPackage`,
-- and the end of the session behind it.
pub mod Reconnects
pub mod Idle
use getty.Common.{
  ℕ, ◌+◌, ◌⊎◌, Bool, true, false, Option, none, some, List, [], ◌∷◌, map, if◌then◌else◌, is_some,
}
use getty.Errors.{Error, IoError, io}
use getty.Connection.Net.{Bytes, Net}
use getty.Connection.Conn.{Conn, tcp, udp, ws}
use getty.Connection.Tcp.{TcpConn}
use getty.Connection.Udp.{UdpConn}
use getty.Connection.Ws.{WsConn}
use getty.Session.State.{Session, flag, ignore_reconnect_key}
use getty.Session.Setters.{set_attribute}
use getty.Session.Lifecycle.{System}
use getty.Session.Events.{Event, Outcome, returned, panicked, end_of_loop}
use getty.Session.Receive.{
  Reader, Receiver, init_receiver, Exit, running, exited, handle_tcp_package,
}
use getty.Session.Receive.Udp.{Context, init_udp_receiver, handle_udp_package}
use getty.Session.Receive.Ws.{init_ws_receiver, handle_ws_package}

-- What goes to `addTask`: a package, a `UDPContext`, or what a WebSocket message gave.
pub data Handed (P : Type 0) : Type 0 where
  decoded : P → Handed P
  context : Context P → Handed P
  message : P ⊎ Bytes → Handed P

-- The end of a session's reading: what was handed on, the session, and the last calls of its listener.
pub record Handled (P : Type 0) : Type 0 where
  pub tasks : List (Handed P)
  pub system : System
  pub events : List (Event P)

-- The session as its loop left it; a peer that has closed the stream sets the attribute that stops a client
-- from connecting again.
unfoldable pub left_by : Conn → Bool → System → System
unfolding set_attribute
left_by c gone w =
    let s = record (w.session) { connection = some c } in
    record w { session = if gone then set_attribute ignore_reconnect_key (flag true) s else s }

-- The TLS handshake: `none` where the connection is not of TLS, and else its error or nil.
unfoldable pub handshake_error : Option (Option IoError) → Option Error
handshake_error none = none
handshake_error (some none) = none
handshake_error (some (some e)) = some (io e)

module _ {P : Type 0} where
  unfoldable pub conclude : List (Handed P) → Outcome → System → Handled P
  unfolding end_of_loop
  conclude ts out w =
      let (v, es) = end_of_loop {P = P} out w in record { tasks = ts; system = v; events = es }

  -- A loop that has ended with the connection and the attributes that it left; one that still runs has no end.
  unfoldable pub after_loop : List (Handed P) → Exit → System → Option (Handled P)
  unfolding conclude
  after_loop ts running w = none
  after_loop ts (exited e) w = some (conclude ts (returned e) w)

  -- The branch of `handlePackage` for a TCP connection; `none` of the result is a loop that still runs.
  unfoldable pub handle_tcp :
      Option (Reader P)
      → Option (Option IoError)
      → Net
      → (ℕ → Bool)
      → ℕ
      → ℕ
      → TcpConn
      → System
      → Option (Handled P)
  unfolding conclude after_loop left_by handshake_error
  handle_tcp none tls net closed max k c w = some (conclude [] panicked w)
  handle_tcp (some read) tls net closed max k c w = elim (handshake_error tls) [
    | some e ↦ some (conclude [] (returned (some e)) w)
    | none ↦ elim (handle_tcp_package read net closed max k (init_receiver c)) [
      | none ↦ none
      | some (r, x) ↦ after_loop (map decoded r.tasks) x (left_by (tcp r.conn) r.ignore_reconnect w)
    ]
  ]

  unfoldable pub handle_udp :
      Option (Reader P) → Net → (ℕ → Bool) → ℕ → ℕ → UdpConn → System → Option (Handled P)
  unfolding conclude after_loop left_by
  handle_udp none net closed max k c w = some (conclude [] panicked w)
  handle_udp (some read) net closed max k c w =
      let (r, x) = handle_udp_package read max net closed k (init_udp_receiver c) in
      after_loop (map context r.tasks) x (left_by (udp r.conn) false w)

  unfoldable pub handle_ws :
      Option (Reader P) → Net → (ℕ → Bool) → ℕ → ℕ → WsConn → System → Option (Handled P)
  unfolding after_loop left_by
  handle_ws reader net closed max k c w =
      let (r, x) = handle_ws_package reader net closed (λ j. max) k (init_ws_receiver c) in
      after_loop (map message r.tasks) x (left_by (ws r.conn) false w)

  -- `handlePackage`, for a number of rounds. A session without a connection panics, which is recovered.
  unfoldable pub handle_package :
      Option (Reader P)
      → Option (Option IoError)
      → Net
      → (ℕ → Bool)
      → ℕ
      → ℕ
      → System
      → Option (Handled P)
  unfolding conclude handle_tcp handle_udp handle_ws
  handle_package reader tls net closed max k w = elim w.session.connection [
    | none ↦ some (conclude [] panicked w)
    | some (tcp c) ↦ handle_tcp reader tls net closed max k c w
    | some (udp c) ↦ handle_udp reader net closed max k c w
    | some (ws c) ↦ handle_ws reader net closed max k c w
  ]
