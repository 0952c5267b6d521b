-- ===== src/Session/Packages.antt =====
-- `WritePkg` of session.go: it encodes a package and sends it in the current lifecycle.
pub mod Timeouts
pub mod Tcp
pub mod Udp
use getty.Common.{
  ℕ, zero, suc, Bool, true, false, Option, none, some, if◌then◌else◌, length, ℤ, pos, negsuc,
}
use getty.Errors.{Error, session_closed, nil_pkg, panicked}
use getty.Connection.Net.{Bytes, Pkg, bytes, udp_context, Net}
use getty.Connection.Stats.{Stats, set_write_timeout}
use getty.Connection.Conn.{Conn, tcp, udp, ws, stats_of, with_stats}
use getty.Connection.Conn
use getty.Session.State.{Session, Lifecycle, acquire, release, is_closed, unconnected}
use getty.Session.Write.{check_websocket_payload}

-- What `WritePkg` is handed: nil, a `UDPContext` (or a pointer to one) with its address, or another value.
pub data Package (P : Type 0) : Type 0 where
  nil_package : Package P
  context : P → Option ℕ → Package P
  plain : P → Package P

-- What the writer of the application does: it returns bytes and an error or nil, or it panics, as the call
-- of a writer that is nil does.
pub data Encoded : Type 0 where
  encoded : Bytes → Option Error → Encoded
  panics : Encoded

-- The two counts and the error.
abbrev pub Result : Type 0
Result = ℕ × ℕ × Option Error

-- The value that `Send` gets.
unfoldable pub payload : {P : Type 0} → Package P → Bytes → Pkg
payload nil_package p = bytes p
payload (context x peer) p = udp_context (some p) peer
payload (plain x) p = bytes p

-- The limit of a WebSocket write.
abbrev pub refused : Session → Conn → ℕ → Option Error
refused s (tcp c) n = none
refused s (udp c) n = none
refused s (ws c) n = check_websocket_payload s n

-- The check of the payload, and the send.
unfoldable pub send_checked : Net → Session → Conn → Pkg → Bytes → Result × Conn
send_checked net s c pkg p = elim (refused s c (length p)) [
  | some e ↦ ((length p, 0, some e), c)
  | none ↦ let (n, e, c') = Conn.send net (unconnected s.end_point) c pkg in ((length p, n, e), c')
]

-- The deferred `SetWriteTimeout` of the time limit that was saved; its panic is recovered.
unfoldable pub restore : ℕ → Result × Conn → Result × Conn
restore saved ((len, n, e), c) = elim (set_write_timeout (pos saved) (stats_of c)) [
  | none ↦ ((len, n, some panicked), c)
  | some st ↦ ((len, n, e), with_stats c st)
]

-- The send with a time limit of its own, or without.
unfoldable pub send_timed : Net → Session → Conn → Pkg → Bytes → ℤ → Result × Conn
unfolding send_checked restore
send_timed net s c pkg p (pos (suc t)) = elim (set_write_timeout (pos (suc t)) (stats_of c)) [
  | none ↦ ((0, 0, some panicked), c)
  | some st ↦ restore (stats_of c).w_timeout (send_checked net s (with_stats c st) pkg p)
]
send_timed net s c pkg p _ = send_checked net s c pkg p

-- `writer.Write` gets the value that `WritePkg` got, with its address where it has one.
module _ {P : Type 0} (write : Package P → Encoded) where
  -- The body, between `acquire` and `release`.
  unfoldable pub write_held : Net → Session → Package P → ℤ → Result × Session
  unfolding payload send_timed
  write_held net s pkg timeout = elim (write pkg) [
    | panics ↦ ((0, 0, some panicked), s)
    | encoded p (some e) ↦ ((length p, 0, some e), s)
    | encoded p none ↦ elim s.connection [
      | none ↦ ((0, 0, some session_closed), s)
      | some c ↦
          let (r, c') = send_timed net s c (payload pkg p) p timeout in
          (r, record s { connection = some c' })
    ]
  ]

  -- `WritePkg` behind its check for nil.
  unfoldable pub write_open :
      Net → Session → Lifecycle → Package P → ℤ → Option (Result × Session × Lifecycle)
  unfolding acquire release write_held
  write_open net s l pkg timeout =
      let held = acquire l in
      let (r, s') = write_held net s pkg timeout in
      if is_closed s
      then some ((0, 0, some session_closed), s, l)
      else if held.1
      then (elim (release held.0) [ none ↦ none | some l' ↦ some (r, s', l') ])
      else (some ((0, 0, some session_closed), s, l))

  -- `WritePkg`, on the lifecycle that the session points to. `none` is the panic of a counter below 0.
  unfoldable pub write_pkg :
      Net → Session → Lifecycle → Package P → ℤ → Option (Result × Session × Lifecycle)
  unfolding write_open
  write_pkg net s l nil_package timeout = some ((0, 0, some nil_pkg), s, l)
  write_pkg net s l pkg timeout = write_open net s l pkg timeout
