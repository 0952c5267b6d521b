-- ===== src/Connection/Conn.antt =====
-- The interface `Connection`, as the sum of its implementations.
use getty.Common.{ℕ, ℤ, Bool, Option, none, some}
use getty.Errors.{Error}
use getty.Connection.Net.{Bytes, Pkg, Net}
use getty.Connection.Stats.{Stats}
use getty.Connection.Tcp.{TcpConn}
use getty.Connection.Tcp
use getty.Connection.Udp.{UdpConn}
use getty.Connection.Udp
use getty.Connection.Ws.{WsConn}
use getty.Connection.Ws

pub data Conn : Type 0 where
  tcp : TcpConn → Conn
  udp : UdpConn → Conn
  ws : WsConn → Conn

-- `gettyConnOf`, and what writes back to it.
abbrev pub stats_of : Conn → Stats
stats_of (tcp c) = c.stats
stats_of (udp c) = c.stats
stats_of (ws c) = c.stats

abbrev pub with_stats : Conn → Stats → Conn
with_stats (tcp c) s = tcp (record c { stats = s })
with_stats (udp c) s = udp (record c { stats = s })
with_stats (ws c) s = ws (record c { stats = s })

-- `Send` of the interface.
unfoldable pub send : Net → Bool → Conn → Pkg → ℕ × Option Error × Conn
send net unconnected (tcp c) p = let (n, e, c') = Tcp.send net c p in (n, e, tcp c')
send net unconnected (udp c) p = let (n, e, c') = Udp.send net unconnected c p in (n, e, udp c')
send net unconnected (ws c) p = let (n, e, c') = Ws.send net c p in (n, e, ws c')

-- `SetCompressType` of the interface; `none` is a panic.
unfoldable pub set_compress_type : ℤ → Conn → Option Conn
unfolding Tcp.set_compress_type Udp.set_compress_type Ws.set_compress_type
set_compress_type t (tcp c) = elim (Tcp.set_compress_type t c) [
  | none ↦ none
  | some d ↦ some (tcp d)
]
set_compress_type t (udp c) = elim (Udp.set_compress_type t c) [
  | none ↦ none
  | some d ↦ some (udp d)
]
set_compress_type t (ws c) = elim (Ws.set_compress_type t c) [ none ↦ none | some d ↦ some (ws d) ]

-- `CloseConn` of the interface; the bytes are those of the WebSocket close frame.
unfoldable pub close_conn : Net → Bytes → Conn → Conn
unfolding Tcp.close_conn Udp.close_conn Ws.close_conn
close_conn net frame (tcp c) = tcp (Tcp.close_conn c)
close_conn net frame (udp c) = udp (Udp.close_conn c)
close_conn net frame (ws c) = ws (Ws.close_conn net frame c)
