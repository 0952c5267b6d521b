-- ===== src/Tests/Write.antt =====
-- Writes on the three kinds of session.
use getty.Common.{ℕ, ◌≡◌, refl, Option, some, [], ◌∷◌}
use getty.Errors.{Error}
use getty.Connection.Tcp.{TcpConn}
use getty.Connection.Tcp.Delivery.{Delivers}
use getty.Connection.Ws.{WsConn}
use getty.Connection.Conn.{tcp, ws}
use getty.Session.Write.{write_bytes, write_bytes_array}
use getty.Session.Write.Stream.{write_bytes-tcp, write_bytes_array-ws, SentMessages}
use getty.Tests.Fixtures.{slow, quiet, slow-IsWriter, tcp_session, ws_session, tcp_conn, ws_conn}

write_bytes-tcp_example :
    (n : ℕ) × (e : Option Error) × (c' : TcpConn) × (write_bytes slow tcp_session (1 ∷ 2 ∷ [])
      ≡ some (n, e, record tcp_session { connection = some (tcp c') }))
    × Delivers tcp_conn (1 ∷ 2 ∷ []) n e c'
unfolding tcp_session
write_bytes-tcp_example =
    write_bytes-tcp slow slow-IsWriter tcp_session tcp_conn (1 ∷ 2 ∷ []) refl refl

write_bytes_array-ws_example :
    (r : ℕ × Option Error × WsConn) × (write_bytes_array quiet ws_session
        ((1 ∷ []) ∷ (1 ∷ 2 ∷ 3 ∷ []) ∷ [])
      ≡ some (r.0, r.1, record ws_session { connection = some (ws r.2) }))
    × SentMessages ws_session ws_conn ((1 ∷ []) ∷ (1 ∷ 2 ∷ 3 ∷ []) ∷ []) 0 r
unfolding ws_session
write_bytes_array-ws_example =
    write_bytes_array-ws quiet ws_session ws_conn (1 ∷ []) (1 ∷ 2 ∷ 3 ∷ []) [] refl refl
