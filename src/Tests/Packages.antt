-- ===== src/Tests/Packages.antt =====
-- Runs of `WritePkg`.
use getty.Common.{ℕ, ◌≡◌, refl, subst, Option, none, some, [], ◌∷◌, pos, arith}
use getty.Errors.{Error}
use getty.Connection.Net.{Bytes}
use getty.Connection.Stats.{init_stats}
use getty.Connection.Tcp.{TcpConn, new_tcp_conn}
use getty.Connection.Tcp.Delivery.{Delivers}
use getty.Connection.Conn.{Conn, tcp, udp, stats_of}
use getty.Session.State.{Session, new_session_lifecycle}
use getty.Session.Packages.{
  Package, plain, context, nil_package, panics, Encoded, encoded, Result, write_pkg,
}
use getty.Session.Packages.Timeouts.{IsTimed, Timed, times, write_pkg-times}
use getty.Session.Packages.Tcp.{write_pkg-tcp}
use getty.Session.Packages.Udp.{Went, write_pkg-udp}
use getty.Connection.Udp.{UdpConn, new_udp_conn}
use getty.Tests.Fixtures.{slow, slow-IsWriter, quiet, tcp_session, tcp_conn, udp_session, udp_conn}

abbrev write : Package Bytes → Encoded
write (plain p) = encoded p none
write (context p peer) = encoded p none
write nil_package = panics

conn-IsTimed : (c : Conn) → tcp tcp_conn ≡ c → IsTimed (stats_of c)
unfolding new_tcp_conn init_stats
conn-IsTimed c e = subst (λ x. IsTimed (stats_of x)) e (omega arith, omega arith)

tcp_session-Timed : Timed tcp_session.connection
unfolding tcp_session
tcp_session-Timed c e = conn-IsTimed c cc

write_pkg-times_example :
    (r : Result) × (s' : Session) × (write_pkg write slow tcp_session new_session_lifecycle
        (plain (1 ∷ 2 ∷ []))
        (pos 5)
      ≡ some (r, s', new_session_lifecycle))
    × (times s'.connection ≡ times tcp_session.connection)
unfolding tcp_session new_tcp_conn init_stats
write_pkg-times_example =
    write_pkg-times write slow tcp_session new_session_lifecycle (plain (1 ∷ 2 ∷ [])) (pos 5)
      tcp_session-Timed

write_pkg-tcp_example :
    (n : ℕ) × (e : Option Error) × (c' : TcpConn) × (write_pkg write slow tcp_session
        new_session_lifecycle
        (plain (1 ∷ 2 ∷ []))
        (pos 5)
      ≡ some ((2, n, e), record tcp_session { connection = some (tcp c') }, new_session_lifecycle))
    × Delivers tcp_conn (1 ∷ 2 ∷ []) n e c'
unfolding tcp_session new_tcp_conn init_stats
write_pkg-tcp_example =
    write_pkg-tcp write slow slow-IsWriter tcp_session new_session_lifecycle (1 ∷ 2 ∷ []) (pos 5)
      (1 ∷ 2 ∷ []) tcp_conn refl refl refl refl (omega arith, omega arith)

write_pkg-udp_example :
    (n : ℕ) × (e : Option Error) × (c' : UdpConn) × (write_pkg write quiet udp_session
        new_session_lifecycle
        (context (1 ∷ 2 ∷ []) (some 9))
        (pos 5)
      ≡ some ((2, n, e), record udp_session { connection = some (udp c') }, new_session_lifecycle))
    × Went (1 ∷ 2 ∷ []) none e udp_conn c'
unfolding udp_session new_udp_conn init_stats
write_pkg-udp_example =
    write_pkg-udp write quiet udp_session new_session_lifecycle (1 ∷ 2 ∷ []) (some 9) (pos 5)
      (1 ∷ 2 ∷ []) udp_conn refl refl refl refl (omega arith, omega arith)
