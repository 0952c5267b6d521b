-- ===== src/Session/Forwards.antt =====
-- The methods of session.go that pass a call on to the connection, where there is one. `none` is the panic of
-- the connection's method.
use getty.Common.{ℕ, ◌<◌, ◌≡◌, ℤ, pos, negsuc, Option, none, some, arith}
use getty.Connection.Net.{Bytes, Net}
use getty.Connection.Stats.{Stats, set_read_timeout, set_write_timeout}
use getty.Connection.Conn.{Conn, tcp, udp, ws, stats_of, with_stats}
use getty.Connection.Conn
use getty.Session.State.{Session}
use getty.Session.Packages.Timeouts.{IsTimed, stats_of-with_stats}

-- A method that changes the connection, or panics.
unfoldable pub forward : (Conn → Option Conn) → Session → Option Session
forward f s = elim s.connection [
  | none ↦ some s
  | some c ↦ elim (f c) [ none ↦ none | some d ↦ some (record s { connection = some d }) ]
]

-- A method of `gettyConn`.
unfoldable pub on_stats : (Stats → Option Stats) → Conn → Option Conn
on_stats f c = elim (f (stats_of c)) [ none ↦ none | some t ↦ some (with_stats c t) ]

unfoldable pub set_session_read_timeout : ℤ → Session → Option Session
unfolding forward on_stats set_read_timeout
set_session_read_timeout t s = forward (on_stats (set_read_timeout t)) s

unfoldable pub set_session_write_timeout : ℤ → Session → Option Session
unfolding forward on_stats set_write_timeout
set_session_write_timeout t s = forward (on_stats (set_write_timeout t)) s

unfoldable pub set_session_compress_type : ℤ → Session → Option Session
unfolding forward Conn.set_compress_type
set_session_compress_type t s = forward (Conn.set_compress_type t) s

unfoldable pub close_session_conn : Net → Bytes → Session → Option Session
unfolding forward Conn.close_conn
close_session_conn net frame s = forward (λ c. some (Conn.close_conn net frame c)) s

-- `ReadTimeout` and `WriteTimeout`.
unfoldable pub session_read_timeout : Session → ℕ
session_read_timeout s = elim s.connection [ none ↦ 0 | some c ↦ (stats_of c).r_timeout ]

unfoldable pub session_write_timeout : Session → ℕ
session_write_timeout s = elim s.connection [ none ↦ 0 | some c ↦ (stats_of c).w_timeout ]

abbrev timed_stats : Option Stats → Stats → Stats
timed_stats none d = d
timed_stats (some t) d = t

-- The setters keep both limits of a session above 0; a time below 1 is a panic.
set_session_read_timeout-IsTimed :
    (t : ℤ) (s v : Session) (c : Conn)
    → s.connection ≡ some c
    → IsTimed (stats_of c)
    → set_session_read_timeout t s ≡ some v
    → (0 < session_read_timeout v) × (0 < session_write_timeout v)
unfolding set_session_read_timeout session_read_timeout session_write_timeout
set_session_read_timeout-IsTimed (negsuc n) s v c a d h = absurd (ground (arith, a, h))
set_session_read_timeout-IsTimed (pos n) s v c a d h =
    let r = set_read_timeout (pos n) (stats_of c) in
    ground (arith, a, h, d.0, d.1, stats_of-with_stats c (timed_stats r (stats_of c)))

set_session_write_timeout-IsTimed :
    (t : ℤ) (s v : Session) (c : Conn)
    → s.connection ≡ some c
    → IsTimed (stats_of c)
    → set_session_write_timeout t s ≡ some v
    → (0 < session_read_timeout v) × (0 < session_write_timeout v)
unfolding set_session_write_timeout session_read_timeout session_write_timeout
set_session_write_timeout-IsTimed (negsuc n) s v c a d h = absurd (ground (arith, a, h))
set_session_write_timeout-IsTimed (pos n) s v c a d h =
    let r = set_write_timeout (pos n) (stats_of c) in
    ground (arith, a, h, d.0, d.1, stats_of-with_stats c (timed_stats r (stats_of c)))
