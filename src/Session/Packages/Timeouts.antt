-- ===== src/Session/Packages/Timeouts.antt =====
-- `WritePkg` against the time limits of the connection and the lifecycle.
use getty.Common.{
  ℕ, zero, suc, ◌+◌, ◌≡◌, ◌<◌, refl, Bool, true, false, inl, inr, Option, none, some, length, ℤ,
  pos, negsuc, arith, Option-cases, Bool-cases,
}
use getty.Errors.{IoError, session_closed}
use getty.Connection.Net.{Bytes, Pkg, bytes, batch, udp_context, other, Net}
use getty.Connection.Stats.{Stats, set_write_timeout, count_sent}
use getty.Connection.Tcp.{TcpConn, transmit, conclude, codec_io_error}
use getty.Connection.Tcp
use getty.Connection.Udp.{UdpConn, arm_datagram, write_datagram}
use getty.Connection.Udp
use getty.Connection.Ws.{WsConn, write_message}
use getty.Connection.Ws
use getty.Connection.Conn.{Conn, tcp, udp, ws, stats_of, with_stats}
use getty.Connection.Conn
use getty.Session.State.{Session, Lifecycle, acquire, release, unconnected}
use getty.Session.Packages.{
  Package, nil_package, context, plain, Encoded, encoded, panics, payload, Result, send_checked,
  restore, send_timed, write_held, write_open, write_pkg,
}

abbrev pub SameTimes : Stats → Stats → Type 0
SameTimes s t = (s.r_timeout ≡ t.r_timeout) × (s.w_timeout ≡ t.w_timeout)

conclude-SameTimes :
    (c : TcpConn) (p : Bytes) (len pkgs : ℕ) (r : ℕ × Option IoError)
    → SameTimes (conclude c p len pkgs r).2.stats c.stats
unfolding conclude codec_io_error count_sent
conclude-SameTimes c p len pkgs (n, none) = ground arith
conclude-SameTimes c p len pkgs (n, some e) = ground arith

transmit-SameTimes :
    (net : Net) (c : TcpConn) (p : Pkg) → SameTimes (transmit net c p).2.stats c.stats
unfolding transmit
transmit-SameTimes net c (bytes p) =
    conclude-SameTimes (record c { calls = c.calls + 2 }) p (length p) 1 _
transmit-SameTimes net c (batch ps) =
    conclude-SameTimes (record c { calls = c.calls + length ps + 1 }) _ _ (length ps) _
transmit-SameTimes net c (udp_context _ _) = (refl, refl)
transmit-SameTimes net c other = (refl, refl)

tcp-SameTimes : (net : Net) (c : TcpConn) (p : Pkg) → SameTimes (Tcp.send net c p).2.stats c.stats
unfolding Tcp.send
tcp-SameTimes net c p =
    ground
      (arith, transmit-SameTimes net (record c { stream_started = true; calls = c.calls + 1 }) p)

datagram-SameTimes :
    (net : Net) (c : UdpConn) (p : Bytes) (peer : Option ℕ)
    → SameTimes (arm_datagram net c p peer).2.stats c.stats
unfolding arm_datagram write_datagram count_sent
datagram-SameTimes net c p peer = ground arith

udp-SameTimes :
    (net : Net) (u : Bool) (c : UdpConn) (p : Pkg) → SameTimes (Udp.send net u c p).2.stats c.stats
unfolding Udp.send
udp-SameTimes net u c (udp_context none peer) = (refl, refl)
udp-SameTimes net true c (udp_context (some p) none) = (refl, refl)
udp-SameTimes net true c (udp_context (some p) (some a)) = datagram-SameTimes net c p (some a)
udp-SameTimes net false c (udp_context (some p) peer) = datagram-SameTimes net c p none
udp-SameTimes net u c (bytes _) = (refl, refl)
udp-SameTimes net u c (batch _) = (refl, refl)
udp-SameTimes net u c other = (refl, refl)

ws-SameTimes : (net : Net) (c : WsConn) (p : Pkg) → SameTimes (Ws.send net c p).2.stats c.stats
unfolding Ws.send write_message count_sent
ws-SameTimes net c (bytes p) = ground arith
ws-SameTimes net c (batch _) = (refl, refl)
ws-SameTimes net c (udp_context _ _) = (refl, refl)
ws-SameTimes net c other = (refl, refl)

conn-SameTimes :
    (net : Net) (u : Bool) (c : Conn) (p : Pkg)
    → SameTimes (stats_of (Conn.send net u c p).2) (stats_of c)
unfolding Conn.send
conn-SameTimes net u (tcp c) p = tcp-SameTimes net c p
conn-SameTimes net u (udp c) p = udp-SameTimes net u c p
conn-SameTimes net u (ws c) p = ws-SameTimes net c p

pub send_checked-SameTimes :
    (net : Net) (s : Session) (c : Conn) (pkg : Pkg) (p : Bytes)
    → SameTimes (stats_of (send_checked net s c pkg p).1) (stats_of c)
unfolding send_checked
send_checked-SameTimes net s c pkg p =
    ground (arith, conn-SameTimes net (unconnected s.end_point) c pkg)

-- Time limits that the setters can leave behind: neither is 0.
abbrev pub IsTimed : Stats → Type 0
IsTimed s = (0 < s.r_timeout) × (0 < s.w_timeout)

pub stats_of-with_stats : (c : Conn) (s : Stats) → stats_of (with_stats c s) ≡ s
stats_of-with_stats (tcp c) s = refl
stats_of-with_stats (udp c) s = refl
stats_of-with_stats (ws c) s = refl

restore_lem :
    (saved : ℕ) (r : Result) (c : Conn)
    → 0 < saved
    → 0 < (stats_of c).r_timeout
    → ((restore saved (r, c)).0 ≡ r)
      × ((stats_of (restore saved (r, c)).1).r_timeout ≡ (stats_of c).r_timeout)
      × ((stats_of (restore saved (r, c)).1).w_timeout ≡ saved)
unfolding restore set_write_timeout
restore_lem saved r c h k =
    ground (arith, h, k, stats_of-with_stats c (record (stats_of c) { w_timeout = saved }))

pub set_write_timeout_lem :
    (n : ℕ) (st : Stats)
    → 0 < n
    → 0 < st.r_timeout
    → set_write_timeout (pos n) st ≡ some (record st { w_timeout = n })
unfolding set_write_timeout
set_write_timeout_lem n st h k = ground (arith, h, k)

abbrev pub armed : ℕ → Conn → Conn
armed t c = with_stats c (record (stats_of c) { w_timeout = suc t })

pub send_timed_lem :
    (net : Net) (s : Session) (c : Conn) (pkg : Pkg) (p : Bytes) (t : ℕ)
    → IsTimed (stats_of c)
    → send_timed net s c pkg p (pos (suc t))
      ≡ restore (stats_of c).w_timeout (send_checked net s (armed t c) pkg p)
unfolding send_timed
send_timed_lem net s c pkg p t (hr, hw) =
    rw (set_write_timeout_lem (suc t) (stats_of c) (omega arith) hr, send_timed) refl

restored :
    (net : Net) (s : Session) (c : Conn) (pkg : Pkg) (p : Bytes) (t : ℕ)
    → IsTimed (stats_of c)
    → ((restore (stats_of c).w_timeout (send_checked net s (armed t c) pkg p)).0
        ≡ (send_checked net s (armed t c) pkg p).0)
      × SameTimes
          (stats_of (restore (stats_of c).w_timeout (send_checked net s (armed t c) pkg p)).1)
          (stats_of c)
restored net s c pkg p t (hr, hw) =
    let sent = send_checked net s (armed t c) pkg p in
    let (same_r, _) = send_checked-SameTimes net s (armed t c) pkg p in
    let back = stats_of-with_stats c (record (stats_of c) { w_timeout = suc t }) in
    ground (
      arith,
      hr,
      hw,
      same_r,
      back,
      restore_lem (stats_of c).w_timeout sent.0 sent.1 hw (ground (arith, hr, same_r, back)),
    )

send_timed-SameTimes :
    (net : Net) (s : Session) (c : Conn) (pkg : Pkg) (p : Bytes) (t : ℤ)
    → IsTimed (stats_of c)
    → SameTimes (stats_of (send_timed net s c pkg p t).1) (stats_of c)
unfolding send_timed
send_timed-SameTimes net s c pkg p (pos zero) h = send_checked-SameTimes net s c pkg p
send_timed-SameTimes net s c pkg p (negsuc n) h = send_checked-SameTimes net s c pkg p
send_timed-SameTimes net s c pkg p (pos (suc t)) (hr, hw) =
    ground
      (arith, hr, hw, send_timed_lem net s c pkg p t (hr, hw), restored net s c pkg p t (hr, hw))

-- The time limits of the connection, where there is one.
abbrev pub Timed : Option Conn → Type 0
Timed o = (c : Conn) → o ≡ some c → IsTimed (stats_of c)

abbrev pub times : Option Conn → Option (ℕ × ℕ)
times none = none
times (some c) = some ((stats_of c).r_timeout, (stats_of c).w_timeout)

module _ {P : Type 0} (write : Package P → Encoded) where
  write_held-times :
      (net : Net) (s : Session) (pkg : Package P) (t : ℤ)
      → Timed s.connection
      → times (write_held write net s pkg t).1.connection ≡ times s.connection
  unfolding write_held
  write_held-times net s pkg t h = elim (Option-cases s.connection) [
    | inl e ↦ ground (arith, e)
    | inr (c, e) ↦ by_encoding c e (write pkg) refl
  ]
    where
      by_encoding :
          (c : Conn)
          → s.connection ≡ some c
          → (x : Encoded) → write pkg ≡ x
          → times (write_held write net s pkg t).1.connection ≡ times s.connection
      by_encoding c e panics x = ground (arith, e, x)
      by_encoding c e (encoded p (some err)) x = ground (arith, e, x)
      by_encoding c e (encoded p none) x =
          ground (arith, e, x, send_timed-SameTimes net s c (payload pkg p) p t (h c e))

  write_open-times :
      (net : Net) (s : Session) (l : Lifecycle) (pkg : Package P) (t : ℤ)
      → Timed s.connection
      → (r : Result) × (s' : Session) × (write_open write net s l pkg t ≡ some (r, s', l))
        × (times s'.connection ≡ times s.connection)
  unfolding write_open acquire release
  write_open-times net s l pkg t h = elim (Bool-cases s.done) [
    | inl d ↦ ((0, 0, some session_closed), s, ground (arith, d), refl)
    | inr d ↦ elim (Bool-cases l.closed) [
      | inl c ↦ ((0, 0, some session_closed), s, ground (arith, d, c), refl)
      | inr c ↦ (
        (write_held write net s pkg t).0,
        (write_held write net s pkg t).1,
        ground (arith, d, c),
        write_held-times net s pkg t h,
      )
    ]
  ]

  -- `WritePkg` leaves the time limits of the connection as they were, also where it fails or its encoder
  -- panics, although a call with a limit of its own sets another one for its send; it gives the lifecycle
  -- back as it found it, and its release never panics. The limits are not 0, as the setters ensure.
  pub write_pkg-times :
      (net : Net) (s : Session) (l : Lifecycle) (pkg : Package P) (t : ℤ)
      → Timed s.connection
      → (r : Result) × (s' : Session) × (write_pkg write net s l pkg t ≡ some (r, s', l))
        × (times s'.connection ≡ times s.connection)
  unfolding write_pkg
  write_pkg-times net s l nil_package t h = (_, s, refl, refl)
  write_pkg-times net s l (context x peer) t h = write_open-times net s l (context x peer) t h
  write_pkg-times net s l (plain x) t h = write_open-times net s l (plain x) t h
