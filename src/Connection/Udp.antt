-- ===== src/Connection/Udp.antt =====
-- `gettyUDPConn`: one datagram for each `Send` of a `UDPContext`.
use getty.Constants.{is_flate_type, is_snappy_type}
use getty.Common.{
  ℤ, ◌||◌, take, u32, ℕ, ◌+◌, Bool, true, false, Option, none, some, ltb, if◌then◌else◌, length,
  List, [], ◌∷◌, ◌++◌,
}
use getty.Errors.{Error, illegal_pkg, null_peer_addr, io}
use getty.Connection.Net.{Bytes, Pkg, bytes, batch, udp_context, other, Net}
use getty.Connection.Stats.{Stats, init_stats, count_sent}

-- `datagrams` are those that went out, newest last, each with the address that was written.
pub record UdpConn : Type 0 where
  pub stats : Stats
  pub open stats use *
  pub closed : Bool
  pub calls : ℕ
  pub datagrams : List (Bytes × Option ℕ)

unfoldable pub new_udp_conn : ℕ → UdpConn
unfolding init_stats
new_udp_conn id = record { stats = init_stats id; closed = false; calls = 0; datagrams = [] }

unfoldable pub write_datagram : Net → UdpConn → Bytes → Option ℕ → ℕ × Option Error × UdpConn
unfolding count_sent
write_datagram net c p peer =
    let called = record c { calls = c.calls + 1 } in
    let n = (net.write_msg_udp c.calls p peer).0 in
    elim (net.write_msg_udp c.calls p peer).1 [
      | some e ↦ (n, some (io e), called)
      | none ↦ (
        n,
        none,
        record called {
          stats = count_sent (length p) 1 c.stats;
          datagrams = c.datagrams ++ (p, peer) ∷ [];
        },
      )
    ]

unfoldable pub arm_datagram : Net → UdpConn → Bytes → Option ℕ → ℕ × Option Error × UdpConn
unfolding write_datagram
arm_datagram net c p peer =
    let armed = record c { calls = c.calls + 1 } in
    if ltb 0 c.w_timeout
    then (elim (net.set_write_deadline c.calls) [
      | some e ↦ (0, some (io e), armed)
      | none ↦ write_datagram net armed p peer
    ])
    else write_datagram net armed p peer

-- `unconnected` says that the end point is a `UDP_ENDPOINT`: then the context names the peer, and a
-- connected socket is written with no address.
unfoldable pub send : Net → Bool → UdpConn → Pkg → ℕ × Option Error × UdpConn
unfolding arm_datagram
send net unconnected c (udp_context none peer) = (0, some illegal_pkg, c)
send net true c (udp_context (some p) none) = (0, some null_peer_addr, c)
send net true c (udp_context (some p) (some a)) = arm_datagram net c p (some a)
send net false c (udp_context (some p) peer) = arm_datagram net c p none
send net unconnected c (bytes _) = (0, some illegal_pkg, c)
send net unconnected c (batch _) = (0, some illegal_pkg, c)
send net unconnected c other = (0, some illegal_pkg, c)

-- The read of `recv` into a buffer of the given size: a longer datagram loses its end.
unfoldable pub read_datagram : Net → UdpConn → ℕ → Bytes × Option ℕ × Option Error × UdpConn
read_datagram net c size =
    let called = record c { calls = c.calls + 1 } in
    let (bs, peer, e) = net.read_from_udp c.calls in
    let got = take size bs in
    let counted = record called {
      stats = record (c.stats) { read_bytes = u32 (c.stats.read_bytes + length got) };
    } in
    elim e [ some err ↦ (got, peer, some (io err), called) | none ↦ (got, peer, none, counted) ]

unfoldable pub recv : Net → UdpConn → ℕ → Bytes × Option ℕ × Option Error × UdpConn
unfolding read_datagram
recv net c size =
    let armed = record c { calls = c.calls + 1 } in
    if ltb 0 c.r_timeout
    then (elim (net.set_read_deadline c.calls) [
      | some e ↦ ([], none, some (io e), armed)
      | none ↦ read_datagram net armed size
    ])
    else read_datagram net armed size

-- `SetCompressType`: the type is recorded and changes nothing else; `none` is the panic.
unfoldable pub set_compress_type : ℤ → UdpConn → Option UdpConn
set_compress_type t c =
    if is_flate_type t || is_snappy_type t
    then some (record c { stats = record (c.stats) { compress = t } })
    else none

-- `CloseConn`: behind the first call the socket stays closed.
unfoldable pub close_conn : UdpConn → UdpConn
close_conn c = record c { closed = true }
