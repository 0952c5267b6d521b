-- ===== src/Session/Receive/Udp.antt =====
-- `handleUDPPackage`: each datagram stands for itself.
use getty.Common.{
  ℕ, zero, suc, Bool, true, false, ◌&&◌, Option, none, some, List, [], ◌∷◌, ◌++◌, ltb, ◌==◌,
  if◌then◌else◌, length, pos,
}
use getty.Errors.{Error, timeout, io, msg_too_long}
use getty.Connection.Net.{Bytes, Net}
use getty.Connection.Udp.{UdpConn}
use getty.Connection.Udp
use getty.Session.Limits.{udp_read_buffer_size}
use getty.Session.Receive.{Reader, Decoded, Exit, running, exited}

-- `connectPingPackage`: "connect-ping".
abbrev pub connect_ping_package : Bytes
connect_ping_package = 99 ∷ 111 ∷ 110 ∷ 110 ∷ 101 ∷ 99 ∷ 116 ∷ 45 ∷ 112 ∷ 105 ∷ 110 ∷ 103 ∷ []

-- `bytes.Equal`.
unfoldable pub equal : Bytes → Bytes → Bool
equal [] [] = true
equal (a ∷ p) (b ∷ q) = (a == b) && equal p q
equal _ _ = false

-- A `UDPContext` that goes to `addTask`; its package may be nil.
abbrev pub Context : Type 0 → Type 0
Context P = Option P × Option ℕ

-- A datagram as `recv` returned it.
abbrev pub Datagram : Type 0
Datagram = Bytes × Option ℕ

-- The loop's variables: the connection, the tasks, `err`, and the datagrams that `recv` returned.
pub record UdpReceiver (P : Type 0) : Type 0 where
  pub conn : UdpConn
  pub tasks : List (Context P)
  pub err : Option Error
  pub received : List Datagram

module _ {P : Type 0} (read : Reader P) (max : ℕ) where
  -- The error of decoding a datagram of the given length.
  unfoldable pub datagram_error : ℕ → Decoded P → Option Error
  datagram_error len (pkg, n, some e) = some e
  datagram_error len (pkg, n, none) = if ltb 0 max && ltb max len then some msg_too_long else none

  -- What becomes of one datagram: an error, and a task if it is handed on.
  unfoldable pub decode_datagram : Datagram → Option Error × List (Context P)
  unfolding datagram_error equal
  decode_datagram ([], peer) = (none, [])
  decode_datagram (b ∷ bs, peer) =
      if equal connect_ping_package (b ∷ bs)
      then (none, [])
      else (let r = read (b ∷ bs) in
          elim (datagram_error (length (b ∷ bs)) r) [
            | some e ↦ (some e, [])
            | none ↦ if r.1 == 0 then (none, []) else (none, (r.0, peer) ∷ [])
          ])

  -- The loop goes on behind a timeout, and exits on another error.
  unfoldable pub datagram_exit : Error → Exit
  datagram_exit (io timeout) = running
  datagram_exit e = exited (some e)

  -- The body of the loop, on what `recv` returned.
  unfoldable pub absorb_datagram :
      UdpReceiver P → Bytes × Option ℕ × Option Error × UdpConn → UdpReceiver P × Exit
  unfolding datagram_exit
  absorb_datagram r (bs, peer, some e, c) = (record r { conn = c; err = some e }, datagram_exit e)
  absorb_datagram r (bs, peer, none, c) =
      let out = decode_datagram (bs, peer) in
      (
        record r {
          conn = c;
          tasks = r.tasks ++ out.1;
          err = out.0;
          received = r.received ++ (bs, peer) ∷ [];
        },
        running,
      )

  -- The loop for a number of rounds; `closed k` is what `IsClosed` answers with k rounds left. It ends
  -- with the error of the last round.
  unfoldable pub handle_udp_package : Net → (ℕ → Bool) → ℕ → UdpReceiver P → UdpReceiver P × Exit
  unfolding absorb_datagram
  handle_udp_package net closed zero r = (r, running)
  handle_udp_package net closed (suc k) r =
      let round = absorb_datagram r (Udp.recv net r.conn (udp_read_buffer_size (pos max))) in
      let rest = handle_udp_package net closed k round.0 in
      if closed k then (r, exited r.err) else (elim round.1 [ exited e ↦ round | running ↦ rest ])

abbrev pub init_udp_receiver : {P : Type 0} → UdpConn → UdpReceiver P
init_udp_receiver c = record { conn = c; tasks = []; err = none; received = [] }
